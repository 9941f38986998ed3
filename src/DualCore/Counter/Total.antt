-- ===== src/DualCore/Counter/Total.antt =====
-- No addition is lost.
use zephyr_riscv_test_suite.Prelude.{
  ℕ, ◌+◌, ◌*◌, ◌≤◌, ◌<◌, ◌≡◌, ◌==◌, ◌∙◌, ap, subst, refl, arith, Bool-cases, inl, inr,
}
use zephyr_riscv_test_suite.DualCore.Counter.{
  Shared, Pc, adding, behind, ended, Add, amo_add, Move0, loop0, spin, leave, Move1, loop1, signal,
  System, Step, step0, step1, init, Steps, stay, then_step, next_round, atomic_loop_count,
}

-- The additions that a hart has made.
abbrev added : Pc → ℕ
added (adding i) = i
added _ = atomic_loop_count

abbrev InLoop : Pc → Type 0
InLoop (adding i) = i < atomic_loop_count
InLoop _ = Unit

-- At its assertion hart 0 knows that hart 1, with `n` additions, is through.
abbrev Waited : Pc → ℕ → Type 0
Waited ended n = n ≡ atomic_loop_count
Waited _ n = Unit

record Inv (s : System) : Type 0 where
  total : s.mem.shared_counter ≡ added s.core0 + added s.core1
  in_loop0 : InLoop s.core0
  in_loop1 : InLoop s.core1
  done : s.mem.core1_atomic_done ≡ 1 → added s.core1 ≡ atomic_loop_count
  waited : Waited s.core0 (added s.core1)

added-le : (p : Pc) → InLoop p → added p ≤ atomic_loop_count
added-le (adding i) h = omega arith
added-le _ h = omega arith

next_round_lem :
    (i : ℕ)
    → i < atomic_loop_count
    → (added (next_round (i + 1)) ≡ i + 1)
      × InLoop (next_round (i + 1))
      × ((n : ℕ) → Waited (next_round (i + 1)) n)
next_round_lem i h = elim (Bool-cases (i + 1 == atomic_loop_count)) [
  | inl last ↦ rw last (ground arith, tt, λ n. tt)
  | inr more ↦ rw more (refl, ground arith, λ n. tt)
]

-- What an addition of one hart keeps, with the other at `q`.
record Kept (m m' : Shared) (p' q : Pc) (before : ℕ) : Type 0 where
  total : m'.shared_counter ≡ added p' + added q
  in_loop : InLoop p'
  same_done : m'.core1_atomic_done ≡ m.core1_atomic_done
  one_more : before + 1 ≡ added p'
  not_ended : (n : ℕ) → Waited p' n

Add-Kept :
    {m m' : Shared} {p p' : Pc} (q : Pc)
    → Add m p m' p'
    → m.shared_counter ≡ added p + added q
    → InLoop p
    → InLoop q
    → Kept m m' p' q (added p)
Add-Kept q (amo_add {i}) t h k =
    let n = next_round_lem i h in
    record {
      total = omega (arith, n.0, t, added-le q k);
      in_loop = n.1;
      same_done = refl;
      one_more = omega (arith, n.0);
      not_ended = n.2;
    }

-- A hart that adds once more was not through.
Waited-more : (q : Pc) (n n' : ℕ) → Waited q n → n < atomic_loop_count → Waited q n'
Waited-more ended n n' h lt = absurd (omega arith)
Waited-more (adding i) n n' h lt = tt
Waited-more behind n n' h lt = tt

Move0-Inv :
    {m m' : Shared} {p p' q : Pc}
    → Move0 m p m' p'
    → Inv (record { mem = m; core0 = p; core1 = q })
    → Inv (record { mem = m'; core0 = p'; core1 = q })
Move0-Inv {q} (loop0 mv) v =
    let k = Add-Kept q mv v.total v.in_loop0 v.in_loop1 in
    record {
      total = k.total;
      in_loop0 = k.in_loop;
      in_loop1 = v.in_loop1;
      done = λ e. v.done (omega (arith, k.same_done));
      waited = k.not_ended (added q);
    }
Move0-Inv (spin ne) v = v
Move0-Inv (leave e) v = record {
  total = v.total;
  in_loop0 = tt;
  in_loop1 = v.in_loop1;
  done = v.done;
  waited = v.done e;
}

Move1-Inv :
    {m m' : Shared} {p p' q : Pc}
    → Move1 m p m' p'
    → Inv (record { mem = m; core0 = q; core1 = p })
    → Inv (record { mem = m'; core0 = q; core1 = p' })
Move1-Inv {q} (loop1 mv) v =
    let k = Add-Kept q mv (omega (arith, v.total)) v.in_loop1 v.in_loop0 in
    record {
      total = omega (arith, k.total);
      in_loop0 = v.in_loop0;
      in_loop1 = k.in_loop;
      done = λ e.
          absurd
            (omega (arith, v.done (omega (arith, k.same_done)), k.one_more, added-le _ k.in_loop));
      waited = Waited-more q _ _ v.waited (omega (arith, k.one_more, added-le _ k.in_loop));
    }
Move1-Inv {q} signal v = record {
  total = v.total;
  in_loop0 = v.in_loop0;
  in_loop1 = tt;
  done = λ x. refl;
  waited = v.waited;
}

Step-Inv : {s t : System} → Step s t → Inv s → Inv t
Step-Inv (step0 mv) v = Move0-Inv mv v
Step-Inv (step1 mv) v = Move1-Inv mv v

Steps-Inv : {s : System} → Steps init s → Inv s
Steps-Inv stay = record {
  total = refl;
  in_loop0 = omega arith;
  in_loop1 = omega arith;
  done = λ x. absurd (omega arith);
  waited = tt;
}
Steps-Inv (then_step r st) = Step-Inv st (Steps-Inv r)

-- In every reachable state in which hart 0 has come to its assertion, the counter is the number of
-- additions of both harts.
pub shared_counter_lem :
    {s : System} → Steps init s → s.core0 ≡ ended → s.mem.shared_counter ≡ atomic_loop_count * 2
shared_counter_lem {s} r at =
    let v = Steps-Inv r in
    let own = v.total ∙ ap (λ p. added p + added s.core1) at in
    omega (arith, own, subst (λ p. Waited p (added s.core1)) at v.waited)
