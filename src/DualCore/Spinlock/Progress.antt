-- ===== src/DualCore/Spinlock/Progress.antt =====
-- The spinlock test can always be brought to its end.
use zephyr_riscv_test_suite.Prelude.{
  ℕ, zero, suc, ◌+◌, ◌-◌, ◌*◌, ◌<◌, ◌≡◌, ◌≢◌, ◌⊎◌, refl, arith, Bool-cases, inl, inr, ◌==◌,
}
use zephyr_riscv_test_suite.DualCore.Spinlock.{
  Shared, Pc, acquire, entered, loaded, leaving, finished, Move, take, load, store, release, System,
  Step, step0, step1, init, Steps, stay, then_step, next_round, spinlock_loop_count,
}
use zephyr_riscv_test_suite.DualCore.Spinlock.Safety.{holds, Inv, InLoop, Steps-Inv, Step-Inv}

-- The moves that a hart has left, if it always finds the lock free.
abbrev left : Pc → ℕ
left (acquire i) = 4 * (spinlock_loop_count - i)
left (entered i) = 4 * (spinlock_loop_count - i) - 1
left (loaded i temp) = 4 * (spinlock_loop_count - i) - 2
left (leaving i) = 4 * (spinlock_loop_count - i) - 3
left finished = 0

record Advance (m : Shared) (p : Pc) : Type 0 where
  mem : Shared
  pc : Pc
  move : Move m p mem pc
  nearer : left pc < left p

next_round-left : (i : ℕ) → i < spinlock_loop_count → left (next_round (i + 1)) < left (leaving i)
next_round-left i h = elim (Bool-cases (i + 1 == spinlock_loop_count)) [
  | inl last ↦ rw last (omega arith)
  | inr more ↦ rw more (ground arith)
]

-- A hart that holds the lock, or finds it free, can move on.
advance :
    (m : Shared) (p : Pc) → InLoop p → p ≢ finished → (holds p ≡ 1) ⊎ (m.lock ≡ 0) → Advance m p
advance m (acquire i) h ne (inl held) = absurd (omega arith)
advance m (acquire i) h ne (inr free) = record {
  mem = record m { lock = 1 };
  pc = entered i;
  move = take free;
  nearer = omega arith;
}
advance m (entered i) h ne free = record {
  mem = m;
  pc = loaded i m.shared_var;
  move = load;
  nearer = omega arith;
}
advance m (loaded i temp) h ne free = record {
  mem = _;
  pc = leaving i;
  move = store;
  nearer = omega arith;
}
advance m (leaving i) h ne free = record {
  mem = _;
  pc = next_round (i + 1);
  move = release;
  nearer = next_round-left i h;
}
advance m finished h ne free = absurd (ne refl)

Steps-cons : {s t u : System} → Step s t → Steps t u → Steps s u
Steps-cons st stay = then_step stay st
Steps-cons st (then_step r st') = then_step (Steps-cons st r) st'

pub record Finishes (s : System) : Type 0 where
  pub last : System
  pub run : Steps s last
  pub done0 : last.core0 ≡ finished
  pub done1 : last.core1 ≡ finished

Finishes-cons : {s t : System} → Step s t → Finishes t → Finishes s
Finishes-cons st f = record {
  last = f.last;
  run = Steps-cons st f.run;
  done0 = f.done0;
  done1 = f.done1;
}

is_finished : (p : Pc) → (p ≡ finished) ⊎ (p ≢ finished)
is_finished finished = inl refl
is_finished (acquire i) = inr (λ e. cc)
is_finished _ = inr (λ e. cc)

holds-cases : (p : Pc) → (holds p ≡ 1) ⊎ (holds p ≡ 0)
holds-cases (acquire i) = inr refl
holds-cases finished = inr refl
holds-cases _ = inl refl

pub record Nearer (s : System) : Type 0 where
  pub next : System
  pub step : Step s next
  pub nearer : left next.core0 + left next.core1 < left s.core0 + left s.core1

by0 : (s : System) → Advance s.mem s.core0 → Nearer s
by0 s a = record {
  next = record s { mem = a.mem; core0 = a.pc };
  step = step0 a.move;
  nearer = omega (arith, a.nearer);
}

by1 : (s : System) → Advance s.mem s.core1 → Nearer s
by1 s a = record {
  next = record s { mem = a.mem; core1 = a.pc };
  step = step1 a.move;
  nearer = omega (arith, a.nearer);
}

-- The hart that holds the lock moves; if none does, one that has not finished.
pub next_step :
    (s : System)
    → Inv s.mem s.core0 s.core1
    → ((s.core0 ≡ finished) × (s.core1 ≡ finished)) ⊎ Nearer s
next_step s v = elim (holds-cases s.core1) [
  | inl held ↦ inr (by1 s (advance s.mem s.core1 v.in_loop' (λ e. ground arith) (inl held)))
  | inr out ↦ elim (is_finished s.core0) [
    | inr busy ↦ inr (
        by0 s (
          advance s.mem s.core0 v.in_loop busy (elim (holds-cases s.core0) [
            | inl held ↦ inl held
            | inr free ↦ inr (omega (arith, v.lock_held))
          ])))
    | inl done0 ↦ elim (is_finished s.core1) [
      | inr busy ↦
          inr (
            by1 s
              (advance s.mem s.core1 v.in_loop' busy (inr (ground (arith, done0, v.lock_held)))))
      | inl done1 ↦ inl (done0, done1)
    ]
  ]
]

finish :
    (fuel : ℕ) (s : System)
    → Inv s.mem s.core0 s.core1
    → left s.core0 + left s.core1 < fuel
    → Finishes s
finish zero s v h = absurd (omega arith)
finish (suc fuel) s v h = elim (next_step s v) [
  | inl done ↦ record { last = s; run = stay; done0 = done.0; done1 = done.1 }
  | inr n ↦ Finishes-cons n.step (finish fuel n.next (Step-Inv n.step v) (omega (arith, n.nearer)))
]

-- No interleaving leads to a deadlock: from every reachable state both harts can still finish.
pub spinlock_finishes : {s : System} → Steps init s → Finishes s
spinlock_finishes {s} r = finish (left s.core0 + left s.core1 + 1) s (Steps-Inv r) (omega arith)
