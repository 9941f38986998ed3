-- ===== src/DualCore/Spinlock/Safety.antt =====
-- No two harts in the critical section, and no increment lost.
use zephyr_riscv_test_suite.Prelude.{
  ℕ, ◌+◌, ◌*◌, ◌≤◌, ◌<◌, ◌≡◌, refl, arith, Bool-cases, inl, inr, ◌==◌,
}
use zephyr_riscv_test_suite.DualCore.Spinlock.{
  Shared, Pc, acquire, entered, loaded, leaving, finished, Move, take, spin, load, store, release,
  System, Step, step0, step1, init, Steps, stay, then_step, next_round, spinlock_loop_count,
}

-- The critical section: from the winning swap to the swap that releases.
abbrev pub holds : Pc → ℕ
holds (entered i) = 1
holds (loaded i temp) = 1
holds (leaving i) = 1
holds _ = 0

-- The increments that a hart has stored.
abbrev pub stored : Pc → ℕ
stored (acquire i) = i
stored (entered i) = i
stored (loaded i temp) = i
stored (leaving i) = i + 1
stored finished = spinlock_loop_count

-- What the locals of a hart say about shared memory.
abbrev IsFresh : ℕ → Pc → Type 0
IsFresh shared_var (loaded i temp) = shared_var ≡ temp
IsFresh shared_var _ = Unit

-- A hart that is in its loop has rounds to go.
abbrev pub InLoop : Pc → Type 0
InLoop (acquire i) = i < spinlock_loop_count
InLoop (entered i) = i < spinlock_loop_count
InLoop (loaded i temp) = i < spinlock_loop_count
InLoop (leaving i) = i < spinlock_loop_count
InLoop finished = Unit

pub record Inv (m : Shared) (p q : Pc) : Type 0 where
  pub lock_held : m.lock ≡ holds p + holds q
  pub exclusive : holds p + holds q ≤ 1
  pub sum : m.shared_var ≡ stored p + stored q
  pub fresh : IsFresh m.shared_var p
  pub fresh' : IsFresh m.shared_var q
  pub in_loop : InLoop p
  pub in_loop' : InLoop q

IsFresh-outside : (v : ℕ) (q : Pc) → holds q ≡ 0 → IsFresh v q
IsFresh-outside v (loaded i temp) h = absurd (omega arith)
IsFresh-outside v (acquire i) h = tt
IsFresh-outside v _ h = tt

stored-le : (q : Pc) → InLoop q → stored q ≤ spinlock_loop_count
stored-le (acquire i) h = omega arith
stored-le finished h = omega arith
stored-le _ h = omega arith

next_round_lem :
    (i : ℕ)
    → i < spinlock_loop_count
    → (holds (next_round (i + 1)) ≡ 0)
      × (stored (next_round (i + 1)) ≡ i + 1)
      × InLoop (next_round (i + 1))
next_round_lem i h = elim (Bool-cases (i + 1 == spinlock_loop_count)) [
  | inl last ↦ rw last (refl, ground arith, tt)
  | inr more ↦ rw more (refl, refl, ground arith)
]

Move-Inv : {m m' : Shared} {p p' : Pc} (q : Pc) → Move m p m' p' → Inv m p q → Inv m' p' q
Move-Inv q (take h) v = record {
  lock_held = omega (arith, v.lock_held);
  exclusive = omega (arith, v.lock_held);
  sum = v.sum;
  fresh = tt;
  fresh' = v.fresh';
  in_loop = v.in_loop;
  in_loop' = v.in_loop';
}
Move-Inv q (spin h) v = record {
  lock_held = omega (arith, v.lock_held, v.exclusive);
  exclusive = v.exclusive;
  sum = v.sum;
  fresh = tt;
  fresh' = v.fresh';
  in_loop = v.in_loop;
  in_loop' = v.in_loop';
}
Move-Inv q load v = record {
  lock_held = v.lock_held;
  exclusive = v.exclusive;
  sum = v.sum;
  fresh = refl;
  fresh' = v.fresh';
  in_loop = v.in_loop;
  in_loop' = v.in_loop';
}
Move-Inv q store v = record {
  lock_held = v.lock_held;
  exclusive = v.exclusive;
  sum = omega (arith, v.sum, v.fresh, v.in_loop, stored-le q v.in_loop');
  fresh = tt;
  fresh' = IsFresh-outside _ q (omega (arith, v.exclusive));
  in_loop = v.in_loop;
  in_loop' = v.in_loop';
}
Move-Inv q (release {i}) v =
    let n = next_round_lem i v.in_loop in
    record {
      lock_held = omega (arith, v.lock_held, v.exclusive, n.0);
      exclusive = omega (arith, v.exclusive, n.0);
      sum = omega (arith, v.sum, n.1);
      fresh = IsFresh-outside _ (next_round (i + 1)) n.0;
      fresh' = v.fresh';
      in_loop = n.2;
      in_loop' = v.in_loop';
    }

Inv-swap : {m : Shared} {p q : Pc} → Inv m p q → Inv m q p
Inv-swap v = record {
  lock_held = omega (arith, v.lock_held);
  exclusive = omega (arith, v.exclusive);
  sum = omega (arith, v.sum);
  fresh = v.fresh';
  fresh' = v.fresh;
  in_loop = v.in_loop';
  in_loop' = v.in_loop;
}

pub Step-Inv : {s t : System} → Step s t → Inv s.mem s.core0 s.core1 → Inv t.mem t.core0 t.core1
Step-Inv {s} (step0 mv) v = Move-Inv s.core1 mv v
Step-Inv {s} (step1 mv) v = Inv-swap (Move-Inv s.core0 mv (Inv-swap v))

pub Steps-Inv : {s : System} → Steps init s → Inv s.mem s.core0 s.core1
Steps-Inv stay = record {
  lock_held = refl;
  exclusive = omega arith;
  sum = refl;
  fresh = tt;
  fresh' = tt;
  in_loop = omega arith;
  in_loop' = omega arith;
}
Steps-Inv (then_step r st) = Step-Inv st (Steps-Inv r)

-- In every reachable state at most one hart is between its acquisition and its release of the lock.
pub mutual_exclusion : {s : System} → Steps init s → holds s.core0 + holds s.core1 ≤ 1
mutual_exclusion r = omega (arith, (Steps-Inv r).exclusive)

-- In every reachable state in which both harts have finished, `shared_var` is the number of rounds of both: no increment was
-- lost. The lock is free again.
pub no_lost_update :
    {s : System}
    → Steps init s
    → s.core0 ≡ finished
    → s.core1 ≡ finished
    → (s.mem.shared_var ≡ spinlock_loop_count * 2) × (s.mem.lock ≡ 0)
no_lost_update r a b =
    let v = Steps-Inv r in
    let sum = rw (a, b) at v.sum in
    let free = rw (a, b) at v.lock_held in (omega (arith, sum), omega (arith, free))
