-- ===== src/Zephyr/Cores/Locked.antt =====
-- P4.4: both workers add to a plain counter under a spinlock. The lock is the kernel's: it is taken where
-- it is free, in one step.
use zephyr_riscv_test_suite.Prelude.{
  ℕ, ◌+◌, ◌*◌, ◌≤◌, ◌≡◌, ◌==◌, ap, refl, arith, Bool-cases, inl, inr, if◌then◌else◌,
}
use zephyr_riscv_test_suite.Zephyr.Cores.{System, Steps, Steps-keep}

abbrev pub locked_inc_per_cpu : ℕ
locked_inc_per_cpu = 50

pub record Guarded : Type 0 where
  pub counter_lock : ℕ
  pub locked_counter : ℕ

-- In round `i`: before `k_spin_lock`, behind it, behind the load of `v`, behind the store; or at the end.
pub data Worker : Type 0 where
  locking : (i : ℕ) → Worker
  loading : (i : ℕ) → Worker
  storing : (i v : ℕ) → Worker
  unlocking : (i : ℕ) → Worker
  lock_ended : Worker

abbrev pub locked_round : ℕ → Worker
locked_round i = if i == locked_inc_per_cpu then lock_ended else locking i

pub data Turn (m : Guarded) : Worker → Guarded → Worker → Type 0 where
  k_spin_lock :
      {i : ℕ} → m.counter_lock ≡ 0 → Turn m (locking i) (record m { counter_lock = 1 }) (loading i)
  load_counter : {i : ℕ} → Turn m (loading i) m (storing i m.locked_counter)
  store_counter :
      {i v : ℕ} → Turn m (storing i v) (record m { locked_counter = v + 1 }) (unlocking i)
  k_spin_unlock :
      {i : ℕ} → Turn m (unlocking i) (record m { counter_lock = 0 }) (locked_round (i + 1))

abbrev pub locked_start : System Guarded Worker Worker
locked_start = record {
  mem = record { counter_lock = 0; locked_counter = 0 };
  first = locked_round 0;
  second = locked_round 0;
}

-- The additions that a worker has made, and whether it has the lock.
abbrev counted : Worker → ℕ
counted (locking i) = i
counted (loading i) = i
counted (storing i v) = i
counted (unlocking i) = i + 1
counted lock_ended = locked_inc_per_cpu

abbrev pub inside : Worker → ℕ
inside (locking i) = 0
inside (loading i) = 1
inside (storing i v) = 1
inside (unlocking i) = 1
inside lock_ended = 0

-- The value that it has loaded is the counter's.
abbrev Fresh : Worker → ℕ → Type 0
Fresh (storing i v) counter = v ≡ counter
Fresh (locking i) counter = Unit {0}
Fresh (loading i) counter = Unit {0}
Fresh (unlocking i) counter = Unit {0}
Fresh lock_ended counter = Unit {0}

record Inv (m : Guarded) (p q : Worker) : Type 0 where
  total : m.locked_counter ≡ counted p + counted q
  lock : m.counter_lock ≡ inside p + inside q
  alone : m.counter_lock ≤ 1
  first_fresh : Fresh p m.locked_counter
  second_fresh : Fresh q m.locked_counter

-- What a worker without the lock has loaded does not matter.
Fresh-outside : (q : Worker) (c c' : ℕ) → inside q ≡ 0 → Fresh q c'
Fresh-outside (locking i) c c' h = tt
Fresh-outside (loading i) c c' h = tt
Fresh-outside (storing i v) c c' h = absurd (omega (arith, h))
Fresh-outside (unlocking i) c c' h = tt
Fresh-outside lock_ended c c' h = tt

locked_round_lem :
    (i counter : ℕ)
    → (counted (locked_round (i + 1)) ≡ i + 1)
      × (inside (locked_round (i + 1)) ≡ 0)
      × Fresh (locked_round (i + 1)) counter
locked_round_lem i counter = elim (Bool-cases (i + 1 == locked_inc_per_cpu)) [
  | inl last ↦ rw last (ground arith, refl, tt)
  | inr more ↦ rw more (refl, refl, tt)
]

Turn-Inv : {m m' : Guarded} {p p' q : Worker} → Turn m p m' p' → Inv m p q → Inv m' p' q
Turn-Inv (k_spin_lock free) v = record {
  total = v.total;
  lock = omega (arith, v.lock, free);
  alone = omega arith;
  first_fresh = tt;
  second_fresh = v.second_fresh;
}
Turn-Inv load_counter v = record {
  total = v.total;
  lock = v.lock;
  alone = v.alone;
  first_fresh = refl;
  second_fresh = v.second_fresh;
}
Turn-Inv {m} {q} (store_counter {v = loaded}) v = record {
  total = omega (arith, v.total, v.first_fresh);
  lock = v.lock;
  alone = v.alone;
  first_fresh = tt;
  second_fresh = Fresh-outside q m.locked_counter (loaded + 1) (omega (arith, v.lock, v.alone));
}
Turn-Inv {m} {q} (k_spin_unlock {i}) v =
    let n = locked_round_lem i m.locked_counter in
    record {
      total = omega (arith, n.0, v.total);
      lock = omega (arith, n.1, v.lock, v.alone);
      alone = omega arith;
      first_fresh = n.2;
      second_fresh = v.second_fresh;
    }

Inv-swap : {m : Guarded} {p q : Worker} → Inv m p q → Inv m q p
Inv-swap v = record {
  total = omega (arith, v.total);
  lock = omega (arith, v.lock);
  alone = v.alone;
  first_fresh = v.second_fresh;
  second_fresh = v.first_fresh;
}

-- Wherever the two workers come, at most one of them has the lock; and where both have ended, the plain
-- counter is the number of increments of both.
pub locked_counter_lem :
    {s : System Guarded Worker Worker}
    → Steps Turn Turn locked_start s
    → (inside s.first + inside s.second ≤ 1)
      × (s.first ≡ lock_ended
          → s.second ≡ lock_ended
          → s.mem.locked_counter ≡ 2 * locked_inc_per_cpu)
locked_counter_lem r =
    let v =
      Steps-keep Turn Turn Inv (λ m m' p p' q mv. Turn-Inv mv)
        (λ m m' p q q' mv w. Inv-swap (Turn-Inv mv (Inv-swap w))) r
        (record {
          total = refl;
          lock = refl;
          alone = omega arith;
          first_fresh = tt;
          second_fresh = tt;
        }) in
    (
      omega (arith, v.lock, v.alone),
      λ first second. omega (arith, v.total, ap counted first, ap counted second),
    )
