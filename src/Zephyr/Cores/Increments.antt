-- ===== src/Zephyr/Cores/Increments.antt =====
-- P4.3: both workers add to one counter with `atomic_inc`.
use zephyr_riscv_test_suite.Prelude.{
  ℕ, ◌+◌, ◌*◌, ◌%◌, ◌^◌, ◌≤◌, ◌<◌, ◌≡◌, ◌==◌, ap, refl, arith, Bool-cases, inl, inr, if◌then◌else◌,
}
use zephyr_riscv_test_suite.Zephyr.Cores.{System, Steps, Steps-keep}

abbrev pub inc_per_cpu : ℕ
inc_per_cpu = 100

-- In round `i` of its loop, or at its end.
pub data Incrementer : Type 0 where
  incrementing : (i : ℕ) → Incrementer
  inc_ended : Incrementer

abbrev pub inc_round : ℕ → Incrementer
inc_round i = if i == inc_per_cpu then inc_ended else incrementing i

pub data Inc (stress_counter : ℕ) : Incrementer → ℕ → Incrementer → Type 0 where
  atomic_inc :
      {i : ℕ}
      → Inc stress_counter (incrementing i) ((stress_counter + 1) % 2 ^ 64) (inc_round (i + 1))

abbrev pub inc_start : System ℕ Incrementer Incrementer
inc_start = record { mem = 0; first = inc_round 0; second = inc_round 0 }

abbrev made : Incrementer → ℕ
made (incrementing i) = i
made inc_ended = inc_per_cpu

abbrev InLoop : Incrementer → Type 0
InLoop (incrementing i) = i < inc_per_cpu
InLoop inc_ended = Unit {0}

record Inv (counter : ℕ) (p q : Incrementer) : Type 0 where
  total : counter ≡ made p + made q
  first_in : InLoop p
  second_in : InLoop q

made-le : (p : Incrementer) → InLoop p → made p ≤ inc_per_cpu
made-le (incrementing i) h = omega arith
made-le inc_ended h = omega arith

inc_round_lem :
    (i : ℕ) → i < inc_per_cpu → (made (inc_round (i + 1)) ≡ i + 1) × InLoop (inc_round (i + 1))
inc_round_lem i h = elim (Bool-cases (i + 1 == inc_per_cpu)) [
  | inl last ↦ rw last (ground arith, tt)
  | inr more ↦ rw more (refl, ground arith)
]

Inc-Inv : {c c' : ℕ} {p p' q : Incrementer} → Inc c p c' p' → Inv c p q → Inv c' p' q
Inc-Inv {q} (atomic_inc {i}) v =
    let n = inc_round_lem i v.first_in in
    record {
      total = omega (arith, n.0, v.total, v.first_in, made-le q v.second_in);
      first_in = n.1;
      second_in = v.second_in;
    }

Inv-swap : {c : ℕ} {p q : Incrementer} → Inv c p q → Inv c q p
Inv-swap v = record {
  total = omega (arith, v.total);
  first_in = v.second_in;
  second_in = v.first_in;
}

-- Wherever both workers have ended, the counter is the number of increments of both.
pub stress_counter_lem :
    {s : System ℕ Incrementer Incrementer}
    → Steps Inc Inc inc_start s
    → s.first ≡ inc_ended
    → s.second ≡ inc_ended
    → s.mem ≡ 2 * inc_per_cpu
stress_counter_lem r first second =
    let v =
      Steps-keep Inc Inc Inv (λ m m' p p' q mv. Inc-Inv mv)
        (λ m m' p q q' mv w. Inv-swap (Inc-Inv mv (Inv-swap w))) r
        (record { total = refl; first_in = omega arith; second_in = omega arith }) in
    omega (arith, v.total, ap made first, ap made second)
