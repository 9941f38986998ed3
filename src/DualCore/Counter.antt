-- ===== src/DualCore/Counter.antt =====
-- P4.2, two harts that add to one counter with `amoadd.d`: `core1_atomic_incrementer`, and the loop
-- and the wait of `test_main` on hart 0.
pub mod Total
use zephyr_riscv_test_suite.Prelude.{ℕ, ◌+◌, ◌%◌, ◌^◌, ◌≡◌, ◌≢◌, ◌==◌, if◌then◌else◌}

abbrev pub atomic_loop_count : ℕ
atomic_loop_count = 100

pub record Shared : Type 0 where
  pub shared_counter : ℕ
  pub core1_atomic_done : ℕ

-- Where a hart stands: in round `i`, behind its loop, or, for hart 0, at the assertion, and, for
-- hart 1, at its end.
pub data Pc : Type 0 where
  adding : (i : ℕ) → Pc
  behind : Pc
  ended : Pc

abbrev pub next_round : ℕ → Pc
next_round i = if i == atomic_loop_count then behind else adding i

-- What the two harts share: the loop.
pub data Add (m : Shared) : Pc → Shared → Pc → Type 0 where
  amo_add :
      {i : ℕ}
      → Add m
          (adding i)
          (record m { shared_counter = (m.shared_counter + 1) % 2 ^ 64 })
          (next_round (i + 1))

pub data Move0 (m : Shared) : Pc → Shared → Pc → Type 0 where
  loop0 : {p p' : Pc} {m' : Shared} → Add m p m' p' → Move0 m p m' p'
  spin : m.core1_atomic_done ≢ 1 → Move0 m behind m behind
  leave : m.core1_atomic_done ≡ 1 → Move0 m behind m ended

pub data Move1 (m : Shared) : Pc → Shared → Pc → Type 0 where
  loop1 : {p p' : Pc} {m' : Shared} → Add m p m' p' → Move1 m p m' p'
  signal : Move1 m behind (record m { core1_atomic_done = 1 }) ended

pub record System : Type 0 where
  pub mem : Shared
  pub core0 : Pc
  pub core1 : Pc

pub data Step (s : System) : System → Type 0 where
  step0 : {m : Shared} {p : Pc} → Move0 s.mem s.core0 m p → Step s (record s { mem = m; core0 = p })
  step1 : {m : Shared} {p : Pc} → Move1 s.mem s.core1 m p → Step s (record s { mem = m; core1 = p })

abbrev pub init : System
init = record {
  mem = record { shared_counter = 0; core1_atomic_done = 0 };
  core0 = next_round 0;
  core1 = next_round 0;
}

pub data Steps (s : System) : System → Type 0 where
  stay : Steps s s
  then_step : {t u : System} → Steps s t → Step t u → Steps s u
