-- ===== src/DualCore/Spinlock.antt =====
-- P4.3, mutual exclusion by `amoswap.d`: both harts run the loop of `core1_spinlock_worker` (the
-- loop of `test_main` is the same), one shared access at a time. The delay loop in the critical
-- section touches a local variable only.
pub mod Safety
pub mod Progress
use zephyr_riscv_test_suite.Prelude.{ℕ, ◌+◌, ◌%◌, ◌^◌, ◌≡◌, ◌≢◌, ◌==◌, if◌then◌else◌}

abbrev pub spinlock_loop_count : ℕ
spinlock_loop_count = 50

pub record Shared : Type 0 where
  pub lock : ℕ
  pub shared_var : ℕ

-- Where a hart stands in round `i`.
pub data Pc : Type 0 where
  acquire : (i : ℕ) → Pc  -- the `while` of `spinlock_acquire`
  entered : (i : ℕ) → Pc
  loaded : (i temp : ℕ) → Pc
  leaving : (i : ℕ) → Pc  -- before the `amoswap.d` of `spinlock_release`
  finished : Pc

abbrev pub next_round : ℕ → Pc
next_round i = if i == spinlock_loop_count then finished else acquire i

pub data Move (m : Shared) : Pc → Shared → Pc → Type 0 where
  take : {i : ℕ} → m.lock ≡ 0 → Move m (acquire i) (record m { lock = 1 }) (entered i)
  spin : {i : ℕ} → m.lock ≢ 0 → Move m (acquire i) (record m { lock = 1 }) (acquire i)
  load : {i : ℕ} → Move m (entered i) m (loaded i m.shared_var)
  store :
      {i temp : ℕ}
      → Move m (loaded i temp) (record m { shared_var = (temp + 1) % 2 ^ 64 }) (leaving i)
  release : {i : ℕ} → Move m (leaving i) (record m { lock = 0 }) (next_round (i + 1))

pub record System : Type 0 where
  pub mem : Shared
  pub core0 : Pc
  pub core1 : Pc

pub data Step (s : System) : System → Type 0 where
  step0 : {m : Shared} {p : Pc} → Move s.mem s.core0 m p → Step s (record s { mem = m; core0 = p })
  step1 : {m : Shared} {p : Pc} → Move s.mem s.core1 m p → Step s (record s { mem = m; core1 = p })

-- `g_p4.lock = 0; g_p4.shared_var = 0`, and both harts before their loops.
abbrev pub init : System
init = record {
  mem = record { lock = 0; shared_var = 0 };
  core0 = next_round 0;
  core1 = next_round 0;
}

pub data Steps (s : System) : System → Type 0 where
  stay : Steps s s
  then_step : {t u : System} → Steps s t → Step t u → Steps s u
