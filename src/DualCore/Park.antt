-- ===== src/DualCore/Park.antt =====
-- The hand-over of a test to hart 1: `core1_smode_park_loop` and `wake_core1_smode` of
-- baremetal/common/smode.c, one shared access at a time. A test is a function pointer, a number
-- here, and 0 is the null pointer.
pub mod Order
use zephyr_riscv_test_suite.Prelude.{ℕ, List, [], ◌∷◌, ◌≡◌, ◌≢◌}

pub record Shared : Type 0 where
  pub g_core1_smode_ready : ℕ
  pub g_smode_target : ℕ

-- Where hart 1 stands in the loop.
pub data Pc : Type 0 where
  booting : Pc
  parked : Pc  -- in the inner loop
  calling : Pc  -- before the call, which reads the target again
  running : (job : ℕ) → Pc
  returned : Pc  -- before the reset of the target

-- `asked` are the tests handed over so far and `ran` those that have started, the latest first.
pub record System : Type 0 where
  pub mem : Shared
  pub core1 : Pc
  pub asked : List ℕ
  pub ran : List ℕ

-- A move of hart 1: its place, and the shared memory and the tests started, before and after.
pub data Move (m : Shared) (ran : List ℕ) : Pc → Shared → List ℕ → Pc → Type 0 where
  signal_ready : Move m ran booting (record m { g_core1_smode_ready = 1 }) ran parked
  sleep : m.g_smode_target ≡ 0 → Move m ran parked m ran parked
  wake_up : m.g_smode_target ≢ 0 → Move m ran parked m ran calling
  call : Move m ran calling m (m.g_smode_target ∷ ran) (running (m.g_smode_target))
  return : {job : ℕ} → Move m ran (running job) m ran returned
  reset : Move m ran returned (record m { g_smode_target = 0 }) ran parked

-- The write of `wake_core1_smode`, once its wait for the ready flag is over.
abbrev pub wake_core1_smode : System → ℕ → System
wake_core1_smode s func = record s {
  mem = record (s.mem) { g_smode_target = func };
  asked = func ∷ s.asked;
}

pub data Step (s : System) : System → Type 0 where
  core1_step :
      {m : Shared} {ran : List ℕ} {p : Pc}
      → Move s.mem s.ran s.core1 m ran p
      → Step s (record s { mem = m; core1 = p; ran = ran })
  wake : (func : ℕ) → func ≢ 0 → s.mem.g_core1_smode_ready ≢ 0 → Step s (wake_core1_smode s func)

abbrev pub init : System
init = record {
  mem = record { g_core1_smode_ready = 0; g_smode_target = 0 };
  core1 = booting;
  asked = [];
  ran = [];
}

pub data Steps (s : System) : System → Type 0 where
  stay : Steps s s
  then_step : {t u : System} → Steps s t → Step t u → Steps s u
