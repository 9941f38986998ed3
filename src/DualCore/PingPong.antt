-- ===== src/DualCore/PingPong.antt =====
-- P4.4, the ping-pong of two harts over `turn`: the loop of `test_main` on hart 0, which waits for
-- turn 0, and `ping` on hart 1, which waits for turn 1; one shared access at a time.
pub mod Safety
use zephyr_riscv_test_suite.Prelude.{ℕ, ◌+◌, ◌-◌, ◌%◌, ◌^◌, ◌≡◌, ◌≢◌, ◌==◌, if◌then◌else◌}

abbrev pub ping_pong_count : ℕ
ping_pong_count = 100

pub record Shared : Type 0 where
  pub count : ℕ
  pub turn : ℕ

-- Where a hart stands in round `i`.
pub data Pc : Type 0 where
  waiting : (i : ℕ) → Pc  -- in `spin_wait`
  my_turn : (i : ℕ) → Pc
  loaded : (i temp : ℕ) → Pc
  passing : (i : ℕ) → Pc  -- before the write of `turn`
  finished : Pc

abbrev pub next_round : ℕ → Pc
next_round i = if i == ping_pong_count then finished else waiting i

-- A move of the hart that plays at turn `me`, and passes to the other.
pub data Move (me : ℕ) (m : Shared) : Pc → Shared → Pc → Type 0 where
  spin : {i : ℕ} → m.turn ≢ me → Move me m (waiting i) m (waiting i)
  see : {i : ℕ} → m.turn ≡ me → Move me m (waiting i) m (my_turn i)
  load : {i : ℕ} → Move me m (my_turn i) m (loaded i m.count)
  store :
      {i temp : ℕ}
      → Move me m (loaded i temp) (record m { count = (temp + 1) % 2 ^ 64 }) (passing i)
  pass : {i : ℕ} → Move me m (passing i) (record m { turn = 1 - me }) (next_round (i + 1))

pub record System : Type 0 where
  pub mem : Shared
  pub core0 : Pc
  pub core1 : Pc

pub data Step (s : System) : System → Type 0 where
  step0 :
      {m : Shared} {p : Pc} → Move 0 s.mem s.core0 m p → Step s (record s { mem = m; core0 = p })
  step1 :
      {m : Shared} {p : Pc} → Move 1 s.mem s.core1 m p → Step s (record s { mem = m; core1 = p })

abbrev pub init : System
init = record { mem = record { count = 0; turn = 0 }; core0 = next_round 0; core1 = next_round 0 }

pub data Steps (s : System) : System → Type 0 where
  stay : Steps s s
  then_step : {t u : System} → Steps s t → Step t u → Steps s u
