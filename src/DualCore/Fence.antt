-- ===== src/DualCore/Fence.antt =====
-- P4.1, a payload handed over behind a flag: `core1_fence_consumer` and `core1_fence_producer` with
-- their counterparts in `test_main`. In part A hart 0 produces, in part B it consumes; at the end of
-- either part hart 0 clears `g_p4`.
pub mod Handover
use zephyr_riscv_test_suite.Prelude.{ℕ, ◌≡◌, ◌≢◌, ◌==◌, if◌then◌else◌}

abbrev pub core1_magic_number : ℕ
core1_magic_number = 0xDEADBEEF

pub record Shared : Type 0 where
  pub fence_payload : ℕ
  pub fence_expected : ℕ
  pub fence_flag : ℕ
  pub fence_done : ℕ
  pub fence_ok : ℕ

pub data Producer : Type 0 where
  putting : Producer  -- before the write of the payload
  raising : Producer
  awaiting : Producer  -- in `spin_wait`
  over : Producer

pub data Consumer : Type 0 where
  polling : Consumer
  reading : Consumer
  comparing : (payload : ℕ) → Consumer
  signalling : Consumer
  told : Consumer

pub data Produce (m : Shared) : Producer → Shared → Producer → Type 0 where
  put : Produce m putting (record m { fence_payload = m.fence_expected }) raising
  raise : Produce m raising (record m { fence_flag = 1 }) awaiting
  spin : m.fence_done ≢ 1 → Produce m awaiting m awaiting
  leave : m.fence_done ≡ 1 → Produce m awaiting m over

pub data Consume (m : Shared) : Consumer → Shared → Consumer → Type 0 where
  poll : m.fence_flag ≡ 0 → Consume m polling m polling
  see : m.fence_flag ≢ 0 → Consume m polling m reading
  read : Consume m reading m (comparing (m.fence_payload))
  compare :
      {payload : ℕ}
      → Consume m
          (comparing payload)
          (record m { fence_ok = if payload == m.fence_expected then 1 else 0 })
          signalling
  signal : Consume m signalling (record m { fence_done = 1 }) told

pub data Part : Type 0 where
  part_a : Part
  part_b : Part

pub record System : Type 0 where
  pub mem : Shared
  pub producer : Producer
  pub consumer : Consumer
  pub cleared : ℕ

abbrev pub zeroed : Shared
zeroed = record {
  fence_payload = 0;
  fence_expected = 0;
  fence_flag = 0;
  fence_done = 0;
  fence_ok = 0;
}

-- Hart 0 has come to its assertion on `fence_ok`, and clears `g_p4` next.
pub data AtAssert : Part → Producer → Consumer → Type 0 where
  produced : {c : Consumer} → AtAssert part_a over c
  consumed : {p : Producer} → AtAssert part_b p told

pub data Step (part : Part) (s : System) : System → Type 0 where
  produce :
      {m : Shared} {p : Producer}
      → Produce s.mem s.producer m p
      → Step part s (record s { mem = m; producer = p })
  consume :
      {m : Shared} {c : Consumer}
      → Consume s.mem s.consumer m c
      → Step part s (record s { mem = m; consumer = c })
  clear :
      s.cleared ≡ 0
      → AtAssert part s.producer s.consumer
      → Step part s (record s { mem = zeroed; cleared = 1 })

abbrev pub init : System
init = record {
  mem = record zeroed { fence_expected = core1_magic_number };
  producer = putting;
  consumer = polling;
  cleared = 0;
}

pub data Steps (part : Part) (s : System) : System → Type 0 where
  stay : Steps part s s
  then_step : {t u : System} → Steps part s t → Step part t u → Steps part s u
