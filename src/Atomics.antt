-- ===== src/Atomics.antt =====
-- The atomics of phase 3: the wrappers of rv64gcv-baremetal-testsuite-main/common/test.h (lines 181 to
-- 350), which are one instruction each but for the loop of `cas_d`, and the program
-- tests/p3_atomics.c. The atomic unit of the hart is what the program tests, hence a parameter: what
-- each instruction returns and leaves, for a word that no other hart uses. For LR and SC this includes
-- the reservation, which an SC needs and may have lost.
pub mod Program
pub mod Cas
pub mod Conforming
use zephyr_riscv_test_suite.Prelude.{
  ℕ, zero, suc, ◌+◌, ◌-◌, ◌%◌, ◌^◌, ◌==◌, ltb, if◌then◌else◌, Option, none, some, Bool,
}
use zephyr_riscv_test_suite.Word.{u64}

-- The AMO instructions, without their width.
pub data Op : Type 0 where
  amoswap amoadd amoand amoor amoxor amomin amomax amominu amomaxu : Op

-- What an instruction puts into its register, and what it leaves in memory.
pub record Effect : Type 0 where
  pub rd : ℕ
  pub mem : ℕ

-- A word, whether the hart has a reservation on it, and how many SCs there were by then.
pub record Word : Type 0 where
  pub mem : ℕ
  pub reserved : Bool
  pub scs : ℕ

-- What LR or SC puts into its register, and the word behind it.
pub record Reply : Type 0 where
  pub rd : ℕ
  pub word : Word

pub record AtomicUnit : Type 0 where
  pub amo : (op : Op) (width mem val : ℕ) → Effect
  pub lr : Word → Reply
  pub sc : Word → (val : ℕ) → Reply

-- What `cas_d` returns and leaves.
pub record Swapped : Type 0 where
  pub ok : ℕ
  pub word : Word

-- The `int32_t` and `int64_t` bit patterns, extended to 64 bits.
abbrev pub sext32 : ℕ → ℕ
sext32 x = if ltb (x % 2 ^ 32) (2 ^ 31) then x % 2 ^ 32 else x % 2 ^ 32 + (2 ^ 64 - 2 ^ 32)

-- The bit pattern of `-x` in 64 and in 32 bits.
abbrev pub neg64 : ℕ → ℕ
neg64 x = 2 ^ 64 - x

abbrev pub neg32 : ℕ → ℕ
neg32 x = 2 ^ 32 - x

module _ (hart : AtomicUnit) where
  unfoldable pub amo_swap_d : (mem val : ℕ) → Effect
  amo_swap_d mem val = hart.amo amoswap 64 mem val

  unfoldable pub amo_add_d : (mem val : ℕ) → Effect
  amo_add_d mem val = hart.amo amoadd 64 mem val

  unfoldable pub amo_and_d : (mem val : ℕ) → Effect
  amo_and_d mem val = hart.amo amoand 64 mem val

  unfoldable pub amo_or_d : (mem val : ℕ) → Effect
  amo_or_d mem val = hart.amo amoor 64 mem val

  unfoldable pub amo_xor_d : (mem val : ℕ) → Effect
  amo_xor_d mem val = hart.amo amoxor 64 mem val

  unfoldable pub amo_min_d : (mem val : ℕ) → Effect
  amo_min_d mem val = hart.amo amomin 64 mem val

  unfoldable pub amo_max_d : (mem val : ℕ) → Effect
  amo_max_d mem val = hart.amo amomax 64 mem val

  unfoldable pub amo_minu_d : (mem val : ℕ) → Effect
  amo_minu_d mem val = hart.amo amominu 64 mem val

  unfoldable pub amo_maxu_d : (mem val : ℕ) → Effect
  amo_maxu_d mem val = hart.amo amomaxu 64 mem val

  unfoldable pub amo_swap_w : (mem val : ℕ) → Effect
  amo_swap_w mem val = hart.amo amoswap 32 mem val

  unfoldable pub amo_add_w : (mem val : ℕ) → Effect
  amo_add_w mem val = hart.amo amoadd 32 mem val

  unfoldable pub amo_and_w : (mem val : ℕ) → Effect
  amo_and_w mem val = hart.amo amoand 32 mem val

  unfoldable pub amo_or_w : (mem val : ℕ) → Effect
  amo_or_w mem val = hart.amo amoor 32 mem val

  unfoldable pub amo_xor_w : (mem val : ℕ) → Effect
  amo_xor_w mem val = hart.amo amoxor 32 mem val

  unfoldable pub amo_min_w : (mem val : ℕ) → Effect
  amo_min_w mem val = hart.amo amomin 32 mem val

  unfoldable pub amo_max_w : (mem val : ℕ) → Effect
  amo_max_w mem val = hart.amo amomax 32 mem val

  unfoldable pub amo_minu_w : (mem val : ℕ) → Effect
  amo_minu_w mem val = hart.amo amominu 32 mem val

  unfoldable pub amo_maxu_w : (mem val : ℕ) → Effect
  amo_maxu_w mem val = hart.amo amomaxu 32 mem val

  -- With and without `.aq` and `.rl`, which order the access among others only.
  unfoldable pub lr_d : Word → Reply
  lr_d w = hart.lr w

  unfoldable pub sc_d : Word → (val : ℕ) → Reply
  sc_d w val = hart.sc w val

  unfoldable pub lr_d_aq : Word → Reply
  lr_d_aq w = hart.lr w

  unfoldable pub sc_d_rl : Word → (val : ℕ) → Reply
  sc_d_rl w val = hart.sc w val

  -- `cas_d`: the loop goes back to its LR while the SC fails.
  unfoldable pub cas_d : (fuel : ℕ) → Word → (expected desired : ℕ) → Option Swapped
  unfolding lr_d_aq sc_d_rl
  cas_d zero w expected desired = none
  cas_d (suc fuel) w expected desired =
      let old = lr_d_aq w in
      let tried = sc_d_rl old.word desired in
      let again = cas_d fuel tried.word expected desired in
      if old.rd == expected
      then (if tried.rd == 0 then some (record { ok = 1; word = tried.word }) else again)
      else some (record { ok = 0; word = old.word })
