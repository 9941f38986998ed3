-- ===== src/Word.antt =====
-- Fixed-width words of the C sources as natural numbers: casts, shifts and the wrap-around of the
-- unsigned types, written out.
pub mod Bits
use zephyr_riscv_test_suite.Prelude.{ℕ, ◌+◌, ◌-◌, ◌*◌, ◌/◌, ◌%◌, ◌^◌, bit_and, bit_or}

-- The casts to uint64_t, uint32_t and uint16_t.
abbrev pub u64 : ℕ → ℕ
u64 n = n % 2 ^ 64

abbrev pub u32 : ℕ → ℕ
u32 n = n % 2 ^ 32

infixl 75 ◌<<◌ ◌>>◌
-- `<<` and `>>` on a uint64_t: what is shifted past bit 63 is lost.
abbrev pub ◌<<◌ : ℕ → ℕ → ℕ
x << k = x * 2 ^ k % 2 ^ 64

abbrev pub ◌>>◌ : ℕ → ℕ → ℕ
x >> k = x / 2 ^ k

infixl 60 ◌∣∣◌
infixl 62 ◌&◌
abbrev pub ◌∣∣◌ : ℕ → ℕ → ℕ
a ∣∣ b = bit_or a b

abbrev pub ◌&◌ : ℕ → ℕ → ℕ
a & b = bit_and a b

-- `~x` on a uint64_t.
abbrev pub complement : ℕ → ℕ
complement x = 2 ^ 64 - 1 - x
