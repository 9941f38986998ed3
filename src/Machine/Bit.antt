-- ===== src/Machine/Bit.antt =====
-- Single bits of a word, under the operations that set and clear the bits of a mask.
use zephyr_riscv_test_suite.Prelude.{
  ℕ, zero, suc, ◌-◌, ◌/◌, ◌%◌, ◌^◌, ◌<◌, ◌≡◌, refl, arith, min, max, bit_and, bit_or, Bool,
  Bool-cases, inl, inr, false, true, ◌&&◌, ◌==◌, if◌then◌else◌,
}
use zephyr_riscv_test_suite.Machine.{csrs, csrc}
use zephyr_riscv_test_suite.Word.Bits.{or-high, or-digit, and-high, and-digit}

abbrev pub bit : ℕ → ℕ → ℕ
bit k x = x / 2 ^ k % 2

pub bit-or : (k a b : ℕ) → bit k (bit_or a b) ≡ max (bit k a) (bit k b)
bit-or k a b = omega (arith, or-high k a b, or-digit (a / 2 ^ k) (b / 2 ^ k))

pub bit-and : (k a b : ℕ) → bit k (bit_and a b) ≡ min (bit k a) (bit k b)
bit-and k a b = omega (arith, and-high k a b, and-digit (a / 2 ^ k) (b / 2 ^ k))

-- The mask of bit `j` and its complement, bit by bit.
abbrev is_mask : ℕ → ℕ → Bool
is_mask j k =
    (bit k (2 ^ j) == (if k == j then 1 else 0))
    && (bit k (2 ^ 64 - 1 - 2 ^ j) == (if k == j then 0 else 1))

-- The same at the `count` lowest bits.
masks_up_to : ℕ → ℕ → Bool
masks_up_to j zero = true
masks_up_to j (suc last) = if is_mask j last then masks_up_to j last else false

masks_up_to-is_mask :
    (j count : ℕ) → masks_up_to j count ≡ true → (k : ℕ) → k < count → is_mask j k ≡ true
unfolding masks_up_to
masks_up_to-is_mask j zero all k lt = absurd (omega arith)
masks_up_to-is_mask j (suc last) all k lt = elim (Bool-cases (k == last)) [
  | inl same ↦ ground arith
  | inr lower ↦ masks_up_to-is_mask j last (ground arith) k (ground arith)
]

pub IsMask : ℕ → Type 0
IsMask j = (k : ℕ) → k < 64 → is_mask j k ≡ true

-- The masks that the handlers use: SSIP, STIP, MTIP and SPP; and SUM.
handler_masks :
    (masks_up_to 1 64 ≡ true)
    × (masks_up_to 5 64 ≡ true)
    × (masks_up_to 7 64 ≡ true)
    × (masks_up_to 8 64 ≡ true)
    × (masks_up_to 18 64 ≡ true)
unfolding masks_up_to
handler_masks = (refl, refl, refl, refl, refl)

pub ssip-IsMask : IsMask 1
unfolding IsMask
ssip-IsMask k h = masks_up_to-is_mask 1 64 handler_masks.0 k h

pub stip-IsMask : IsMask 5
unfolding IsMask
stip-IsMask k h = masks_up_to-is_mask 5 64 handler_masks.1 k h

pub mtip-IsMask : IsMask 7
unfolding IsMask
mtip-IsMask k h = masks_up_to-is_mask 7 64 handler_masks.2 k h

pub spp-IsMask : IsMask 8
unfolding IsMask
spp-IsMask k h = masks_up_to-is_mask 8 64 handler_masks.3 k h

pub sum-IsMask : IsMask 18
unfolding IsMask
sum-IsMask k h = masks_up_to-is_mask 18 64 handler_masks.4 k h

-- Setting or clearing the bit of a mask leaves every other bit alone.
module _ (j : ℕ) (mask : IsMask j) (x k : ℕ) (h : k < 64) where
  pub bit-csrs : bit k (csrs x (2 ^ j)) ≡ (if k == j then 1 else bit k x)
  unfolding IsMask
  bit-csrs = ground (arith, mask k h, bit-or k x (2 ^ j))

  pub bit-csrc : bit k (csrc x (2 ^ j)) ≡ (if k == j then 0 else bit k x)
  unfolding IsMask
  bit-csrc = ground (arith, mask k h, bit-and k x (2 ^ 64 - 1 - 2 ^ j))
