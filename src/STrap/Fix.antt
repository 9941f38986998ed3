-- ===== src/STrap/Fix.antt =====
-- The flags that the page-fault handler adds to an entry.
use zephyr_riscv_test_suite.Prelude.{
  ℕ, ◌/◌, ◌%◌, ◌^◌, ◌<◌, ◌≡◌, refl, arith, max, bit_or, true, ◌==◌, if◌then◌else◌, ◌⊎◌, Bool-cases,
  inl, inr,
}
use zephyr_riscv_test_suite.Word.Bits.{or-high, or-zero, and-mask}
use zephyr_riscv_test_suite.Machine.Bit.{bit, bit-or}
use zephyr_riscv_test_suite.PageTable.{is_valid, is_leaf, satp_sv39}
use zephyr_riscv_test_suite.PageTable.Entries.{is_valid-mod, is_leaf-mod, satp_sv39-sum}
use zephyr_riscv_test_suite.STrap.{fix_entry, satp_root}

-- V, R, A and D; W for a store, and X for a fetch.
abbrev pub granted : ℕ → ℕ
granted code =
    if code == 13 then 0xC3 else if code == 15 then 0xC7 else if code == 12 then 0xCB else 0xC1

bit-or-or : (k a b c : ℕ) → bit k (bit_or (bit_or a b) c) ≡ max (bit k a) (bit k (bit_or b c))
bit-or-or k a b c = omega (arith, bit-or k (bit_or a b) c, bit-or k a b, bit-or k b c)

-- The fixed entry has the bits that the entry had and those that its access needs, V, A, D, R, and
-- W or X, and no others.
pub bit-fix_entry :
    (code pte k : ℕ) → bit k (fix_entry code pte) ≡ max (bit k pte) (bit k (granted code))
unfolding fix_entry
bit-fix_entry code pte k = elim (Bool-cases (code == 13)) [
  | inl load ↦ rw (load, bit-or-or k pte 0xC1 2) refl
  | inr a ↦ elim (Bool-cases (code == 15)) [
    | inl write ↦ rw (a, write, bit-or-or k pte 0xC1 6) refl
    | inr b ↦ elim (Bool-cases (code == 12)) [
      | inl fetch ↦ rw (a, b, fetch, bit-or-or k pte 0xC1 10) refl
      | inr c ↦ rw (a, b, c, bit-or k pte 0xC1) refl
    ]
  ]
]

-- The frame of the fixed entry is the frame that it had.
pub fix_entry-frame : (code pte : ℕ) → fix_entry code pte / 2 ^ 10 ≡ pte / 2 ^ 10
unfolding fix_entry
fix_entry-frame code pte = ground (
  arith,
  or-high 10 pte 0xC1,
  or-high 10 (bit_or pte 0xC1) 2,
  or-high 10 (bit_or pte 0xC1) 6,
  or-high 10 (bit_or pte 0xC1) 10,
  or-zero (pte / 2 ^ 10),
  or-zero (bit_or pte 0xC1 / 2 ^ 10),
)

abbrev pub IsPageFault : ℕ → Type 0
IsPageFault code = (code ≡ 12) ⊎ (code ≡ 13) ⊎ (code ≡ 15)

pub fix_entry-is_valid : (code pte : ℕ) → is_valid (fix_entry code pte) ≡ true
fix_entry-is_valid code pte =
    ground (arith, is_valid-mod (fix_entry code pte), bit-fix_entry code pte 0)

pub fix_entry-is_leaf : (code pte : ℕ) → IsPageFault code → is_leaf (fix_entry code pte) ≡ true
fix_entry-is_leaf code pte h =
    ground (arith, is_leaf-mod (fix_entry code pte), bit-fix_entry code pte 1)

-- The page-fault handler finds in satp the root table that `mmu_enable_sv39` was given, if that is
-- page-aligned and below 2 ^ 56.
pub satp_root-satp_sv39 :
    (root : ℕ) → root < 2 ^ 56 → root % 4096 ≡ 0 → satp_root (satp_sv39 root) ≡ root
unfolding satp_root
satp_root-satp_sv39 root h a = omega (arith, and-mask 44 (satp_sv39 root), satp_sv39-sum root h)
