-- ===== src/PageTable/Entries.antt =====
-- Page-table entries as numbers: what the tests read, and the round trips.
use zephyr_riscv_test_suite.Prelude.{
  ℕ, ◌+◌, ◌-◌, ◌*◌, ◌/◌, ◌%◌, ◌^◌, ◌<◌, ◌≡◌, refl, ◌∙◌, ap, arith, true, false, not, ◌==◌, bit_and,
  bit_or,
}
use zephyr_riscv_test_suite.Word.Bits.{or-digit, and-digit, or-add, or-lt, or-low, and-mask}
use zephyr_riscv_test_suite.PageTable.{
  vpn2, vpn1, vpn0, pt_ppn, pte_branch, pte_leaf, pte_absent, is_valid, is_leaf, pte_table,
  satp_sv39,
}

pub and-one : (x : ℕ) → bit_and x 1 ≡ x % 2
and-one x = and-mask 1 x

pub is_valid-mod : (x : ℕ) → is_valid x ≡ (x % 2 == 1)
unfolding is_valid
is_valid-mod x = ground (arith, and-one x)

and-fourteen : (x : ℕ) → bit_and x 14 ≡ 2 * (x / 2 % 8)
and-fourteen x = omega (arith, and-digit x 14, and-mask 3 (x / 2))

pub is_leaf-mod : (x : ℕ) → is_leaf x ≡ not (x / 2 % 8 == 0)
unfolding is_leaf
is_leaf-mod x = ground (arith, and-fourteen x)

pub vpn2-mod : (va : ℕ) → vpn2 va ≡ va / 2 ^ 30 % 512
unfolding vpn2
vpn2-mod va = and-mask 9 (va / 2 ^ 30)

pub vpn1-mod : (va : ℕ) → vpn1 va ≡ va / 2 ^ 21 % 512
unfolding vpn1
vpn1-mod va = and-mask 9 (va / 2 ^ 21)

pub vpn0-mod : (va : ℕ) → vpn0 va ≡ va / 2 ^ 12 % 512
unfolding vpn0
vpn0-mod va = and-mask 9 (va / 2 ^ 12)

pub vpn2-lt : (va : ℕ) → vpn2 va < 512
vpn2-lt va = omega (arith, vpn2-mod va)

pub vpn1-lt : (va : ℕ) → vpn1 va < 512
vpn1-lt va = omega (arith, vpn1-mod va)

pub vpn0-lt : (va : ℕ) → vpn0 va < 512
vpn0-lt va = omega (arith, vpn0-mod va)

-- A branch entry is valid, is no leaf, and points back to the table that it was made from.
pub pte_branch-sum : (t : ℕ) → t < 2 ^ 56 → pte_branch t ≡ t / 4096 * 1024 + 1
unfolding pte_branch pt_ppn
pte_branch-sum t h = ap (λ (x : ℕ). bit_or x 1) (omega arith) ∙ or-add 10 (t / 4096) 1 (omega arith)

pub pte_branch-is_valid : (t : ℕ) → t < 2 ^ 56 → is_valid (pte_branch t) ≡ true
pte_branch-is_valid t h = ground (arith, is_valid-mod (pte_branch t), pte_branch-sum t h)

pub pte_branch-is_leaf : (t : ℕ) → t < 2 ^ 56 → is_leaf (pte_branch t) ≡ false
pte_branch-is_leaf t h = ground (arith, is_leaf-mod (pte_branch t), pte_branch-sum t h)

pub pte_table-pte_branch : (t : ℕ) → t < 2 ^ 56 → t % 4096 ≡ 0 → pte_table (pte_branch t) ≡ t
unfolding pte_table
pte_table-pte_branch t h a = omega (arith, pte_branch-sum t h)

-- A leaf entry is its frame number over its flags.
abbrev pub leaf_flags : ℕ → ℕ
leaf_flags perm = bit_or (bit_or (bit_or perm 1) 64) 128

pub leaf_flags-lt : (perm : ℕ) → perm < 1024 → leaf_flags perm < 1024
leaf_flags-lt perm h =
    or-lt 10 (bit_or (bit_or perm 1) 64) 128
      (or-lt 10 (bit_or perm 1) 64 (or-lt 10 perm 1 h (omega arith)) (omega arith)) (omega arith)

pub pte_leaf-sum :
    (pa perm : ℕ)
    → pa < 2 ^ 56
    → perm < 1024
    → pte_leaf pa perm ≡ pa / 4096 * 1024 + leaf_flags perm
unfolding pte_leaf
pte_leaf-sum pa perm h k =
    let q = pa / 4096 in
    let frame : pa / 2 ^ 12 * 2 ^ 10 % 2 ^ 64 ≡ q * 2 ^ 10 = omega arith in
    let a : perm < 2 ^ 10 = k in
    let b : bit_or perm 1 < 2 ^ 10 = or-lt 10 perm 1 k (omega arith) in
    let c : bit_or (bit_or perm 1) 64 < 2 ^ 10 = or-lt 10 (bit_or perm 1) 64 b (omega arith) in
    rw
      (
        frame,
        or-add 10 q perm a,
        or-low 10 q perm 1 a (omega arith),
        or-low 10 q (bit_or perm 1) 64 b (omega arith),
        or-low 10 q (bit_or (bit_or perm 1) 64) 128 c (omega arith),
      )
      refl

pub pte_absent-even : (pa perm : ℕ) → pte_absent pa perm % 2 ≡ 0
unfolding pte_absent
pte_absent-even pa perm = omega (
  arith,
  or-digit (pa / 2 ^ 12 * 2 ^ 10 % 2 ^ 64) (bit_and perm (2 ^ 64 - 1 - 1)),
  and-digit perm (2 ^ 64 - 1 - 1),
)

leaf_flags-odd : (perm : ℕ) → leaf_flags perm % 2 ≡ 1
leaf_flags-odd perm =
    omega (
      arith,
      or-digit (bit_or (bit_or perm 1) 64) 128,
      or-digit (bit_or perm 1) 64,
      or-digit perm 1,
    )

pub pte_leaf-is_valid :
    (pa perm : ℕ) → pa < 2 ^ 56 → perm < 1024 → is_valid (pte_leaf pa perm) ≡ true
pte_leaf-is_valid pa perm h k =
    ground (arith, is_valid-mod (pte_leaf pa perm), pte_leaf-sum pa perm h k, leaf_flags-odd perm)

pub pte_absent-is_valid : (pa perm : ℕ) → is_valid (pte_absent pa perm) ≡ false
pte_absent-is_valid pa perm =
    ground (arith, is_valid-mod (pte_absent pa perm), pte_absent-even pa perm)

-- The satp value that enables Sv39 has mode 8 and names the root table.
pub satp_sv39-sum : (root : ℕ) → root < 2 ^ 56 → satp_sv39 root ≡ 8 * 2 ^ 60 + root / 4096
unfolding satp_sv39 pt_ppn
satp_sv39-sum root h = or-add 60 8 (root / 4096) (omega arith)
