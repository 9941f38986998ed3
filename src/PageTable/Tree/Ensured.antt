-- ===== src/PageTable/Tree/Ensured.antt =====
-- The allocation step of `pt_map_page` in both its cases: the table below an entry is there, every
-- other entry that was in use still is, and no address resolves otherwise.
use zephyr_riscv_test_suite.Prelude.{
  ℕ, ◌+◌, ◌%◌, ◌^◌, ◌≤◌, ◌<◌, ◌≡◌, inl, inr, refl, arith, true, false, Bool-cases,
}
use zephyr_riscv_test_suite.PageTable.{Tables, entry, is_valid, is_leaf, page, ensure_table}
use zephyr_riscv_test_suite.PageTable.Entries.{
  pte_branch-is_valid, pte_branch-is_leaf, pte_table-pte_branch,
}
use zephyr_riscv_test_suite.PageTable.Tree.{lookup, IsTree, Child}
use zephyr_riscv_test_suite.PageTable.Tree.Ensure.{
  after-next_page, after-slot, after-old, lookup-kept, after-IsTree,
}

module _ (pool : ℕ) (s : Tables) {root : ℕ} (t : IsTree pool s root) (p i : ℕ) where
  pub record Ensured (s' : Tables) : Type 0 where
    pub tree : IsTree pool s' root
    pub grows : s.next_page ≤ s'.next_page
    pub by_one : s'.next_page ≤ s.next_page + 1
    pub levels : (q : ℕ) → q < s.next_page → tree.level q ≡ t.level q
    pub parents : (q : ℕ) → q < s.next_page → tree.parent q ≡ t.parent q
    pub child : Child pool s' tree.parent tree.level p i
    pub valid : is_valid (s'.mem (entry (page pool p) i)) ≡ true
    pub branch : is_leaf (s'.mem (entry (page pool p) i)) ≡ false
    pub stays :
        (q j : ℕ)
        → q < s.next_page
        → j < 512
        → is_valid (s.mem (entry (page pool q) j)) ≡ true
        → s'.mem (entry (page pool q) j) ≡ s.mem (entry (page pool q) j)
    pub kept : (va : ℕ) → lookup 2 s'.mem (page pool root) va ≡ lookup 2 s.mem (page pool root) va

  module _ (aligned : pool % 4096 ≡ 0) (fits : page pool s.next_page < 2 ^ 56)
      (here : p < s.next_page) (small : i < 512) (above : 0 < t.level p)
      (no_leaf : is_valid (s.mem (entry (page pool p) i)) ≡ true
        → is_leaf (s.mem (entry (page pool p) i)) ≡ false) where
    abbrev slot : ℕ
    slot = entry (page pool p) i

    ensured_fresh : is_valid (s.mem slot) ≡ false → Ensured (ensure_table pool slot s)
    unfolding after-IsTree
    ensured_fresh absent =
        let at_slot = after-slot pool s aligned fits p i here small absent in
        let tree' = after-IsTree pool s aligned fits p i here small absent t above in
        let next = after-next_page pool s aligned fits p i here small absent in
        record {
          tree = tree';
          grows = omega arith;
          by_one = omega arith;
          levels = λ q h. ground arith;
          parents = λ q h. ground arith;
          child = record {
            next = s.next_page;
            allocated = omega arith;
            points = rw at_slot (pte_table-pte_branch (page pool s.next_page) fits (omega arith));
            owned = ground arith;
            below = ground arith;
          };
          valid = rw at_slot (pte_branch-is_valid (page pool s.next_page) fits);
          branch = rw at_slot (pte_branch-is_leaf (page pool s.next_page) fits);
          stays = λ q j h k v. elim (after-old pool s aligned fits p i here small absent q j h k) [
            | inl hit ↦ absurd (ground (arith, hit))
            | inr same ↦ same
          ];
          kept = λ va.
              lookup-kept pool s aligned fits p i here small absent t above 2 root va
                t.root_allocated t.root_level;
        }

    ensured_there : is_valid (s.mem slot) ≡ true → Ensured s
    ensured_there there = record {
      tree = t;
      grows = omega arith;
      by_one = omega arith;
      levels = λ q h. refl;
      parents = λ q h. refl;
      child = t.child p i here small above there (no_leaf there);
      valid = there;
      branch = no_leaf there;
      stays = λ q j h k v. refl;
      kept = λ va. refl;
    }

    ensure_table-there : is_valid (s.mem slot) ≡ true → ensure_table pool slot s ≡ s
    unfolding ensure_table
    ensure_table-there there = rw there refl

    pub ensure_table-Ensured : Ensured (ensure_table pool slot s)
    ensure_table-Ensured = elim (Bool-cases (is_valid (s.mem slot))) [
      | inl there ↦ rw (ensure_table-there there) (ensured_there there)
      | inr absent ↦ ensured_fresh absent
    ]
