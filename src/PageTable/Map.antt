-- ===== src/PageTable/Map.antt =====
-- `pt_map_page` as an update of what the tables say, and its round trip with `pt_walk`.
pub mod Bounds
use zephyr_riscv_test_suite.Prelude.{
  ℕ, ◌+◌, ◌%◌, ◌^◌, ◌<◌, ◌≡◌, refl, sym, ap, ◌∙◌, arith, true, false, Bool-cases, inl, inr, ◌==◌,
  if◌then◌else◌, some,
}
use zephyr_riscv_test_suite.PageTable.{
  Tables, Memory, entry, is_valid, is_leaf, page, store, pte_leaf, pte_absent, pt_map_page,
  ensure_table,
}
use zephyr_riscv_test_suite.PageTable.Entries.{vpn2-mod, vpn1-mod, vpn0-mod}
use zephyr_riscv_test_suite.PageTable.Tree.{
  Mapping, lookup, resolve, IsTree, vpn, vpn-lt, agree, valid_at,
}
use zephyr_riscv_test_suite.PageTable.Tree.Lookup.{resolve-lookup}
use zephyr_riscv_test_suite.PageTable.Tree.Ensured.{Ensured, ensure_table-Ensured}
use zephyr_riscv_test_suite.PageTable.Tree.Write.{Leads, write-on, written-IsTree}

-- The entry that `pt_map_page` writes.
abbrev pub new_entry : ℕ → ℕ → ℕ → ℕ
new_entry pa perm valid = if valid == 0 then pte_absent pa perm else pte_leaf pa perm

-- On the way to `va` there is no leaf above level 0.
abbrev pub NoSuperpage : Memory → ℕ → ℕ → Type 0
NoSuperpage m root va = (pte k : ℕ) → lookup 2 m root va ≡ some (pte, k) → k ≡ 0

module _ (pool : ℕ) (aligned : pool % 4096 ≡ 0) (s : Tables) {root : ℕ}
    (t : IsTree pool s root) where
  module _ (va : ℕ) (fits : page pool (s.next_page + 1) < 2 ^ 56)
      (clear_way : NoSuperpage s.mem (page pool root) va) where
    abbrev pub s1 : Tables
    s1 = ensure_table pool (entry (page pool root) (vpn 2 va)) s

    no_leaf2 :
        is_valid (s.mem (entry (page pool root) (vpn 2 va))) ≡ true
        → is_leaf (s.mem (entry (page pool root) (vpn 2 va))) ≡ false
    unfolding lookup
    no_leaf2 v = ground (arith, clear_way (s.mem (entry (page pool root) (vpn 2 va))) 2)

    pub first : Ensured pool s t root (vpn 2 va) s1
    first =
        ensure_table-Ensured pool s t root (vpn 2 va) aligned (omega arith) t.root_allocated
          (vpn-lt 2 va) (omega (arith, t.root_level)) no_leaf2

    abbrev pub p1 : ℕ
    p1 = first.child.next

    -- The walk of `va` is now down at level 1, with the same outcome.
    at_level1 : lookup 1 s1.mem (page pool p1) va ≡ lookup 2 s.mem (page pool root) va
    at_level1 = step ∙ first.kept va
      where
        step : lookup 1 s1.mem (page pool p1) va ≡ lookup 2 s1.mem (page pool root) va
        step = unfold lookup in sym (rw (first.valid, first.branch, first.child.points) refl)

    no_leaf1 :
        is_valid (s1.mem (entry (page pool p1) (vpn 1 va))) ≡ true
        → is_leaf (s1.mem (entry (page pool p1) (vpn 1 va))) ≡ false
    no_leaf1 v = elim (Bool-cases (is_leaf pte)) [
      | inr branch ↦ branch
      | inl leaf ↦ absurd (ground (arith, clear_way pte 1 (sym at_level1 ∙ ends leaf)))
    ]
      where
        pte : ℕ
        pte = s1.mem (entry (page pool p1) (vpn 1 va))

        ends : is_leaf pte ≡ true → lookup 1 s1.mem (page pool p1) va ≡ some (pte, 1)
        ends leaf = unfold lookup in rw (v, leaf) refl

    abbrev pub s2 : Tables
    s2 = ensure_table pool (entry (page pool p1) (vpn 1 va)) s1

    p1_level : first.tree.level p1 ≡ 1
    p1_level = omega (arith, first.child.below, first.levels root t.root_allocated, t.root_level)

    pub second : Ensured pool s1 first.tree p1 (vpn 1 va) s2
    second =
        ensure_table-Ensured pool s1 first.tree p1 (vpn 1 va) aligned (omega (arith, first.by_one))
          first.child.allocated (vpn-lt 1 va) (omega (arith, p1_level)) no_leaf1

    abbrev pub p0 : ℕ
    p0 = second.child.next

    p0_level : second.tree.level p0 ≡ 0
    p0_level = omega (arith, second.child.below, second.levels p1 first.child.allocated, p1_level)

    root_entry :
        s2.mem (entry (page pool root) (vpn 2 va)) ≡ s1.mem (entry (page pool root) (vpn 2 va))
    root_entry =
        second.stays root (vpn 2 va) (omega (arith, first.grows, t.root_allocated)) (vpn-lt 2 va)
          first.valid

    -- The walk of `va` in the tables as they are before the last write.
    way : Leads pool s2 second.tree va p0 2 root
    way = (
      record {
        child = record {
          next = p1;
          allocated = omega (arith, first.child.allocated, second.grows);
          points = rw root_entry first.child.points;
          owned = second.parents p1 first.child.allocated ∙ first.child.owned;
          below = omega (
            arith,
            second.levels p1 first.child.allocated,
            second.levels root (omega (arith, first.grows, t.root_allocated)),
            first.child.below,
          );
        };
        valid = rw root_entry first.valid;
        branch = rw root_entry first.branch;
      },
      (record { child = second.child; valid = second.valid; branch = second.branch }, refl),
    )

    module _ (pa perm valid : ℕ) where
      abbrev mapped : Tables
      mapped = pt_map_page pool (page pool root) va pa perm valid s

      pub mapped-written : mapped ≡ record s2 {
        mem = store s2.mem (entry (page pool p0) (vpn 0 va)) (new_entry pa perm valid);
      }
      unfolding pt_map_page
      mapped-written =
          rw (vpn2-mod va, vpn1-mod va, vpn0-mod va, first.child.points, second.child.points) refl

      -- For an aligned pool with room for two more pages, tables that form a tree, and an address
      -- with no superpage on its way: after `pt_map_page`, every address of the page of `va`
      -- resolves to the entry that was asked for, if that is valid, and every other address
      -- resolves as before.
      pub resolve-pt_map_page :
          (x : ℕ)
          → resolve mapped.mem (page pool root) x ≡ (
              if agree 2 va x
              then valid_at 0 (new_entry pa perm valid)
              else resolve s.mem (page pool root) x)
      resolve-pt_map_page x =
          ap (λ (m : Tables). resolve m.mem (page pool root) x) mapped-written
          ∙ resolve-lookup _ (page pool root) x
          ∙ write-on pool s2 second.tree va p0 (new_entry pa perm valid) second.child.allocated
              p0_level 2 root x way second.tree.root_allocated second.tree.root_level
          ∙ ap (λ (o : Mapping). if agree 2 va x then valid_at 0 (new_entry pa perm valid) else o)
              (second.kept x ∙ first.kept x ∙ sym (resolve-lookup s.mem (page pool root) x))

      -- For an aligned pool with room for two more pages and an address with no superpage on its
      -- way, `pt_map_page` keeps the tables a tree.
      pub pt_map_page-IsTree : IsTree pool mapped root
      pt_map_page-IsTree = rw mapped-written (
          written-IsTree pool s2 second.tree va p0 (new_entry pa perm valid) second.child.allocated
            p0_level)
