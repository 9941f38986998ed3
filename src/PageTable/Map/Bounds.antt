-- ===== src/PageTable/Map/Bounds.antt =====
-- What `pt_map_page` may touch: the pages of the pool that are allocated when it is done.
use zephyr_riscv_test_suite.Prelude.{
  ℕ, ◌+◌, ◌%◌, ◌^◌, ◌<◌, ◌≤◌, ◌≡◌, ◌≢◌, ◌⊎◌, refl, ap, ◌∙◌, arith, Bool-cases, inl, inr, ==-ne,
}
use zephyr_riscv_test_suite.PageTable.{
  Tables, entry, is_valid, page, pt_map_page, ensure_table, pt_alloc_page,
}
use zephyr_riscv_test_suite.PageTable.Tree.{IsTree, vpn, vpn-lt}
use zephyr_riscv_test_suite.PageTable.Tree.Ensure.{clear_entries-outside}
use zephyr_riscv_test_suite.PageTable.Map.{
  NoSuperpage, s1, s2, first, second, p1, p0, mapped-written,
}

-- Before the pool, or behind its first `n` pages.
abbrev pub IsOutside : (pool n a : ℕ) → Type 0
IsOutside pool n a = (a < pool) ⊎ (page pool n ≤ a)

module _ (pool : ℕ) (s : Tables) (p i a : ℕ) (here : p < s.next_page) (small : i < 512) where
  abbrev ensured : Tables
  ensured = ensure_table pool (entry (page pool p) i) s

  apart : (n : ℕ) → s.next_page ≤ n → IsOutside pool n a → entry (page pool p) i ≢ a
  apart n le out hit = ground arith

  not_cleared :
      IsOutside pool (s.next_page + 1) a → (j : ℕ) → j < 512 → a ≢ entry (page pool s.next_page) j
  not_cleared out j h hit = ground arith

  -- A fresh table is all that is written beside the entry itself.
  ensure_table-outside : IsOutside pool ensured.next_page a → ensured.mem a ≡ s.mem a
  unfolding ensure_table pt_alloc_page
  ensure_table-outside out = elim (Bool-cases (is_valid (s.mem (entry (page pool p) i)))) [
    | inl there ↦ rw there refl
    | inr absent ↦
        let beyond : IsOutside pool (s.next_page + 1) a = rw absent at out in
        let elsewhere = apart (s.next_page + 1) (omega arith) beyond in
        rw (absent, ==-ne (entry (page pool p) i) a elsewhere)
          (clear_entries-outside 512 0 (page pool s.next_page) s.mem a
            (λ j low h. not_cleared beyond j (omega arith)))
  ]

module _ (pool : ℕ) (aligned : pool % 4096 ≡ 0) (s : Tables) {root : ℕ} (t : IsTree pool s root)
    (va : ℕ) (fits : page pool (s.next_page + 1) < 2 ^ 56)
    (clear_way : NoSuperpage s.mem (page pool root) va) (pa perm valid : ℕ) where
  abbrev after : Tables
  after = pt_map_page pool (page pool root) va pa perm valid s

  -- For an aligned pool with room for two more pages, tables that form a tree, and an address with no
  -- superpage on its way, `pt_map_page` allocates at most two pages and changes no word outside the
  -- pages that are allocated when it is done.
  pub pt_map_page-bounds :
      (s.next_page ≤ after.next_page)
      × (after.next_page ≤ s.next_page + 2)
      × ((a : ℕ) → IsOutside pool after.next_page a → after.mem a ≡ s.mem a)
  pt_map_page-bounds =
      let wrote = mapped-written pool aligned s t va fits clear_way pa perm valid in
      let one = first pool aligned s t va fits clear_way in
      let two = second pool aligned s t va fits clear_way in
      (
        omega (arith, one.grows, two.grows, pages),
        omega (arith, one.by_one, two.by_one, pages),
        λ a out.
            (let beyond : IsOutside pool mid2.next_page a = rw pages at out in
              ap (λ (m : Tables). m.mem a) wrote
              ∙ rw
                  (==-ne (entry (page pool bottom) (vpn 0 va)) a (
                    apart pool mid2 bottom (vpn 0 va) a two.child.allocated (vpn-lt 0 va)
                      mid2.next_page (omega arith) beyond))
                  refl
              ∙ ensure_table-outside pool mid1 below (vpn 1 va) a one.child.allocated (vpn-lt 1 va)
                  beyond
              ∙ ensure_table-outside pool s root (vpn 2 va) a t.root_allocated (vpn-lt 2 va)
                  (shrink mid2.next_page mid1.next_page a two.grows beyond)),
      )
    where
      mid1 : Tables
      mid1 = s1 pool aligned s t va fits clear_way

      mid2 : Tables
      mid2 = s2 pool aligned s t va fits clear_way

      below : ℕ
      below = p1 pool aligned s t va fits clear_way

      bottom : ℕ
      bottom = p0 pool aligned s t va fits clear_way

      pages : after.next_page ≡ mid2.next_page
      pages =
          ap (λ (m : Tables). m.next_page)
            (mapped-written pool aligned s t va fits clear_way pa perm valid)

      shrink : (n k a : ℕ) → k ≤ n → IsOutside pool n a → IsOutside pool k a
      shrink n k a le out = ground arith
