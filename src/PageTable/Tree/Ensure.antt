-- ===== src/PageTable/Tree/Ensure.antt =====
-- `pt_alloc_page` and the allocation step of `pt_map_page`: a cleared page is hung below an invalid
-- entry, and no address resolves otherwise than before.
use zephyr_riscv_test_suite.Prelude.{
  ℕ, zero, suc, ◌+◌, ◌-◌, ◌%◌, ◌^◌, ◌≤◌, ◌<◌, ◌≡◌, ◌≢◌, refl, ◌∙◌, arith, true, false, inl, inr,
  ◌⊎◌, none, ◌==◌, if◌then◌else◌, dec_lt,
}
use zephyr_riscv_test_suite.PageTable.{
  Memory, Tables, entry, is_valid, is_leaf, pte_branch, clear_entries, page, pt_alloc_page,
  ensure_table, store,
}
use zephyr_riscv_test_suite.PageTable.Entries.{
  pte_branch-is_valid, pte_branch-is_leaf, pte_table-pte_branch, is_valid-mod,
}
use zephyr_riscv_test_suite.PageTable.Tree.{lookup, vpn, IsTree, Child, vpn-lt}
use zephyr_riscv_test_suite.PageTable.Tree.Lookup.{lookup-same}

pub is_valid-zero : is_valid 0 ≡ false
is_valid-zero = is_valid-mod 0

-- The clearing loop writes 0 to its entries and leaves every other word alone.
pub clear_entries-outside :
    (left i : ℕ) (t : ℕ) (m : Memory) (a : ℕ)
    → ((j : ℕ) → i ≤ j → j < i + left → a ≢ entry t j)
    → clear_entries left i t m a ≡ m a
unfolding clear_entries
clear_entries-outside zero i t m a h = refl
clear_entries-outside (suc left) i t m a h =
    clear_entries-outside left (i + 1) t (store m (entry t i) 0) a
      (λ j l k. h j (omega arith) (omega arith))
    ∙ ground (arith, h i (omega arith) (omega arith))

clear_entries-inside :
    (left i : ℕ) (t : ℕ) (m : Memory) (j : ℕ)
    → i ≤ j
    → j < i + left
    → clear_entries left i t m (entry t j) ≡ 0
unfolding clear_entries
clear_entries-inside zero i t m j h k = absurd (omega arith)
clear_entries-inside (suc left) i t m j h k = elim (dec_lt i j) [
  | yes above ↦
      clear_entries-inside left (i + 1) t (store m (entry t i) 0) j (omega arith) (omega arith)
  | no here ↦
      clear_entries-outside left (i + 1) t (store m (entry t i) 0) (entry t j)
        (λ l p q. omega arith)
      ∙ ground arith
]

module _ (pool : ℕ) (s : Tables) (aligned : pool % 4096 ≡ 0)
    (fits : page pool s.next_page < 2 ^ 56) where
  abbrev pub cleared : Memory
  cleared = (pt_alloc_page pool s).rest.mem

  pub cleared-new : (j : ℕ) → j < 512 → cleared (entry (page pool s.next_page) j) ≡ 0
  unfolding pt_alloc_page
  cleared-new j h = clear_entries-inside 512 0 (page pool s.next_page) s.mem j (omega arith) h

  cleared-old :
      (p j : ℕ)
      → p < s.next_page
      → j < 512
      → cleared (entry (page pool p) j) ≡ s.mem (entry (page pool p) j)
  unfolding pt_alloc_page
  cleared-old p j h k =
      clear_entries-outside 512 0 (page pool s.next_page) s.mem (entry (page pool p) j)
        (λ i a b. omega arith)

  module _ (p i : ℕ) (here : p < s.next_page) (small : i < 512) where
    abbrev pub slot : ℕ
    slot = entry (page pool p) i

    abbrev pub after : Tables
    after = ensure_table pool slot s

    module _ (absent : is_valid (s.mem slot) ≡ false) where
      after-mem : after.mem ≡ store cleared slot (pte_branch (page pool s.next_page))
      unfolding ensure_table pt_alloc_page
      after-mem = rw absent

      pub after-next_page : after.next_page ≡ s.next_page + 1
      unfolding ensure_table pt_alloc_page
      after-next_page = rw absent

      pub after-slot : after.mem slot ≡ pte_branch (page pool s.next_page)
      after-slot = rw after-mem (ground arith)

      after-new : (j : ℕ) → j < 512 → after.mem (entry (page pool s.next_page) j) ≡ 0
      after-new j h = rw after-mem (ground (arith, cleared-new j h))

      pub after-old :
          (q j : ℕ)
          → q < s.next_page
          → j < 512
          → (entry (page pool q) j ≡ slot)
            ⊎ (after.mem (entry (page pool q) j) ≡ s.mem (entry (page pool q) j))
      after-old q j h k = rw after-mem (ground (arith, cleared-old q j h k))

      lookup-new : (k va : ℕ) → lookup k after.mem (page pool s.next_page) va ≡ none
      unfolding lookup
      lookup-new zero va = rw (after-new (vpn zero va) (omega arith), is_valid-zero) refl
      lookup-new (suc k) va =
          rw (after-new (vpn (suc k) va) (vpn-lt (suc k) va), is_valid-zero) refl

      module _ {root : ℕ} (t : IsTree pool s root) (above : 0 < t.level p) where
        -- Every table resolves each address as it did.
        pub lookup-kept :
            (k q va : ℕ)
            → q < s.next_page
            → t.level q ≡ k
            → lookup k after.mem (page pool q) va ≡ lookup k s.mem (page pool q) va
        unfolding lookup
        lookup-kept zero q va h e = elim (after-old q (vpn zero va) h (vpn-lt zero va)) [
          | inl hit ↦ let same : q ≡ p = omega (arith, vpn-lt zero va) in absurd (ground arith)
          | inr kept ↦ rw kept refl
        ]
        lookup-kept (suc k) q va h e = elim (after-old q (vpn (suc k) va) h (vpn-lt (suc k) va)) [
          | inl hit ↦
              rw
                (
                  hit,
                  after-slot,
                  absent,
                  pte_branch-is_valid (page pool s.next_page) fits,
                  pte_branch-is_leaf (page pool s.next_page) fits,
                  pte_table-pte_branch (page pool s.next_page) fits (omega arith),
                  lookup-new k va,
                )
                refl
          | inr kept ↦
              lookup-same pool s t after.mem k q va h e kept
                (λ c. lookup-kept k c.next va c.allocated (omega (arith, c.below)))
        ]

        abbrev pub parent' : ℕ → ℕ
        parent' q = if q == s.next_page then slot else t.parent q

        abbrev pub level' : ℕ → ℕ
        level' q = if q == s.next_page then t.level p - 1 else t.level q

        pub child' :
            (q j : ℕ)
            → q < after.next_page
            → j < 512
            → 0 < level' q
            → is_valid (after.mem (entry (page pool q) j)) ≡ true
            → is_leaf (after.mem (entry (page pool q) j)) ≡ false
            → Child pool after parent' level' q j
        child' q j h k l valid branch = elim (dec_lt q s.next_page) [
          | yes old ↦ elim (after-old q j old k) [
            | inl hit ↦
                let same : q ≡ p = omega arith in
                record {
                  next = s.next_page;
                  allocated = omega (arith, after-next_page);
                  points =
                      rw (hit, after-slot)
                        (pte_table-pte_branch (page pool s.next_page) fits (omega arith));
                  owned = ground arith;
                  below = ground arith;
                }
            | inr kept ↦
                let c = t.child q j old k (ground arith) (rw kept at valid) (rw kept at branch) in
                record {
                  next = c.next;
                  allocated = omega (arith, after-next_page, c.allocated);
                  points = rw kept c.points;
                  owned = ground (arith, c.owned, c.allocated);
                  below = ground (arith, c.below, c.allocated);
                }
          ]
          | no new ↦
              let last : q ≡ s.next_page = omega (arith, after-next_page) in
              absurd (ground (arith, last, after-new j k, is_valid-zero))
        ]

        pub root_level' : level' root ≡ 2
        root_level' = ground (arith, t.root_level, t.root_allocated)

        pub root_allocated' : root < after.next_page
        root_allocated' = omega (arith, after-next_page, t.root_allocated)

        unfoldable pub after-IsTree : IsTree pool after root
        after-IsTree = record {
          parent = parent';
          level = level';
          root_allocated = root_allocated';
          root_level = root_level';
          child = child';
        }
