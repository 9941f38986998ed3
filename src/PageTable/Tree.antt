-- ===== src/PageTable/Tree.antt =====
-- What the tables of smode.c mean: the Sv39 walk by recursion on the level, and the shape that
-- `pt_setup_identity_kernel` and `pt_map_page` give to the pool's pages.
pub mod Lookup
pub mod Ensure
pub mod Ensured
pub mod Write
pub mod Outside
use zephyr_riscv_test_suite.Prelude.{
  ℕ, zero, suc, ◌+◌, ◌*◌, ◌/◌, ◌%◌, ◌^◌, ◌<◌, ◌≡◌, Option, none, some, true, false, Bool, ◌&&◌,
  ◌==◌, if◌then◌else◌, arith,
}
use zephyr_riscv_test_suite.PageTable.{
  Memory, Tables, entry, is_valid, is_leaf, pte_table, pt_walk, page,
}

-- The index of level `k` in a virtual address.
abbrev pub vpn : ℕ → ℕ → ℕ
vpn k va = va / 2 ^ (12 + 9 * k) % 512

pub vpn-lt : (k va : ℕ) → vpn k va < 512
vpn-lt k va = omega arith

-- A valid entry and the level that it stands at.
abbrev pub Mapping : Type 0
Mapping = Option (ℕ × ℕ)

abbrev pub valid_at : ℕ → ℕ → Mapping
valid_at k pte = if is_valid pte then some (pte, k) else none

-- The Sv39 walk from a table of level `k`: down to a leaf, to an invalid entry, or to level 0.
unfoldable pub lookup : ℕ → Memory → ℕ → ℕ → Mapping
lookup zero m table va = valid_at 0 (m (entry table (vpn zero va)))
lookup (suc k) m table va =
    let pte = m (entry table (vpn (suc k) va)) in
    let below = lookup k m (pte_table pte) va in
    if is_valid pte then (if is_leaf pte then some (pte, suc k) else below) else none

-- What `pt_walk` finds: the entry that it points to, if that is valid.
unfoldable pub resolve : Memory → ℕ → ℕ → Mapping
resolve m root va = let w = pt_walk m root va in valid_at w.level (m w.at)

-- Two addresses have the same indices at the levels `k` to 0.
unfoldable pub agree : ℕ → ℕ → ℕ → Bool
agree zero a b = vpn zero a == vpn zero b
agree (suc k) a b = vpn (suc k) a == vpn (suc k) b && agree k a b

module _ (pool : ℕ) where
  -- Entry `i` of the pool's page `p` is a branch to page `next`, which has no other parent.
  pub record Child (s : Tables) (parent level : ℕ → ℕ) (p i : ℕ) : Type 0 where
    pub next : ℕ
    pub allocated : next < s.next_page
    pub points : pte_table (s.mem (entry (page pool p) i)) ≡ page pool next
    pub owned : parent next ≡ entry (page pool p) i
    pub below : level next + 1 ≡ level p

  -- The allocated pages form a tree under the page `root`: each has a level, and a page above
  -- level 0 has only leaves, invalid entries, and branches to pages one level down.
  pub record IsTree (s : Tables) (root : ℕ) : Type 0 where
    pub parent : ℕ → ℕ
    pub level : ℕ → ℕ
    pub root_allocated : root < s.next_page
    pub root_level : level root ≡ 2
    pub child :
        (p i : ℕ)
        → p < s.next_page
        → i < 512
        → 0 < level p
        → is_valid (s.mem (entry (page pool p) i)) ≡ true
        → is_leaf (s.mem (entry (page pool p) i)) ≡ false
        → Child s parent level p i
