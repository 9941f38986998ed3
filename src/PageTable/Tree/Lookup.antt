-- ===== src/PageTable/Tree/Lookup.antt =====
-- `pt_walk` against the recursive walk.
use zephyr_riscv_test_suite.Prelude.{
  ℕ, zero, suc, ◌<◌, ◌≡◌, refl, arith, true, false, Bool-cases, inl, inr, ==-refl, ==-ne, ◌≢◌, sym,
  ◌∙◌, some, ◌≤◌, if◌then◌else◌,
}
use zephyr_riscv_test_suite.PageTable.{
  Memory, Place, store, Tables, page, entry, is_valid, is_leaf, pte_table, pt_walk,
}
use zephyr_riscv_test_suite.PageTable.Entries.{vpn2-mod, vpn1-mod, vpn0-mod}
use zephyr_riscv_test_suite.PageTable.Tree.{lookup, resolve, vpn, vpn-lt, IsTree, Child}

-- In any memory, the entry that `pt_walk` finds for an address, if it is valid, is the result of the
-- Sv39 walk by recursion on the level.
pub resolve-lookup : (m : Memory) (root va : ℕ) → resolve m root va ≡ lookup 2 m root va
unfolding lookup resolve pt_walk
resolve-lookup m root va = rw (vpn2-mod va, vpn1-mod va, vpn0-mod va) (ground arith)

-- Two memories that agree at the entry of `x` in a page, and below its tables, agree on `x` there.
pub lookup-same :
    (pool : ℕ) (s : Tables) {root : ℕ} (t : IsTree pool s root) (m : Memory) (k p x : ℕ)
    → p < s.next_page
    → t.level p ≡ suc k
    → m (entry (page pool p) (vpn (suc k) x)) ≡ s.mem (entry (page pool p) (vpn (suc k) x))
    → ((c : Child pool s t.parent t.level p (vpn (suc k) x))
        → lookup k m (page pool c.next) x ≡ lookup k s.mem (page pool c.next) x)
    → lookup (suc k) m (page pool p) x ≡ lookup (suc k) s.mem (page pool p) x
unfolding lookup
lookup-same pool s t m k p x h e read below =
    let pte = s.mem (entry (page pool p) (vpn (suc k) x)) in
    rw read (elim (Bool-cases (is_valid pte)) [
      | inr invalid ↦ rw invalid refl
      | inl valid ↦ elim (Bool-cases (is_leaf pte)) [
        | inl leaf ↦ rw (valid, leaf) refl
        | inr branch ↦
            let c = t.child p (vpn (suc k) x) h (vpn-lt (suc k) x) (omega arith) valid branch in
            rw (valid, branch, c.points) (below c)
      ]
    ])

-- The place that the walk ends at, by recursion on the level.
unfoldable pub locate : ℕ → Memory → ℕ → ℕ → Place
locate zero m table va = record { at = entry table (vpn zero va); level = 0 }
locate (suc k) m table va =
    let here = entry table (vpn (suc k) va) in
    let pte = m here in
    let below = locate k m (pte_table pte) va in
    if is_valid pte
    then (if is_leaf pte then record { at = here; level = suc k } else below)
    else record { at = here; level = suc k }

pub pt_walk-locate : (m : Memory) (root va : ℕ) → pt_walk m root va ≡ locate 2 m root va
unfolding locate pt_walk
pt_walk-locate m root va = rw (vpn2-mod va, vpn1-mod va, vpn0-mod va) (ground arith)

module _ (pool : ℕ) (s : Tables) {root : ℕ} (t : IsTree pool s root) (x : ℕ) where
  -- The place is an entry of an allocated page of at most the level that the walk started from.
  pub record Placed (k : ℕ) (w : Place) : Type 0 where
    pub in_page : ℕ
    pub index : ℕ
    pub allocated : in_page < s.next_page
    pub small : index < 512
    pub below : t.level in_page ≤ k
    pub found : w.at ≡ entry (page pool in_page) index

  pub locate-Placed :
      (k p : ℕ) → p < s.next_page → t.level p ≡ k → Placed k (locate k s.mem (page pool p) x)
  unfolding locate
  locate-Placed zero p h e = record {
    in_page = p;
    index = vpn zero x;
    allocated = h;
    small = vpn-lt zero x;
    below = omega arith;
    found = refl;
  }
  locate-Placed (suc k) p h e = elim (Bool-cases (is_valid pte)) [
    | inr invalid ↦ rw invalid here
    | inl valid ↦ elim (Bool-cases (is_leaf pte)) [
      | inl leaf ↦ rw (valid, leaf) here
      | inr branch ↦
          let c = t.child p (vpn (suc k) x) h (vpn-lt (suc k) x) (omega arith) valid branch in
          let r = locate-Placed k c.next c.allocated (omega (arith, c.below)) in
          rw (valid, branch, c.points)
            (record {
              in_page = r.in_page;
              index = r.index;
              allocated = r.allocated;
              small = r.small;
              below = omega (arith, r.below);
              found = r.found;
            })
    ]
  ]
    where
      pte : ℕ
      pte = s.mem (entry (page pool p) (vpn (suc k) x))

      here : Placed (suc k) (record { at = entry (page pool p) (vpn (suc k) x); level = suc k })
      here = record {
        in_page = p;
        index = vpn (suc k) x;
        allocated = h;
        small = vpn-lt (suc k) x;
        below = omega arith;
        found = refl;
      }

  module _ (v : ℕ) (valid : is_valid v ≡ true) (leaf : is_leaf v ≡ true) where
    -- The walk of the address ends where a valid leaf has just been written.
    abbrev Ends : ℕ → ℕ → Place → Type 0
    Ends k p w = lookup k (store s.mem w.at v) (page pool p) x ≡ some (v, w.level)

    Ends-here :
        (k p : ℕ)
        → Ends (suc k) p (record { at = entry (page pool p) (vpn (suc k) x); level = suc k })
    unfolding lookup
    Ends-here k p = rw (==-refl (entry (page pool p) (vpn (suc k) x)), valid, leaf) refl

    Ends-below :
        (k p : ℕ) (w : Place) (c : Child pool s t.parent t.level p (vpn (suc k) x))
        → is_valid (s.mem (entry (page pool p) (vpn (suc k) x))) ≡ true
        → is_leaf (s.mem (entry (page pool p) (vpn (suc k) x))) ≡ false
        → w.at ≢ entry (page pool p) (vpn (suc k) x)
        → Ends k c.next w
        → Ends (suc k) p w
    unfolding lookup
    Ends-below k p w c there branch ne e =
        rw (==-ne w.at (entry (page pool p) (vpn (suc k) x)) ne, there, branch, c.points) e

    -- A valid leaf, written where the walk of an address ends, is what the address resolves to.
    pub lookup-located :
        (k p : ℕ) → p < s.next_page → t.level p ≡ k → Ends k p (locate k s.mem (page pool p) x)
    unfolding locate
    lookup-located zero p h e =
        unfold lookup in rw (==-refl (entry (page pool p) (vpn zero x)), valid) refl
    lookup-located (suc k) p h e = elim (Bool-cases (is_valid pte)) [
      | inr invalid ↦ rw invalid (Ends-here k p)
      | inl there ↦ elim (Bool-cases (is_leaf pte)) [
        | inl ends ↦ rw (there, ends) (Ends-here k p)
        | inr branch ↦
            let c = t.child p (vpn (suc k) x) h (vpn-lt (suc k) x) (omega arith) there branch in
            let level : t.level c.next ≡ k = omega (arith, c.below) in
            let r = locate-Placed k c.next c.allocated level in
            rw (there, branch, c.points)
              (Ends-below k p (locate k s.mem (page pool c.next) x) c there branch
                (λ hit. apart r (sym r.found ∙ hit)) (lookup-located k c.next c.allocated level))
      ]
    ]
      where
        pte : ℕ
        pte = s.mem (entry (page pool p) (vpn (suc k) x))

        apart :
            {w : Place} (r : Placed k w)
            → entry (page pool r.in_page) r.index ≢ entry (page pool p) (vpn (suc k) x)
        apart r hit =
            let same : r.in_page ≡ p = omega (arith, r.small, vpn-lt (suc k) x) in
            absurd (ground (arith, r.below))
