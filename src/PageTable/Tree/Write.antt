-- ===== src/PageTable/Tree/Write.antt =====
-- A write into a table of level 0: the addresses of that one page resolve to what was written, all
-- others as before, and the tables are still a tree.
use zephyr_riscv_test_suite.Prelude.{
  ℕ, zero, suc, ◌<◌, ◌≡◌, ◌≢◌, inl, inr, refl, sym, ap, ◌∙◌, arith, true, false, Bool-cases, ◌==◌,
  ==_iff, ==-refl, ==-ne, if◌then◌else◌,
}
use zephyr_riscv_test_suite.PageTable.{Tables, Memory, entry, is_valid, is_leaf, page, store}
use zephyr_riscv_test_suite.PageTable.Tree.{lookup, IsTree, Child, vpn, vpn-lt, agree, valid_at}
use zephyr_riscv_test_suite.PageTable.Tree.Lookup.{lookup-same}

module _ (pool : ℕ) (s : Tables) {root : ℕ} (t : IsTree pool s root) (va target : ℕ) where
  -- A branch from page `p`, of level `k + 1`, on the way of `va`.
  pub record Branch (k p : ℕ) : Type 0 where
    pub child : Child pool s t.parent t.level p (vpn (suc k) va)
    pub valid : is_valid (s.mem (entry (page pool p) (vpn (suc k) va))) ≡ true
    pub branch : is_leaf (s.mem (entry (page pool p) (vpn (suc k) va))) ≡ false

  -- The walk of `va` goes from page `p`, of level `k`, down to page `target`.
  abbrev pub Leads : ℕ → ℕ → Type 0
  Leads zero p = p ≡ target
  Leads (suc k) p = (b : Branch k p) × Leads k b.child.next

  module _ (value : ℕ) (here : target < s.next_page) (bottom : t.level target ≡ 0) where
    abbrev slot : ℕ
    slot = entry (page pool target) (vpn zero va)

    abbrev written : Memory
    written = store s.mem slot value

    same-above :
        (q j : ℕ)
        → 0 < t.level q
        → j < 512
        → written (entry (page pool q) j) ≡ s.mem (entry (page pool q) j)
    same-above q j up h = elim (Bool-cases (slot == entry (page pool q) j)) [
      | inl hit ↦
          let same : q ≡ target = omega (arith, (==_iff slot (entry (page pool q) j)).0 hit) in
          absurd (ground arith)
      | inr miss ↦ rw miss refl
    ]

    one_parent :
        (p q : ℕ) {i j : ℕ}
        → i < 512
        → j < 512
        → (b : Child pool s t.parent t.level p i) (c : Child pool s t.parent t.level q j)
        → b.next ≡ c.next
        → p ≡ q
    one_parent p q {i} {j} h k b c join =
        let met : entry (page pool p) i ≡ entry (page pool q) j =
          sym b.owned ∙ ap t.parent join ∙ c.owned in
        omega arith

    -- The same table, reached twice, is reached through one index.
    one_index :
        (p : ℕ) {i j : ℕ}
        → (b : Child pool s t.parent t.level p i) (c : Child pool s t.parent t.level p j)
        → b.next ≡ c.next
        → i ≡ j
    one_index p {i} {j} b c join =
        let met : entry (page pool p) i ≡ entry (page pool p) j =
          sym b.owned ∙ ap t.parent join ∙ c.owned in
        omega arith

    -- A page of level `k` off the way of `va` reaches no table that was written.
    write-off :
        (k p q x : ℕ)
        → Leads k p
        → q < s.next_page
        → t.level q ≡ k
        → p ≢ q
        → lookup k written (page pool q) x ≡ lookup k s.mem (page pool q) x
    unfolding lookup
    write-off zero p q x way h e ne = elim (Bool-cases (slot == entry (page pool q) (vpn zero x))) [
      | inl hit ↦
          let same : target ≡ q = omega (
            arith,
            (==_iff slot (entry (page pool q) (vpn zero x))).0 hit,
            vpn-lt zero x,
            vpn-lt zero va,
          ) in
          absurd (ne (way ∙ same))
      | inr miss ↦ rw miss refl
    ]
    write-off (suc k) p q x way h e ne =
        let b = way.0.child in
        lookup-same pool s t written k q x h e
          (same-above q (vpn (suc k) x) (omega arith) (vpn-lt (suc k) x))
          (λ c.
            write-off k b.next c.next x way.1 c.allocated (omega (arith, c.below))
              (λ join. ne (one_parent p q (vpn-lt (suc k) va) (vpn-lt (suc k) x) b c join)))

    -- From a page on the way, the addresses of the page that was written to resolve to the new entry.
    pub write-on :
        (k p x : ℕ)
        → Leads k p
        → p < s.next_page
        → t.level p ≡ k
        → lookup k written (page pool p) x
          ≡ (if agree k va x then valid_at 0 value else lookup k s.mem (page pool p) x)
    unfolding lookup agree
    write-on zero p x way h e = elim (Bool-cases (vpn zero va == vpn zero x)) [
      | inl hit ↦
          let same : vpn zero va ≡ vpn zero x = (==_iff (vpn zero va) (vpn zero x)).0 hit in
          rw (hit, way, same, ==-refl (entry (page pool target) (vpn zero x))) refl
      | inr miss ↦
          rw (miss, way, ==-ne slot (entry (page pool target) (vpn zero x)) (λ e'. ground arith))
            refl
    ]
    write-on (suc k) p x way h e =
        let b = way.0 in
        let read : written (entry (page pool p) (vpn (suc k) x))
            ≡ s.mem (entry (page pool p) (vpn (suc k) x)) =
          same-above p (vpn (suc k) x) (omega arith) (vpn-lt (suc k) x) in
        elim (Bool-cases (vpn (suc k) va == vpn (suc k) x)) [
          | inl hit ↦
              let same : vpn (suc k) va ≡ vpn (suc k) x =
                (==_iff (vpn (suc k) va) (vpn (suc k) x)).0 hit in
              rw (read, hit, ← same, b.valid, b.branch, b.child.points)
                (write-on k b.child.next x way.1 b.child.allocated (omega (arith, b.child.below)))
          | inr miss ↦ rw miss (
              lookup-same pool s t written k p x h e read (λ c.
                write-off k b.child.next c.next x way.1 c.allocated (omega (arith, c.below))
                  (λ join. ground (arith, one_index p b.child c join))))
        ]

    pub written-IsTree : IsTree pool (record s { mem = written }) root
    written-IsTree = record {
      parent = t.parent;
      level = t.level;
      root_allocated = t.root_allocated;
      root_level = t.root_level;
      child = λ q j h k up valid branch.
          let same = same-above q j up k in
          let c = t.child q j h k up (rw same at valid) (rw same at branch) in
          record {
            next = c.next;
            allocated = c.allocated;
            points = rw same c.points;
            owned = c.owned;
            below = c.below;
          };
    }
