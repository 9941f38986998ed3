-- ===== src/PageTable/Tree/Outside.antt =====
-- A write behind the pool's allocated pages, such as that of the trap frame.
use zephyr_riscv_test_suite.Prelude.{ℕ, ◌<◌, ◌≤◌, ◌≡◌, refl, arith, ==-ne}
use zephyr_riscv_test_suite.PageTable.{Tables, entry, page, store}
use zephyr_riscv_test_suite.PageTable.Tree.{IsTree}

module _ (pool : ℕ) (s : Tables) (a v : ℕ) (behind : page pool s.next_page ≤ a) where
  abbrev pub written : Tables
  written = record s { mem = store s.mem a v }

  same_entry :
      (p i : ℕ)
      → p < s.next_page
      → i < 512
      → written.mem (entry (page pool p) i) ≡ s.mem (entry (page pool p) i)
  same_entry p i h k = rw (==-ne a (entry (page pool p) i) (omega arith)) refl

  pub outside-IsTree : {root : ℕ} → IsTree pool s root → IsTree pool written root
  outside-IsTree t = record {
    parent = t.parent;
    level = t.level;
    root_allocated = t.root_allocated;
    root_level = t.root_level;
    child = λ p i h k up valid branch.
        let c =
          t.child p i h k up (rw (same_entry p i h k) at valid)
            (rw (same_entry p i h k) at branch) in
        record {
          next = c.next;
          allocated = c.allocated;
          points = rw (same_entry p i h k) c.points;
          owned = c.owned;
          below = c.below;
        };
  }
