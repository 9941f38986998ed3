-- ===== src/PageTable.antt =====
-- The Sv39 page tables of baremetal/common/smode.c (lines 145 to 216): the page pool, the entries,
-- `pt_setup_identity_kernel`, `pt_map_page` and `pt_walk`. Memory is a function from the address
-- of an aligned 64-bit word to its value. The pool's address is a linker symbol, hence a parameter.
-- The index of the next free page is a plain number: the source's `int` does not overflow below
-- 2 ^ 31 pages.
pub mod Entries
pub mod Tree
pub mod Map
pub mod Setup
use zephyr_riscv_test_suite.Prelude.{
  ℕ, zero, suc, ◌+◌, ◌-◌, ◌*◌, ◌/◌, ◌%◌, ◌^◌, Bool, true, false, not, ◌&&◌, ◌==◌, if◌then◌else◌,
}
use zephyr_riscv_test_suite.Word.{◌<<◌, ◌>>◌, ◌∣∣◌, ◌&◌, complement}
use zephyr_riscv_test_suite.Platform.{
  pgshift, ptes_per_pt, pte_ppn_shift, pte_v, pte_r, pte_w, pte_x, pte_a, pte_d, sram_base,
  gigapage_size, satp_mode_sv39, satp_mode_shift,
}

abbrev pub Memory : Type 0
Memory = ℕ → ℕ

abbrev pub store : Memory → ℕ → ℕ → Memory
store m a v b = if a == b then v else m b

pub record Tables : Type 0 where
  pub mem : Memory
  pub next_page : ℕ  -- pt_pool_next_page

-- `&table[i]` for a table of 64-bit entries.
abbrev pub entry : ℕ → ℕ → ℕ
entry table i = table + 8 * i

unfoldable pub vpn2 : ℕ → ℕ
vpn2 va = (va >> 30) & 0x1FF

unfoldable pub vpn1 : ℕ → ℕ
vpn1 va = (va >> 21) & 0x1FF

unfoldable pub vpn0 : ℕ → ℕ
vpn0 va = (va >> 12) & 0x1FF

unfoldable pub pt_ppn : ℕ → ℕ
pt_ppn table = table >> pgshift

unfoldable pub pte_branch : ℕ → ℕ
pte_branch child = pt_ppn child << pte_ppn_shift ∣∣ pte_v

unfoldable pub pte_leaf : ℕ → ℕ → ℕ
pte_leaf phys_addr perm = phys_addr >> pgshift << pte_ppn_shift ∣∣ perm ∣∣ pte_v ∣∣ pte_a ∣∣ pte_d

-- What `pt_map_page` writes for a page that is to fault: the frame and the permissions, V clear.
unfoldable pub pte_absent : ℕ → ℕ → ℕ
pte_absent pa perm = pa >> pgshift << pte_ppn_shift ∣∣ perm & complement pte_v

-- `pte & PTE_V`, and `pte & (PTE_R | PTE_W | PTE_X)`, as tests.
unfoldable pub is_valid : ℕ → Bool
is_valid pte = not (pte & pte_v == 0)

unfoldable pub is_leaf : ℕ → Bool
is_leaf pte = not (pte & (pte_r ∣∣ pte_w ∣∣ pte_x) == 0)

-- The table that a branch entry points to.
unfoldable pub pte_table : ℕ → ℕ
pte_table pte = pte >> pte_ppn_shift << pgshift

-- The loop of `pt_alloc_page`, with `left` rounds to go at index `i`.
unfoldable pub clear_entries : ℕ → ℕ → ℕ → Memory → Memory
clear_entries zero i page m = m
clear_entries (suc left) i page m = clear_entries left (i + 1) page (store m (entry page i) 0)

unfoldable pub pt_reset : Tables → Tables
pt_reset s = record s { next_page = 0 }

pub record Place : Type 0 where
  pub at : ℕ  -- the address of an entry
  pub level : ℕ

unfoldable pub pt_walk : Memory → ℕ → ℕ → Place
pt_walk m root va =
    let e2 = entry root (vpn2 va) in
    let pte2 = m e2 in
    if is_valid pte2 && is_leaf pte2
    then record { at = e2; level = 2 }
    else if not (is_valid pte2)
    then record { at = e2; level = 2 }
    else (let e1 = entry (pte_table pte2) (vpn1 va) in
        let pte1 = m e1 in
        if is_valid pte1 && is_leaf pte1
        then record { at = e1; level = 1 }
        else if not (is_valid pte1)
        then record { at = e1; level = 1 }
        else record { at = entry (pte_table pte1) (vpn0 va); level = 0 })

module _ (pool : ℕ) where
  -- The address of the pool's page `p`.
  abbrev pub page : ℕ → ℕ
  page p = pool + p * ptes_per_pt * 8

  unfoldable pub pt_alloc_page : Tables → record { table : ℕ; rest : Tables }
  pt_alloc_page s = record {
    table = page s.next_page;
    rest = record {
      mem = clear_entries ptes_per_pt 0 (page s.next_page) s.mem;
      next_page = s.next_page + 1;
    };
  }

  -- `if (!(*e & PTE_V)) { *e = pte_branch(pt_alloc_page()); }`, at both levels of `pt_map_page`.
  unfoldable pub ensure_table : ℕ → Tables → Tables
  ensure_table e s =
      if not (is_valid (s.mem e))
      then (let fresh = pt_alloc_page s in
          record {
            mem = store fresh.rest.mem e (pte_branch fresh.table);
            next_page = fresh.rest.next_page;
          })
      else s

  unfoldable pub pt_map_page : ℕ → ℕ → ℕ → ℕ → ℕ → Tables → Tables
  pt_map_page root va pa perm valid s =
      let s1 = ensure_table (entry root (vpn2 va)) s in
      let l1 = pte_table (s1.mem (entry root (vpn2 va))) in
      let s2 = ensure_table (entry l1 (vpn1 va)) s1 in
      let l2 = pte_table (s2.mem (entry l1 (vpn1 va))) in
      record s2 {
        mem =
            store s2.mem (entry l2 (vpn0 va))
              (if valid == 0 then pte_absent pa perm else pte_leaf pa perm);
      }

  unfoldable pub pt_setup_identity_kernel : Tables → record { table : ℕ; rest : Tables }
  pt_setup_identity_kernel s =
      let fresh = pt_alloc_page s in
      let root = fresh.table in
      let with_sram =
        store fresh.rest.mem (entry root (vpn2 sram_base))
          (pte_leaf (sram_base & complement (gigapage_size - 1)) (pte_r ∣∣ pte_w ∣∣ pte_x)) in
      record {
        table = root;
        rest = record {
          mem = store with_sram (entry root 0) (pte_leaf 0 (pte_r ∣∣ pte_w));
          next_page = fresh.rest.next_page;
        };
      }

-- The value that `mmu_enable_sv39` writes to satp.
unfoldable pub satp_sv39 : ℕ → ℕ
satp_sv39 root = satp_mode_sv39 << satp_mode_shift ∣∣ pt_ppn root
