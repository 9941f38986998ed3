-- ===== src/Zephyr/Board/Behaviour.antt =====
-- The documented behaviour of the kernel's functions for memory mappings.
use zephyr_riscv_test_suite.Prelude.{
  ℕ, ◌+◌, ◌*◌, ◌/◌, ◌%◌, ◌^◌, ◌<◌, ◌≡◌, ◌⊎◌, Bool, true, false, if◌then◌else◌, Option, none, some,
}
use zephyr_riscv_test_suite.PageTable.{Memory, Place, store}
use zephyr_riscv_test_suite.Zephyr.Board.{Board, Kernel, covers, page_of}

-- A board on which `word` is the leaf entry of level `k` for `va`, at `w`, and the TLB has forgotten
-- the pages of that leaf.
abbrev pub mapped : (va level word at : ℕ) → Board → Board
mapped va level word at b = record b {
  mem = store b.mem at word;
  places = λ x.
      if covers level (page_of x) (page_of va)
      then some (record { at = at; level = level })
      else b.places x;
  tlb = λ p. if covers level p (page_of va) then none else b.tlb p;
}

-- The leaf entry at `w` is 0, and the TLB has forgotten the pages of the leaf.
abbrev pub cleared : Place → ℕ → Board → Board
cleared w va b = record b {
  mem = store b.mem w.at 0;
  tlb = λ p. if covers w.level p (page_of va) then none else b.tlb p;
}

-- A page that `k_mem_map` hands out: where, which frame, and what its memory holds.
pub record Allocated (entry_at : ℕ → ℕ → ℕ) (is_table : ℕ → Bool) (flags : ℕ) (r : Option ℕ × Board)
    (b : Board) : Type 0 where
  pub va : ℕ
  pub frame : ℕ
  pub contents : Memory
  pub aligned : va % 4096 ≡ 0
  pub data_page : is_table (frame * 4096) ≡ false
  pub result :
      r
      ≡ (some va, mapped va 0 (frame * 1024 + flags) (entry_at 0 va) (record b { mem = contents }))

-- Whether `k_mem_map` has handed out a page: it returns NULL where it has none.
abbrev pub is_page : Option ℕ → Bool
is_page none = false
is_page (some va) = true

-- The functions on addresses of 39 bits, which is what Sv39 translates. The tables of the intermediate
-- levels are taken to be there: no law is about their allocation, or about a pool that has run out.
pub record IsKernel (k : Kernel) : Type 0 where
  -- Where the leaf entry of a level for an address goes, and which words the tables are in.
  pub entry_at : (level va : ℕ) → ℕ
  pub is_table : ℕ → Bool
  pub in_table : (level va : ℕ) → is_table (entry_at level va) ≡ true
  pub one_entry :
      (va other : ℕ)
      → va < 2 ^ 39
      → other < 2 ^ 39
      → entry_at 0 va ≡ entry_at 0 other
      → page_of va ≡ page_of other
  -- The entry has the frame and exactly the flags of the caller, whose addresses are aligned for its
  -- level.
  pub map_raw :
      (va pa bits level : ℕ) (b : Board)
      → va % 2 ^ (12 + 9 * level) ≡ 0
      → pa % 2 ^ (12 + 9 * level) ≡ 0
      → k.map_raw va pa bits level b
        ≡ mapped va level (pa / 4096 * 1024 + bits) (entry_at level va) b
  -- For an address that has a leaf entry.
  pub pte_lookup :
      (va : ℕ) (b : Board) (w : Place) → b.places va ≡ some w → k.pte_lookup va b ≡ some w.at
  -- V, R, A and D, with W for K_MEM_PERM_RW and X for K_MEM_PERM_EXEC.
  pub arch_map_rw :
      (va pa : ℕ) (b : Board)
      → va % 4096 ≡ 0
      → pa % 4096 ≡ 0
      → k.arch_mem_map va pa 4096 k.perm_rw b
        ≡ mapped va 0 (pa / 4096 * 1024 + 0xC7) (entry_at 0 va) b
  pub arch_map_exec :
      (va pa : ℕ) (b : Board)
      → va % 4096 ≡ 0
      → pa % 4096 ≡ 0
      → k.arch_mem_map va pa 4096 k.perm_exec b
        ≡ mapped va 0 (pa / 4096 * 1024 + 0xCB) (entry_at 0 va) b
  -- NULL, or a page.
  pub mem_map_rw :
      (b : Board)
      → ((k.k_mem_map 4096 k.perm_rw b).0 ≡ none)
        ⊎ Allocated entry_at is_table 0xC7 (k.k_mem_map 4096 k.perm_rw b) b
  pub mem_map_ro :
      (b : Board)
      → ((k.k_mem_map 4096 k.map_uninit b).0 ≡ none)
        ⊎ Allocated entry_at is_table 0xC3 (k.k_mem_map 4096 k.map_uninit b) b
  pub mem_unmap :
      (va : ℕ) (b : Board) (w : Place)
      → b.places va ≡ some w
      → k.k_mem_unmap va 4096 b ≡ cleared w va b
  pub unresolved : k.retries none ≡ false
  pub resolved : (retry : Bool) → k.retries (some retry) ≡ retry
