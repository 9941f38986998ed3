-- ===== src/Zephyr/Tlb.antt =====
-- zephyr-suite/p1d_tlb_ptw/src/p1d_tlb_ptw.c: what the TLB may keep and the fences must remove, and leaves
-- of every size. What is printed is not modelled.
pub mod Fences
pub mod Targeted
pub mod Stale
pub mod Thrash
pub mod Megapage
pub mod Suite
use Prim.Native.String.{String}
use zephyr_riscv_test_suite.Prelude.{
  ltb, ℕ, zero, suc, ◌+◌, ◌-◌, ◌*◌, ◌/◌, ◌%◌, ◌^◌, Bool, true, false, not, ◌&&◌, ◌||◌, ◌==◌,
  if◌then◌else◌, Option, none, some, List, [], ◌∷◌,
}
use zephyr_riscv_test_suite.Word.{u64, ◌∣∣◌, ◌&◌, ◌>>◌ as shift_right, ◌<<◌, complement}
use zephyr_riscv_test_suite.Platform.{
  cause_load_page_fault, pte_v, pte_r, pte_w, pte_x, pte_a, pte_d, pte_ppn_shift,
}
use zephyr_riscv_test_suite.Zephyr.Board.{
  Board, Thread, Script, goes_on, bind, test_failed, ◌>>=◌, ◌>>◌, pure, gets, modify, peek, poke,
  zassert_true, zassert_equal, zassert_not_equal, zassert_not_null, sfence_vma_addr, Kernel, Oracle,
  load64,
}

-- No test here expects a fault.
unfoldable pub k_sys_fatal_error_handler : (scause stval : ℕ) → Board → Thread (Unit {0})
k_sys_fatal_error_handler scause stval b = test_failed "UNEXPECTED fault" b

unfoldable pub leaf : (pa perms : ℕ) → ℕ
leaf pa perms = shift_right pa 12 << pte_ppn_shift ∣∣ perms ∣∣ pte_v ∣∣ pte_a ∣∣ pte_d

abbrev pub all_flags : ℕ
all_flags = pte_v ∣∣ pte_r ∣∣ pte_w ∣∣ pte_a ∣∣ pte_d

abbrev pub thrash_count : ℕ
thrash_count = 128

abbrev pub thrash_va : ℕ → ℕ
thrash_va i = 0xD2000000 + i * 4096

abbrev pub thrash_value : ℕ → ℕ
thrash_value i = u64 (0xCC00000000000000 ∣∣ i)

-- Whether a lookup has found the entry at `p`.
abbrev pub finds : Option ℕ → ℕ → Bool
finds none p = false
finds (some q) p = p == q

-- The offsets that P1D.4 compares, for the span of the image.
abbrev pub offsets : ℕ → List ℕ
offsets span =
    0 ∷ 0x1000 ∷ (span / 2 & complement 7) ∷ (u64 (span + 2 ^ 64 - 0x1000) & complement 7) ∷ []

module _ (k : Kernel) (hits : Oracle) (svadu : Bool) where
  abbrev pub load_from : ℕ → Script ℕ
  load_from = load64 k hits svadu k_sys_fatal_error_handler

  unfoldable pub test_p1d_1_targeted_sfence : ℕ → Script (Unit {0})
  test_p1d_1_targeted_sfence pages = do
    poke pages 0xAAAAAAAA00000001
    poke (pages + 4096) 0xBBBBBBBB00000002
    poke (pages + 2 * 4096) 0xAAAAAAAA00000003
    modify (k.map_raw 0xD1000000 pages all_flags 0)
    modify (k.map_raw 0xD1010000 (pages + 4096) all_flags 0)
    zassert_equal (← load_from 0xD1000000) 0xAAAAAAAA00000001 "initial VA_A"
    zassert_equal (← load_from 0xD1010000) 0xBBBBBBBB00000002 "initial VA_B"
    found ← gets (k.pte_lookup 0xD1000000)
    pte_a ← zassert_not_null found "no leaf for VA_A"
    poke pte_a (leaf (pages + 2 * 4096) (pte_r ∣∣ pte_w))
    modify (sfence_vma_addr 0xD1000000)
    zassert_equal (← load_from 0xD1000000) 0xAAAAAAAA00000003 "VA_A after targeted flush"
    zassert_equal (← load_from 0xD1010000) 0xBBBBBBBB00000002 "VA_B after targeted flush"

  unfoldable pub test_p1d_2_stale_tlb : ℕ → Script (Unit {0})
  test_p1d_2_stale_tlb pages = do
    poke (pages + 3 * 4096) 0x1111111111111111
    poke (pages + 4 * 4096) 0x2222222222222222
    modify (k.map_raw 0xD1100000 (pages + 3 * 4096) all_flags 0)
    zassert_equal (← load_from 0xD1100000) 0x1111111111111111 "initial read"
    found ← gets (k.pte_lookup 0xD1100000)
    pte ← zassert_not_null found "no leaf"
    poke pte (leaf (pages + 4 * 4096) (pte_r ∣∣ pte_w))
    val ← load_from 0xD1100000
    zassert_true (val == 0x1111111111111111 || val == 0x2222222222222222) "value must be old or new"
    modify (sfence_vma_addr 0xD1100000)
    zassert_equal (← load_from 0xD1100000) 0x2222222222222222 "after sfence must read new"

  -- The loops of P1D.3, with `left` rounds to go at round `i`.
  unfoldable pub fill_pages : (thrash_buf left i : ℕ) → Script (Unit {0})
  fill_pages thrash_buf zero i = pure tt
  fill_pages thrash_buf (suc left) i = do
    poke (thrash_buf + i * 4096) (thrash_value i)
    modify (k.map_raw (thrash_va i) (thrash_buf + i * 4096) all_flags 0)
    fill_pages thrash_buf left (i + 1)

  unfoldable pub check_pages : (left i : ℕ) → Script (Unit {0})
  check_pages zero i = pure tt
  check_pages (suc left) i = do
    val ← load_from (thrash_va i)
    zassert_equal val (thrash_value i) "thrash mismatch"
    check_pages left (i + 1)

  unfoldable pub test_p1d_3_tlb_thrash : ℕ → Script (Unit {0})
  test_p1d_3_tlb_thrash thrash_buf = do
    fill_pages thrash_buf thrash_count 0
    check_pages thrash_count 0
    check_pages thrash_count 0

  -- A load by the identity mapping of the image, which ends at `z_mapped_end`.
  unfoldable pub load_image : (z_mapped_end : ℕ) → ℕ → Script ℕ
  load_image z_mapped_end a b =
      if ltb a z_mapped_end
      then goes_on (b.mem a) b
      else bind (k_sys_fatal_error_handler cause_load_page_fault a b)
          (λ _. test_failed "returned from the fatal handler")

  -- The loop of P1D.4 over its offsets.
  unfoldable pub compare_alias : (z_mapped_end : ℕ) → List ℕ → Script (Unit {0})
  compare_alias z_mapped_end [] = pure tt
  compare_alias z_mapped_end (off ∷ offs) = do
    alias ← load_from (0xE0200000 + off)
    identity ← load_image z_mapped_end (0x80000000 + off)
    zassert_equal alias identity "megapage alias mismatch"
    compare_alias z_mapped_end offs

  unfoldable pub test_p1d_4_megapage_2mb : ℕ → Script (Unit {0})
  test_p1d_4_megapage_2mb z_mapped_end = do
    modify (k.map_raw 0xE0200000 0x80000000 (pte_v ∣∣ pte_r ∣∣ pte_a ∣∣ pte_d) 1)
    zassert_not_equal (← load_from 0xE0200000) 0 "megapage offset 0 read zero"
    compare_alias z_mapped_end (offsets (u64 (z_mapped_end + 2 ^ 64 - 0x80000000)))
    _ ← load_from (0xE0200000 + 0x1FF000)
    found ← gets (k.pte_lookup 0xE0200000)
    pte ← zassert_not_null found "no leaf"
    word ← peek pte
    zassert_true (not ((word & pte_r) == 0) && (word & pte_w) == 0) "megapage leaf not read-only"
    far ← gets (k.pte_lookup (0xE0200000 + 0x1FF000))
    zassert_true (finds far pte) "not a single level-1 superpage leaf"
    modify (k.arch_mem_unmap 0xE0200000 4096)

  unfoldable pub test_p1d_5_gigapage_leaf : Script (Unit {0})
  test_p1d_5_gigapage_leaf = do
    pte_uart ← gets (k.pte_lookup 0x10000000)
    pte_clint ← gets (k.pte_lookup 0x02000000)
    pte ← zassert_not_null pte_uart "no leaf for MMIO"
    word ← peek pte
    zassert_true (not ((word & pte_v) == 0) && not ((word & (pte_r ∣∣ pte_w ∣∣ pte_x)) == 0))
        "MMIO root entry is not a leaf"
    zassert_true (finds pte_clint pte) "UART and CLINT not covered by one gigapage leaf"

  unfoldable pub p1d_suite : (pages thrash_buf z_mapped_end : ℕ) → List (Script (Unit {0}))
  p1d_suite pages thrash_buf z_mapped_end =
      test_p1d_1_targeted_sfence pages
      ∷ test_p1d_2_stale_tlb pages
      ∷ test_p1d_3_tlb_thrash thrash_buf
      ∷ test_p1d_4_megapage_2mb z_mapped_end
      ∷ test_p1d_5_gigapage_leaf
      ∷ []
