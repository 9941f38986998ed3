-- ===== src/Zephyr/FaultGen.antt =====
-- zephyr-suite/p1b_fault_gen/src/p1b_fault_gen.c: each test provokes one page fault, which ends it in
-- the fatal handler. What is printed is not modelled.
pub mod Passing
pub mod Live
pub mod Suite
use Prim.Native.String.{String}
use zephyr_riscv_test_suite.Prelude.{
  ℕ, ◌+◌, ◌-◌, ◌*◌, ◌/◌, ◌%◌, ◌^◌, Bool, true, false, not, ◌&&◌, ◌||◌, ◌==◌, if◌then◌else◌, Option,
  none, some, List, [], ◌∷◌,
}
use zephyr_riscv_test_suite.Word.{◌∣∣◌, ◌&◌, ◌>>◌ as shift_right, ◌<<◌, complement}
use zephyr_riscv_test_suite.Platform.{
  pte_v, pte_r, pte_w, pte_x, pte_u, pte_a, pte_d, pte_ppn_shift, cause_inst_page_fault,
  cause_load_page_fault, cause_store_page_fault,
}
use zephyr_riscv_test_suite.Machine.{csrc}
use zephyr_riscv_test_suite.PageTable.{store}
use zephyr_riscv_test_suite.Zephyr.Board.{
  Board, Thread, Script, goes_on, test_passed, test_failed, ◌>>=◌, ◌>>◌, pure, gets, modify, peek,
  poke, poke32, zassert_true, zassert_equal, zassert_not_null, zassert_unreachable, sfence_vma,
  Kernel, Oracle, load64, store64, call_code,
}

-- The fault that a test expects ends it as a success, and any other as a failure.
unfoldable pub k_sys_fatal_error_handler : (scause stval : ℕ) → Board → Thread (Unit {0})
k_sys_fatal_error_handler scause stval b =
    if not b.expect_fault
    then test_failed "UNEXPECTED fault" b
    else if not (scause == b.expected_scause) || not (stval == b.expected_stval)
    then test_failed "MISMATCH" (record b { expect_fault = false })
    else test_passed (record b { expect_fault = false })

unfoldable pub expect : (scause stval : ℕ) → Script (Unit {0})
expect scause stval =
    modify (λ b. record b { expected_scause = scause; expected_stval = stval; expect_fault = true })

-- `k_mem_map`, as a step.
abbrev pub allocate : (Board → Option ℕ × Board) → Script (Option ℕ)
allocate f b = let r = f b in goes_on r.0 r.1

-- `*pte`, and `*pte = word`.
abbrev pub edit : ℕ → (ℕ → ℕ) → Script (Unit {0})
edit pte f = modify (λ b. record b { mem = store b.mem pte (f (b.mem pte)) })

module _ (k : Kernel) (hits : Oracle) (svadu : Bool) (bp_data bp_code : ℕ) where
  abbrev pub load_from : ℕ → Script ℕ
  load_from = load64 k hits svadu k_sys_fatal_error_handler

  abbrev pub store_to : ℕ → ℕ → Script (Unit {0})
  store_to = store64 k hits svadu k_sys_fatal_error_handler

  abbrev pub call : ℕ → Script (Unit {0})
  call = call_code k hits svadu k_sys_fatal_error_handler

  unfoldable pub test_p1b_1_load_v0_page : Script (Unit {0})
  test_p1b_1_load_v0_page = do
    modify (k.map_raw 0xD0000000 bp_data (pte_r ∣∣ pte_w ∣∣ pte_a ∣∣ pte_d) 0)
    expect cause_load_page_fault 0xD0000000
    _ ← load_from 0xD0000000
    zassert_unreachable "load from V=0 page did not fault"

  unfoldable pub test_p1b_1b_vbit_clear_live : Script (Unit {0})
  test_p1b_1b_vbit_clear_live = do
    modify (k.arch_mem_map 0xD0080000 bp_data 4096 k.perm_rw)
    store_to 0xD0080000 0x1122334455667788
    zassert_equal (← peek bp_data) 0x1122334455667788 "mapping not live"
    found ← gets (k.pte_lookup 0xD0080000)
    pte ← zassert_not_null found "no leaf PTE"
    word ← peek pte
    zassert_equal (shift_right word pte_ppn_shift << 12) bp_data "leaf PPN is not bp_data"
    edit pte (λ w. w & complement pte_v)
    modify sfence_vma
    expect cause_load_page_fault 0xD0080000
    _ ← load_from 0xD0080000
    zassert_unreachable "load through V=0 live PTE did not fault"

  unfoldable pub test_p1b_2_store_v0_page : Script (Unit {0})
  test_p1b_2_store_v0_page = do
    modify (k.map_raw 0xD0010000 bp_data (pte_r ∣∣ pte_w ∣∣ pte_a ∣∣ pte_d) 0)
    expect cause_store_page_fault 0xD0010000
    store_to 0xD0010000 0xBEEF
    zassert_unreachable "store to V=0 page did not fault"

  unfoldable pub test_p1b_3_exec_v0_page : Script (Unit {0})
  test_p1b_3_exec_v0_page = do
    poke32 bp_code 0x00008067
    modify (k.map_raw 0xD0030000 bp_code (pte_r ∣∣ pte_x ∣∣ pte_a ∣∣ pte_d) 0)
    expect cause_inst_page_fault 0xD0030000
    call 0xD0030000
    zassert_unreachable "exec from V=0 page did not fault"

  unfoldable pub test_p1b_4_load_xonly_page : Script (Unit {0})
  test_p1b_4_load_xonly_page = do
    modify (k.map_raw 0xD0040000 bp_data (pte_v ∣∣ pte_x ∣∣ pte_a ∣∣ pte_d) 0)
    expect cause_load_page_fault 0xD0040000
    _ ← load_from 0xD0040000
    zassert_unreachable "load from execute-only page did not fault"

  unfoldable pub test_p1b_5_store_ro_page : Script (Unit {0})
  test_p1b_5_store_ro_page = do
    modify (k.map_raw 0xD0050000 bp_data (pte_v ∣∣ pte_r ∣∣ pte_a ∣∣ pte_d) 0)
    expect cause_store_page_fault 0xD0050000
    store_to 0xD0050000 0xBEEF
    zassert_unreachable "store to read-only page did not fault"

  unfoldable pub test_p1b_5b_store_ro_kmemmap : Script (Unit {0})
  test_p1b_5b_store_ro_kmemmap = do
    mapped ← allocate (k.k_mem_map 4096 k.map_uninit)
    p ← zassert_not_null mapped "k_mem_map failed"
    _ ← load_from p
    expect cause_store_page_fault p
    store_to p 1
    zassert_unreachable "store to k_mem_map RO page did not fault"

  unfoldable pub test_p1b_6_exec_noexec_page : Script (Unit {0})
  test_p1b_6_exec_noexec_page = do
    poke32 bp_code 0x00008067
    modify (k.map_raw 0xD0060000 bp_code (pte_v ∣∣ pte_r ∣∣ pte_a ∣∣ pte_d) 0)
    expect cause_inst_page_fault 0xD0060000
    call 0xD0060000
    zassert_unreachable "exec from no-X page did not fault"

  unfoldable pub test_p1b_6b_exec_noexec_kmemmap : Script (Unit {0})
  test_p1b_6b_exec_noexec_kmemmap = do
    mapped ← allocate (k.k_mem_map 4096 k.perm_rw)
    buf ← zassert_not_null mapped "k_mem_map failed"
    expect cause_inst_page_fault buf
    call buf
    zassert_unreachable "exec from k_mem_map RW page did not fault"

  -- SSTATUS_SUM is bit 18.
  unfoldable pub test_p1b_7_upage_sum0 : Script (Unit {0})
  test_p1b_7_upage_sum0 = do
    modify (k.map_raw 0xD0070000 bp_data (pte_v ∣∣ pte_r ∣∣ pte_w ∣∣ pte_u ∣∣ pte_a ∣∣ pte_d) 0)
    modify (λ b. record b { sstatus = csrc b.sstatus (2 ^ 18) })
    expect cause_load_page_fault 0xD0070000
    _ ← load_from 0xD0070000
    zassert_unreachable "S-mode load from U page (SUM=0) did not fault"

  unfoldable pub test_p1b_8_misaligned_megapage : Script (Unit {0})
  test_p1b_8_misaligned_megapage = do
    modify (k.map_raw 0xE0000000 0x80000000 (pte_v ∣∣ pte_r ∣∣ pte_w ∣∣ pte_a ∣∣ pte_d) 1)
    found ← gets (k.pte_lookup 0xE0000000)
    pte ← zassert_not_null found "no megapage leaf"
    edit pte (λ w.
        (shift_right 0x80000000 12 ∣∣ 0x1) << pte_ppn_shift
        ∣∣ pte_v
        ∣∣ pte_r
        ∣∣ pte_w
        ∣∣ pte_a
        ∣∣ pte_d)
    modify sfence_vma
    expect cause_load_page_fault 0xE0000000
    _ ← load_from 0xE0000000
    zassert_unreachable "load via misaligned megapage did not fault"

  unfoldable pub test_p1b_9_unmapped_after_kmemunmap : Script (Unit {0})
  test_p1b_9_unmapped_after_kmemunmap = do
    mapped ← allocate (k.k_mem_map 4096 k.perm_rw)
    p ← zassert_not_null mapped "k_mem_map failed"
    store_to p 0xDEADBEEF
    zassert_equal (← load_from p) 0xDEADBEEF "mapped write/read"
    modify (k.k_mem_unmap p 4096)
    expect cause_load_page_fault p
    _ ← load_from p
    zassert_unreachable "load from unmapped VA did not fault"

  unfoldable pub p1b_suite : List (Script (Unit {0}))
  p1b_suite =
      test_p1b_1_load_v0_page ∷ test_p1b_1b_vbit_clear_live ∷ test_p1b_2_store_v0_page
      ∷ test_p1b_3_exec_v0_page ∷ test_p1b_4_load_xonly_page ∷ test_p1b_5_store_ro_page
      ∷ test_p1b_5b_store_ro_kmemmap ∷ test_p1b_6_exec_noexec_page ∷ test_p1b_6b_exec_noexec_kmemmap
      ∷ test_p1b_7_upage_sum0 ∷ test_p1b_8_misaligned_megapage ∷ test_p1b_9_unmapped_after_kmemunmap
      ∷ []
