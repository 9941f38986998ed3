-- ===== src/Zephyr/FaultHandle.antt =====
-- zephyr-suite/p1c_fault_handle/src/p1c_fault_handle.c: faults that the resolver `p1c_fixup` repairs, so
-- that the kernel makes the access again, and the detection of the A and D flags. What is printed is
-- not modelled.
pub mod Repairs
pub mod Passing
pub mod Sequence
pub mod Suite
use Prim.Native.String.{String}
use zephyr_riscv_test_suite.Prelude.{
  ℕ, zero, suc, ◌+◌, ◌*◌, ◌%◌, ◌^◌, Bool, true, false, not, ◌||◌, ◌==◌, if◌then◌else◌, List, [],
  ◌∷◌,
}
use zephyr_riscv_test_suite.Word.{u64, ◌∣∣◌, ◌&◌}
use zephyr_riscv_test_suite.Platform.{pte_v, pte_r, pte_w, pte_a, cause_load_page_fault}
use zephyr_riscv_test_suite.Zephyr.Board.{
  Board, Thread, Script, test_passed, test_failed, ◌>>=◌, ◌>>◌, pure, gets, modify, peek, poke,
  poke32, zassert_true, zassert_equal, zassert_not_null, Kernel, Oracle, load64, store64, call_code,
}

-- A fault that reaches the fatal handler is the one that P1C.5 may expect, or a failure.
unfoldable pub k_sys_fatal_error_handler : (scause stval : ℕ) → Board → Thread (Unit {0})
k_sys_fatal_error_handler scause stval b =
    if not b.expect_fault
    then test_failed "UNEXPECTED fault" b
    else if not (scause == b.expected_scause) || not (stval == b.expected_stval)
    then test_failed "MISMATCH" (record b { expect_fault = false })
    else test_passed (record b { expect_fault = false })

-- Before every test.
unfoldable pub p1c_before : Board → Board
p1c_before b = record b {
  resolver = false;
  fix_count = 0;
  expect_fault = false;
  expected_scause = 0;
  expected_stval = 0;
}

-- `z_riscv_mmu_set_fault_fixup(p1c_fixup)`.
abbrev pub set_fault_fixup : Script (Unit {0})
set_fault_fixup = modify (λ b. record b { resolver = true })

abbrev pub fix_count : Script ℕ
fix_count = gets (λ b. b.fix_count)

abbrev pub c4_n : ℕ
c4_n = 8

abbrev pub c4_va : ℕ → ℕ
c4_va i = 0xD0200000 + i * 4096

abbrev pub c4_value : ℕ → ℕ
c4_value i = u64 (0xA000000000000000 ∣∣ i)

module _ (k : Kernel) (hits : Oracle) (svadu : Bool) where
  abbrev pub load_from : ℕ → Script ℕ
  load_from = load64 k hits svadu k_sys_fatal_error_handler

  unfoldable pub test_p1c_1_load_fix_retry : ℕ → Script (Unit {0})
  test_p1c_1_load_fix_retry bp_c1 = do
    poke bp_c1 0xFEEDFACECAFE0001
    modify (k.map_raw 0xD0100000 bp_c1 (pte_r ∣∣ pte_w) 0)
    set_fault_fixup
    val ← load_from 0xD0100000
    zassert_equal (← fix_count) 1 "expected exactly one fault"
    zassert_equal val 0xFEEDFACECAFE0001 "value after retry"

  unfoldable pub test_p1c_2_store_fix_retry : ℕ → Script (Unit {0})
  test_p1c_2_store_fix_retry bp_c2 = do
    modify (k.map_raw 0xD0110000 bp_c2 (pte_v ∣∣ pte_r) 0)
    set_fault_fixup
    store64 k hits svadu k_sys_fatal_error_handler 0xD0110000 0xDEADBEEF00000002
    zassert_equal (← fix_count) 1 "expected one fault"
    zassert_equal (← peek bp_c2) 0xDEADBEEF00000002 "stored value via PA alias"

  unfoldable pub test_p1c_3_exec_fix_retry : ℕ → Script (Unit {0})
  test_p1c_3_exec_fix_retry bp_c3 = do
    poke32 bp_c3 0x00008067
    modify (k.map_raw 0xD0120000 bp_c3 (pte_v ∣∣ pte_r) 0)
    set_fault_fixup
    call_code k hits svadu k_sys_fatal_error_handler 0xD0120000
    zassert_equal (← fix_count) 1 "expected one fault"

  -- The loops of P1C.4, with `left` rounds to go at round `i`.
  unfoldable pub plant : (bp_c4 left i : ℕ) → Script (Unit {0})
  plant bp_c4 zero i = pure tt
  plant bp_c4 (suc left) i = do
    poke (bp_c4 + i * 4096) (c4_value i)
    modify (k.map_raw (c4_va i) (bp_c4 + i * 4096) (pte_r ∣∣ pte_w) 0)
    plant bp_c4 left (i + 1)

  unfoldable pub read_back : (left i : ℕ) → Script (Unit {0})
  read_back zero i = pure tt
  read_back (suc left) i = do
    val ← load_from (c4_va i)
    zassert_equal val (c4_value i) "value mismatch at page"
    read_back left (i + 1)

  unfoldable pub test_p1c_4_sequential_faults : ℕ → Script (Unit {0})
  test_p1c_4_sequential_faults bp_c4 = do
    plant bp_c4 c4_n 0
    set_fault_fixup
    read_back c4_n 0
    zassert_equal (← fix_count) c4_n "expected faults"

  unfoldable pub test_p1c_5_ad_bit_mode : ℕ → Script (Unit {0})
  test_p1c_5_ad_bit_mode bp_c5 = do
    poke bp_c5 0x1234567890ABCDEF
    modify (k.map_raw 0xD0300000 bp_c5 (pte_v ∣∣ pte_r ∣∣ pte_w) 0)
    modify (λ b. record b {
      expected_scause = cause_load_page_fault;
      expected_stval = 0xD0300000;
      expect_fault = true;
    })
    val ← load_from 0xD0300000
    modify (λ b. record b { expect_fault = false })
    zassert_equal val 0x1234567890ABCDEF "SVADU load value mismatch"
    found ← gets (k.pte_lookup 0xD0300000)
    pte ← zassert_not_null found "no leaf PTE"
    word ← peek pte
    zassert_true (not ((word & pte_a) == 0)) "SVADU but A bit not set by hardware"

  -- Each test behind `p1c_before`.
  unfoldable pub p1c_suite : (bp_c1 bp_c2 bp_c3 bp_c4 bp_c5 : ℕ) → List (Script (Unit {0}))
  p1c_suite bp_c1 bp_c2 bp_c3 bp_c4 bp_c5 =
      (modify p1c_before >> test_p1c_1_load_fix_retry bp_c1)
      ∷ (modify p1c_before >> test_p1c_2_store_fix_retry bp_c2)
      ∷ (modify p1c_before >> test_p1c_3_exec_fix_retry bp_c3)
      ∷ (modify p1c_before >> test_p1c_4_sequential_faults bp_c4)
      ∷ (modify p1c_before >> test_p1c_5_ad_bit_mode bp_c5)
      ∷ []
