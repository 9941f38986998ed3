-- ===== src/Zephyr/Enable.antt =====
-- zephyr-suite/p1a_mmu_enable/src/p1a_mmu_enable.c: Sv39 is on, and a mapping of the kernel leads where
-- it should. What is printed and the sleep at the end of the first test are not modelled.
pub mod Passing
use Prim.Native.String.{String}
use zephyr_riscv_test_suite.Prelude.{
  ℕ, zero, suc, ◌+◌, ◌-◌, ◌*◌, ◌/◌, ◌%◌, ◌^◌, Bool, List, [], ◌∷◌,
}
use zephyr_riscv_test_suite.Word.{u64, ◌∣∣◌, ◌&◌, ◌>>◌ as shift_right}
use zephyr_riscv_test_suite.Platform.{satp_mode_sv39}
use zephyr_riscv_test_suite.Zephyr.Board.{
  Board, Thread, Script, test_failed, ◌>>=◌, ◌>>◌, pure, gets, modify, peek, poke, poke32,
  zassert_equal, zassert_not_equal, Kernel, Oracle, load64, store64, call_code,
}

-- No test here expects a fault.
unfoldable pub k_sys_fatal_error_handler : (scause stval : ℕ) → Board → Thread (Unit {0})
k_sys_fatal_error_handler scause stval b = test_failed "UNEXPECTED fault" b

abbrev pub test_rw_va : ℕ
test_rw_va = 0xC0000000

abbrev pub test_exec_va : ℕ
test_exec_va = 0xC0010000

unfoldable pub test_p1a_1_sv39_identity : ℕ → Script (Unit {0})
test_p1a_1_sv39_identity backing_page = do
  satp ← gets (λ b. b.satp)
  zassert_equal (shift_right satp 60) satp_mode_sv39 "satp mode != Sv39"
  zassert_not_equal (satp & (2 ^ 44 - 1)) 0 "satp root PPN is zero"
  poke backing_page 0xCAFEBABE12345678
  zassert_equal (← peek backing_page) 0xCAFEBABE12345678 "store/load through identity map failed"

abbrev pub alias_word : ℕ → ℕ
alias_word i = u64 (0xA5A5A5A5A5A5A500 ∣∣ i)

-- The loops of P1A.2 over every 64th word, with `left` rounds to go at round `i`.
unfoldable pub read_alias : (backing_page left i : ℕ) → Script (Unit {0})
read_alias backing_page zero i = pure tt
read_alias backing_page (suc left) i = do
  zassert_equal (← peek (backing_page + i * 512)) (alias_word i) "PA alias readback mismatch"
  read_alias backing_page left (i + 1)

module _ (k : Kernel) (hits : Oracle) (svadu : Bool) where
  unfoldable pub write_alias : (left i : ℕ) → Script (Unit {0})
  write_alias zero i = pure tt
  write_alias (suc left) i = do
    store64 k hits svadu k_sys_fatal_error_handler (test_rw_va + i * 512) (alias_word i)
    write_alias left (i + 1)

  unfoldable pub test_p1a_2_page_map_alias : ℕ → Script (Unit {0})
  test_p1a_2_page_map_alias backing_page = do
    modify (k.arch_mem_map test_rw_va backing_page 4096 k.perm_rw)
    write_alias 8 0
    read_alias backing_page 8 0
    poke (backing_page + 56) 0x5A5A5A5A5A5A5A5A
    seen ← load64 k hits svadu k_sys_fatal_error_handler (test_rw_va + 56)
    zassert_equal seen 0x5A5A5A5A5A5A5A5A "VA readback mismatch"
    modify (k.arch_mem_unmap test_rw_va 4096)

  unfoldable pub test_p1a_3_ifetch_via_map : ℕ → Script (Unit {0})
  test_p1a_3_ifetch_via_map backing_page = do
    poke32 backing_page 0x00008067
    modify (k.arch_mem_map test_exec_va backing_page 4096 k.perm_exec)
    call_code k hits svadu k_sys_fatal_error_handler test_exec_va
    modify (k.arch_mem_unmap test_exec_va 4096)

  unfoldable pub p1a_suite : ℕ → List (Script (Unit {0}))
  p1a_suite backing_page =
      test_p1a_1_sv39_identity backing_page
      ∷ test_p1a_2_page_map_alias backing_page
      ∷ test_p1a_3_ifetch_via_map backing_page
      ∷ []
