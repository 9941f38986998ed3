-- ===== src/Mmu/Runs/Handling.antt =====
-- The run of p1c_fault_handle.c, cut at the call of P1C.3, whose code word is that of the machine with
-- its low half replaced.
use zephyr_riscv_test_suite.Prelude.{
  ℕ, ◌≡◌, refl, true, false, Bool, ◌+◌, ◌*◌, ◌/◌, ◌%◌, ◌^◌, ◌==◌, if◌then◌else◌, ap, ◌∙◌,
}
use zephyr_riscv_test_suite.Hart.{
  fetch, permits, is_marked, through, translate, enter_trap, trap, attempt, store32, call_code,
}
use zephyr_riscv_test_suite.PageTable.{
  pt_map_page, ensure_table, pt_alloc_page, clear_entries, is_valid, is_leaf, pte_table, vpn2, vpn1,
  vpn0, pte_leaf, pte_absent, pte_branch, pt_ppn, pt_setup_identity_kernel, pt_reset, satp_sv39,
  pt_walk,
}
use zephyr_riscv_test_suite.PageTable.Tree.{lookup}
use zephyr_riscv_test_suite.PageTable.Tree.Lookup.{locate}
use zephyr_riscv_test_suite.Machine.{Machine}
use zephyr_riscv_test_suite.Platform.{sram_base, pte_r, cause_inst_page_fault}
use zephyr_riscv_test_suite.Verdict.{final}
use zephyr_riscv_test_suite.Suite.{
  Script, bind, done, hung, pure, ◌>>=◌, ◌>>◌, succeeds, test_log, assert_eq, banner,
}
use zephyr_riscv_test_suite.Mmu.{
  enable_identity, map_page, set_action, clear_count, clear_fault, fault_count, scause,
}
use zephyr_riscv_test_suite.Mmu.Runs.{qemu, end_of, ret_word}
use zephyr_riscv_test_suite.STrap.{
  s_trap_handler, exception, page_fault, fix_page, skip_insn, record_trap, fix_entry, satp_root,
  load_u16,
}
use zephyr_riscv_test_suite.MTrap.{is_interrupt, cause_code}
use zephyr_riscv_test_suite.Mmu.Handling.{
  p1c_1, p1c_2, p1c_3, p1c_4, p1c_5, p1c_test_main, plant_pages, read_pages, plant_leaf,
}

before_call : Bool → Script (Unit {0})
before_call svadu = do
  banner "Phase 1C: Fault Handling & Retry\n"
  root ← enable_identity qemu
  test_log "MMU enabled"
  set_action 0
  p1c_1 svadu qemu root
  p1c_2 svadu qemu root
  test_log "P1C.3 — Execute fault fix and retry..."
  store32 svadu qemu (sram_base + 0x1B2000) 0x00008067
  map_page qemu root 0xD0120000 (sram_base + 0x1B2000) pte_r 1
  clear_count

after_call : Script (Unit {0})
after_call = do
  assert_eq (← fault_count) 1 "P1C.3 fault_count" 230
  assert_eq (← scause) cause_inst_page_fault "P1C.3 scause" 231
  test_log "P1C.3 — Execute fault fix + retry: OK"

after_p1c_3 : Bool → Script ℕ
after_p1c_3 svadu = do
  p1c_4 svadu qemu qemu.pool
  p1c_5 svadu qemu qemu.pool
  banner "Phase 1C: ALL TESTS PASSED\n"
  pure 0

module _ (svadu : Bool) (m : Machine) where
  abbrev at_call : Machine
  at_call = end_of (before_call svadu m) m

  abbrev fixed : Machine
  fixed = final (trap svadu qemu fetch 0xD0120000 at_call)

main_parts :
    (svadu : Bool) (m : Machine)
    → p1c_test_main svadu qemu m
      ≡ bind
          (bind (call_code svadu qemu 0xD0120000 (at_call svadu m)) (λ _. after_call))
          (λ _. after_p1c_3 svadu)
unfolding before_call after_call after_p1c_3 p1c_test_main p1c_1 p1c_2 p1c_3 p1c_4 p1c_5 plant_pages
    read_pages plant_leaf permits is_marked through translate enter_trap trap attempt
    enable_identity map_page pt_map_page ensure_table pt_alloc_page clear_entries is_valid is_leaf
    pte_table vpn2 vpn1 vpn0 pte_leaf pte_absent pte_branch pt_ppn pt_setup_identity_kernel pt_reset
    satp_sv39 lookup locate test_log assert_eq banner set_action clear_count clear_fault pt_walk
    s_trap_handler exception page_fault fix_page skip_insn record_trap fix_entry satp_root load_u16
    is_interrupt cause_code
main_parts true m = refl
main_parts false m = refl

called :
    (svadu : Bool) (m : Machine)
    → call_code svadu qemu 0xD0120000 (at_call svadu m) ≡ (
        if (m.tables.mem (sram_base + 0x1B2000) / 2 ^ 32 * 2 ^ 32 + 0x00008067) % 2 ^ 32
          == 0x00008067
        then done tt (fixed svadu m)
        else hung (fixed svadu m))
unfolding before_call p1c_test_main p1c_1 p1c_2 p1c_3 p1c_4 p1c_5 plant_pages read_pages plant_leaf
    permits is_marked through translate enter_trap trap attempt enable_identity map_page pt_map_page
    ensure_table pt_alloc_page clear_entries is_valid is_leaf pte_table vpn2 vpn1 vpn0 pte_leaf
    pte_absent pte_branch pt_ppn pt_setup_identity_kernel pt_reset satp_sv39 lookup locate test_log
    assert_eq banner set_action clear_count clear_fault pt_walk s_trap_handler exception page_fault
    fix_page skip_insn record_trap fix_entry satp_root load_u16 is_interrupt cause_code
called true m = refl
called false m = refl

rest_succeeds :
    (svadu : Bool) (m : Machine)
    → succeeds (bind (after_call (fixed svadu m)) (λ _. after_p1c_3 svadu)) ≡ true
unfolding before_call after_call after_p1c_3 p1c_test_main p1c_1 p1c_2 p1c_3 p1c_4 p1c_5 plant_pages
    read_pages plant_leaf permits is_marked through translate enter_trap trap attempt
    enable_identity map_page pt_map_page ensure_table pt_alloc_page clear_entries is_valid is_leaf
    pte_table vpn2 vpn1 vpn0 pte_leaf pte_absent pte_branch pt_ppn pt_setup_identity_kernel pt_reset
    satp_sv39 lookup locate test_log assert_eq banner set_action clear_count clear_fault pt_walk
    s_trap_handler exception page_fault fix_page skip_insn record_trap fix_entry satp_root load_u16
    is_interrupt cause_code
rest_succeeds true m = refl
rest_succeeds false m = refl

-- Whatever the machine holds, and whether or not the hart sets A and D by itself, phase 1C comes to its
-- end on the layout `qemu` and returns 0, so that every assertion on its faults and on the values
-- that it reads behind them holds.
pub p1c_test_main-succeeds :
    (svadu : Bool) (m : Machine) → succeeds (p1c_test_main svadu qemu m) ≡ true
p1c_test_main-succeeds svadu m =
    ap succeeds (main_parts svadu m)
    ∙ ap (λ r. succeeds (bind (bind r (λ _. after_call)) (λ _. after_p1c_3 svadu)))
        (called svadu m
          ∙ ap (λ b. if b then done tt (fixed svadu m) else hung (fixed svadu m))
              (ret_word (m.tables.mem (sram_base + 0x1B2000))))
    ∙ rest_succeeds svadu m
