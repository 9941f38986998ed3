-- ===== src/Mmu/Runs/Generation/Sections.antt =====
-- Sections P1B.5 to P1B.8 of p1b_fault_gen.c, and the whole program, from any machine.
use zephyr_riscv_test_suite.Prelude.{
  ◌≡◌, refl, true, Bool, ◌&&◌, ◌%◌, ◌^◌, ◌==◌, if◌then◌else◌, ap, ◌∙◌, some, none, arith,
}
use zephyr_riscv_test_suite.Machine.{csrc}
use zephyr_riscv_test_suite.Machine.Bit.{bit, bit-csrc, sum-IsMask}
use zephyr_riscv_test_suite.Hart.{
  set_mem, permits, is_marked, through, translate, enter_trap, trap, attempt, load, write,
  call_code,
}
use zephyr_riscv_test_suite.PageTable.{
  store, pt_map_page, ensure_table, pt_alloc_page, clear_entries, is_valid, is_leaf, pte_table,
  vpn2, vpn1, vpn0, pte_leaf, pte_absent, pte_branch, pt_ppn, pt_setup_identity_kernel, pt_reset,
  satp_sv39, pt_walk,
}
use zephyr_riscv_test_suite.PageTable.Tree.{lookup}
use zephyr_riscv_test_suite.PageTable.Tree.Lookup.{locate}
use zephyr_riscv_test_suite.Machine.{Machine}
use zephyr_riscv_test_suite.Suite.{succeeds-step, done, succeeds, test_log, assert_eq, banner}
use zephyr_riscv_test_suite.Mmu.{enable_identity, map_page, set_action, clear_count, clear_fault}
use zephyr_riscv_test_suite.Mmu.Runs.{qemu}
use zephyr_riscv_test_suite.STrap.{
  s_trap_handler, exception, page_fault, fix_page, skip_insn, record_trap, fix_entry, satp_root,
  load_u16,
}
use zephyr_riscv_test_suite.MTrap.{is_interrupt, cause_code}
use zephyr_riscv_test_suite.Mmu.Generation.{
  p1b_1, p1b_2, p1b_3, p1b_4, p1b_5, p1b_6, p1b_7, p1b_8, p1b_test_main, verify_fault,
  plant_megapage,
}
use zephyr_riscv_test_suite.Mmu.Runs.Generation.{
  before_skip, before_call, after_skip, after_call, skip_step, call_step,
}
use zephyr_riscv_test_suite.Mmu.Runs.Generation.Stages.{
  start, s0, s1, s2, s3, s4, s5, s6, s7, s8, h1, t1, h2, t2, h3, t3, h4, t4, h5, t5, h6, t6, h7, t7,
  h8, t8,
}
use zephyr_riscv_test_suite.Mmu.Runs.Generation.Early.{
  p1b_1-ends, p1b_2-ends, p1b_3-ends, p1b_4-ends,
}

module _ (svadu : Bool) (m : Machine) where
  p1b_5-ends : p1b_5 svadu qemu qemu.pool (s4 svadu m) ≡ done tt (s5 svadu m)
  unfolding start s0 h1 t1 s1 before_skip after_skip h2 t2 s2 h3 t3 s3 before_call after_call h4 t4
      s4 h5 t5 s5 p1b_1 p1b_2 p1b_3 p1b_4 p1b_5 p1b_6 p1b_7 p1b_8 verify_fault plant_megapage
      permits is_marked through translate enter_trap trap attempt enable_identity map_page
      pt_map_page ensure_table pt_alloc_page clear_entries is_valid is_leaf pte_table vpn2 vpn1 vpn0
      pte_leaf pte_absent pte_branch pt_ppn pt_setup_identity_kernel pt_reset satp_sv39 lookup
      locate test_log assert_eq banner set_action clear_count clear_fault pt_walk s_trap_handler
      exception page_fault fix_page skip_insn record_trap fix_entry satp_root load_u16 is_interrupt
      cause_code
  p1b_5-ends =
      skip_step svadu (p1b_5 svadu qemu qemu.pool)
        (after_skip "P1B.5 fault_count" "P1B.5 Store W=0" 15 0xD0050000 150) write 0xd0050000
        (λ pa n. done tt (set_mem (store n.tables.mem pa (0xBEEF % 2 ^ 64)) n)) tt (s4 svadu m)
        (h5 svadu m) refl refl (omega arith) (omega arith) refl refl

  p1b_6-ends : p1b_6 svadu qemu qemu.pool (s5 svadu m) ≡ done tt (s6 svadu m)
  unfolding start s0 h1 t1 s1 before_skip after_skip h2 t2 s2 h3 t3 s3 before_call after_call h4 t4
      s4 h5 t5 s5 h6 t6 s6 p1b_1 p1b_2 p1b_3 p1b_4 p1b_5 p1b_6 p1b_7 p1b_8 verify_fault
      plant_megapage permits is_marked through translate enter_trap trap attempt enable_identity
      map_page pt_map_page ensure_table pt_alloc_page clear_entries is_valid is_leaf pte_table vpn2
      vpn1 vpn0 pte_leaf pte_absent pte_branch pt_ppn pt_setup_identity_kernel pt_reset satp_sv39
      lookup locate test_log assert_eq banner set_action clear_count clear_fault pt_walk
      s_trap_handler exception page_fault fix_page skip_insn record_trap fix_entry satp_root
      load_u16 is_interrupt cause_code
  p1b_6-ends =
      call_step (p1b_6 svadu qemu qemu.pool)
        (after_call "P1B.6 fault_count" "P1B.6 scause" "P1B.6 — Execute from X=0 page: OK" 160)
        (call_code svadu qemu 0xd0060000 (h6 svadu m)) (m.tables.mem 0x801a6000) (s5 svadu m)
        (t6 svadu m) refl refl refl

  by_sum : translate svadu load 0xD0070000 (h7 svadu m) ≡ (
      if (bit 18 (csrc m.mstatus (2 ^ 18)) == 1) && true
      then some (0x801A7000, (h7 svadu m))
      else none)
  unfolding start s0 h1 t1 s1 h2 t2 s2 h3 t3 s3 h4 t4 s4 h5 t5 s5 h6 t6 s6 before_skip after_skip
      before_call after_call h7 p1b_1 p1b_2 p1b_3 p1b_4 p1b_5 p1b_6 p1b_7 p1b_8 verify_fault
      plant_megapage permits is_marked through translate enter_trap trap attempt enable_identity
      map_page pt_map_page ensure_table pt_alloc_page clear_entries is_valid is_leaf pte_table vpn2
      vpn1 vpn0 pte_leaf pte_absent pte_branch pt_ppn pt_setup_identity_kernel pt_reset satp_sv39
      lookup locate test_log assert_eq banner set_action clear_count clear_fault pt_walk
      s_trap_handler exception page_fault fix_page skip_insn record_trap fix_entry satp_root
      load_u16 is_interrupt cause_code
  by_sum = refl

  p1b_7-ends : p1b_7 svadu qemu qemu.pool (s6 svadu m) ≡ done tt (s7 svadu m)
  unfolding start s0 h1 t1 s1 h2 t2 s2 h3 t3 s3 h4 t4 s4 h5 t5 s5 h6 t6 s6 before_skip after_skip
      before_call after_call h7 t7 s7 p1b_1 p1b_2 p1b_3 p1b_4 p1b_5 p1b_6 p1b_7 p1b_8 verify_fault
      plant_megapage permits is_marked through translate enter_trap trap attempt enable_identity
      map_page pt_map_page ensure_table pt_alloc_page clear_entries is_valid is_leaf pte_table vpn2
      vpn1 vpn0 pte_leaf pte_absent pte_branch pt_ppn pt_setup_identity_kernel pt_reset satp_sv39
      lookup locate test_log assert_eq banner set_action clear_count clear_fault pt_walk
      s_trap_handler exception page_fault fix_page skip_insn record_trap fix_entry satp_root
      load_u16 is_interrupt cause_code
  p1b_7-ends =
      skip_step svadu (p1b_7 svadu qemu qemu.pool)
        (after_skip "P1B.7 fault_count" "P1B.7 U-page from S-mode" 13 0xD0070000 170) load
        0xD0070000 (λ pa n. done (n.tables.mem pa) n) 0 (s6 svadu m) (h7 svadu m) refl refl
        (omega arith) (omega arith)
        (by_sum
          ∙ ap (λ b. if (b == 1) && true then some (0x801A7000, (h7 svadu m)) else none)
              (bit-csrc 18 sum-IsMask m.mstatus 18 (omega arith)))
        refl

  p1b_8-ends : p1b_8 svadu qemu qemu.pool (s7 svadu m) ≡ done tt (s8 svadu m)
  unfolding start s0 h1 t1 s1 h2 t2 s2 h3 t3 s3 h4 t4 s4 h5 t5 s5 h6 t6 s6 before_skip after_skip
      before_call after_call h7 t7 s7 h8 t8 s8 p1b_1 p1b_2 p1b_3 p1b_4 p1b_5 p1b_6 p1b_7 p1b_8
      verify_fault plant_megapage permits is_marked through translate enter_trap trap attempt
      enable_identity map_page pt_map_page ensure_table pt_alloc_page clear_entries is_valid is_leaf
      pte_table vpn2 vpn1 vpn0 pte_leaf pte_absent pte_branch pt_ppn pt_setup_identity_kernel
      pt_reset satp_sv39 lookup locate test_log assert_eq banner set_action clear_count clear_fault
      pt_walk s_trap_handler exception page_fault fix_page skip_insn record_trap fix_entry satp_root
      load_u16 is_interrupt cause_code
  p1b_8-ends =
      skip_step svadu (p1b_8 svadu qemu qemu.pool)
        (after_skip "P1B.8 fault_count" "P1B.8 Misaligned megapage" 13 0xE0000000 180) load
        0xE0000000 (λ pa n. done (n.tables.mem pa) n) 0 (s7 svadu m) (h8 svadu m) refl refl
        (omega arith) (omega arith) refl refl

-- Whatever the machine holds, as long as MXR is clear in sstatus, and whether or not the hart sets A
-- and D by itself, phase 1B comes to its end on the layout `qemu` and returns 0, so that every
-- assertion on the count, the cause and the address of its faults holds.
pub p1b_test_main-succeeds :
    (svadu : Bool) (m : Machine)
    → bit 19 m.mstatus ≡ 0
    → succeeds (p1b_test_main svadu qemu m) ≡ true
unfolding p1b_test_main start s0 permits is_marked through translate enter_trap trap attempt
    enable_identity map_page pt_map_page ensure_table pt_alloc_page clear_entries is_valid is_leaf
    pte_table vpn2 vpn1 vpn0 pte_leaf pte_absent pte_branch pt_ppn pt_setup_identity_kernel pt_reset
    satp_sv39 lookup locate test_log assert_eq banner set_action
p1b_test_main-succeeds svadu m no_mxr =
    succeeds-step (p1b_1 svadu qemu qemu.pool) _ (p1b_1-ends svadu m) (
      succeeds-step (p1b_2 svadu qemu qemu.pool) _ (p1b_2-ends svadu m) (
        succeeds-step (p1b_3 svadu qemu qemu.pool) _ (p1b_3-ends svadu m) (
          succeeds-step (p1b_4 svadu qemu qemu.pool) _ (p1b_4-ends svadu m no_mxr) (
            succeeds-step (p1b_5 svadu qemu qemu.pool) _ (p1b_5-ends svadu m) (
              succeeds-step (p1b_6 svadu qemu qemu.pool) _ (p1b_6-ends svadu m) (
                succeeds-step (p1b_7 svadu qemu qemu.pool) _ (p1b_7-ends svadu m)
                  (succeeds-step (p1b_8 svadu qemu qemu.pool) _ (p1b_8-ends svadu m) refl)))))))
