-- ===== src/Mmu/Runs/Generation/Early.antt =====
-- Sections P1B.1 to P1B.4 of p1b_fault_gen.c end where the stages say.
use zephyr_riscv_test_suite.Prelude.{
  ◌≡◌, refl, true, Bool, ◌&&◌, ◌%◌, ◌^◌, ◌==◌, if◌then◌else◌, ap, ◌∙◌, some, none, arith,
}
use zephyr_riscv_test_suite.Machine.Bit.{bit}
use zephyr_riscv_test_suite.Hart.{
  set_mem, permits, is_marked, through, translate, enter_trap, trap, attempt, load, write,
  call_code,
}
use zephyr_riscv_test_suite.PageTable.{
  store, pt_map_page, ensure_table, pt_alloc_page, clear_entries, is_valid, is_leaf, pte_table,
  vpn2, vpn1, vpn0, pte_leaf, pte_absent, pte_branch, pt_ppn, pt_setup_identity_kernel, pt_reset,
  satp_sv39, pt_walk,
}
use zephyr_riscv_test_suite.PageTable.Tree.{lookup}
use zephyr_riscv_test_suite.PageTable.Tree.Lookup.{locate}
use zephyr_riscv_test_suite.Machine.{Machine}
use zephyr_riscv_test_suite.Suite.{done, test_log, assert_eq, banner}
use zephyr_riscv_test_suite.Mmu.{enable_identity, map_page, set_action, clear_count, clear_fault}
use zephyr_riscv_test_suite.Mmu.Runs.{qemu}
use zephyr_riscv_test_suite.STrap.{
  s_trap_handler, exception, page_fault, fix_page, skip_insn, record_trap, fix_entry, satp_root,
  load_u16,
}
use zephyr_riscv_test_suite.MTrap.{is_interrupt, cause_code}
use zephyr_riscv_test_suite.Mmu.Generation.{
  p1b_1, p1b_2, p1b_3, p1b_4, p1b_5, p1b_6, p1b_7, p1b_8, verify_fault, plant_megapage,
}
use zephyr_riscv_test_suite.Mmu.Runs.Generation.{
  before_skip, before_call, after_skip, after_call, skip_step, call_step,
}
use zephyr_riscv_test_suite.Mmu.Runs.Generation.Stages.{
  start, s0, s1, s2, s3, s4, h1, t1, h2, t2, h3, t3, h4, t4,
}

module _ (svadu : Bool) (m : Machine) where
  pub p1b_1-ends : p1b_1 svadu qemu qemu.pool (s0 svadu m) ≡ done tt (s1 svadu m)
  unfolding start s0 h1 t1 s1 before_skip after_skip p1b_1 p1b_2 p1b_3 p1b_4 p1b_5 p1b_6 p1b_7 p1b_8
      verify_fault plant_megapage permits is_marked through translate enter_trap trap attempt
      enable_identity map_page pt_map_page ensure_table pt_alloc_page clear_entries is_valid is_leaf
      pte_table vpn2 vpn1 vpn0 pte_leaf pte_absent pte_branch pt_ppn pt_setup_identity_kernel
      pt_reset satp_sv39 lookup locate test_log assert_eq banner set_action clear_count clear_fault
      pt_walk s_trap_handler exception page_fault fix_page skip_insn record_trap fix_entry satp_root
      load_u16 is_interrupt cause_code
  p1b_1-ends =
      skip_step svadu (p1b_1 svadu qemu qemu.pool)
        (after_skip "P1B.1 fault_count" "P1B.1 Load V=0" 13 0xD0000000 110) load 0xd0000000
        (λ pa n. done (n.tables.mem pa) n) 0 (s0 svadu m) (h1 svadu m) refl refl (omega arith)
        (omega arith) refl refl

  pub p1b_2-ends : p1b_2 svadu qemu qemu.pool (s1 svadu m) ≡ done tt (s2 svadu m)
  unfolding start s0 h1 t1 s1 before_skip after_skip h2 t2 s2 p1b_1 p1b_2 p1b_3 p1b_4 p1b_5 p1b_6
      p1b_7 p1b_8 verify_fault plant_megapage permits is_marked through translate enter_trap trap
      attempt enable_identity map_page pt_map_page ensure_table pt_alloc_page clear_entries is_valid
      is_leaf pte_table vpn2 vpn1 vpn0 pte_leaf pte_absent pte_branch pt_ppn
      pt_setup_identity_kernel pt_reset satp_sv39 lookup locate test_log assert_eq banner set_action
      clear_count clear_fault pt_walk s_trap_handler exception page_fault fix_page skip_insn
      record_trap fix_entry satp_root load_u16 is_interrupt cause_code
  p1b_2-ends =
      skip_step svadu (p1b_2 svadu qemu qemu.pool)
        (after_skip "P1B.2 fault_count" "P1B.2 Store V=0" 15 0xD0010000 120) write 0xd0010000
        (λ pa n. done tt (set_mem (store n.tables.mem pa (0xBEEF % 2 ^ 64)) n)) tt (s1 svadu m)
        (h2 svadu m) refl refl (omega arith) (omega arith) refl refl

  pub p1b_3-ends : p1b_3 svadu qemu qemu.pool (s2 svadu m) ≡ done tt (s3 svadu m)
  unfolding start s0 h1 t1 s1 before_skip after_skip h2 t2 s2 h3 t3 s3 before_call after_call p1b_1
      p1b_2 p1b_3 p1b_4 p1b_5 p1b_6 p1b_7 p1b_8 verify_fault plant_megapage permits is_marked
      through translate enter_trap trap attempt enable_identity map_page pt_map_page ensure_table
      pt_alloc_page clear_entries is_valid is_leaf pte_table vpn2 vpn1 vpn0 pte_leaf pte_absent
      pte_branch pt_ppn pt_setup_identity_kernel pt_reset satp_sv39 lookup locate test_log assert_eq
      banner set_action clear_count clear_fault pt_walk s_trap_handler exception page_fault fix_page
      skip_insn record_trap fix_entry satp_root load_u16 is_interrupt cause_code
  p1b_3-ends =
      call_step (p1b_3 svadu qemu qemu.pool)
        (after_call "P1B.3 fault_count" "P1B.3 scause" "P1B.3 — Execute from V=0 page: OK" 130)
        (call_code svadu qemu 0xd0030000 (h3 svadu m)) (m.tables.mem 0x801a3000) (s2 svadu m)
        (t3 svadu m) refl refl refl

  -- The page has X, so that MXR decides.
  by_mxr : translate svadu load 0xD0040000 (h4 svadu m) ≡ (
      if (bit 19 m.mstatus == 1) && true && true && true
      then some (0x801A4000, (h4 svadu m))
      else none)
  unfolding start s0 h1 t1 s1 h2 t2 s2 h3 t3 s3 h4 before_skip after_skip before_call after_call
      p1b_1 p1b_2 p1b_3 p1b_4 p1b_5 p1b_6 p1b_7 p1b_8 verify_fault plant_megapage permits is_marked
      through translate enter_trap trap attempt enable_identity map_page pt_map_page ensure_table
      pt_alloc_page clear_entries is_valid is_leaf pte_table vpn2 vpn1 vpn0 pte_leaf pte_absent
      pte_branch pt_ppn pt_setup_identity_kernel pt_reset satp_sv39 lookup locate test_log assert_eq
      banner set_action clear_count clear_fault pt_walk s_trap_handler exception page_fault fix_page
      skip_insn record_trap fix_entry satp_root load_u16 is_interrupt cause_code
  by_mxr = refl

  pub p1b_4-ends :
      bit 19 m.mstatus ≡ 0 → p1b_4 svadu qemu qemu.pool (s3 svadu m) ≡ done tt (s4 svadu m)
  unfolding start s0 h1 t1 s1 before_skip after_skip h2 t2 s2 h3 t3 s3 before_call after_call h4 t4
      s4 p1b_1 p1b_2 p1b_3 p1b_4 p1b_5 p1b_6 p1b_7 p1b_8 verify_fault plant_megapage permits
      is_marked through translate enter_trap trap attempt enable_identity map_page pt_map_page
      ensure_table pt_alloc_page clear_entries is_valid is_leaf pte_table vpn2 vpn1 vpn0 pte_leaf
      pte_absent pte_branch pt_ppn pt_setup_identity_kernel pt_reset satp_sv39 lookup locate
      test_log assert_eq banner set_action clear_count clear_fault pt_walk s_trap_handler exception
      page_fault fix_page skip_insn record_trap fix_entry satp_root load_u16 is_interrupt cause_code
  p1b_4-ends no_mxr =
      skip_step svadu (p1b_4 svadu qemu qemu.pool)
        (after_skip "P1B.4 fault_count" "P1B.4 Load R=0" 13 0xD0040000 140) load 0xD0040000
        (λ pa n. done (n.tables.mem pa) n) 0 (s3 svadu m) (h4 svadu m) refl refl (omega arith)
        (omega arith)
        (by_mxr
          ∙ ap
              (λ b.
                if (b == 1) && true && true && true then some (0x801A4000, (h4 svadu m)) else none)
              no_mxr)
        refl
