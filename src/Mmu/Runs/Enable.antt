-- ===== src/Mmu/Runs/Enable.antt =====
-- The run of p1a_mmu_enable.c.
use zephyr_riscv_test_suite.Prelude.{◌≡◌, refl, true, Bool}
use zephyr_riscv_test_suite.Hart.{permits, is_marked, through, translate, enter_trap, trap, attempt}
use zephyr_riscv_test_suite.PageTable.{
  pt_map_page, ensure_table, pt_alloc_page, clear_entries, is_valid, is_leaf, pte_table, vpn2, vpn1,
  vpn0, pte_leaf, pte_absent, pte_branch, pt_ppn, pt_setup_identity_kernel, pt_reset, satp_sv39,
}
use zephyr_riscv_test_suite.PageTable.Tree.{lookup}
use zephyr_riscv_test_suite.PageTable.Tree.Lookup.{locate}
use zephyr_riscv_test_suite.Machine.{Machine}
use zephyr_riscv_test_suite.Suite.{succeeds, test_log, assert_eq, banner}
use zephyr_riscv_test_suite.Mmu.{enable_identity, map_page}
use zephyr_riscv_test_suite.Mmu.Runs.{qemu}
use zephyr_riscv_test_suite.Mmu.Enable.{p1a_1, p1a_2, p1a_3, p1a_test_main}

-- Whatever the machine holds, and whether or not the hart sets A and D by itself, phase 1A comes to its
-- end on the layout `qemu` and returns 0.
pub p1a_test_main-succeeds :
    (svadu : Bool) (m : Machine) → succeeds (p1a_test_main svadu qemu m) ≡ true
unfolding p1a_test_main p1a_1 p1a_2 p1a_3 permits is_marked through translate enter_trap trap
    attempt enable_identity map_page pt_map_page ensure_table pt_alloc_page clear_entries is_valid
    is_leaf pte_table vpn2 vpn1 vpn0 pte_leaf pte_absent pte_branch pt_ppn pt_setup_identity_kernel
    pt_reset satp_sv39 lookup locate test_log assert_eq banner
p1a_test_main-succeeds svadu m = refl
