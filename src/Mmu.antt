-- ===== src/Mmu.antt =====
-- The single-hart tests of the memory management unit in rv64gcv-baremetal-testsuite-main/tests
-- (p1a_mmu_enable.c, p1b_fault_gen.c, p1c_fault_handle.c), on the hart of Hart. Here:
-- the steps that they share. The fences have no effect on a hart without TLB and caches.
pub mod Enable
pub mod Generation
pub mod Handling
pub mod Runs
use zephyr_riscv_test_suite.Prelude.{ℕ, ◌+◌, ◌-◌, ◌*◌, ◌^◌, Bool}
use zephyr_riscv_test_suite.Word.{◌>>◌, ◌<<◌}
use zephyr_riscv_test_suite.Platform.{sram_base, pgshift, pte_ppn_shift}
use zephyr_riscv_test_suite.PageTable.{
  Tables, Memory, store, pt_reset, pt_setup_identity_kernel, pt_map_page, satp_sv39,
}
use zephyr_riscv_test_suite.Machine.{Machine, TrapState}
use zephyr_riscv_test_suite.Hart.{Layout}
use zephyr_riscv_test_suite.Suite.{Run, done, Script, gets, modify}

-- `ppn << PTE_PPN_SHIFT` for `ppn = pa >> PGSHIFT`.
abbrev pub frame_number : ℕ → ℕ
frame_number pa = pa >> pgshift

abbrev pub frame_field : ℕ → ℕ
frame_field ppn = ppn << pte_ppn_shift

module _ (at : Layout) where
  -- `pt_reset(); root = pt_setup_identity_kernel(); mmu_enable_sv39(root);`
  unfoldable pub enable_identity : Script ℕ
  enable_identity m =
      let built = pt_setup_identity_kernel at.pool (pt_reset m.tables) in
      done built.table (record m { tables = built.rest; satp = satp_sv39 built.table })

  unfoldable pub map_page : (root va pa perm valid : ℕ) → Script (Unit {0})
  map_page root va pa perm valid =
      modify (λ m. record m { tables = pt_map_page at.pool root va pa perm valid m.tables })

-- `g_trap.handler_action = action`.
unfoldable pub set_action : ℕ → Script (Unit {0})
set_action action = modify (λ m. record m { trap = record m.trap { handler_action = action } })

-- `g_trap.fault_count = 0`, and with `g_trap.scause = 0`.
unfoldable pub clear_count : Script (Unit {0})
clear_count = modify (λ m. record m { trap = record m.trap { fault_count = 0 } })

unfoldable pub clear_fault : Script (Unit {0})
clear_fault = modify (λ m. record m { trap = record m.trap { fault_count = 0; scause = 0 } })

abbrev pub fault_count : Script ℕ
fault_count = gets (λ m. m.trap.fault_count)

abbrev pub scause : Script ℕ
scause = gets (λ m. m.trap.scause)

abbrev pub stval : Script ℕ
stval = gets (λ m. m.trap.stval)
