-- ===== src/Zephyr/FaultGen/Suite.antt =====
-- p1b_fault_gen.c as a suite.
use zephyr_riscv_test_suite.Prelude.{
  ℕ, ◌%◌, ◌^◌, ◌<◌, ◌≡◌, refl, Bool, false, ◌&&◌, Bool-cases, inl, inr,
}
use zephyr_riscv_test_suite.Machine.Bit.{bit}
use zephyr_riscv_test_suite.Zephyr.Board.{Board, Kernel, Oracle, all_pass}
use zephyr_riscv_test_suite.Zephyr.Board.Behaviour.{IsKernel, is_page}
use zephyr_riscv_test_suite.Zephyr.FaultGen.{p1b_suite}
use zephyr_riscv_test_suite.Zephyr.FaultGen.Passing.{
  p1b_1-passes, p1b_2-passes, p1b_3-passes, p1b_4-passes, p1b_5-passes, p1b_5b-is_page,
  p1b_6-passes, p1b_6b-is_page, p1b_7-passes, p1b_8-passes,
}
use zephyr_riscv_test_suite.Zephyr.FaultGen.Live.{p1b_1b-passes, p1b_9-is_page}

-- With kernel functions that do what is documented, on every board with no resolver registered and MXR
-- clear, whatever the TLB holds, whenever the hart uses it, and whether or not the hardware sets A and D:
-- every one of the twelve tests passes exactly if `k_mem_map` hands out a page for each of the two kinds
-- of request that the tests make, since three of them fail on NULL and nothing else fails. The pages
-- `bp_data` and `bp_code` start at multiples of 4096, and `bp_data` is a 64-bit address outside the page
-- tables.
pub p1b_suite-passes :
    (k : Kernel) (law : IsKernel k) (hits : Oracle) (svadu : Bool) (bp_data bp_code : ℕ) (b : Board)
    → bp_data % 4096 ≡ 0
    → bp_code % 4096 ≡ 0
    → bp_data < 2 ^ 64
    → law.is_table bp_data ≡ false
    → b.resolver ≡ false
    → bit 19 b.sstatus ≡ 0
    → all_pass (p1b_suite k hits svadu bp_data bp_code) b ≡ (
        is_page ((k.k_mem_map 4096 k.map_uninit b).0) && is_page ((k.k_mem_map 4096 k.perm_rw b).0))
unfolding p1b_suite
p1b_suite-passes k law hits svadu bp_data bp_code b data_page code_page small outside inert no_mxr =
    rw
      (
        p1b_1-passes k law hits svadu bp_data bp_code b data_page code_page inert,
        p1b_1b-passes k law hits svadu bp_data bp_code b data_page small outside inert,
        p1b_2-passes k law hits svadu bp_data bp_code b data_page code_page inert,
        p1b_3-passes k law hits svadu bp_data bp_code b data_page code_page inert,
        p1b_4-passes k law hits svadu bp_data bp_code b data_page code_page inert no_mxr,
        p1b_5-passes k law hits svadu bp_data bp_code b data_page code_page inert,
        p1b_5b-is_page k law hits svadu bp_data bp_code b data_page code_page inert,
        p1b_6-passes k law hits svadu bp_data bp_code b data_page code_page inert,
        p1b_6b-is_page k law hits svadu bp_data bp_code b data_page code_page inert,
        p1b_7-passes k law hits svadu bp_data bp_code b data_page code_page inert,
        p1b_8-passes k law hits svadu bp_data bp_code b data_page code_page inert,
        p1b_9-is_page k law hits svadu bp_data bp_code b inert,
      )
      (elim (Bool-cases (is_page ((k.k_mem_map 4096 k.perm_rw b).0))) [
        | inl page ↦ rw page (elim (Bool-cases (is_page ((k.k_mem_map 4096 k.map_uninit b).0))) [
          | inl page' ↦ rw page' refl
          | inr none' ↦ rw none' refl
        ])
        | inr no_page ↦
            rw no_page (elim (Bool-cases (is_page ((k.k_mem_map 4096 k.map_uninit b).0))) [
              | inl page' ↦ rw page' refl
              | inr none' ↦ rw none' refl
            ])
      ])
