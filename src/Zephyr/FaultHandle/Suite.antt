-- ===== src/Zephyr/FaultHandle/Suite.antt =====
-- p1c_fault_handle.c as a suite.
use zephyr_riscv_test_suite.Prelude.{ℕ, ◌+◌, ◌*◌, ◌%◌, ◌<◌, ◌≡◌, refl, Bool, true, false}
use zephyr_riscv_test_suite.Zephyr.Board.{Board, Kernel, Oracle, all_pass}
use zephyr_riscv_test_suite.Zephyr.Board.Behaviour.{IsKernel}
use zephyr_riscv_test_suite.Zephyr.FaultHandle.{p1c_suite}
use zephyr_riscv_test_suite.Zephyr.FaultHandle.Passing.{
  p1c_1-passes, p1c_2-passes, p1c_3-passes, p1c_5-passes,
}
use zephyr_riscv_test_suite.Zephyr.FaultHandle.Sequence.{p1c_4-passes}

-- With kernel functions that do what is documented, on every board, whatever the TLB holds, whenever the
-- hart uses it, and whether or not the hardware sets A and D: each of the five tests passes behind
-- `p1c_before`, P1C.1 to P1C.3 with one retried fault and P1C.4 with eight. The backing pages start at
-- multiples of 4096 outside the page tables.
pub p1c_suite-passes :
    (k : Kernel) (law : IsKernel k) (hits : Oracle) (svadu : Bool)
    (bp_c1 bp_c2 bp_c3 bp_c4 bp_c5 : ℕ) (b : Board)
    → (bp_c1 % 4096 ≡ 0) × (law.is_table bp_c1 ≡ false)
    → (bp_c2 % 4096 ≡ 0) × (law.is_table bp_c2 ≡ false)
    → (bp_c3 % 4096 ≡ 0) × (law.is_table bp_c3 ≡ false)
    → (bp_c4 % 4096 ≡ 0) × ((j : ℕ) → j < 8 → law.is_table (bp_c4 + j * 4096) ≡ false)
    → (bp_c5 % 4096 ≡ 0) × (law.is_table bp_c5 ≡ false)
    → all_pass (p1c_suite k hits svadu bp_c1 bp_c2 bp_c3 bp_c4 bp_c5) b ≡ true
unfolding p1c_suite
p1c_suite-passes k law hits svadu bp_c1 bp_c2 bp_c3 bp_c4 bp_c5 b c1 c2 c3 c4 c5 =
    rw
      (
        p1c_1-passes k law hits svadu bp_c1 c1.0 c1.1 b,
        p1c_2-passes k law hits svadu bp_c2 c2.0 c2.1 b,
        p1c_3-passes k law hits svadu bp_c3 c3.0 c3.1 b,
        p1c_4-passes k law hits svadu bp_c4 c4.0 c4.1 b,
        p1c_5-passes k law hits svadu bp_c5 c5.0 c5.1 b,
      )
      refl
