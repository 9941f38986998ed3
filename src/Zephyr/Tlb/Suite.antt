-- ===== src/Zephyr/Tlb/Suite.antt =====
-- p1d_tlb_ptw.c as a suite.
use zephyr_riscv_test_suite.Prelude.{
  ℕ, ◌+◌, ◌*◌, ◌%◌, ◌^◌, ◌<◌, ◌≤◌, ◌≡◌, ◌≢◌, refl, Bool, true, false, some,
}
use zephyr_riscv_test_suite.Machine.Bit.{bit}
use zephyr_riscv_test_suite.PageTable.{Place}
use zephyr_riscv_test_suite.Zephyr.Board.{Board, Kernel, Oracle, all_pass}
use zephyr_riscv_test_suite.Zephyr.Board.Behaviour.{IsKernel}
use zephyr_riscv_test_suite.Zephyr.Tlb.{p1d_suite}
use zephyr_riscv_test_suite.Zephyr.Tlb.Targeted.{p1d_1-passes}
use zephyr_riscv_test_suite.Zephyr.Tlb.Stale.{p1d_2-passes}
use zephyr_riscv_test_suite.Zephyr.Tlb.Thrash.{p1d_3-passes}
use zephyr_riscv_test_suite.Zephyr.Tlb.Megapage.{p1d_4-passes, p1d_5-passes}

-- With kernel functions that do what is documented, on every board, whatever the TLB holds and whenever
-- the hart uses it: each of the five tests passes. The five pages of `pages` and the 128 of `thrash_buf`
-- start at multiples of 4096 outside the page tables, the image ends behind its first page and within
-- the first 2 MiB of RAM, and starts with a nonzero word outside the page tables, and the board maps the
-- UART and the CLINT by one valid and readable leaf.
pub p1d_suite-passes :
    (k : Kernel) (law : IsKernel k) (hits : Oracle) (svadu : Bool)
    (pages thrash_buf z_mapped_end : ℕ) (b : Board) (w : Place)
    → pages % 4096 ≡ 0
    → pages + 5 * 4096 < 2 ^ 64
    → ((j : ℕ) → j < 5 → law.is_table (pages + j * 4096) ≡ false)
    → thrash_buf % 4096 ≡ 0
    → ((j : ℕ) → j < 128 → law.is_table (thrash_buf + j * 4096) ≡ false)
    → 0x80001000 < z_mapped_end
    → z_mapped_end ≤ 0x80200000
    → law.is_table 0x80000000 ≡ false
    → b.mem 0x80000000 ≢ 0
    → b.places 0x10000000 ≡ some w
    → b.places 0x02000000 ≡ some w
    → bit 0 (b.mem w.at) ≡ 1
    → bit 1 (b.mem w.at) ≡ 1
    → all_pass (p1d_suite k hits svadu pages thrash_buf z_mapped_end) b ≡ true
unfolding p1d_suite
p1d_suite-passes k law hits svadu pages thrash_buf z_mapped_end b w page_start small outside
      buf_start buf_outside low high image reset uart clint valid readable =
    rw
      (
        p1d_1-passes k law hits svadu pages page_start small outside b,
        p1d_2-passes k law hits svadu pages page_start small outside b,
        p1d_3-passes k law hits svadu thrash_buf buf_start buf_outside b,
        p1d_4-passes k law hits svadu z_mapped_end b low high image reset,
        p1d_5-passes k law hits svadu b w uart clint valid readable,
      )
      refl
