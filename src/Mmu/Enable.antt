-- ===== src/Mmu/Enable.antt =====
-- tests/p1a_mmu_enable.c.
use zephyr_riscv_test_suite.Prelude.{ℕ, ◌+◌, Bool}
use zephyr_riscv_test_suite.Platform.{sram_base, pte_r, pte_w, pte_x}
use zephyr_riscv_test_suite.Word.{◌∣∣◌}
use zephyr_riscv_test_suite.Hart.{Layout, load64, store64, store32, call_code}
use zephyr_riscv_test_suite.Suite.{
  Script, ◌>>=◌, ◌>>◌, pure, test_log, assert_eq, banner, say, say_hex, end_line,
}
use zephyr_riscv_test_suite.Mmu.{enable_identity, map_page}

module _ (svadu : Bool) (at : Layout) where
  unfoldable pub p1a_1 : Script ℕ
  p1a_1 = do
    test_log "P1A.1 — Enable Sv39 with identity-mapped kernel..."
    root ← enable_identity at
    say "    Root PT at PA "
    say_hex root
    end_line
    test_log "P1A.1 — MMU enabled, identity map: OK"
    store64 svadu at (sram_base + 0x100000) 0xCAFEBABE12345678
    readback ← load64 svadu at (sram_base + 0x100000)
    assert_eq readback 0xCAFEBABE12345678 "Store/load through identity map failed" 11
    test_log "P1A.1 — Store/load through identity map: OK"
    say "    UART via I/O gigapage: OK\n"
    pure root

  unfoldable pub p1a_2 : ℕ → Script (Unit {0})
  p1a_2 root = do
    test_log "P1A.2 — 4 KB page mapping load/store..."
    map_page at root 0xC0000000 (sram_base + 0x180000) (pte_r ∣∣ pte_w) 1
    store64 svadu at 0xC0000000 0xA5A5A5A5A5A5A5A5
    by_pa ← load64 svadu at (sram_base + 0x180000)
    assert_eq by_pa 0xA5A5A5A5A5A5A5A5 "4KB page mapping: PA readback mismatch" 12
    by_va ← load64 svadu at 0xC0000000
    assert_eq by_va 0xA5A5A5A5A5A5A5A5 "4KB page mapping: VA readback mismatch" 13
    test_log "P1A.2 — 4 KB page load/store: OK"

  unfoldable pub p1a_3 : ℕ → Script (Unit {0})
  p1a_3 root = do
    test_log "P1A.3 — Instruction fetch via mapped page..."
    store32 svadu at (sram_base + 0x180000) 0x00008067
    map_page at root 0xC0010000 (sram_base + 0x180000) (pte_r ∣∣ pte_x) 1
    call_code svadu at 0xC0010000
    test_log "P1A.3 — Instruction fetch via mapped page: OK"

  unfoldable pub p1a_test_main : Script ℕ
  p1a_test_main = do
    banner "Phase 1A: MMU Enable & Identity Map\n"
    root ← p1a_1
    p1a_2 root
    p1a_3 root
    banner "Phase 1A: ALL TESTS PASSED\n"
    pure 0
