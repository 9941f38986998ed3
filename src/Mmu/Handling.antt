-- ===== src/Mmu/Handling.antt =====
-- tests/p1c_fault_handle.c: page faults that the handler fixes, so that the access is made again.
use zephyr_riscv_test_suite.Prelude.{ℕ, zero, suc, ◌+◌, ◌*◌, Bool, ◌==◌, if◌then◌else◌, not}
use zephyr_riscv_test_suite.Word.{◌∣∣◌, ◌&◌}
use zephyr_riscv_test_suite.Platform.{
  sram_base, pgsize, pte_v, pte_r, pte_w, pte_a, cause_inst_page_fault, cause_load_page_fault,
  cause_store_page_fault,
}
use zephyr_riscv_test_suite.PageTable.{store, entry, pte_table, ensure_table, vpn2, vpn1, vpn0}
use zephyr_riscv_test_suite.Hart.{Layout, load64, store64, store32, call_code}
use zephyr_riscv_test_suite.Suite.{
  done, Script, ◌>>=◌, ◌>>◌, pure, gets, test_log, assert_eq, banner, say, say_dec,
}
use zephyr_riscv_test_suite.Mmu.{
  enable_identity, map_page, set_action, clear_count, fault_count, scause, frame_number,
  frame_field,
}

module _ (svadu : Bool) (at : Layout) where
  -- A load.
  unfoldable pub p1c_1 : ℕ → Script (Unit {0})
  p1c_1 root = do
    test_log "P1C.1 — Load fault fix and retry..."
    store64 svadu at (sram_base + 0x1B0000) 0xFEEDFACECAFE0001
    map_page at root 0xD0100000 (sram_base + 0x1B0000) (pte_r ∣∣ pte_w) 0
    clear_count
    loaded_val ← load64 svadu at 0xD0100000
    assert_eq (← fault_count) 1 "P1C.1 fault_count" 210
    assert_eq (← scause) cause_load_page_fault "P1C.1 scause" 211
    assert_eq loaded_val 0xFEEDFACECAFE0001 "P1C.1 loaded value mismatch" 212
    test_log "P1C.1 — Load fault fix + retry: OK"

  -- A store to a page that may only be read.
  unfoldable pub p1c_2 : ℕ → Script (Unit {0})
  p1c_2 root = do
    test_log "P1C.2 — Store fault fix and retry..."
    map_page at root 0xD0110000 (sram_base + 0x1B1000) pte_r 1
    clear_count
    store64 svadu at 0xD0110000 0xDEADBEEF00000002
    assert_eq (← fault_count) 1 "P1C.2 fault_count" 220
    assert_eq (← scause) cause_store_page_fault "P1C.2 scause" 221
    assert_eq (← load64 svadu at (sram_base + 0x1B1000)) 0xDEADBEEF00000002
        "P1C.2 store value mismatch" 222
    test_log "P1C.2 — Store fault fix + retry: OK"

  -- A fetch from a page without X.
  unfoldable pub p1c_3 : ℕ → Script (Unit {0})
  p1c_3 root = do
    test_log "P1C.3 — Execute fault fix and retry..."
    store32 svadu at (sram_base + 0x1B2000) 0x00008067
    map_page at root 0xD0120000 (sram_base + 0x1B2000) pte_r 1
    clear_count
    call_code svadu at 0xD0120000
    assert_eq (← fault_count) 1 "P1C.3 fault_count" 230
    assert_eq (← scause) cause_inst_page_fault "P1C.3 scause" 231
    test_log "P1C.3 — Execute fault fix + retry: OK"

  abbrev pub num_faults : ℕ
  num_faults = 8

  -- The loops of P1C.4, with `left` rounds to go at round `i`.
  unfoldable pub plant_pages : (left i root : ℕ) → Script (Unit {0})
  plant_pages zero i root = pure tt
  plant_pages (suc left) i root = do
    store64 svadu at (sram_base + 0x1C0000 + i * pgsize) (0xA000000000000000 ∣∣ i)
    map_page at root (0xD0200000 + i * pgsize) (sram_base + 0x1C0000 + i * pgsize) (pte_r ∣∣ pte_w)
        0
    plant_pages left (i + 1) root

  unfoldable pub read_pages : (left i : ℕ) → Script (Unit {0})
  read_pages zero i = pure tt
  read_pages (suc left) i = do
    val ← load64 svadu at (0xD0200000 + i * pgsize)
    assert_eq val (0xA000000000000000 ∣∣ i) "P1C.4 value mismatch" (240 + i)
    read_pages left (i + 1)

  -- One fault after the other on eight pages.
  unfoldable pub p1c_4 : ℕ → Script (Unit {0})
  p1c_4 root = do
    test_log "P1C.4 — Multiple sequential faults..."
    clear_count
    plant_pages num_faults 0 root
    read_pages num_faults 0
    assert_eq (← fault_count) num_faults "P1C.4 total fault count" 250
    say "    Triggered and handled "
    say_dec num_faults
    say " sequential page faults: OK\n"
    test_log "P1C.4 — Multiple sequential faults: OK"

  -- A leaf with A and D clear, written at the end of the walk that the section makes itself, and the
  -- address of its entry.
  unfoldable pub plant_leaf : (root va pte : ℕ) → Script ℕ
  plant_leaf root va pte m =
      let s1 = ensure_table at.pool (entry root (vpn2 va)) m.tables in
      let l1 = pte_table (s1.mem (entry root (vpn2 va))) in
      let s2 = ensure_table at.pool (entry l1 (vpn1 va)) s1 in
      let l2 = pte_table (s2.mem (entry l1 (vpn1 va))) in
      done (entry l2 (vpn0 va))
        (record m { tables = record s2 { mem = store s2.mem (entry l2 (vpn0 va)) pte } })

  -- Whether the hart sets A and D: either way is right.
  unfoldable pub p1c_5 : ℕ → Script (Unit {0})
  p1c_5 root = do
    test_log "P1C.5 — A/D bit behavior detection..."
    leaf_at ←
        plant_leaf root 0xD0300000
          (frame_field (frame_number (sram_base + 0x1D0000)) ∣∣ pte_v ∣∣ pte_r ∣∣ pte_w)
    clear_count
    store64 svadu at (sram_base + 0x1D0000) 0x1234567890ABCDEF
    val ← load64 svadu at 0xD0300000
    faults ← fault_count
    (if faults == 0 then by_hardware leaf_at val else by_software val)
    test_log "P1C.5 — A/D bit behavior: OK (mode detected)"
    where
      by_hardware : ℕ → ℕ → Script (Unit {0})
      by_hardware leaf_at val = do
        say "    A/D mode: SVADU (hardware sets A/D bits)\n"
        assert_eq val 0x1234567890ABCDEF "P1C.5 svadu load val" 260
        pte_now ← gets (λ m. m.tables.mem leaf_at)
        (if not ((pte_now & pte_a) == 0)
            then say "    Confirmed: A bit set by hardware\n"
            else pure tt)

      by_software : ℕ → Script (Unit {0})
      by_software val = do
        say "    A/D mode: SVADE (software must manage A/D)\n"
        assert_eq (← scause) cause_load_page_fault "P1C.5 svade fault type" 261
        assert_eq val 0x1234567890ABCDEF "P1C.5 svade load val" 262

  unfoldable pub p1c_test_main : Script ℕ
  p1c_test_main = do
    banner "Phase 1C: Fault Handling & Retry\n"
    root ← enable_identity at
    test_log "MMU enabled"
    set_action 0
    p1c_1 root
    p1c_2 root
    p1c_3 root
    p1c_4 root
    p1c_5 root
    banner "Phase 1C: ALL TESTS PASSED\n"
    pure 0
