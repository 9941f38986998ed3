-- ===== src/Mmu/Generation.antt =====
-- tests/p1b_fault_gen.c: page faults of each cause, skipped or fixed by the handler.
use zephyr_riscv_test_suite.Prelude.{ℕ, ◌+◌, ◌^◌, Bool}
use Prim.Native.String.{String}
use zephyr_riscv_test_suite.Word.{u32, ◌∣∣◌}
use zephyr_riscv_test_suite.Platform.{
  sram_base, pte_v, pte_r, pte_w, pte_x, pte_u, pte_a, pte_d, cause_inst_page_fault,
  cause_load_page_fault, cause_store_page_fault,
}
use zephyr_riscv_test_suite.PageTable.{store, entry, pte_table, ensure_table, vpn2, vpn1}
use zephyr_riscv_test_suite.Machine.{csrc}
use zephyr_riscv_test_suite.Hart.{Layout, load64, store64, store32, call_code}
use zephyr_riscv_test_suite.Suite.{
  Script, ◌>>=◌, ◌>>◌, pure, modify, test_log, assert_eq, banner, say, say_hex, say_dec,
}
use zephyr_riscv_test_suite.Mmu.{
  enable_identity, map_page, set_action, clear_fault, fault_count, scause, stval, frame_number,
  frame_field,
}

-- MSTATUS_SUM.
abbrev pub mstatus_sum : ℕ
mstatus_sum = 2 ^ 18

unfoldable pub verify_fault :
    (name : String) (expected_cause expected_stval test_code : ℕ) → Script (Unit {0})
verify_fault name expected_cause expected_stval test_code = do
  assert_eq (← scause) expected_cause name test_code
  assert_eq (← stval) expected_stval name (test_code + 1)
  say "    "
  say name
  say ": scause="
  say_dec (u32 (← scause))
  say " stval="
  say_hex (← stval)
  say " OK\n"

module _ (svadu : Bool) (at : Layout) where
  -- A load from a page with V clear.
  unfoldable pub p1b_1 : ℕ → Script (Unit {0})
  p1b_1 root = do
    test_log "P1B.1 — Load from V=0 page..."
    map_page at root 0xD0000000 (sram_base + 0x1A0000) (pte_r ∣∣ pte_w) 0
    clear_fault
    _ ← load64 svadu at 0xD0000000
    assert_eq (← fault_count) 1 "P1B.1 fault_count" 110
    verify_fault "P1B.1 Load V=0" cause_load_page_fault 0xD0000000 111

  -- A store to a page with V clear.
  unfoldable pub p1b_2 : ℕ → Script (Unit {0})
  p1b_2 root = do
    test_log "P1B.2 — Store to V=0 page..."
    map_page at root 0xD0010000 (sram_base + 0x1A1000) (pte_r ∣∣ pte_w) 0
    clear_fault
    store64 svadu at 0xD0010000 0xBEEF
    assert_eq (← fault_count) 1 "P1B.2 fault_count" 120
    verify_fault "P1B.2 Store V=0" cause_store_page_fault 0xD0010000 121

  -- A fetch from a page with V clear.
  unfoldable pub p1b_3 : ℕ → Script (Unit {0})
  p1b_3 root = do
    test_log "P1B.3 — Execute from V=0 page..."
    set_action 0
    store32 svadu at (sram_base + 0x1A3000) 0x00008067
    map_page at root 0xD0030000 (sram_base + 0x1A3000) (pte_r ∣∣ pte_x) 0
    clear_fault
    call_code svadu at 0xD0030000
    assert_eq (← fault_count) 1 "P1B.3 fault_count" 130
    assert_eq (← scause) cause_inst_page_fault "P1B.3 scause" 131
    test_log "P1B.3 — Execute from V=0 page: OK"
    set_action 1

  -- A load from a page that may only be executed.
  unfoldable pub p1b_4 : ℕ → Script (Unit {0})
  p1b_4 root = do
    test_log "P1B.4 — Load from R=0 page..."
    map_page at root 0xD0040000 (sram_base + 0x1A4000) pte_x 1
    clear_fault
    _ ← load64 svadu at 0xD0040000
    assert_eq (← fault_count) 1 "P1B.4 fault_count" 140
    verify_fault "P1B.4 Load R=0" cause_load_page_fault 0xD0040000 141

  -- A store to a page that may only be read.
  unfoldable pub p1b_5 : ℕ → Script (Unit {0})
  p1b_5 root = do
    test_log "P1B.5 — Store to W=0 page..."
    map_page at root 0xD0050000 (sram_base + 0x1A5000) pte_r 1
    clear_fault
    store64 svadu at 0xD0050000 0xBEEF
    assert_eq (← fault_count) 1 "P1B.5 fault_count" 150
    verify_fault "P1B.5 Store W=0" cause_store_page_fault 0xD0050000 151

  -- A fetch from a page without X.
  unfoldable pub p1b_6 : ℕ → Script (Unit {0})
  p1b_6 root = do
    test_log "P1B.6 — Execute from X=0 page..."
    set_action 0
    store32 svadu at (sram_base + 0x1A6000) 0x00008067
    map_page at root 0xD0060000 (sram_base + 0x1A6000) pte_r 1
    clear_fault
    call_code svadu at 0xD0060000
    assert_eq (← fault_count) 1 "P1B.6 fault_count" 160
    assert_eq (← scause) cause_inst_page_fault "P1B.6 scause" 161
    test_log "P1B.6 — Execute from X=0 page: OK"
    set_action 1

  -- A load from a user's page while SUM is clear.
  unfoldable pub p1b_7 : ℕ → Script (Unit {0})
  p1b_7 root = do
    test_log "P1B.7 — S-mode access to U=1 page (SUM=0)..."
    map_page at root 0xD0070000 (sram_base + 0x1A7000) (pte_r ∣∣ pte_w ∣∣ pte_u) 1
    modify (λ m. record m { mstatus = csrc m.mstatus mstatus_sum })
    clear_fault
    _ ← load64 svadu at 0xD0070000
    assert_eq (← fault_count) 1 "P1B.7 fault_count" 170
    verify_fault "P1B.7 U-page from S-mode" cause_load_page_fault 0xD0070000 171

  -- A megapage leaf whose frame is not aligned, written behind the back of `pt_map_page`.
  unfoldable pub plant_megapage : (root va pte : ℕ) → Script (Unit {0})
  plant_megapage root va pte = modify (λ m.
      let s = ensure_table at.pool (entry root (vpn2 va)) m.tables in
      let l1 = pte_table (s.mem (entry root (vpn2 va))) in
      record m { tables = record s { mem = store s.mem (entry l1 (vpn1 va)) pte } })

  abbrev pub bad_ppn : ℕ
  bad_ppn = frame_number sram_base ∣∣ 0x1

  unfoldable pub p1b_8 : ℕ → Script (Unit {0})
  p1b_8 root = do
    test_log "P1B.8 — Misaligned superpage..."
    plant_megapage root 0xE0000000
        (frame_field bad_ppn ∣∣ pte_v ∣∣ pte_r ∣∣ pte_w ∣∣ pte_a ∣∣ pte_d)
    clear_fault
    _ ← load64 svadu at 0xE0000000
    assert_eq (← fault_count) 1 "P1B.8 fault_count" 180
    verify_fault "P1B.8 Misaligned megapage" cause_load_page_fault 0xE0000000 181

  unfoldable pub p1b_test_main : Script ℕ
  p1b_test_main = do
    banner "Phase 1B: Page Fault Generation\n"
    root ← enable_identity at
    test_log "MMU enabled with identity kernel map"
    set_action 1
    p1b_1 root
    p1b_2 root
    p1b_3 root
    p1b_4 root
    p1b_5 root
    p1b_6 root
    p1b_7 root
    p1b_8 root
    banner "Phase 1B: ALL TESTS PASSED\n"
    pure 0
