-- ===== src/Sanity.antt =====
-- tests/p0_sanity.c: the checks before the memory management unit is on. The heap of the sweep, the
-- vector of the S-mode traps and the address of the ecall are the linker's, hence parameters, and so is
-- sstatus as the hart shows it of mstatus.
pub mod Passing
use zephyr_riscv_test_suite.Prelude.{
  ℕ, zero, suc, ◌+◌, ◌-◌, ◌*◌, ◌/◌, ◌%◌, ◌^◌, Bool, ◌==◌, ltb, if◌then◌else◌,
}
use zephyr_riscv_test_suite.Word.{u64, u32, ◌∣∣◌}
use zephyr_riscv_test_suite.Platform.{cause_ecall_smode}
use zephyr_riscv_test_suite.Machine.{Machine}
use zephyr_riscv_test_suite.MTrap.{Resumption, resume, panicked, ecall}
use zephyr_riscv_test_suite.STrap.{s_trap_handler, sepc_slot, store_mem}
use zephyr_riscv_test_suite.Verdict.{Outcome, returned, stopped}
use zephyr_riscv_test_suite.Hart.{Layout, load64, store64}
use zephyr_riscv_test_suite.Suite.{
  Run, done, verdict, hung, Script, ◌>>=◌, ◌>>◌, pure, gets, test_log, assert_eq, banner, say,
  say_hex, say_dec, end_line,
}
use zephyr_riscv_test_suite.Mmu.{clear_fault, fault_count, scause}

pub record Site : Type 0 where
  pub s_trap_vector : ℕ
  pub ecall_at : ℕ
  pub heap_start : ℕ
  pub heap_end : ℕ
  pub sstatus : ℕ → ℕ

module _ (svadu : Bool) (at : Layout) (here : Site) where
  -- P0.2.
  unfoldable pub p0_2 : Script (Unit {0})
  p0_2 = do
    test_log "P0.2 — CSR read/write..."
    sstatus ← gets (λ m. here.sstatus m.mstatus)
    say "    sstatus = "
    say_hex sstatus
    end_line
    test_log "P0.2 — CSR read: OK"

  -- What follows the handler: the program goes on behind the ecall, if the frame says so.
  abbrev pub after_handler : Outcome → Run (Unit {0})
  after_handler (stopped m) = verdict m
  after_handler (returned m) =
      if m.tables.mem (sepc_slot at.frame) == u64 (here.ecall_at + 4) then done tt m else hung m

  -- Where M-mode resumes: in the S-mode vector, which saves sepc and calls the handler; what any other
  -- code does is not known.
  abbrev pub in_vector : Resumption → Run (Unit {0})
  in_vector (panicked m) = verdict m
  in_vector (resume pc m) =
      if pc == here.s_trap_vector
      then after_handler (
          s_trap_handler at.ecall_pc m.scause m.stval m.sepc at.frame
            (store_mem (sepc_slot at.frame) m.sepc m))
      else hung m

  -- `li a7, 0xFF; ecall`, whatever a0 holds.
  unfoldable pub non_sbi_ecall : ℕ → Script (Unit {0})
  non_sbi_ecall a0 m = in_vector (ecall 0xFF a0 here.ecall_at m)

  -- P0.3.
  unfoldable pub p0_3 : ℕ → Script (Unit {0})
  p0_3 a0 = do
    test_log "P0.3 — S-mode trap handler (ecall)..."
    clear_fault
    non_sbi_ecall a0
    assert_eq (← scause) cause_ecall_smode "ecall should produce scause=9" 31
    assert_eq (← fault_count) 1 "fault_count should be 1 after ecall" 32
    test_log "P0.3 — S-mode trap handler: OK"

  abbrev pub pattern : ℕ → ℕ
  pattern i = u64 (0xDEAD0000 ∣∣ i)

  abbrev pub heap_size_words : ℕ
  heap_size_words =
      let words = u64 (here.heap_end + (2 ^ 64 - here.heap_start)) / 8 in
      if ltb 1024 words then 1024 else words

  -- The two loops of P0.4, with `left` rounds to go at round `i`.
  unfoldable pub fill : (left i : ℕ) → Script (Unit {0})
  fill zero i = pure tt
  fill (suc left) i = do store64 svadu at (here.heap_start + 8 * i) (pattern i); fill left (i + 1)

  -- One round of the second loop: how many errors there are then.
  unfoldable pub check_word : (i mem_errors : ℕ) → Script ℕ
  check_word i mem_errors = do
    got ← load64 svadu at (here.heap_start + 8 * i)
    (if got == pattern i then pure mem_errors else report)
    where
      report : Script ℕ
      report = do
        (if ltb mem_errors 3
            then (do
              say "    MEM ERROR at offset "
              say_dec i
              say ": got "
              again ← load64 svadu at (here.heap_start + 8 * i)
              say_hex again
              say " expected "
              say_hex (pattern i)
              end_line)
            else pure tt)
        pure (mem_errors + 1)

  unfoldable pub check_heap : (left i mem_errors : ℕ) → Script ℕ
  check_heap zero i mem_errors = pure mem_errors
  check_heap (suc left) i mem_errors = do
    errors ← check_word i mem_errors
    check_heap left (i + 1) errors

  -- P0.4.
  unfoldable pub p0_4 : Script (Unit {0})
  p0_4 = do
    test_log "P0.4 — SRAM read/write sweep..."
    fill heap_size_words 0
    mem_errors ← check_heap heap_size_words 0 0
    assert_eq mem_errors 0 "SRAM read/write errors detected" 41
    say "    Tested "
    say_dec heap_size_words
    say " 64-bit words: OK\n"
    test_log "P0.4 — SRAM read/write sweep: OK"

  unfoldable pub p0_test_main : ℕ → Script ℕ
  p0_test_main a0 = do
    banner "Phase 0: Pre-MMU Sanity Tests\n"
    test_log "P0.1 — UART TX: OK (you are reading this)"
    p0_2
    p0_3 a0
    p0_4
    test_log "P0.5 — HTIF will be tested by final PASS signal"
    banner "Phase 0: ALL TESTS PASSED\n"
    pure 0
