-- ===== src/Zephyr/FaultHandle/Passing.antt =====
-- The tests of p1c_fault_handle.c with one page pass.
use zephyr_riscv_test_suite.Prelude.{
  ℕ, ◌+◌, ◌*◌, ◌/◌, ◌%◌, ◌^◌, ◌<◌, ◌≡◌, ◌≢◌, refl, arith, ap, sym, ◌∙◌, Bool, true, false, ◌==◌,
  ==-refl, ==-ne, if◌then◌else◌, bit_or, bit_and, Bool-cases, inl, inr,
}
use zephyr_riscv_test_suite.Machine.Bit.{bit, bit-and, bit-or}
use zephyr_riscv_test_suite.PageTable.{Memory, store}
use zephyr_riscv_test_suite.Hart.{Access, load, fetch, write, physical, permits, is_marked}
use zephyr_riscv_test_suite.Zephyr.Board.{
  Board, Kernel, Oracle, Script, goes_on, test_failed, verdict, allows, fill, access, attempt,
  on_fault,
}
use zephyr_riscv_test_suite.Zephyr.Board.Behaviour.{IsKernel, mapped}
use zephyr_riscv_test_suite.Zephyr.Board.Accesses.{
  mapped-Known, is_marked-word, known-unmarked, step-passes, allows-word,
}
use zephyr_riscv_test_suite.Zephyr.Board.Words.{page_at}
use zephyr_riscv_test_suite.Zephyr.FaultHandle.{
  k_sys_fatal_error_handler, p1c_before, test_p1c_1_load_fix_retry, test_p1c_2_store_fix_retry,
  test_p1c_3_exec_fix_retry, test_p1c_5_ad_bit_mode,
}
use zephyr_riscv_test_suite.Zephyr.FaultHandle.Repairs.{fixed-goes}

module _ (k : Kernel) (law : IsKernel k) (hits : Oracle) (svadu : Bool) (bp : ℕ)
    (data_page : bp % 4096 ≡ 0) (outside : law.is_table bp ≡ false) where
  pub apart : (level va : ℕ) → bp ≢ law.entry_at level va
  apart level va hit =
      absurd (ground (arith, sym (ap law.is_table hit) ∙ outside, law.in_table level va))

  -- A page with flags that deny the access, and the resolver registered.
  abbrev start : (va bits : ℕ) → Board → Board
  start va bits b = record (mapped va 0 (bp / 4096 * 1024 + bits) (law.entry_at 0 va) b) {
    resolver = true;
  }

  retry-goes :
      {A : Type 0} (a : Access) (va bits : ℕ) (b : Board) (effect : ℕ → Script A)
      → va % 4096 ≡ 0
      → bits < 1024
      → bit 4 bits ≡ 0
      → allows a b.sstatus bits 0 ≡ false
      → (b' : Board) × (access k hits svadu k_sys_fatal_error_handler a va effect (start va bits b)
          ≡ effect bp b')
        × (b'.mem bp ≡ b.mem bp)
        × (b'.fix_count ≡ b.fix_count + 1)
  retry-goes a va bits b effect page small kernel denied =
      let at : ℕ = law.entry_at 0 va in
      let word : ℕ = bp / 4096 * 1024 + bits in
      let got =
        fixed-goes k law hits svadu k_sys_fatal_error_handler a va at word (start va bits b)
          (mapped-Known va 0 word at b) effect (allows-word a b.sstatus (bp / 4096) bits ∙ denied)
          (omega arith) refl in
      let target : word / 1024 * 4096 + va % 4096 ≡ bp = omega arith in
      let other : at ≢ bp = λ e. apart 0 va (sym e) in
      (
        got.0,
        got.1 ∙ ap (λ p. effect p got.0) target,
        ap (λ (f : Memory). f bp) got.2.mem ∙ rw (==-ne at bp other) refl,
        got.2.fix_count,
      )

  module _ (b : Board) where
    pub p1c_1-passes : verdict (test_p1c_1_load_fix_retry k hits svadu bp (p1c_before b)) ≡ true
    unfolding test_p1c_1_load_fix_retry p1c_before allows permits
    p1c_1-passes =
        let c : Board = record (p1c_before b) { mem = store b.mem bp 0xFEEDFACECAFE0001 } in
        let got =
          retry-goes load 0xD0100000 6 c (λ pa d. goes_on (d.mem pa) d) refl (omega arith) refl
            refl in
        let planted : c.mem bp ≡ 0xFEEDFACECAFE0001 = rw (==-refl bp) refl in
        rw (law.map_raw 0xD0100000 bp 6 0 c refl data_page)
          (step-passes _ (got.1 ∙ ap (λ x. goes_on x got.0) (got.2 ∙ planted)) (rw got.3 refl))

    pub p1c_2-passes : verdict (test_p1c_2_store_fix_retry k hits svadu bp (p1c_before b)) ≡ true
    unfolding test_p1c_2_store_fix_retry p1c_before allows permits
    p1c_2-passes =
        let c : Board = p1c_before b in
        let got =
          retry-goes write 0xD0110000 3 c
            (λ pa d. goes_on tt (record d { mem = store d.mem pa 0xDEADBEEF00000002 })) refl
            (omega arith) refl refl in
        rw (law.map_raw 0xD0110000 bp 3 0 c refl data_page)
          (step-passes _ got.1 (rw (got.3, ==-refl bp) refl))

    pub p1c_3-passes : verdict (test_p1c_3_exec_fix_retry k hits svadu bp (p1c_before b)) ≡ true
    unfolding test_p1c_3_exec_fix_retry p1c_before allows permits
    p1c_3-passes =
        let code : ℕ = b.mem bp / 2 ^ 32 * 2 ^ 32 + 0x00008067 in
        let c : Board = record (p1c_before b) { mem = store b.mem bp code } in
        let got =
          retry-goes fetch 0xD0120000 3 c
            (λ pa d.
              if d.mem pa % 2 ^ 32 == 0x00008067
              then goes_on tt d
              else test_failed "ran into other code" d)
            refl (omega arith) refl refl in
        let planted : c.mem bp ≡ code = rw (==-refl bp) refl in
        let is_ret : got.0.mem bp % 2 ^ 32 ≡ 0x00008067 = omega (arith, got.2 ∙ planted) in
        rw (law.map_raw 0xD0120000 bp 3 0 c refl data_page) (
          step-passes _
            (got.1
              ∙ ap
                  (λ x.
                    if x == 0x00008067
                    then goes_on tt got.0
                    else test_failed "ran into other code" got.0)
                  is_ret)
            (rw got.3 refl))

    -- With hardware that sets A and D, and with hardware that does not.
    pub p1c_5-passes : verdict (test_p1c_5_ad_bit_mode k hits svadu bp (p1c_before b)) ≡ true
    unfolding test_p1c_5_ad_bit_mode p1c_before allows permits is_marked attempt on_fault
        k_sys_fatal_error_handler
    p1c_5-passes =
        let va : ℕ = 0xD0300000 in
        let at : ℕ = law.entry_at 0 va in
        let word : ℕ = bp / 4096 * 1024 + 7 in
        let c : Board = record (p1c_before b) { mem = store b.mem bp 0x1234567890ABCDEF } in
        let ready : Board = record (mapped va 0 word at c) {
          expected_scause = 13;
          expected_stval = va;
          expect_fault = true;
        } in
        let first =
          known-unmarked k hits svadu k_sys_fatal_error_handler load va (page_at at) word ready
            (mapped-Known va 0 word at c) refl (allows-word load b.sstatus (bp / 4096) 7 ∙ refl)
            (is_marked-word load (bp / 4096) 7 ∙ refl) in
        let marked : ℕ = bit_or word 0x40 in
        let updated : Memory = store ready.mem at marked in
        let passed : Board = record (fill va marked 0 (record ready { mem = updated })) {
          expect_fault = false;
        } in
        let target : physical word 0 va ≡ bp = omega arith in
        let value : updated bp ≡ 0x1234567890ABCDEF =
          rw (==-ne at bp (λ e. apart 0 va (sym e)), ==-refl bp) refl in
        let entry : updated at ≡ marked = rw (==-refl at) refl in
        let seen : bit 6 (bit_and marked 0x40) ≡ 1 =
          omega (arith, bit-and 6 marked 0x40, bit-or 6 word 0x40) in
        let some_bit : bit_and marked 0x40 ≢ 0 = λ e. omega (arith, ap (bit 6) e, seen) in
        rw (law.map_raw va bp 7 0 c refl data_page, first)
          (elim (Bool-cases svadu) [
            | inl hardware ↦ rw hardware (
                rw
                  (
                    target,
                    value,
                    law.pte_lookup va passed (page_at at) refl,
                    entry,
                    ==-ne _ 0 some_bit,
                  )
                  refl)
            | inr software ↦ rw (software, law.unresolved) refl
          ])
