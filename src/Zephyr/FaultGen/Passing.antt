-- ===== src/Zephyr/FaultGen/Passing.antt =====
-- The tests of p1b_fault_gen.c on a page that faults at its first access pass, by the fault that it expects.
use zephyr_riscv_test_suite.Prelude.{
  Option, inr, sym, ℕ, ◌+◌, ◌*◌, ◌/◌, ◌%◌, ◌^◌, ◌≡◌, refl, arith, ap, ◌∙◌, Bool, true, false,
  ==-refl, inl,
}
use zephyr_riscv_test_suite.Machine.{csrc}
use zephyr_riscv_test_suite.Machine.Bit.{bit, bit-csrc, sum-IsMask}
use zephyr_riscv_test_suite.PageTable.{Place}
use zephyr_riscv_test_suite.Hart.{Access, load, fetch, write, cause, permits, is_marked}
use zephyr_riscv_test_suite.Zephyr.Board.{
  Board, Kernel, Oracle, Script, goes_on, test_passed, verdict, allows, access, page_of, bind,
}
use zephyr_riscv_test_suite.Zephyr.Board.Behaviour.{IsKernel, mapped, Allocated, is_page}
use zephyr_riscv_test_suite.Zephyr.Board.Accesses.{
  Known, Known-Kept, mapped-Known, known-ends, known-goes, step-passes, allows-word, is_marked-word,
}
use zephyr_riscv_test_suite.Zephyr.FaultGen.{
  k_sys_fatal_error_handler, expect, test_p1b_1_load_v0_page, test_p1b_2_store_v0_page,
  test_p1b_3_exec_v0_page, test_p1b_4_load_xonly_page, test_p1b_5_store_ro_page,
  test_p1b_5b_store_ro_kmemmap, test_p1b_6_exec_noexec_page, test_p1b_6b_exec_noexec_kmemmap,
  test_p1b_7_upage_sum0, test_p1b_8_misaligned_megapage,
}

module _ (k : Kernel) (law : IsKernel k) (hits : Oracle) (svadu : Bool) where
  -- An access that a known entry denies, with its fault expected, passes the test.
  pub provoked :
      {A : Type 0} (a : Access) (va : ℕ) (w : Place) (pte : ℕ) (b : Board) (effect : ℕ → Script A)
      → Known b va w pte
      → allows a b.sstatus pte w.level ≡ false
      → b.resolver ≡ false
      → b.expect_fault ≡ true
      → b.expected_scause ≡ cause a
      → b.expected_stval ≡ va
      → access k hits svadu k_sys_fatal_error_handler a va effect b
        ≡ test_passed (record b { expect_fault = false })
  unfolding k_sys_fatal_error_handler
  provoked a va w pte b effect known denied inert expected of_cause at_va =
      known-ends k hits svadu k_sys_fatal_error_handler a va w pte b known effect denied inert
        law.unresolved
      ∙ rw (expected, of_cause, at_va, ==-refl (cause a), ==-refl va) refl

  -- The board with the fault of an access expected.
  abbrev awaiting : Access → ℕ → Board → Board
  awaiting a va b = record b { expected_scause = cause a; expected_stval = va; expect_fault = true }

  -- A page mapped with flags that deny the access.
  raw-passes :
      {A : Type 0} (a : Access) (va pa bits : ℕ) (b : Board) (effect : ℕ → Script A)
      (rest : A → Script (Unit {0}))
      → va % 4096 ≡ 0
      → pa % 4096 ≡ 0
      → allows a b.sstatus bits 0 ≡ false
      → b.resolver ≡ false
      → verdict (
          bind
            (access k hits svadu k_sys_fatal_error_handler a va effect
              (awaiting a va (k.map_raw va pa bits 0 b)))
            rest)
        ≡ true
  raw-passes a va pa bits b effect rest page_start aligned denied inert =
      let word : ℕ = pa / 4096 * 1024 + bits in
      rw (law.map_raw va pa bits 0 b page_start aligned) (
        ap (λ r. verdict (bind r rest))
          (provoked a va (record { at = law.entry_at 0 va; level = 0 }) word
            (awaiting a va (mapped va 0 word (law.entry_at 0 va) b)) effect
            (mapped-Known va 0 word (law.entry_at 0 va) b)
            (allows-word a b.sstatus (pa / 4096) bits ∙ denied) inert refl refl refl))

  module _ (bp_data bp_code : ℕ) (b : Board) (data_page : bp_data % 4096 ≡ 0)
      (code_page : bp_code % 4096 ≡ 0) (inert : b.resolver ≡ false) where
    pub p1b_1-passes : verdict (test_p1b_1_load_v0_page k hits svadu bp_data bp_code b) ≡ true
    unfolding test_p1b_1_load_v0_page expect allows permits
    p1b_1-passes = raw-passes load 0xD0000000 bp_data 0xC6 b _ _ refl data_page refl inert

    pub p1b_2-passes : verdict (test_p1b_2_store_v0_page k hits svadu bp_data bp_code b) ≡ true
    unfolding test_p1b_2_store_v0_page expect allows permits
    p1b_2-passes = raw-passes write 0xD0010000 bp_data 0xC6 b _ _ refl data_page refl inert

    pub p1b_3-passes : verdict (test_p1b_3_exec_v0_page k hits svadu bp_data bp_code b) ≡ true
    unfolding test_p1b_3_exec_v0_page expect allows permits
    p1b_3-passes = raw-passes fetch 0xD0030000 bp_code 0xCA _ _ _ refl code_page refl inert

    pub p1b_4-passes :
        bit 19 b.sstatus ≡ 0
        → verdict (test_p1b_4_load_xonly_page k hits svadu bp_data bp_code b) ≡ true
    unfolding test_p1b_4_load_xonly_page expect allows permits
    p1b_4-passes no_mxr =
        raw-passes load 0xD0040000 bp_data 0xC9 b _ _ refl data_page (rw no_mxr refl) inert

    pub p1b_5-passes : verdict (test_p1b_5_store_ro_page k hits svadu bp_data bp_code b) ≡ true
    unfolding test_p1b_5_store_ro_page expect allows permits
    p1b_5-passes = raw-passes write 0xD0050000 bp_data 0xC3 b _ _ refl data_page refl inert

    pub p1b_6-passes : verdict (test_p1b_6_exec_noexec_page k hits svadu bp_data bp_code b) ≡ true
    unfolding test_p1b_6_exec_noexec_page expect allows permits
    p1b_6-passes = raw-passes fetch 0xD0060000 bp_code 0xC3 _ _ _ refl code_page refl inert

    -- SUM is cleared behind the mapping.
    pub p1b_7-passes : verdict (test_p1b_7_upage_sum0 k hits svadu bp_data bp_code b) ≡ true
    unfolding test_p1b_7_upage_sum0 expect allows permits
    p1b_7-passes =
        let word : ℕ = bp_data / 4096 * 1024 + 0xD7 in
        let no_sum : bit 18 (csrc b.sstatus (2 ^ 18)) ≡ 0 =
          bit-csrc 18 sum-IsMask b.sstatus 18 (omega arith) in
        rw (law.map_raw 0xD0070000 bp_data 0xD7 0 b refl data_page) (
          step-passes _
            (provoked load 0xD0070000 (record { at = law.entry_at 0 0xD0070000; level = 0 }) word _
              _ (mapped-Known 0xD0070000 0 word (law.entry_at 0 0xD0070000) b)
              (allows-word load (csrc b.sstatus (2 ^ 18)) (bp_data / 4096) 0xD7 ∙ rw no_sum refl)
              inert refl refl refl)
            refl)

    p1b_6b-passes :
        Allocated law.entry_at law.is_table 0xC7 (k.k_mem_map 4096 k.perm_rw b) b
        → verdict (test_p1b_6b_exec_noexec_kmemmap k hits svadu bp_data bp_code b) ≡ true
    unfolding test_p1b_6b_exec_noexec_kmemmap expect allows permits
    p1b_6b-passes got =
        let word : ℕ = got.frame * 1024 + 0xC7 in
        rw got.result (
          step-passes _
            (provoked fetch got.va (record { at = law.entry_at 0 got.va; level = 0 }) word _ _
              (mapped-Known got.va 0 word (law.entry_at 0 got.va) (record b { mem = got.contents }))
              (allows-word fetch b.sstatus got.frame 0xC7 ∙ refl) inert refl refl refl)
            refl)

    -- It passes exactly if the kernel has handed out a page.
    pub p1b_6b-is_page :
        verdict (test_p1b_6b_exec_noexec_kmemmap k hits svadu bp_data bp_code b)
        ≡ is_page ((k.k_mem_map 4096 k.perm_rw b).0)
    unfolding test_p1b_6b_exec_noexec_kmemmap
    p1b_6b-is_page = elim (law.mem_map_rw b) [
      | inl no_page ↦ rw no_page refl
      | inr got ↦ p1b_6b-passes got ∙ ap (λ (r : Option ℕ × Board). is_page r.0) (sym got.result)
    ]

    p1b_5b-passes :
        Allocated law.entry_at law.is_table 0xC3 (k.k_mem_map 4096 k.map_uninit b) b
        → verdict (test_p1b_5b_store_ro_kmemmap k hits svadu bp_data bp_code b) ≡ true
    unfolding test_p1b_5b_store_ro_kmemmap expect allows permits is_marked
    p1b_5b-passes got =
        let word : ℕ = got.frame * 1024 + 0xC3 in
        let w : Place = record { at = law.entry_at 0 got.va; level = 0 } in
        let known =
          mapped-Known got.va 0 word (law.entry_at 0 got.va) (record b { mem = got.contents }) in
        let read =
          known-goes k hits svadu k_sys_fatal_error_handler load got.va w word _ known
            (λ pa c. goes_on (c.mem pa) c) (allows-word load b.sstatus got.frame 0xC3 ∙ refl)
            (is_marked-word load got.frame 0xC3 ∙ refl) in
        rw got.result (
          step-passes _ read.1 (
            step-passes _
              (provoked write got.va w word _ _
                (Known-Kept _ read.0 got.va w word (page_of got.va) word 0 read.2
                  (λ e. (refl, refl)) known)
                (ap (λ s. allows write s word 0) read.2.sstatus
                  ∙ allows-word write b.sstatus got.frame 0xC3
                  ∙ refl)
                (read.2.resolver ∙ inert) refl refl refl)
              refl))

    -- It passes exactly if the kernel has handed out a page.
    pub p1b_5b-is_page :
        verdict (test_p1b_5b_store_ro_kmemmap k hits svadu bp_data bp_code b)
        ≡ is_page ((k.k_mem_map 4096 k.map_uninit b).0)
    unfolding test_p1b_5b_store_ro_kmemmap
    p1b_5b-is_page = elim (law.mem_map_ro b) [
      | inl no_page ↦ rw no_page refl
      | inr got ↦ p1b_5b-passes got ∙ ap (λ (r : Option ℕ × Board). is_page r.0) (sym got.result)
    ]

    pub p1b_8-passes :
        verdict (test_p1b_8_misaligned_megapage k hits svadu bp_data bp_code b) ≡ true
    unfolding test_p1b_8_misaligned_megapage expect allows permits
    p1b_8-passes =
        rw
          (
            law.map_raw 0xE0000000 0x80000000 0xC7 1 b refl refl,
            law.pte_lookup 0xE0000000 (mapped 0xE0000000 1 0x200000C7 (law.entry_at 1 0xE0000000) b)
                (record { at = law.entry_at 1 0xE0000000; level = 1 }) refl,
          )
          (step-passes _
            (provoked load 0xE0000000 (record { at = law.entry_at 1 0xE0000000; level = 1 })
              0x200004C7 _ _ (inl refl, refl, rw (==-refl (law.entry_at 1 0xE0000000)) refl) refl
              inert refl refl refl)
            refl)
