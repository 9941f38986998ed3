-- ===== src/Zephyr/Tlb/Stale.antt =====
-- P1D.2: an entry is pointed at another page without a fence, and then fenced.
use zephyr_riscv_test_suite.Prelude.{
  ℕ, ◌+◌, ◌*◌, ◌/◌, ◌%◌, ◌^◌, ◌<◌, ◌≡◌, ◌≢◌, refl, arith, ap, ◌∙◌, Bool, true, false, ==-refl,
  ==-ne, if◌then◌else◌, Option, some, inl, inr,
}
use zephyr_riscv_test_suite.PageTable.{Memory, Place, store}
use zephyr_riscv_test_suite.Hart.{is_marked, permits}
use zephyr_riscv_test_suite.Zephyr.Board.{
  Board, Kernel, Oracle, Thread, goes_on, verdict, bind, allows, load64, zassert_equal,
  sfence_vma_addr,
}
use zephyr_riscv_test_suite.Zephyr.Board.Behaviour.{IsKernel, mapped}
use zephyr_riscv_test_suite.Zephyr.Board.Accesses.{Known-Kept, mapped-Known, step-passes}
use zephyr_riscv_test_suite.Zephyr.Board.Words.{load-goes, page_at}
use zephyr_riscv_test_suite.Zephyr.Tlb.{k_sys_fatal_error_handler, test_p1d_2_stale_tlb}
use zephyr_riscv_test_suite.Zephyr.Tlb.Fences.{unless_covered_self, stale-load}
use zephyr_riscv_test_suite.Zephyr.Tlb.Targeted.{data-apart, edit-word}

module _ (k : Kernel) (law : IsKernel k) (hits : Oracle) (svadu : Bool) (pages : ℕ)
    (data_page : pages % 4096 ≡ 0) (small : pages + 5 * 4096 < 2 ^ 64)
    (outside : (j : ℕ) → j < 5 → law.is_table (pages + j * 4096) ≡ false) (b : Board) where
  abbrev at : ℕ
  at = law.entry_at 0 0xD1100000

  abbrev old_page : ℕ
  old_page = pages + 3 * 4096

  abbrev new_page : ℕ
  new_page = pages + 4 * 4096

  abbrev old_word : ℕ
  old_word = old_page / 4096 * 1024 + 0xC7

  abbrev new_word : ℕ
  new_word = (pages / 4096 + 4) * 1024 + 0xC7

  abbrev planted : Board
  planted = record b {
    mem = store (store b.mem old_page 0x1111111111111111) new_page 0x2222222222222222;
  }

  abbrev before_edit : Board
  before_edit = mapped 0xD1100000 0 old_word at planted

  abbrev edited : Memory
  edited = store before_edit.mem at new_word

  not_old : at ≢ old_page
  not_old = data-apart k law hits svadu pages data_page small outside 0xD1100000 3 (omega arith)

  not_new : at ≢ new_page
  not_new = data-apart k law hits svadu pages data_page small outside 0xD1100000 4 (omega arith)

  initial : before_edit.mem old_page ≡ 0x1111111111111111
  initial =
      rw
        (
          ==-ne at old_page not_old,
          ==-ne new_page old_page (λ e. omega (arith, e)),
          ==-refl old_page,
        )
        refl

  old_value : edited old_page ≡ 0x1111111111111111
  old_value =
      ap (λ t. if t then new_word else before_edit.mem old_page) (==-ne at old_page not_old)
      ∙ initial

  new_value : edited new_page ≡ 0x2222222222222222
  new_value = rw (==-ne at new_page not_new, ==-refl new_page) refl

  old_target : old_page / 4096 * 4096 + 0 ≡ old_page
  old_target = omega arith

  new_target : (pages / 4096 + 4) * 4096 + 0 ≡ new_page
  new_target = omega arith

  abbrev load_from : ℕ → Board → Thread ℕ
  load_from = load64 k hits svadu k_sys_fatal_error_handler

  -- Behind the fence the load takes the new page, whatever the TLB had.
  after_fence :
      (c : Board)
      → c.places 0xD1100000 ≡ some (page_at at)
      → c.mem ≡ edited
      → verdict (
          bind
            (load_from 0xD1100000 (sfence_vma_addr 0xD1100000 c))
            (λ x. zassert_equal x 0x2222222222222222 "after sfence must read new"))
        ≡ true
  unfolding sfence_vma_addr allows permits is_marked
  after_fence c there mem =
      let d : Board = sfence_vma_addr 0xD1100000 c in
      let entry : c.mem at ≡ new_word = ap (λ (f : Memory). f at) mem ∙ rw (==-refl at) refl in
      let got =
        load-goes k hits svadu k_sys_fatal_error_handler 0xD1100000 (pages / 4096 + 4) 0xC7 at
          (omega arith) d (inl (unless_covered_self 0xD1100 (c.tlb 0xD1100)), there, entry) refl
          refl in
      let value : c.mem ((pages / 4096 + 4) * 4096 + 0) ≡ 0x2222222222222222 =
        ap c.mem new_target ∙ ap (λ (f : Memory). f new_page) mem ∙ new_value in
      step-passes _ (got.1 ∙ ap (λ x. goes_on x got.0) value) refl

  pub p1d_2-passes : verdict (test_p1d_2_stale_tlb k hits svadu pages b) ≡ true
  unfolding test_p1d_2_stale_tlb allows permits is_marked
  p1d_2-passes =
      let known = mapped-Known 0xD1100000 0 old_word at planted in
      let first =
        load-goes k hits svadu k_sys_fatal_error_handler 0xD1100000 (old_page / 4096) 0xC7 at
          (omega arith) before_edit known refl refl in
      let value : before_edit.mem (old_page / 4096 * 4096 + 0) ≡ 0x1111111111111111 =
        ap before_edit.mem old_target ∙ initial in
      let known' =
        Known-Kept before_edit first.0 0xD1100000 (page_at at) old_word 0xD1100 old_word 0 first.2
          (λ e. (refl, refl)) known in
      let stale =
        stale-load k hits svadu k_sys_fatal_error_handler 0xD1100000 at (old_page / 4096)
          (pages / 4096 + 4) first.0 known' in
      let memory : store first.0.mem at new_word ≡ edited =
        ap (λ f. store f at new_word) first.2.mem in
      let as_old : store first.0.mem at new_word (old_page / 4096 * 4096 + 0) ≡ 0x1111111111111111 =
        ap (store first.0.mem at new_word) old_target
        ∙ ap (λ (f : Memory). f old_page) memory
        ∙ old_value in
      let as_new : store first.0.mem at new_word ((pages / 4096 + 4) * 4096 + 0)
          ≡ 0x2222222222222222 =
        ap (store first.0.mem at new_word) new_target
        ∙ ap (λ (f : Memory). f new_page) memory
        ∙ new_value in
      let there : stale.0.places 0xD1100000 ≡ some (page_at at) =
        ap (λ (f : ℕ → Option Place). f 0xD1100000) stale.3 ∙ known'.1 in
      let rest = after_fence stale.0 there (stale.2 ∙ memory) in
      rw (law.map_raw 0xD1100000 old_page 0xC7 0 planted refl (omega arith)) (
        step-passes _ (first.1 ∙ ap (λ x. goes_on x first.0) value) (
          rw
            (
              law.pte_lookup 0xD1100000 first.0 (page_at at) known'.1,
              edit-word k law hits svadu pages data_page small outside 4 (omega arith),
            )
            (elim stale.1 [
              | inl old ↦ step-passes _ (old ∙ ap (λ x. goes_on x stale.0) as_old) rest
              | inr new ↦ step-passes _ (new ∙ ap (λ x. goes_on x stale.0) as_new) rest
            ])))
