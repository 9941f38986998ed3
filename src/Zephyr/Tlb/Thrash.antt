-- ===== src/Zephyr/Tlb/Thrash.antt =====
-- P1D.3: each of 128 pages is read twice, whatever the TLB has kept of them.
use zephyr_riscv_test_suite.Prelude.{
  ℕ, zero, suc, ◌+◌, ◌*◌, ◌/◌, ◌%◌, ◌^◌, ◌<◌, ◌≤◌, ◌≡◌, refl, arith, ap, ◌∙◌, Bool, true, false,
  ==-refl,
}
use zephyr_riscv_test_suite.PageTable.{store}
use zephyr_riscv_test_suite.Hart.{is_marked, permits}
use zephyr_riscv_test_suite.Zephyr.Board.{Board, Kernel, Oracle, goes_on, verdict, allows}
use zephyr_riscv_test_suite.Zephyr.Board.Behaviour.{IsKernel}
use zephyr_riscv_test_suite.Zephyr.Board.Accesses.{step-passes}
use zephyr_riscv_test_suite.Zephyr.Board.Words.{load-goes}
use zephyr_riscv_test_suite.Zephyr.Board.Pages.{Page, Page-stays, laid, lay, lay-Page}
use zephyr_riscv_test_suite.Zephyr.Tlb.{
  k_sys_fatal_error_handler, test_p1d_3_tlb_thrash, fill_pages, check_pages, thrash_va,
  thrash_value,
}

module _ (k : Kernel) (law : IsKernel k) (hits : Oracle) (svadu : Bool) (buf : ℕ)
    (data_page : buf % 4096 ≡ 0)
    (outside : (j : ℕ) → j < 128 → law.is_table (buf + j * 4096) ≡ false) where
  abbrev There : Board → ℕ → Type 0
  There = Page k law 0xD2000000 buf 0xC7 128 thrash_value refl refl data_page outside

  abbrev laid_from : (left i : ℕ) → Board → Board
  laid_from = lay k law 0xD2000000 buf 0xC7 128 thrash_value refl refl data_page outside

  fill_pages-goes :
      (left i : ℕ) (b : Board)
      → fill_pages k hits svadu buf left i b ≡ goes_on tt (laid_from left i b)
  unfolding fill_pages lay
  fill_pages-goes zero i b = refl
  fill_pages-goes (suc left) i b =
      let from : Board = record b { mem = store b.mem (buf + i * 4096) (thrash_value i) } in
      let stored : thrash_value i % 2 ^ 64 ≡ thrash_value i = omega arith in
      rw
        (stored, law.map_raw (thrash_va i) (buf + i * 4096) 0xC7 0 from (omega arith) (omega arith))
        (fill_pages-goes left (i + 1)
          (laid k law 0xD2000000 buf 0xC7 128 thrash_value refl refl data_page outside i b))

  check_pages-goes :
      (left i : ℕ) (b : Board)
      → i + left ≤ 128
      → ((j : ℕ) → j < 128 → There b j)
      → (b' : Board) × (check_pages k hits svadu left i b ≡ goes_on tt b')
        × ((j : ℕ) → j < 128 → There b' j)
  unfolding check_pages allows permits is_marked
  check_pages-goes zero i b ends there = (b, refl, there)
  check_pages-goes (suc left) i b ends there =
      let page = there i (omega arith) in
      let frame : ℕ = (buf + i * 4096) / 4096 in
      let got =
        load-goes k hits svadu k_sys_fatal_error_handler (thrash_va i) frame 0xC7
          (law.entry_at 0 (thrash_va i)) (omega arith) b page.0 refl refl in
      let target : frame * 4096 + thrash_va i % 4096 ≡ buf + i * 4096 = omega arith in
      let value : b.mem (frame * 4096 + thrash_va i % 4096) ≡ thrash_value i =
        ap b.mem target ∙ page.1 in
      let rest = check_pages-goes left (i + 1) got.0 (omega arith) (λ j h.
        Page-stays k law 0xD2000000 buf 0xC7 128 thrash_value refl refl data_page outside b got.0 i
          j got.2 (there j h)) in
      (rest.0, rw (got.1, value, ==-refl (thrash_value i)) rest.1, rest.2)

  pub p1d_3-passes : (b : Board) → verdict (test_p1d_3_tlb_thrash k hits svadu buf b) ≡ true
  unfolding test_p1d_3_tlb_thrash
  p1d_3-passes b =
      let there =
        lay-Page k law 0xD2000000 buf 0xC7 128 thrash_value refl refl data_page outside 128 0 b
          (omega arith) (λ j h. absurd (omega (arith, h))) in
      let once = check_pages-goes 128 0 (laid_from 128 0 b) (omega arith) there in
      let twice = check_pages-goes 128 0 once.0 (omega arith) once.2 in
      rw (fill_pages-goes 128 0 b) (step-passes _ once.1 (ap verdict twice.1))
