-- ===== src/Zephyr/Basics/Passing.antt =====
-- The sweep of p0_sanity.c finds each word as it was written, in both patterns.
use zephyr_riscv_test_suite.Prelude.{
  ℕ, zero, suc, ◌+◌, ◌*◌, ◌%◌, ◌^◌, ◌<◌, ◌≡◌, ◌≢◌, refl, arith, ap, sym, ◌∙◌, true, ◌==◌, ==_iff,
  ==-refl, ==-ne, Bool-cases, inl, inr, subst,
}
use zephyr_riscv_test_suite.PageTable.{store}
use zephyr_riscv_test_suite.Zephyr.Board.{Board, goes_on, verdict}
use zephyr_riscv_test_suite.Zephyr.Board.Accesses.{step-passes}
use zephyr_riscv_test_suite.Zephyr.Basics.{
  test_sram_rw_sweep, fill_buf, check_buf, first_pattern, second_pattern,
}

module _ (pattern : ℕ → ℕ) (fits : (i : ℕ) → pattern i % 2 ^ 64 ≡ pattern i) (buf : ℕ) where
  fill_buf-goes :
      (left i : ℕ) (b : Board)
      → ((j : ℕ) → j < i → b.mem (buf + j * 8) ≡ pattern j)
      → (b' : Board) × (fill_buf pattern buf left i b ≡ goes_on tt b')
        × ((j : ℕ) → j < i + left → b'.mem (buf + j * 8) ≡ pattern j)
  unfolding fill_buf
  fill_buf-goes zero i b before = (b, refl, λ j h. before j (omega arith))
  fill_buf-goes (suc left) i b before =
      let c : Board = record b { mem = store b.mem (buf + i * 8) (pattern i % 2 ^ 64) } in
      let rest = fill_buf-goes left (i + 1) c (λ j h. elim (Bool-cases (i == j)) [
        | inl same ↦
            subst (λ x. c.mem (buf + x * 8) ≡ pattern x) ((==_iff i j).0 same)
              (rw (==-refl (buf + i * 8)) (fits i))
        | inr other ↦
            let ne : i ≢ j = λ e. absurd (ground (arith, sym other ∙ (==_iff i j).1 e)) in
            rw (==-ne (buf + i * 8) (buf + j * 8) (λ e. ne (omega (arith, e))))
              (before j (omega arith))
      ]) in
      (rest.0, rest.1, λ j h. rest.2 j (omega arith))

  check_buf-goes :
      (left i : ℕ) (b : Board)
      → ((j : ℕ) → j < i + left → b.mem (buf + j * 8) ≡ pattern j)
      → check_buf pattern buf left i b ≡ goes_on tt b
  unfolding check_buf
  check_buf-goes zero i b there = refl
  check_buf-goes (suc left) i b there =
      rw (there i (omega arith), ==-refl (pattern i))
        (check_buf-goes left (i + 1) b (λ j h. there j (omega arith)))

pub sweep-passes : (buf : ℕ) (b : Board) → verdict (test_sram_rw_sweep buf b) ≡ true
unfolding test_sram_rw_sweep
sweep-passes buf b =
    let first_fits : (i : ℕ) → first_pattern i % 2 ^ 64 ≡ first_pattern i = λ i. omega arith in
    let second_fits : (i : ℕ) → second_pattern i % 2 ^ 64 ≡ second_pattern i = λ i. omega arith in
    let first =
      fill_buf-goes first_pattern first_fits buf 1024 0 b (λ j h. absurd (omega (arith, h))) in
    let second =
      fill_buf-goes second_pattern second_fits buf 1024 0 first.0
        (λ j h. absurd (omega (arith, h))) in
    step-passes _ first.1 (
      step-passes _ (check_buf-goes first_pattern first_fits buf 1024 0 first.0 first.2) (
        step-passes _ second.1
          (ap verdict (check_buf-goes second_pattern second_fits buf 1024 0 second.0 second.2))))
