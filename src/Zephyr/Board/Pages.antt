-- ===== src/Zephyr/Board/Pages.antt =====
-- A run of pages, mapped one by one to a run of frames, with a word at the start of each.
use zephyr_riscv_test_suite.Prelude.{
  ℕ, zero, suc, ◌+◌, ◌*◌, ◌/◌, ◌%◌, ◌^◌, ◌<◌, ◌≤◌, ◌≡◌, ◌≢◌, refl, arith, ap, sym, ◌∙◌, false, ◌==◌,
  ==_iff, ==-refl, ==-ne, Bool-cases, inl, inr, subst,
}
use zephyr_riscv_test_suite.PageTable.{Memory, store}
use zephyr_riscv_test_suite.Zephyr.Board.{Board, Kernel, page_of}
use zephyr_riscv_test_suite.Zephyr.Board.Behaviour.{IsKernel, mapped}
use zephyr_riscv_test_suite.Zephyr.Board.Accesses.{Known, Kept, Known-Kept, mapped-Known}
use zephyr_riscv_test_suite.Zephyr.Board.Words.{page_at}

module _ (k : Kernel) (law : IsKernel k) (va0 bp bits n : ℕ) (value : ℕ → ℕ)
    (start : va0 % 4096 ≡ 0) (low : (va0 + n * 4096) / 2 ^ 39 ≡ 0) (data_page : bp % 4096 ≡ 0)
    (outside : (j : ℕ) → j < n → law.is_table (bp + j * 4096) ≡ false) where
  abbrev pub va : ℕ → ℕ
  va j = va0 + j * 4096

  abbrev pub pa : ℕ → ℕ
  pa j = bp + j * 4096

  abbrev pub entry : ℕ → ℕ
  entry j = law.entry_at 0 (va j)

  abbrev pub word : ℕ → ℕ
  word j = (bp + j * 4096) / 4096 * 1024 + bits

  -- Page `j` is mapped, and its word is in memory.
  abbrev pub Page : Board → ℕ → Type 0
  Page b j = Known b (va j) (page_at (entry j)) (word j) × (b.mem (pa j) ≡ value j)

  pub page-apart : (i j : ℕ) → i ≢ j → page_of (va i) ≢ page_of (va j)
  page-apart i j ne same = ne (omega arith)

  pub entry-apart : (i j : ℕ) → i < n → j < n → i ≢ j → entry i ≢ entry j
  entry-apart i j hi hj ne same =
      page-apart i j ne (law.one_entry (va i) (va j) (omega arith) (omega arith) same)

  pub data-apart : (i j : ℕ) → j < n → entry i ≢ pa j
  data-apart i j h hit =
      absurd (ground (arith, sym (outside j h) ∙ sym (ap law.is_table hit) ∙ law.in_table 0 (va i)))

  -- The board with page `i` written and mapped.
  abbrev pub laid : ℕ → Board → Board
  laid i b = mapped (va i) 0 (word i) (entry i) (record b { mem = store b.mem (pa i) (value i) })

  pub laid-Page : (i : ℕ) (b : Board) → i < n → Page (laid i b) i
  laid-Page i b h = (
    mapped-Known (va i) 0 (word i) (entry i) (record b { mem = store b.mem (pa i) (value i) }),
    rw (==-ne (entry i) (pa i) (data-apart i i h), ==-refl (pa i)) refl,
  )

  pub laid-kept : (i j : ℕ) (b : Board) → i < n → j < n → i ≢ j → Page b j → Page (laid i b) j
  laid-kept i j b hi hj ne page =
      let apart : page_of (va j) / 2 ^ 0 ≢ page_of (va i) / 2 ^ 0 = λ e. ne (omega (arith, e)) in
      let from_data : pa i ≢ entry j = λ e. data-apart j i hi (sym e) in
      let frames : pa i ≢ pa j = λ e. ne (omega (arith, e)) in
      (
        (
          rw (==-ne _ _ apart) page.0.0,
          rw (==-ne _ _ apart) page.0.1,
          rw (==-ne _ _ (entry-apart i j hi hj ne), ==-ne _ _ from_data) page.0.2,
        ),
        rw (==-ne _ _ (data-apart i j hj), ==-ne _ _ frames) page.1,
      )

  unfoldable pub lay : (left i : ℕ) → Board → Board
  lay zero i b = b
  lay (suc left) i b = lay left (i + 1) (laid i b)

  -- Behind a loop that lays the pages from `i` on, all up to there are in place.
  pub lay-Page :
      (left i : ℕ) (b : Board)
      → i + left ≤ n
      → ((j : ℕ) → j < i → Page b j)
      → (j : ℕ) → j < i + left
      → Page (lay left i b) j
  unfolding lay
  lay-Page zero i b bound before j h = before j (omega arith)
  lay-Page (suc left) i b bound before j h =
      lay-Page left (i + 1) (laid i b) (omega arith)
        (λ j h'. elim (Bool-cases (i == j)) [
          | inl same ↦ subst (Page (laid i b)) ((==_iff i j).0 same) (laid-Page i b (omega arith))
          | inr other ↦
              let ne : i ≢ j = λ e. absurd (ground (arith, sym other ∙ (==_iff i j).1 e)) in
              laid-kept i j b (omega arith) (omega arith) ne (before j (omega arith))
        ])
        j (omega arith)

  pub fix_count-lay : (left i : ℕ) (b : Board) → (lay left i b).fix_count ≡ b.fix_count
  unfolding lay
  fix_count-lay zero i b = refl
  fix_count-lay (suc left) i b = fix_count-lay left (i + 1) (laid i b)

  -- Another page's entry, and what is known of this page, behind an access to that page.
  pub Page-Kept :
      (b b' : Board) (i j level : ℕ)
      → i ≢ j
      → Kept b b' (page_of (va i)) level 0
      → Page b j
      → Page b' j
  Page-Kept b b' i j level ne kept page = (
    Known-Kept b b' (va j) (page_at (entry j)) (word j) (page_of (va i)) level 0 kept
        (λ e. absurd (page-apart i j ne (sym e))) page.0,
    ap (λ (f : Memory). f (pa j)) kept.mem ∙ page.1,
  )

  -- An access to a page of the run.
  pub Page-stays :
      (b b' : Board) (i j : ℕ) → Kept b b' (page_of (va i)) (word i) 0 → Page b j → Page b' j
  Page-stays b b' i j kept page = (
    Known-Kept b b' (va j) (page_at (entry j)) (word j) (page_of (va i)) (word i) 0 kept
        (λ e. let same : i ≡ j = omega (arith, e) in (ap word same, refl)) page.0,
    ap (λ (f : Memory). f (pa j)) kept.mem ∙ page.1,
  )
