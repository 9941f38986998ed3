-- ===== src/Zephyr/Enable/Passing.antt =====
-- The tests of p1a_mmu_enable.c pass.
use zephyr_riscv_test_suite.Prelude.{
  ℕ, zero, suc, ◌+◌, ◌*◌, ◌/◌, ◌%◌, ◌^◌, ◌<◌, ◌≡◌, ◌≢◌, refl, arith, ap, sym, ◌∙◌, Bool, true,
  false, ◌==◌, ==_iff, ==-refl, ==-ne, Bool-cases, inl, inr, subst,
}
use zephyr_riscv_test_suite.Word.Bits.{and-mask}
use zephyr_riscv_test_suite.PageTable.{Memory, store}
use zephyr_riscv_test_suite.Hart.{is_marked, permits}
use zephyr_riscv_test_suite.Zephyr.Board.{
  Board, Kernel, Oracle, goes_on, verdict, all_pass, allows, page_of, store64, load64,
}
use zephyr_riscv_test_suite.Zephyr.Board.Behaviour.{IsKernel, mapped}
use zephyr_riscv_test_suite.Zephyr.Board.Accesses.{
  Known, Kept, Known-Kept, mapped-Known, step-passes,
}
use zephyr_riscv_test_suite.Zephyr.Board.Words.{
  page_at, Known-store, load-goes, store-goes, call-goes,
}
use zephyr_riscv_test_suite.Zephyr.Enable.{
  k_sys_fatal_error_handler, p1a_suite, test_p1a_1_sv39_identity, test_p1a_2_page_map_alias,
  test_p1a_3_ifetch_via_map, write_alias, read_alias, alias_word,
}

p1a_1-passes :
    (pa : ℕ) (b : Board)
    → b.satp / 2 ^ 60 ≡ 8
    → b.satp % 2 ^ 44 ≢ 0
    → verdict (test_p1a_1_sv39_identity pa b) ≡ true
unfolding test_p1a_1_sv39_identity
p1a_1-passes pa b sv39 root = rw (sv39, and-mask 44 b.satp, ==-ne _ 0 root, ==-refl pa) refl

module _ (k : Kernel) (law : IsKernel k) (hits : Oracle) (svadu : Bool) (pa : ℕ)
    (page_start : pa % 4096 ≡ 0)
    (outside : (o : ℕ) → o < 4096 → law.is_table (pa + o) ≡ false) where
  abbrev at : ℕ
  at = law.entry_at 0 0xC0000000

  abbrev word : ℕ
  word = pa / 4096 * 1024 + 0xC7

  -- The whole page is mapped to `pa`.
  abbrev Open : Board → Type 0
  Open b = (o : ℕ) → o < 4096 → Known b (0xC0000000 + o) (page_at at) word

  mapped-Open : (b : Board) → Open (mapped 0xC0000000 0 word at b)
  mapped-Open b o h =
      let same : (0xC0000000 + o) / 4096 / 1 ≡ 0xC0000 = omega arith in
      (inl (rw same refl), rw same refl, rw (==-refl at) refl)

  Open-Kept : (b b' : Board) (page : ℕ) → Kept b b' page word 0 → Open b → Open b'
  Open-Kept b b' page kept opened o h =
      Known-Kept b b' (0xC0000000 + o) (page_at at) word page word 0 kept (λ e. (refl, refl))
        (opened o h)

  apart : (o : ℕ) → o < 4096 → pa + o ≢ at
  apart o h hit =
      absurd (ground (arith, sym (outside o h) ∙ ap law.is_table hit ∙ law.in_table 0 0xC0000000))

  -- A word written through the mapping.
  abbrev with_word : ℕ → ℕ → Board → Board
  with_word o v b = record b { mem = store b.mem (pa + o) v }

  with_word-Open : (o v : ℕ) (b : Board) → o < 4096 → Open b → Open (with_word o v b)
  with_word-Open o v b h opened o' h' =
      Known-store b (0xC0000000 + o') at word (pa + o) v (apart o h) (opened o' h')

  write-goes :
      (o v : ℕ) (b : Board)
      → o < 4096
      → v % 2 ^ 64 ≡ v
      → Open b
      → (b' : Board) × (store64 k hits svadu k_sys_fatal_error_handler (0xC0000000 + o) v b
          ≡ goes_on tt b')
        × Open b'
        × (b'.mem ≡ store b.mem (pa + o) v)
  unfolding allows permits is_marked
  write-goes o v b h fits opened =
      let wrote =
        store-goes k hits svadu k_sys_fatal_error_handler (0xC0000000 + o) (pa / 4096) 0xC7 at
          (omega arith) b (opened o h) v refl refl in
      let target : pa / 4096 * 4096 + (0xC0000000 + o) % 4096 ≡ pa + o = omega arith in
      let memory : wrote.0.mem ≡ store b.mem (pa + o) v =
        wrote.2.mem
        ∙ ap (λ p. store b.mem p (v % 2 ^ 64)) target
        ∙ ap (store b.mem (pa + o)) fits in
      let kept : Kept (with_word o v b) wrote.0 (page_of (0xC0000000 + o)) word 0 = record {
        mem = memory;
        places = wrote.2.places;
        sstatus = wrote.2.sstatus;
        resolver = wrote.2.resolver;
        fix_count = wrote.2.fix_count;
        tlb = wrote.2.tlb;
      } in
      (
        wrote.0,
        wrote.1,
        Open-Kept (with_word o v b) wrote.0 (page_of (0xC0000000 + o)) kept
            (with_word-Open o v b h opened),
        memory,
      )

  read-goes :
      (o : ℕ) (b : Board)
      → o < 4096
      → Open b
      → (b' : Board) × (load64 k hits svadu k_sys_fatal_error_handler (0xC0000000 + o) b
          ≡ goes_on (b.mem (pa + o)) b')
  unfolding allows permits is_marked
  read-goes o b h opened =
      let got =
        load-goes k hits svadu k_sys_fatal_error_handler (0xC0000000 + o) (pa / 4096) 0xC7 at
          (omega arith) b (opened o h) refl refl in
      let target : pa / 4096 * 4096 + (0xC0000000 + o) % 4096 ≡ pa + o = omega arith in
      (got.0, got.1 ∙ ap (λ p. goes_on (b.mem p) got.0) target)

  write_alias-goes :
      (left i : ℕ) (b : Board)
      → i + left ≡ 8
      → Open b
      → ((j : ℕ) → j < i → b.mem (pa + j * 512) ≡ alias_word j)
      → (b' : Board) × (write_alias k hits svadu left i b ≡ goes_on tt b')
        × Open b'
        × ((j : ℕ) → j < 8 → b'.mem (pa + j * 512) ≡ alias_word j)
  unfolding write_alias allows permits is_marked
  write_alias-goes zero i b ends opened before = (b, refl, opened, λ j h. before j (omega arith))
  write_alias-goes (suc left) i b ends opened before =
      let wrote = write-goes (i * 512) (alias_word i) b (omega arith) (omega arith) opened in
      let rest = write_alias-goes left (i + 1) wrote.0 (omega arith) wrote.2 (λ j h.
        elim (Bool-cases (i == j)) [
          | inl same ↦
              subst (λ x. wrote.0.mem (pa + x * 512) ≡ alias_word x) ((==_iff i j).0 same)
                (ap (λ (f : Memory). f (pa + i * 512)) wrote.3 ∙ rw (==-refl (pa + i * 512)) refl)
          | inr other ↦
              let ne : i ≢ j = λ e. absurd (ground (arith, sym other ∙ (==_iff i j).1 e)) in
              ap (λ (f : Memory). f (pa + j * 512)) wrote.3
              ∙ rw (==-ne (pa + i * 512) (pa + j * 512) (λ e. ne (omega (arith, e))))
                  (before j (omega arith))
        ]) in
      (rest.0, rw (wrote.1) rest.1, rest.2, rest.3)

  read_alias-goes :
      (left i : ℕ) (b : Board)
      → i + left ≡ 8
      → ((j : ℕ) → j < 8 → b.mem (pa + j * 512) ≡ alias_word j)
      → read_alias pa left i b ≡ goes_on tt b
  unfolding read_alias
  read_alias-goes zero i b ends there = refl
  read_alias-goes (suc left) i b ends there =
      rw (there i (omega arith), ==-refl (alias_word i))
        (read_alias-goes left (i + 1) b (omega arith) there)

  pub p1a_2-passes : (b : Board) → verdict (test_p1a_2_page_map_alias k hits svadu pa b) ≡ true
  unfolding test_p1a_2_page_map_alias
  p1a_2-passes b =
      let start : Board = mapped 0xC0000000 0 word at b in
      let wrote =
        write_alias-goes 8 0 start refl (mapped-Open b) (λ j h. absurd (omega (arith, h))) in
      let poked : Board = with_word 56 0x5A5A5A5A5A5A5A5A wrote.0 in
      let read =
        read-goes 56 poked (omega arith)
          (with_word-Open 56 0x5A5A5A5A5A5A5A5A wrote.0 (omega arith) wrote.2) in
      let value : poked.mem (pa + 56) ≡ 0x5A5A5A5A5A5A5A5A = rw (==-refl (pa + 56)) refl in
      rw (law.arch_map_rw 0xC0000000 pa b refl page_start) (
        step-passes _ wrote.1 (
          step-passes _ (read_alias-goes 8 0 wrote.0 refl wrote.3)
            (step-passes _ (read.1 ∙ ap (λ x. goes_on x read.0) value) refl)))

  pub p1a_3-passes : (b : Board) → verdict (test_p1a_3_ifetch_via_map k hits svadu pa b) ≡ true
  unfolding test_p1a_3_ifetch_via_map allows permits is_marked
  p1a_3-passes b =
      let exec_at : ℕ = law.entry_at 0 0xC0010000 in
      let code : ℕ = b.mem pa / 2 ^ 32 * 2 ^ 32 + 0x00008067 in
      let c : Board = record b { mem = store b.mem pa code } in
      let start : Board = mapped 0xC0010000 0 (pa / 4096 * 1024 + 0xCB) exec_at c in
      let target : pa / 4096 * 4096 + 0 ≡ pa = omega arith in
      let first : pa + 0 ≡ pa = omega arith in
      let not_entry : exec_at ≢ pa = λ e. absurd (
        ground (
          arith,
          sym (outside 0 (omega arith))
              ∙ ap law.is_table (first ∙ sym e)
              ∙ law.in_table 0 0xC0010000,
        )) in
      let planted : start.mem pa ≡ code = rw (==-ne exec_at pa not_entry, ==-refl pa) refl in
      let is_ret : start.mem (pa / 4096 * 4096 + 0) % 2 ^ 32 ≡ 0x00008067 =
        omega (arith, ap start.mem target ∙ planted) in
      let called =
        call-goes k hits svadu k_sys_fatal_error_handler 0xC0010000 (pa / 4096) 0xCB exec_at
          (omega arith) start (mapped-Known 0xC0010000 0 (pa / 4096 * 1024 + 0xCB) exec_at c) refl
          refl is_ret in
      rw (law.arch_map_exec 0xC0010000 pa c refl page_start) (step-passes _ called.1 refl)

-- With kernel functions that do what is documented, on every board whose satp names Sv39 and a root,
-- whatever the TLB holds and whenever the hart uses it: each of the three tests passes, so that words
-- written by the mapped address are read at the page and the other way round, and a call by a mapped
-- address comes back. The backing page starts at a multiple of 4096, and no word of it is in the page
-- tables.
pub p1a_suite-passes :
    (k : Kernel) (law : IsKernel k) (hits : Oracle) (svadu : Bool) (backing_page : ℕ) (b : Board)
    → backing_page % 4096 ≡ 0
    → ((o : ℕ) → o < 4096 → law.is_table (backing_page + o) ≡ false)
    → b.satp / 2 ^ 60 ≡ 8
    → b.satp % 2 ^ 44 ≢ 0
    → all_pass (p1a_suite k hits svadu backing_page) b ≡ true
unfolding p1a_suite
p1a_suite-passes k law hits svadu pa b page_start outside sv39 root =
    rw
      (
        p1a_1-passes pa b sv39 root,
        p1a_2-passes k law hits svadu pa page_start outside b,
        p1a_3-passes k law hits svadu pa page_start outside b,
      )
      refl
