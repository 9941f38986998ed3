-- ===== src/Zephyr/Tlb/Targeted.antt =====
-- P1D.1: an entry is pointed at another page, and the TLB fenced for its address.
use zephyr_riscv_test_suite.Prelude.{
  ℕ, ◌+◌, ◌*◌, ◌/◌, ◌%◌, ◌^◌, ◌<◌, ◌≡◌, ◌≢◌, refl, arith, ap, sym, ◌∙◌, Bool, true, false, ==-refl,
  ==-ne, if◌then◌else◌, inl,
}
use zephyr_riscv_test_suite.PageTable.{Memory, store}
use zephyr_riscv_test_suite.Hart.{is_marked, permits}
use zephyr_riscv_test_suite.Zephyr.Board.{
  Board, Kernel, Oracle, Thread, goes_on, verdict, allows, load64, sfence_vma_addr,
}
use zephyr_riscv_test_suite.Zephyr.Board.Behaviour.{IsKernel, mapped}
use zephyr_riscv_test_suite.Zephyr.Board.Accesses.{Known, Known-Kept, step-passes}
use zephyr_riscv_test_suite.Zephyr.Board.Words.{load-goes, page_at, Known-store}
use zephyr_riscv_test_suite.Zephyr.Tlb.{k_sys_fatal_error_handler, leaf, test_p1d_1_targeted_sfence}
use zephyr_riscv_test_suite.Zephyr.Tlb.Fences.{leaf-word, unless_covered_self, Known-fence}

module _ (k : Kernel) (law : IsKernel k) (hits : Oracle) (svadu : Bool) (pages : ℕ)
    (data_page : pages % 4096 ≡ 0) (small : pages + 5 * 4096 < 2 ^ 64)
    (outside : (j : ℕ) → j < 5 → law.is_table (pages + j * 4096) ≡ false) where
  abbrev at_a : ℕ
  at_a = law.entry_at 0 0xD1000000

  abbrev at_b : ℕ
  at_b = law.entry_at 0 0xD1010000

  abbrev page : ℕ → ℕ
  page j = pages + j * 4096

  pub data-apart : (va j : ℕ) → j < 5 → law.entry_at 0 va ≢ page j
  data-apart va j h hit =
      absurd (ground (arith, sym (outside j h) ∙ sym (ap law.is_table hit) ∙ law.in_table 0 va))

  entries-apart : at_a ≢ at_b
  entries-apart same =
      let pages_same : 0xD1000 ≡ 0xD1010 =
        law.one_entry 0xD1000000 0xD1010000 (omega arith) (omega arith) same in
      omega (arith, pages_same)

  -- An entry that leads to page `j`, written into the tables.
  pub edit-word : (j : ℕ) → j < 5 → leaf (page j) 6 % 2 ^ 64 ≡ (pages / 4096 + j) * 1024 + 0xC7
  edit-word j h = omega (arith, leaf-word (page j) (omega arith))

  -- VA_A leads to the page `j`, VA_B to page 1, and memory is `m`.
  record Both (b : Board) (j : ℕ) (m : Memory) : Type 0 where
    pub known_a : Known b 0xD1000000 (page_at at_a) ((pages / 4096 + j) * 1024 + 0xC7)
    pub known_b : Known b 0xD1010000 (page_at at_b) ((pages / 4096 + 1) * 1024 + 0xC7)
    pub mem : b.mem ≡ m

  abbrev load_from : ℕ → Board → Thread ℕ
  load_from = load64 k hits svadu k_sys_fatal_error_handler

  read_a :
      (c : Board) (j : ℕ) (m : Memory)
      → Both c j m
      → (c' : Board) × (load_from 0xD1000000 c ≡ goes_on (m (page j)) c') × Both c' j m
  unfolding allows permits is_marked
  read_a c j m both =
      let got =
        load-goes k hits svadu k_sys_fatal_error_handler 0xD1000000 (pages / 4096 + j) 0xC7 at_a
          (omega arith) c both.known_a refl refl in
      let target : (pages / 4096 + j) * 4096 + 0 ≡ page j = omega arith in
      (
        got.0,
        got.1
            ∙ ap (λ p. goes_on (c.mem p) got.0) target
            ∙ ap (λ (f : Memory). goes_on (f (page j)) got.0) both.mem,
        record {
          known_a =
              Known-Kept c got.0 0xD1000000 (page_at at_a) _ 0xD1000 _ 0 got.2 (λ e. (refl, refl))
                both.known_a;
          known_b =
              Known-Kept c got.0 0xD1010000 (page_at at_b) _ 0xD1000 _ 0 got.2
                (λ e. absurd (omega (arith, e))) both.known_b;
          mem = got.2.mem ∙ both.mem;
        },
      )

  read_b :
      (c : Board) (j : ℕ) (m : Memory)
      → Both c j m
      → (c' : Board) × (load_from 0xD1010000 c ≡ goes_on (m (page 1)) c') × Both c' j m
  unfolding allows permits is_marked
  read_b c j m both =
      let got =
        load-goes k hits svadu k_sys_fatal_error_handler 0xD1010000 (pages / 4096 + 1) 0xC7 at_b
          (omega arith) c both.known_b refl refl in
      let target : (pages / 4096 + 1) * 4096 + 0 ≡ page 1 = omega arith in
      (
        got.0,
        got.1
            ∙ ap (λ p. goes_on (c.mem p) got.0) target
            ∙ ap (λ (f : Memory). goes_on (f (page 1)) got.0) both.mem,
        record {
          known_a =
              Known-Kept c got.0 0xD1000000 (page_at at_a) _ 0xD1010 _ 0 got.2
                (λ e. absurd (omega (arith, e))) both.known_a;
          known_b =
              Known-Kept c got.0 0xD1010000 (page_at at_b) _ 0xD1010 _ 0 got.2 (λ e. (refl, refl))
                both.known_b;
          mem = got.2.mem ∙ both.mem;
        },
      )

  -- The entry of VA_A is pointed at page 2, and the TLB fenced for VA_A.
  repoint :
      (c : Board) (m : Memory)
      → Both c 0 m
      → Both
          (sfence_vma_addr 0xD1000000
            (record c { mem = store c.mem at_a ((pages / 4096 + 2) * 1024 + 0xC7) }))
          2
          (store m at_a ((pages / 4096 + 2) * 1024 + 0xC7))
  unfolding sfence_vma_addr
  repoint c m both =
      let word : ℕ = (pages / 4096 + 2) * 1024 + 0xC7 in
      let d : Board = record c { mem = store c.mem at_a word } in
      record {
        known_a = (
          inl (unless_covered_self 0xD1000 (c.tlb 0xD1000)),
          both.known_a.1,
          rw (==-refl at_a) refl,
        );
        known_b =
            Known-fence d 0xD1010000 0xD1000000 at_b _ (λ e. absurd (omega (arith, e)))
              (Known-store c 0xD1010000 at_b _ at_a word entries-apart both.known_b);
        mem = ap (λ f. store f at_a word) both.mem;
      }

  module _ (b : Board) where
    abbrev planted : Board
    planted = record b {
      mem =
          store (store (store b.mem pages 0xAAAAAAAA00000001) (pages + 4096) 0xBBBBBBBB00000002)
            (pages + 2 * 4096) 0xAAAAAAAA00000003;
    }

    abbrev with_a : Board
    with_a = mapped 0xD1000000 0 (pages / 4096 * 1024 + 0xC7) at_a planted

    abbrev both_there : Board
    both_there = mapped 0xD1010000 0 ((pages + 4096) / 4096 * 1024 + 0xC7) at_b with_a

    abbrev edited : Memory
    edited = store both_there.mem at_a ((pages / 4096 + 2) * 1024 + 0xC7)

    both_there-Both : Both both_there 0 both_there.mem
    both_there-Both =
        let first_frame : pages / 4096 + 0 ≡ pages / 4096 = omega arith in
        let second_frame : (pages + 4096) / 4096 ≡ pages / 4096 + 1 = omega arith in
        record {
          known_a = (
            inl refl,
            refl,
            rw (==-ne at_b at_a (λ e. entries-apart (sym e)), ==-refl at_a, first_frame) refl,
          );
          known_b = (inl refl, refl, rw (==-refl at_b, second_frame) refl);
          mem = refl;
        }

    initial_a : both_there.mem (page 0) ≡ 0xAAAAAAAA00000001
    initial_a =
        let start_page : page 0 ≡ pages = omega arith in
        ap both_there.mem start_page
        ∙ rw
            (
              ==-ne at_b pages (λ e. data-apart 0xD1010000 0 (omega arith) (e ∙ sym start_page)),
              ==-ne at_a pages (λ e. data-apart 0xD1000000 0 (omega arith) (e ∙ sym start_page)),
              ==-ne (pages + 2 * 4096) pages (λ e. omega (arith, e)),
              ==-ne (pages + 4096) pages (λ e. omega (arith, e)),
              ==-refl pages,
            )
            refl

    initial_b : both_there.mem (page 1) ≡ 0xBBBBBBBB00000002
    initial_b =
        rw
          (
            ==-ne at_b (page 1) (data-apart 0xD1010000 1 (omega arith)),
            ==-ne at_a (page 1) (data-apart 0xD1000000 1 (omega arith)),
            ==-ne (pages + 2 * 4096) (page 1) (λ e. omega (arith, e)),
            ==-refl (page 1),
          )
          refl

    after_a : edited (page 2) ≡ 0xAAAAAAAA00000003
    after_a =
        rw
          (
            ==-ne at_a (page 2) (data-apart 0xD1000000 2 (omega arith)),
            ==-ne at_b (page 2) (data-apart 0xD1010000 2 (omega arith)),
            ==-refl (page 2),
          )
          refl

    after_b : edited (page 1) ≡ 0xBBBBBBBB00000002
    after_b =
        ap (λ t. if t then (pages / 4096 + 2) * 1024 + 0xC7 else both_there.mem (page 1))
          (==-ne at_a (page 1) (data-apart 0xD1000000 1 (omega arith)))
        ∙ initial_b

    pub p1d_1-passes : verdict (test_p1d_1_targeted_sfence k hits svadu pages b) ≡ true
    unfolding test_p1d_1_targeted_sfence
    p1d_1-passes =
        let first = read_a both_there 0 both_there.mem both_there-Both in
        let second = read_b first.0 0 both_there.mem first.2 in
        let third = read_a _ 2 edited (repoint second.0 both_there.mem second.2) in
        let fourth = read_b third.0 2 edited third.2 in
        rw
          (
            law.map_raw 0xD1000000 pages 0xC7 0 planted refl data_page,
            law.map_raw 0xD1010000 (pages + 4096) 0xC7 0 with_a refl (omega arith),
          )
          (step-passes _ (first.1 ∙ ap (λ x. goes_on x first.0) initial_a) (
            step-passes _ (second.1 ∙ ap (λ x. goes_on x second.0) initial_b) (
              rw
                (
                  law.pte_lookup 0xD1000000 second.0 (page_at at_a) second.2.known_a.1,
                  edit-word 2 (omega arith),
                )
                (step-passes _ (third.1 ∙ ap (λ x. goes_on x third.0) after_a)
                  (step-passes _ (fourth.1 ∙ ap (λ x. goes_on x fourth.0) after_b) refl)))))
