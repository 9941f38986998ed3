-- ===== src/Zephyr/Tlb/Megapage.antt =====
-- P1D.4 and P1D.5: one leaf for 2 MiB, and one for 1 GiB.
use zephyr_riscv_test_suite.Prelude.{
  ltb, ℕ, ◌+◌, ◌-◌, ◌/◌, ◌%◌, ◌^◌, ◌<◌, ◌≤◌, ◌≡◌, ◌≢◌, refl, arith, ap, sym, ◌∙◌, Bool, true, false,
  ◌==◌, ==_iff, ==-refl, ==-ne, some, inl, List, [], ◌∷◌, bit_and,
}
use zephyr_riscv_test_suite.Word.Bits.{and-le}
use zephyr_riscv_test_suite.Machine.Bit.{bit, bit-and}
use zephyr_riscv_test_suite.PageTable.{Memory, Place, store}
use zephyr_riscv_test_suite.Hart.{load, is_marked, permits, physical}
use zephyr_riscv_test_suite.Zephyr.Board.{
  Board, Kernel, Oracle, goes_on, verdict, allows, page_of, load64,
}
use zephyr_riscv_test_suite.Zephyr.Board.Behaviour.{IsKernel, mapped}
use zephyr_riscv_test_suite.Zephyr.Board.Accesses.{Known, Known-Kept, known-goes, step-passes}
use zephyr_riscv_test_suite.Zephyr.Tlb.{
  k_sys_fatal_error_handler, compare_alias, load_image, offsets, test_p1d_4_megapage_2mb,
  test_p1d_5_gigapage_leaf,
}

module _ (k : Kernel) (law : IsKernel k) (hits : Oracle) (svadu : Bool) where
  abbrev at : ℕ
  at = law.entry_at 1 0xE0200000

  abbrev mega_place : Place
  mega_place = record { at = at; level = 1 }

  -- The leaf covers the megapage, and memory is `m`.
  record Mega (b : Board) (m : Memory) : Type 0 where
    pub known : (o : ℕ) → o < 2 ^ 21 → Known b (0xE0200000 + o) mega_place 0x200000C3
    pub mem : b.mem ≡ m

  mapped-Mega : (b : Board) → Mega (mapped 0xE0200000 1 0x200000C3 at b) (store b.mem at 0x200000C3)
  mapped-Mega b = record {
    known = λ o h.
        let same : (0xE0200000 + o) / 4096 / 512 ≡ 1793 = omega arith in
        (inl (rw (same) refl), rw (same) refl, rw (==-refl at) refl);
    mem = refl;
  }

  read :
      (b : Board) (m : Memory) (o : ℕ)
      → o < 2 ^ 21
      → Mega b m
      → (b' : Board) × (load64 k hits svadu k_sys_fatal_error_handler (0xE0200000 + o) b
          ≡ goes_on (m (0x80000000 + o)) b')
        × Mega b' m
  unfolding allows permits is_marked
  read b m o h mega =
      let got =
        known-goes k hits svadu k_sys_fatal_error_handler load (0xE0200000 + o) mega_place
          0x200000C3 b (mega.known o h) (λ p c. goes_on (c.mem p) c) refl refl in
      let target : physical 0x200000C3 1 (0xE0200000 + o) ≡ 0x80000000 + o = omega arith in
      (
        got.0,
        got.1
            ∙ ap (λ p. goes_on (got.0.mem p) got.0) target
            ∙ ap (λ (f : Memory). goes_on (f (0x80000000 + o)) got.0) (got.2.mem ∙ mega.mem),
        record {
          known = λ o' h'.
              Known-Kept b got.0 (0xE0200000 + o') mega_place 0x200000C3 (page_of (0xE0200000 + o))
                0x200000C3 1 got.2 (λ e. (refl, refl)) (mega.known o' h');
          mem = got.2.mem ∙ mega.mem;
        },
      )

  abbrev Below : ℕ → List ℕ → Type 0
  Below end [] = Unit {0}
  Below end (o ∷ os) = (o < 2 ^ 21) × (0x80000000 + o < end) × Below end os

  compare_alias-goes :
      (end : ℕ) (offs : List ℕ) (b : Board) (m : Memory)
      → Below end offs
      → Mega b m
      → (b' : Board) × (compare_alias k hits svadu end offs b ≡ goes_on tt b') × Mega b' m
  unfolding compare_alias load_image
  compare_alias-goes end [] b m below mega = (b, refl, mega)
  compare_alias-goes end (o ∷ os) b m below mega =
      let got = read b m o below.0 mega in
      let rest = compare_alias-goes end os got.0 m below.2 got.2 in
      let mapped_there : ltb (0x80000000 + o) end ≡ true = ground (arith, below.1) in
      let equal : (m (0x80000000 + o) == got.0.mem (0x80000000 + o)) ≡ true =
        (==_iff (m (0x80000000 + o)) (got.0.mem (0x80000000 + o))).1
          (sym (ap (λ (f : Memory). f (0x80000000 + o)) got.2.mem)) in
      (rest.0, rw (got.1, mapped_there, equal) rest.1, rest.2)

  -- The image ends within the first 2 MiB of RAM.
  offsets-Below :
      (z_mapped_end : ℕ)
      → 0x80001000 < z_mapped_end
      → z_mapped_end ≤ 0x80200000
      → Below z_mapped_end (offsets ((z_mapped_end + 2 ^ 64 - 0x80000000) % 2 ^ 64))
  offsets-Below z_mapped_end low high =
      let span : (z_mapped_end + 2 ^ 64 - 0x80000000) % 2 ^ 64 ≡ z_mapped_end - 0x80000000 =
        omega arith in
      let middle = and-le ((z_mapped_end - 0x80000000) / 2) (2 ^ 64 - 1 - 7) in
      let last = and-le ((z_mapped_end - 0x80000000 + 2 ^ 64 - 0x1000) % 2 ^ 64) (2 ^ 64 - 1 - 7) in
      rw span (
        omega arith,
        omega arith,
        (
          omega arith,
          omega arith,
          (
            omega (arith, middle),
            omega (arith, middle),
            (omega (arith, last), omega (arith, last), tt),
          ),
        ),
      )

  pub p1d_4-passes :
      (z_mapped_end : ℕ) (b : Board)
      → 0x80001000 < z_mapped_end
      → z_mapped_end ≤ 0x80200000
      → law.is_table 0x80000000 ≡ false
      → b.mem 0x80000000 ≢ 0
      → verdict (test_p1d_4_megapage_2mb k hits svadu z_mapped_end b) ≡ true
  unfolding test_p1d_4_megapage_2mb
  p1d_4-passes z_mapped_end b low high outside reset =
      let m : Memory = store b.mem at 0x200000C3 in
      let start = mapped-Mega b in
      let other : at ≢ 0x80000000 = λ e.
        absurd (ground (arith, sym (ap law.is_table e) ∙ law.in_table 1 0xE0200000, outside)) in
      let nonzero : (m 0x80000000 == 0) ≡ false =
        rw (==-ne at 0x80000000 other) (==-ne (b.mem 0x80000000) 0 reset) in
      let first = read _ m 0 (omega arith) start in
      let compared =
        compare_alias-goes z_mapped_end (offsets ((z_mapped_end + 2 ^ 64 - 0x80000000) % 2 ^ 64))
          first.0 m (offsets-Below z_mapped_end low high) first.2 in
      let far = read compared.0 m 0x1FF000 (omega arith) compared.2 in
      let word : far.0.mem at ≡ 0x200000C3 =
        ap (λ (f : Memory). f at) far.2.mem ∙ rw (==-refl at) refl in
      rw (law.map_raw 0xE0200000 0x80000000 0xC3 1 b refl refl) (
        step-passes _ first.1 (
          rw nonzero (
            step-passes _ compared.1 (
              step-passes _ far.1 (
                rw (law.pte_lookup 0xE0200000 far.0 mega_place (far.2.known 0 (omega arith)).1) (
                  rw word (
                    rw
                      (law.pte_lookup 0xE03FF000 far.0 mega_place
                        (far.2.known 0x1FF000 (omega arith)).1)
                      (rw (==-refl at) refl))))))))

  -- The kernel's own map has one leaf for the first GiB.
  pub p1d_5-passes :
      (b : Board) (w : Place)
      → b.places 0x10000000 ≡ some w
      → b.places 0x02000000 ≡ some w
      → bit 0 (b.mem w.at) ≡ 1
      → bit 1 (b.mem w.at) ≡ 1
      → verdict (test_p1d_5_gigapage_leaf k hits svadu b) ≡ true
  unfolding test_p1d_5_gigapage_leaf
  p1d_5-passes b w uart clint valid readable =
      let v : bit_and (b.mem w.at) 1 ≢ 0 =
        λ e. omega (arith, ap (bit 0) e, bit-and 0 (b.mem w.at) 1) in
      let r : bit_and (b.mem w.at) 14 ≢ 0 =
        λ e. omega (arith, ap (bit 1) e, bit-and 1 (b.mem w.at) 14) in
      rw
        (
          law.pte_lookup 0x10000000 b w uart,
          law.pte_lookup 0x02000000 b w clint,
          ==-ne _ 0 v,
          ==-ne _ 0 r,
          ==-refl w.at,
        )
        refl
