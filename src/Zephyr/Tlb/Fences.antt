-- ===== src/Zephyr/Tlb/Fences.antt =====
-- What an edit of an entry, a fence for an address, and an access in between leave of what is known.
use zephyr_riscv_test_suite.Prelude.{
  ℕ, ◌+◌, ◌*◌, ◌/◌, ◌%◌, ◌^◌, ◌<◌, ◌≡◌, ◌≢◌, ◌⊎◌, refl, arith, ◌∙◌, Bool, true, ==-refl, ==-ne,
  Bool-cases, Option, none, some, inl, inr,
}
use zephyr_riscv_test_suite.Word.Bits.{or-add, or-low}
use zephyr_riscv_test_suite.PageTable.{Place, store}
use zephyr_riscv_test_suite.Hart.{load, is_marked, permits, physical}
use zephyr_riscv_test_suite.Zephyr.Board.{
  Board, Kernel, Oracle, Thread, goes_on, page_of, allows, fill, by_walk, by_tlb, attempt, load64,
  sfence_vma_addr, unless_covered,
}
use zephyr_riscv_test_suite.Zephyr.Board.Accesses.{
  Known, allows-word, is_marked-word, physical-word,
}
use zephyr_riscv_test_suite.Zephyr.Board.Words.{page_at}
use zephyr_riscv_test_suite.Zephyr.Tlb.{leaf}

-- `leaf` for a page that is read and written: its frame and all the flags but X, U and G.
pub leaf-word : (pa : ℕ) → pa < 2 ^ 64 → leaf pa 6 ≡ pa / 4096 * 1024 + 0xC7
unfolding leaf
leaf-word pa small =
    let whole : pa / 2 ^ 12 * 2 ^ 10 % 2 ^ 64 ≡ pa / 4096 * 2 ^ 10 = omega arith in
    rw (whole, or-add 10 (pa / 4096) 6 (omega arith))
      (rw (or-low 10 (pa / 4096) 6 1 (omega arith) (omega arith)) (
        rw (or-low 10 (pa / 4096) 7 0x40 (omega arith) (omega arith))
          (or-low 10 (pa / 4096) 0x47 0x80 (omega arith) (omega arith))))

-- The TLB has no translation of the page of a fence, whatever it had.
pub unless_covered_self : (page : ℕ) (t : Option (ℕ × ℕ)) → unless_covered page page t ≡ none
unless_covered_self page none = refl
unless_covered_self page (some (pte, k)) = rw (==-refl (page / 2 ^ (9 * k))) refl

-- Behind the fence for an address, its entry counts as it stands in memory.
pub refreshed :
    (b : Board) (va : ℕ) (w : Place)
    → b.places va ≡ some w
    → Known (sfence_vma_addr va b) va w (b.mem w.at)
unfolding sfence_vma_addr
refreshed b va w there = (inl (unless_covered_self (page_of va) (b.tlb (page_of va))), there, refl)

-- The fence for another page keeps what is known of an address.
pub Known-fence :
    (b : Board) (va other at pte : ℕ)
    → page_of va ≢ page_of other
    → Known b va (page_at at) pte
    → Known (sfence_vma_addr other b) va (page_at at) pte
unfolding sfence_vma_addr
Known-fence b va other at pte apart known =
    let differ : page_of other / 2 ^ 0 ≢ page_of va / 2 ^ 0 = λ e. apart (omega (arith, e)) in
    (
      elim known.0 [
        | inl cold ↦ inl (rw cold refl)
        | inr warm ↦
            inr (rw warm (rw (==-ne (page_of other / 2 ^ 0) (page_of va / 2 ^ 0) differ) refl))
      ],
      known.1,
      known.2,
    )

-- An entry was edited and the TLB not fenced: a load takes the old frame or the new one.
pub stale-load :
    (k : Kernel) (hits : Oracle) (svadu : Bool)
    (fatal : (scause stval : ℕ) → Board → Thread (Unit {0})) (va at old new : ℕ) (b : Board)
    → Known b va (page_at at) (old * 1024 + 0xC7)
    → let c = record b { mem = store b.mem at (new * 1024 + 0xC7) } in
      (b' : Board) × ((load64 k hits svadu fatal va c ≡ goes_on (c.mem (old * 4096 + va % 4096)) b')
        ⊎ (load64 k hits svadu fatal va c ≡ goes_on (c.mem (new * 4096 + va % 4096)) b'))
      × (b'.mem ≡ c.mem)
      × (b'.places ≡ c.places)
unfolding attempt by_tlb by_walk allows permits is_marked
stale-load k hits svadu fatal va at old new b known =
    let word : ℕ → ℕ = λ f. f * 1024 + 0xC7 in
    let c : Board = record b { mem = store b.mem at (word new) } in
    let allowed : (f : ℕ) → allows load b.sstatus (word f) 0 ≡ true =
      λ f. allows-word load b.sstatus f 0xC7 ∙ refl in
    let marked : (f : ℕ) → is_marked load (word f) ≡ true =
      λ f. is_marked-word load f 0xC7 ∙ refl in
    let target : (f : ℕ) → physical (word f) 0 va ≡ f * 4096 + va % 4096 =
      λ f. physical-word f 0xC7 va (omega arith) in
    let walked : by_walk k hits svadu fatal load va (b.places va) c
        ≡ some (physical (word new) 0 va, fill va (word new) 0 c) =
      rw (known.1, ==-refl at, allowed new, marked new) refl in
    elim known.0 [
      | inl cold ↦ (fill va (word new) 0 c, inr (rw (cold, walked, target new) refl), refl, refl)
      | inr warm ↦ elim (Bool-cases (hits b.clock va)) [
        | inl hit ↦ (
          record c { clock = b.clock + 1 },
          inl (rw (warm, hit, allowed old, marked old, target old) refl),
          refl,
          refl,
        )
        | inr miss ↦
            (fill va (word new) 0 c, inr (rw (warm, miss, walked, target new) refl), refl, refl)
      ]
    ]
