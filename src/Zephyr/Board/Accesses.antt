-- ===== src/Zephyr/Board/Accesses.antt =====
-- An access to an address whose leaf entry is known.
use zephyr_riscv_test_suite.Prelude.{
  ℕ, ◌+◌, ◌*◌, ◌/◌, ◌%◌, ◌^◌, ◌<◌, ◌≡◌, ◌⊎◌, inl, inr, refl, arith, ap, ap₂, ==_iff, ◌∙◌, Bool,
  true, false, ◌==◌, ==-refl, if◌then◌else◌, none, some, Bool-cases,
}
use zephyr_riscv_test_suite.Machine.Bit.{bit}
use zephyr_riscv_test_suite.PageTable.{Place, store}
use zephyr_riscv_test_suite.Hart.{
  Access, load, fetch, write, cause, permits, is_marked, mark, physical,
}
use zephyr_riscv_test_suite.Zephyr.Board.{
  Board, Kernel, Oracle, Thread, Script, page_of, allows, fill, by_walk, by_tlb, reach, on_fault,
  attempt, access, fatal_end, verdict, bind,
}
use zephyr_riscv_test_suite.Zephyr.Board.Behaviour.{mapped}

-- The flags of an entry do not depend on its frame.
abbrev word : ℕ → ℕ → ℕ
word frame bits = frame * 1024 + bits

abbrev SameBit : (j frame bits : ℕ) → Type 0
SameBit j frame bits = bit j (word frame bits) ≡ bit j bits

low_bits :
    (frame bits : ℕ)
    → SameBit 0 frame bits
      × SameBit 1 frame bits
      × SameBit 2 frame bits
      × SameBit 3 frame bits
      × SameBit 4 frame bits
      × SameBit 6 frame bits
      × SameBit 7 frame bits
low_bits frame bits =
    (omega arith, omega arith, omega arith, omega arith, omega arith, omega arith, omega arith)

pub allows-word :
    (a : Access) (sstatus frame bits : ℕ)
    → allows a sstatus (frame * 1024 + bits) 0 ≡ allows a sstatus bits 0
unfolding allows permits
allows-word load sstatus frame bits =
    let b = low_bits frame bits in
    let same : word frame bits / 1024 % 1 ≡ bits / 1024 % 1 = omega arith in
    rw (b.0, b.1, b.3, b.4, same) refl
allows-word fetch sstatus frame bits =
    let b = low_bits frame bits in
    let same : word frame bits / 1024 % 1 ≡ bits / 1024 % 1 = omega arith in
    rw (b.0, b.1, b.2, b.3, b.4, same) refl
allows-word write sstatus frame bits =
    let b = low_bits frame bits in
    let same : word frame bits / 1024 % 1 ≡ bits / 1024 % 1 = omega arith in
    rw (b.0, b.1, b.2, b.4, same) refl

pub is_marked-word :
    (a : Access) (frame bits : ℕ) → is_marked a (frame * 1024 + bits) ≡ is_marked a bits
unfolding is_marked
is_marked-word load frame bits = rw ((low_bits frame bits).5) refl
is_marked-word fetch frame bits = rw ((low_bits frame bits).5) refl
is_marked-word write frame bits = rw ((low_bits frame bits).5, (low_bits frame bits).6) refl

pub physical-word :
    (frame bits va : ℕ)
    → bits < 1024
    → physical (frame * 1024 + bits) 0 va ≡ frame * 4096 + va % 4096
physical-word frame bits va h = omega arith

-- The leaf entry of an address; the TLB has it too, or no translation of the page.
abbrev pub Known : Board → ℕ → Place → ℕ → Type 0
Known b va w pte =
    ((b.tlb (page_of va) ≡ none) ⊎ (b.tlb (page_of va) ≡ some (pte, w.level)))
    × (b.places va ≡ some w)
    × (b.mem w.at ≡ pte)

pub mapped-Known :
    (va level word at : ℕ) (b : Board)
    → Known (mapped va level word at b) va (record { at = at; level = level }) word
mapped-Known va level word at b = (
  inl (rw (==-refl (page_of va / 2 ^ (9 * level))) refl),
  rw (==-refl (page_of va / 2 ^ (9 * level))) refl,
  rw (==-refl at) refl,
)

-- An access has left all as it was but for the time and the TLB, which may have the entry now.
pub record Kept (b b' : Board) (page pte level : ℕ) : Type 0 where
  pub mem : b'.mem ≡ b.mem
  pub places : b'.places ≡ b.places
  pub sstatus : b'.sstatus ≡ b.sstatus
  pub resolver : b'.resolver ≡ b.resolver
  pub fix_count : b'.fix_count ≡ b.fix_count
  pub tlb : (p : ℕ) → (b'.tlb p ≡ b.tlb p) ⊎ ((p ≡ page) × (b'.tlb p ≡ some (pte, level)))

fill-Kept : (va pte level : ℕ) (b : Board) → Kept b (fill va pte level b) (page_of va) pte level
fill-Kept va pte level b = record {
  mem = refl;
  places = refl;
  sstatus = refl;
  resolver = refl;
  fix_count = refl;
  tlb = λ p. elim (Bool-cases (p == page_of va)) [
    | inl same ↦ inr ((==_iff p (page_of va)).0 same, rw same refl)
    | inr other ↦ inl (rw other refl)
  ];
}

-- What a board knows of an address, it knows after an access to another address or to that.
pub Known-Kept :
    (b b' : Board) (va : ℕ) (w : Place) (pte page other level : ℕ)
    → Kept b b' page other level
    → ((page_of va ≡ page) → (other ≡ pte) × (level ≡ w.level))
    → Known b va w pte
    → Known b' va w pte
Known-Kept b b' va w pte page other level kept same known = (
  elim (kept.tlb (page_of va)) [
    | inl as_before ↦ rw as_before known.0
    | inr filled ↦
        inr (filled.1 ∙ ap₂ (λ (x y : ℕ). some (x, y)) (same filled.0).0 (same filled.0).1)
  ],
  ap (λ f. f va) kept.places ∙ known.1,
  ap (λ f. f w.at) kept.mem ∙ known.2,
)

module _ (k : Kernel) (hits : Oracle) (svadu : Bool)
    (fatal : (scause stval : ℕ) → Board → Thread (Unit {0})) where
  module _ (a : Access) (va : ℕ) (w : Place) (pte : ℕ) (b : Board) (known : Known b va w pte) where
    pub known-denied :
        allows a b.sstatus pte w.level ≡ false → reach k hits svadu fatal a va b ≡ none
    unfolding by_tlb by_walk
    known-denied denied = elim known.0 [
      | inl cold ↦ rw (cold, known.1, known.2, denied) refl
      | inr warm ↦ elim (Bool-cases (hits b.clock va)) [
        | inl hit ↦ rw (warm, hit, denied) refl
        | inr miss ↦ rw (warm, miss, known.1, known.2, denied) refl
      ]
    ]

    pub known-allowed :
        allows a b.sstatus pte w.level ≡ true
        → is_marked a pte ≡ true
        → (b' : Board) × (reach k hits svadu fatal a va b ≡ some (physical pte w.level va, b'))
          × Kept b b' (page_of va) pte w.level
    unfolding by_tlb by_walk
    known-allowed allowed marked = elim known.0 [
      | inl cold ↦ (
        fill va pte w.level b,
        rw (cold, known.1, known.2, allowed, marked) refl,
        fill-Kept va pte w.level b,
      )
      | inr warm ↦ elim (Bool-cases (hits b.clock va)) [
        | inl hit ↦ (
          record b { clock = b.clock + 1 },
          rw (warm, hit, allowed, marked) refl,
          record {
            mem = refl;
            places = refl;
            sstatus = refl;
            resolver = refl;
            fix_count = refl;
            tlb = λ p. inl refl;
          },
        )
        | inr miss ↦ (
          fill va pte w.level b,
          rw (warm, miss, known.1, known.2, allowed, marked) refl,
          fill-Kept va pte w.level b,
        )
      ]
    ]

    -- Where A or D is missing, the hardware sets it or the access faults.
    pub known-unmarked :
        b.tlb (page_of va) ≡ none
        → allows a b.sstatus pte w.level ≡ true
        → is_marked a pte ≡ false
        → reach k hits svadu fatal a va b ≡ (
            if svadu
            then some (
              physical pte w.level va,
              fill va (mark a pte) w.level (record b { mem = store b.mem w.at (mark a pte) }),
            )
            else none)
    unfolding by_tlb by_walk
    known-unmarked cold allowed unmarked = rw (cold, known.1, known.2, allowed, unmarked) refl

    module _ {A : Type 0} (effect : ℕ → Script A) where
      -- Without a resolver, a denied access goes to the fatal handler.
      pub known-ends :
          allows a b.sstatus pte w.level ≡ false
          → b.resolver ≡ false
          → k.retries none ≡ false
          → access k hits svadu fatal a va effect b
            ≡ fatal_end k hits svadu fatal (fatal (cause a) va b)
      unfolding attempt on_fault
      known-ends denied inert no_retry = rw (known-denied denied, inert, no_retry) refl

      -- An access that the entry allows takes effect where the entry leads, whether the TLB has it or not.
      pub known-goes :
          allows a b.sstatus pte w.level ≡ true
          → is_marked a pte ≡ true
          → (b' : Board) × (access k hits svadu fatal a va effect b
              ≡ effect (physical pte w.level va) b')
            × Kept b b' (page_of va) pte w.level
      unfolding attempt
      known-goes allowed marked =
          let got = known-allowed allowed marked in (got.0, rw (got.1) refl, got.2)

-- A test passes if it passes from what its first part leads to.
pub step-passes :
    {A : Type 0} {r r' : Thread A} (rest : A → Script (Unit {0}))
    → r ≡ r'
    → verdict (bind r' rest) ≡ true
    → verdict (bind r rest) ≡ true
step-passes rest e h = ap (λ q. verdict (bind q rest)) e ∙ h
