-- ===== src/Zephyr/Board/Words.antt =====
-- Loads, stores and calls through a page whose entry allows them.
use zephyr_riscv_test_suite.Prelude.{
  ℕ, ◌+◌, ◌*◌, ◌%◌, ◌^◌, ◌≡◌, ◌≢◌, refl, ap, ◌∙◌, Bool, true, ◌==◌, ==-ne, if◌then◌else◌, ◌<◌,
}
use zephyr_riscv_test_suite.PageTable.{Memory, Place, store}
use zephyr_riscv_test_suite.Hart.{load, fetch, write, is_marked}
use zephyr_riscv_test_suite.Zephyr.Board.{
  Board, Kernel, Oracle, Thread, goes_on, test_failed, page_of, allows, load64, store64, call_code,
}
use zephyr_riscv_test_suite.Zephyr.Board.Accesses.{
  Known, Kept, known-goes, allows-word, is_marked-word, physical-word,
}

abbrev pub page_at : ℕ → Place
page_at at = record { at = at; level = 0 }

-- A write elsewhere leaves what is known of an address.
pub Known-store :
    (b : Board) (va at word a v : ℕ)
    → a ≢ at
    → Known b va (page_at at) word
    → Known (record b { mem = store b.mem a v }) va (page_at at) word
Known-store b va at word a v apart known = (known.0, known.1, rw (==-ne a at apart) known.2)

module _ (k : Kernel) (hits : Oracle) (svadu : Bool)
    (fatal : (scause stval : ℕ) → Board → Thread (Unit {0})) (va frame bits at : ℕ)
    (small : bits < 1024) (b : Board) (known : Known b va (page_at at) (frame * 1024 + bits)) where
  abbrev pa : ℕ
  pa = frame * 4096 + va % 4096

  abbrev Keeps : Board → Type 0
  Keeps b' = Kept b b' (page_of va) (frame * 1024 + bits) 0

  pub load-goes :
      allows load b.sstatus bits 0 ≡ true
      → is_marked load bits ≡ true
      → (b' : Board) × (load64 k hits svadu fatal va b ≡ goes_on (b.mem pa) b') × Keeps b'
  load-goes allowed marked =
      let got =
        known-goes k hits svadu fatal load va (page_at at) (frame * 1024 + bits) b known
          (λ q c. goes_on (c.mem q) c) (allows-word load b.sstatus frame bits ∙ allowed)
          (is_marked-word load frame bits ∙ marked) in
      (
        got.0,
        got.1
            ∙ ap (λ q. goes_on (got.0.mem q) got.0) (physical-word frame bits va small)
            ∙ ap (λ (f : Memory). goes_on (f pa) got.0) got.2.mem,
        got.2,
      )

  abbrev pub written : ℕ → Board
  written v = record b { mem = store b.mem pa (v % 2 ^ 64) }

  -- The word is written, and the rest is as after any access.
  pub store-goes :
      (v : ℕ)
      → allows write b.sstatus bits 0 ≡ true
      → is_marked write bits ≡ true
      → (b' : Board) × (store64 k hits svadu fatal va v b ≡ goes_on tt b')
        × Kept (written v) b' (page_of va) (frame * 1024 + bits) 0
  store-goes v allowed marked =
      let got =
        known-goes k hits svadu fatal write va (page_at at) (frame * 1024 + bits) b known
          (λ q c. goes_on tt (record c { mem = store c.mem q (v % 2 ^ 64) }))
          (allows-word write b.sstatus frame bits ∙ allowed)
          (is_marked-word write frame bits ∙ marked) in
      (
        record got.0 { mem = store got.0.mem pa (v % 2 ^ 64) },
        got.1
            ∙ ap (λ q. goes_on tt (record got.0 { mem = store got.0.mem q (v % 2 ^ 64) }))
                (physical-word frame bits va small),
        record {
          mem = ap (λ (f : Memory). store f pa (v % 2 ^ 64)) got.2.mem;
          places = got.2.places;
          sstatus = got.2.sstatus;
          resolver = got.2.resolver;
          fix_count = got.2.fix_count;
          tlb = got.2.tlb;
        },
      )

  -- A `ret` at the page's word comes back.
  pub call-goes :
      allows fetch b.sstatus bits 0 ≡ true
      → is_marked fetch bits ≡ true
      → b.mem pa % 2 ^ 32 ≡ 0x00008067
      → (b' : Board) × (call_code k hits svadu fatal va b ≡ goes_on tt b') × Keeps b'
  call-goes allowed marked is_ret =
      let got =
        known-goes k hits svadu fatal fetch va (page_at at) (frame * 1024 + bits) b known
          (λ q c.
            if c.mem q % 2 ^ 32 == 0x00008067
            then goes_on tt c
            else test_failed "ran into other code" c)
          (allows-word fetch b.sstatus frame bits ∙ allowed)
          (is_marked-word fetch frame bits ∙ marked) in
      let ret : got.0.mem pa % 2 ^ 32 ≡ 0x00008067 =
        ap (λ (f : Memory). f pa % 2 ^ 32) got.2.mem ∙ is_ret in
      (
        got.0,
        got.1
            ∙ ap
                (λ q.
                  if got.0.mem q % 2 ^ 32 == 0x00008067
                  then goes_on tt got.0
                  else test_failed "ran into other code" got.0)
                (physical-word frame bits va small)
            ∙ rw ret refl,
        got.2,
      )
