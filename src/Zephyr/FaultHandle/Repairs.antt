-- ===== src/Zephyr/FaultHandle/Repairs.antt =====
-- An access that faults while `p1c_fixup` is registered is made again and takes effect.
use zephyr_riscv_test_suite.Prelude.{
  ℕ, ◌+◌, ◌*◌, ◌/◌, ◌%◌, ◌≡◌, refl, arith, ap, ◌∙◌, Bool, true, false, ==-refl, if◌then◌else◌, none,
  some, inl, bit_or,
}
use zephyr_riscv_test_suite.Machine.Bit.{bit, bit-or}
use zephyr_riscv_test_suite.PageTable.{store}
use zephyr_riscv_test_suite.Hart.{Access, load, fetch, write, cause, physical}
use zephyr_riscv_test_suite.Zephyr.Fixups.{Resolved}
use zephyr_riscv_test_suite.Zephyr.Fixups.Granting.{
  granted, granted-frame, permits-granted, is_marked-granted, p1c_fixup-granted,
}
use zephyr_riscv_test_suite.Zephyr.Board.{
  Board, Kernel, Oracle, Thread, Script, page_of, allows, on_fault, attempt, access, resolve,
  fatal_end, after_resolver, settle,
}
use zephyr_riscv_test_suite.Zephyr.Board.Behaviour.{IsKernel}
use zephyr_riscv_test_suite.Zephyr.Board.Accesses.{Known, Kept, known-denied, known-allowed}
use zephyr_riscv_test_suite.Zephyr.Board.Words.{page_at}

allows-granted :
    (a : Access) (sstatus pte : ℕ)
    → bit 4 pte ≡ 0
    → allows a sstatus (bit_or pte (granted a)) 0 ≡ true
unfolding allows
allows-granted load sstatus pte kernel =
    let valid : bit 0 (bit_or pte 0x43) ≡ 1 = omega (arith, bit-or 0 pte 0x43) in
    rw (valid, permits-granted load sstatus pte 0 kernel (omega arith)) refl
allows-granted fetch sstatus pte kernel =
    let valid : bit 0 (bit_or pte 0x4B) ≡ 1 = omega (arith, bit-or 0 pte 0x4B) in
    rw (valid, permits-granted fetch sstatus pte 0 kernel (omega arith)) refl
allows-granted write sstatus pte kernel =
    let valid : bit 0 (bit_or pte 0xC7) ≡ 1 = omega (arith, bit-or 0 pte 0xC7) in
    rw (valid, permits-granted write sstatus pte 0 kernel (omega arith)) refl

module _ (k : Kernel) (law : IsKernel k) (hits : Oracle) (svadu : Bool)
    (fatal : (scause stval : ℕ) → Board → Thread (Unit {0})) {A : Type 0} (a : Access)
    (va at word : ℕ) (b : Board) (known : Known b va (page_at at) word)
    (effect : ℕ → Script A) where
  abbrev pub fixed : ℕ
  fixed = bit_or word (granted a)

  -- The board that the resolver leaves.
  abbrev pub repaired : Board
  repaired = record b { mem = store b.mem at fixed; fix_count = b.fix_count + 1; tlb = λ p. none }

  resolve-repaired :
      after_resolver k hits svadu fatal (resolve k hits svadu fatal (cause a) va b) b ≡ repaired
  resolve-repaired =
      ap (λ r. after_resolver k hits svadu fatal r b)
        (p1c_fixup-granted a (λ x. k.pte_lookup x b) va at
          (record { mem = b.mem; fix_count = b.fix_count })
          (law.pte_lookup va b (page_at at) known.1))
      ∙ rw (known.2) refl

  retried : (resolve k hits svadu fatal (cause a) va b).retry ≡ true
  retried =
      ap (λ (r : Resolved). r.retry)
        (p1c_fixup-granted a (λ x. k.pte_lookup x b) va at
          (record { mem = b.mem; fix_count = b.fix_count })
          (law.pte_lookup va b (page_at at) known.1))

  -- The fault repairs the entry, and the access is made again.
  on_fault-repaired :
      (again : Script A)
      → b.resolver ≡ true
      → on_fault k hits svadu fatal a va effect again b ≡ again repaired
  unfolding on_fault
  on_fault-repaired again registered =
      let r = resolve k hits svadu fatal (cause a) va b in
      let done = after_resolver k hits svadu fatal r b in
      let next : Bool → Board = λ flag. if flag then done else b in
      let told : k.retries (some r.retry) ≡ true = law.resolved r.retry ∙ retried in
      ap
        (λ flag.
          if k.retries (if flag then some r.retry else none)
          then again (next flag)
          else fatal_end k hits svadu fatal (fatal (cause a) va (next flag)))
        registered
      ∙ ap
          (λ retry.
            if retry then again done else fatal_end k hits svadu fatal (fatal (cause a) va done))
          told
      ∙ ap again resolve-repaired

  pub fixed-goes :
      allows a b.sstatus word 0 ≡ false
      → bit 4 word ≡ 0
      → b.resolver ≡ true
      → (b' : Board) × (access k hits svadu fatal a va effect b
          ≡ effect (word / 1024 * 4096 + va % 4096) b')
        × Kept repaired b' (page_of va) fixed 0
  unfolding attempt
  fixed-goes denied kernel registered =
      let again : Known repaired va (page_at at) fixed =
        (inl refl, known.1, rw (==-refl at) refl) in
      let got =
        known-allowed k hits svadu fatal a va (page_at at) fixed repaired again
          (allows-granted a b.sstatus word kernel) (is_marked-granted a word) in
      let first = known-denied k hits svadu fatal a va (page_at at) word b known denied in
      let target : physical fixed 0 va ≡ word / 1024 * 4096 + va % 4096 =
        omega (arith, granted-frame a word) in
      (
        got.0,
        rw first (
            on_fault-repaired (attempt k hits svadu fatal a va effect 2) registered
            ∙ ap
                (λ r.
                  settle k hits svadu fatal a va effect r (attempt k hits svadu fatal a va effect 1)
                    repaired)
                got.1
            ∙ ap (λ p. effect p got.0) target),
        got.2,
      )
