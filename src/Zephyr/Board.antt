-- ===== src/Zephyr/Board.antt =====
-- A test thread of zephyr-suite on a hart with Sv39 under Zephyr's kernel. Of the kernel's tables the
-- board keeps where the leaf entry of each address is; the entries stand in memory. The hart has a TLB
-- that an access may use or not, as an oracle says, and that the fences clear. What the kernel's
-- functions do is a parameter, with its documented behaviour in Zephyr/Board/Behaviour.
pub mod Behaviour
pub mod Accesses
pub mod Words
pub mod Pages
use Prim.Native.String.{String}
use zephyr_riscv_test_suite.Prelude.{
  ℕ, zero, suc, ◌+◌, ◌-◌, ◌*◌, ◌/◌, ◌%◌, ◌^◌, Bool, true, false, not, ◌&&◌, ◌==◌, if◌then◌else◌,
  Option, none, some, List, [], ◌∷◌,
}
use zephyr_riscv_test_suite.Machine.Bit.{bit}
use zephyr_riscv_test_suite.PageTable.{Memory, Place, store}
use zephyr_riscv_test_suite.Hart.{
  Access, load, fetch, write, cause, permits, is_marked, mark, physical,
}
use zephyr_riscv_test_suite.Zephyr.Fixups.{p1c_fixup, Resolved}

pub record Board : Type 0 where
  pub mem : Memory
  pub places : ℕ → Option Place
  pub tlb : ℕ → Option (ℕ × ℕ)  -- by page: an entry and its level
  pub clock : ℕ  -- how many accesses there were
  pub satp : ℕ
  pub sstatus : ℕ
  pub expect_fault : Bool
  pub expected_scause : ℕ
  pub expected_stval : ℕ
  pub resolver : Bool  -- whether `p1c_fixup` is registered
  pub fix_count : ℕ

-- A test goes on, or has ended: by `ztest_test_pass`, or by a failure.
pub data Thread {ℓ} (A : Type ℓ) : Type ℓ where
  goes_on : A → Board → Thread A
  test_passed : Board → Thread A
  test_failed : String → Board → Thread A

abbrev pub Script {ℓ} : Type ℓ → Type ℓ
Script A = Board → Thread A

abbrev pub bind {ℓ κ} : {A : Type ℓ} {B : Type κ} → Thread A → (A → Script B) → Thread B
bind (goes_on a b) f = f a b
bind (test_passed b) f = test_passed b
bind (test_failed msg b) f = test_failed msg b

infixl 5 ◌>>=◌ ◌>>◌
abbrev pub ◌>>=◌ {ℓ κ} : {A : Type ℓ} {B : Type κ} → Script A → (A → Script B) → Script B
◌>>=◌ s f b = bind (s b) f

abbrev pub ◌>>◌ {ℓ} : {B : Type ℓ} → Script (Unit {0}) → Script B → Script B
◌>>◌ s t b = bind (s b) (λ _. t)

abbrev pub pure {ℓ} : {A : Type ℓ} → A → Script A
pure a b = goes_on a b

abbrev pub gets {ℓ} : {A : Type ℓ} → (Board → A) → Script A
gets f b = goes_on (f b) b

abbrev pub modify : (Board → Board) → Script (Unit {0})
modify f b = goes_on tt (f b)

-- The test's own data stand in the kernel's image, which is mapped to itself.
abbrev pub peek : ℕ → Script ℕ
peek a = gets (λ b. b.mem a)

abbrev pub poke : ℕ → ℕ → Script (Unit {0})
poke a v = modify (λ b. record b { mem = store b.mem a (v % 2 ^ 64) })

-- `insn[0] = v` for 32-bit words, at a multiple of 8.
abbrev pub poke32 : ℕ → ℕ → Script (Unit {0})
poke32 a v = modify (λ b. record b { mem = store b.mem a (b.mem a / 2 ^ 32 * 2 ^ 32 + v % 2 ^ 32) })

abbrev pub zassert_true : Bool → String → Script (Unit {0})
zassert_true condition msg b = if condition then goes_on tt b else test_failed msg b

abbrev pub zassert_equal : ℕ → ℕ → String → Script (Unit {0})
zassert_equal a c msg = zassert_true (a == c) msg

abbrev pub zassert_not_equal : ℕ → ℕ → String → Script (Unit {0})
zassert_not_equal a c msg = zassert_true (not (a == c)) msg

-- `zassert_not_null`, with the pointer for what follows.
abbrev pub zassert_not_null : Option ℕ → String → Script ℕ
zassert_not_null none msg b = test_failed msg b
zassert_not_null (some p) msg b = goes_on p b

abbrev pub zassert_unreachable {ℓ} : {A : Type ℓ} → String → Script A
zassert_unreachable msg b = test_failed msg b

-- What a finished test reports: its return is a success.
abbrev pub verdict {ℓ} : {A : Type ℓ} → Thread A → Bool
verdict (goes_on a b) = true
verdict (test_passed b) = true
verdict (test_failed msg b) = false

-- Whether each test of a suite passes from a board.
abbrev pub all_pass : List (Script (Unit {0})) → Board → Bool
all_pass [] b = true
all_pass (t ∷ ts) b = verdict (t b) && all_pass ts b

-- Pages in the same leaf of level `k`.
abbrev pub covers : (k page other : ℕ) → Bool
covers k page other = page / 2 ^ (9 * k) == other / 2 ^ (9 * k)

abbrev pub page_of : ℕ → ℕ
page_of va = va / 4096

-- `sfence.vma`, and with an address.
abbrev pub sfence_vma : Board → Board
sfence_vma b = record b { tlb = λ p. none }

abbrev pub unless_covered : ℕ → ℕ → Option (ℕ × ℕ) → Option (ℕ × ℕ)
unless_covered page p none = none
unless_covered page p (some (pte, k)) = if covers k page p then none else some (pte, k)

unfoldable pub sfence_vma_addr : ℕ → Board → Board
sfence_vma_addr va b = record b { tlb = λ p. unless_covered (page_of va) p (b.tlb p) }

-- The kernel's functions that the tests call, and its flags.
pub record Kernel : Type 0 where
  pub map_raw : (va pa bits level : ℕ) → Board → Board
  pub pte_lookup : ℕ → Board → Option ℕ
  pub arch_mem_map : (va pa size flags : ℕ) → Board → Board
  pub arch_mem_unmap : (va size : ℕ) → Board → Board
  pub k_mem_map : (size flags : ℕ) → Board → Option ℕ × Board
  pub k_mem_unmap : (va size : ℕ) → Board → Board
  pub perm_rw : ℕ
  pub perm_exec : ℕ
  pub map_uninit : ℕ
  -- Whether a fault is retried, by what the resolver says, if there is one.
  pub retries : Option Bool → Bool

-- When an access at a time to an address uses a translation of the TLB.
abbrev pub Oracle : Type 0
Oracle = (clock va : ℕ) → Bool

-- V and the rules for the flags and the frame of an entry of level `k`.
unfoldable pub allows : Access → (sstatus pte k : ℕ) → Bool
allows a sstatus pte k = bit 0 pte == 1 && permits a sstatus pte k

abbrev pub fill : (va pte k : ℕ) → Board → Board
fill va pte k b = record b {
  tlb = λ p. if p == page_of va then some (pte, k) else b.tlb p;
  clock = b.clock + 1;
}

module _ (k : Kernel) (hits : Oracle) (svadu : Bool)
    (fatal : (scause stval : ℕ) → Board → Thread (Unit {0})) where
  -- The physical address of an access by an entry at a place, which goes into the TLB.
  unfoldable pub by_walk : Access → ℕ → Option Place → Board → Option (ℕ × Board)
  by_walk a va none b = none
  by_walk a va (some w) b =
      let pte = b.mem w.at in
      let marked = mark a pte in
      if allows a b.sstatus pte w.level
      then (if is_marked a pte
          then some (physical pte w.level va, fill va pte w.level b)
          else if svadu
          then some (
            physical pte w.level va,
            fill va marked w.level (record b { mem = store b.mem w.at marked }),
          )
          else none)
      else none

  -- By the TLB's entry, if there is one and the hart uses it.
  unfoldable pub by_tlb : Access → ℕ → Option (ℕ × ℕ) → Board → Option (ℕ × Board)
  by_tlb a va none b = by_walk a va (b.places va) b
  by_tlb a va (some (pte, level)) b =
      if hits b.clock va
      then (if allows a b.sstatus pte level && is_marked a pte
          then some (physical pte level va, record b { clock = b.clock + 1 })
          else none)
      else by_walk a va (b.places va) b

  abbrev pub reach : Access → ℕ → Board → Option (ℕ × Board)
  reach a va b = by_tlb a va (b.tlb (page_of va)) b

  -- What `p1c_fixup` makes of the board; its fence is behind a repair only.
  abbrev pub resolve : (scause stval : ℕ) → Board → Resolved
  resolve scause stval b =
      p1c_fixup (λ va. k.pte_lookup va b) scause stval
        (record { mem = b.mem; fix_count = b.fix_count })

  abbrev pub after_resolver : Resolved → Board → Board
  after_resolver r b =
      if r.retry
      then record b { mem = r.entries.mem; fix_count = r.entries.fix_count; tlb = λ p. none }
      else b

  abbrev pub fatal_end {ℓ} : {A : Type ℓ} → Thread (Unit {0}) → Thread A
  fatal_end (goes_on t b) = test_failed "returned from the fatal handler" b
  fatal_end (test_passed b) = test_passed b
  fatal_end (test_failed msg b) = test_failed msg b

  module _ {ℓ} {A : Type ℓ} (a : Access) (va : ℕ) (effect : ℕ → Script A) where
    -- A fault: made again if the kernel retries it, and the end of the test otherwise.
    unfoldable pub on_fault : Script A → Script A
    on_fault again b =
        let r = resolve (cause a) va b in
        let resolved = after_resolver r b in
        let told = if b.resolver then some r.retry else none in
        let next = if b.resolver then resolved else b in
        if k.retries told then again next else fatal_end (fatal (cause a) va next)

    abbrev pub settle : Option (ℕ × Board) → Script A → Script A
    settle (some (pa, b')) again b = effect pa b'
    settle none again b = on_fault again b

    unfoldable pub attempt : ℕ → Script A
    attempt zero b = test_failed "faults without end" b
    attempt (suc fuel) b = settle (reach a va b) (attempt fuel) b

    abbrev pub access : Script A
    access = attempt 3

  abbrev pub load64 : ℕ → Script ℕ
  load64 va = access load va (λ pa b. goes_on (b.mem pa) b)

  abbrev pub store64 : ℕ → ℕ → Script (Unit {0})
  store64 va v =
      access write va (λ pa b. goes_on tt (record b { mem = store b.mem pa (v % 2 ^ 64) }))

  -- A call of the code at `va`, a multiple of 8: a `ret` comes back at once, and what any other code
  -- does is not known.
  abbrev pub call_code : ℕ → Script (Unit {0})
  call_code va = access fetch va (λ pa b.
      if b.mem pa % 2 ^ 32 == 0x00008067 then goes_on tt b else test_failed "ran into other code" b)
