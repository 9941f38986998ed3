-- ===== src/Zephyr/FaultGen/Live.antt =====
-- P1B.1b and P1B.9: the fault is on a page that was written through its mapping before.
use zephyr_riscv_test_suite.Prelude.{
  ℕ, ◌+◌, ◌-◌, ◌*◌, ◌/◌, ◌%◌, ◌^◌, ◌≡◌, ◌≢◌, refl, arith, ap, sym, ◌∙◌, Bool, true, false, ==-refl,
  Option, inl, inr, ◌<◌, bit_and,
}
use zephyr_riscv_test_suite.Machine.Bit.{bit, bit-and}
use zephyr_riscv_test_suite.PageTable.{Memory, store}
use zephyr_riscv_test_suite.Hart.{load, permits, is_marked}
use zephyr_riscv_test_suite.Zephyr.Board.{
  Board, Kernel, Oracle, Thread, goes_on, verdict, allows, page_of, load64, store64,
}
use zephyr_riscv_test_suite.Zephyr.Board.Behaviour.{IsKernel, mapped, Allocated, is_page}
use zephyr_riscv_test_suite.Zephyr.Board.Accesses.{Known, Known-Kept, mapped-Known, step-passes}
use zephyr_riscv_test_suite.Zephyr.Board.Words.{page_at, Known-store, load-goes, store-goes}
use zephyr_riscv_test_suite.Zephyr.FaultGen.Passing.{provoked}
use zephyr_riscv_test_suite.Zephyr.FaultGen.{
  k_sys_fatal_error_handler, expect, test_p1b_9_unmapped_after_kmemunmap,
  test_p1b_1b_vbit_clear_live,
}

-- A page that is mapped for reading and writing: what is written there is read again.
module _ (k : Kernel) (law : IsKernel k) (hits : Oracle) (svadu : Bool) (va frame : ℕ)
    (start : va % 4096 ≡ 0) (data_page : law.is_table (frame * 4096) ≡ false) (c : Board)
    (v : ℕ) where
  abbrev at : ℕ
  at = law.entry_at 0 va

  abbrev word : ℕ
  word = frame * 1024 + 0xC7

  abbrev pa : ℕ
  pa = frame * 4096 + va % 4096

  abbrev h : (scause stval : ℕ) → Board → Thread (Unit {0})
  h = k_sys_fatal_error_handler

  abbrev live : Board
  live = mapped va 0 word at c

  apart : pa ≢ at
  apart hit =
      let there : frame * 4096 ≡ at = omega arith in
      absurd (ground (arith, sym (ap law.is_table there) ∙ data_page, law.in_table 0 va))

  pub write_live :
      (b : Board) × (store64 k hits svadu h va v live ≡ goes_on tt b)
      × (b.mem pa ≡ v % 2 ^ 64)
      × (b.resolver ≡ c.resolver)
      × Known b va (page_at at) word
  unfolding allows permits is_marked
  write_live =
      let known = mapped-Known va 0 word at c in
      let wrote = store-goes k hits svadu h va frame 0xC7 at (omega arith) live known v refl refl in
      let written : Board = record live { mem = store live.mem pa (v % 2 ^ 64) } in
      (
        wrote.0,
        wrote.1,
        ap (λ (f : Memory). f pa) wrote.2.mem ∙ rw (==-refl pa) refl,
        wrote.2.resolver,
        Known-Kept written wrote.0 va (page_at at) word (page_of va) word 0 wrote.2
            (λ e. (refl, refl)) (Known-store live va at word pa (v % 2 ^ 64) apart known),
      )

  pub read_live :
      (b : Board) (known : Known b va (page_at at) word)
      → (b' : Board) × (load64 k hits svadu h va b ≡ goes_on (b.mem pa) b')
        × (b'.resolver ≡ b.resolver)
        × Known b' va (page_at at) word
  unfolding allows permits is_marked
  read_live b known =
      let read = load-goes k hits svadu h va frame 0xC7 at (omega arith) b known refl refl in
      (
        read.0,
        read.1,
        read.2.resolver,
        Known-Kept b read.0 va (page_at at) word (page_of va) word 0 read.2 (λ e. (refl, refl))
            known,
      )

-- Mapped, written, read and unmapped.
p1b_9-passes :
    (k : Kernel) (law : IsKernel k) (hits : Oracle) (svadu : Bool) (bp_data bp_code : ℕ) (b : Board)
    → b.resolver ≡ false
    → Allocated law.entry_at law.is_table 0xC7 (k.k_mem_map 4096 k.perm_rw b) b
    → verdict (test_p1b_9_unmapped_after_kmemunmap k hits svadu bp_data bp_code b) ≡ true
unfolding test_p1b_9_unmapped_after_kmemunmap expect allows permits
p1b_9-passes k law hits svadu bp_data bp_code b inert got =
    let c : Board = record b { mem = got.contents } in
    let va : ℕ = got.va in
    let at : ℕ = law.entry_at 0 va in
    let wrote = write_live k law hits svadu va got.frame got.aligned got.data_page c 0xDEADBEEF in
    let read =
      read_live k law hits svadu va got.frame got.aligned got.data_page c 0xDEADBEEF wrote.0
        wrote.4 in
    rw got.result (
      step-passes _ wrote.1 (
        step-passes _ (read.1 ∙ ap (λ x. goes_on x read.0) wrote.2) (
          rw (law.mem_unmap va read.0 (page_at at) read.3.1) (
            step-passes _
              (provoked k law hits svadu load va (page_at at) 0 _ _
                (inl (rw (==-refl (page_of va / 2 ^ 0)) refl), read.3.1, rw (==-refl at) refl) refl
                (read.2 ∙ wrote.3 ∙ inert) refl refl refl)
              refl))))

-- It passes exactly if the kernel has handed out a page.
pub p1b_9-is_page :
    (k : Kernel) (law : IsKernel k) (hits : Oracle) (svadu : Bool) (bp_data bp_code : ℕ) (b : Board)
    → b.resolver ≡ false
    → verdict (test_p1b_9_unmapped_after_kmemunmap k hits svadu bp_data bp_code b)
      ≡ is_page ((k.k_mem_map 4096 k.perm_rw b).0)
unfolding test_p1b_9_unmapped_after_kmemunmap
p1b_9-is_page k law hits svadu bp_data bp_code b inert = elim (law.mem_map_rw b) [
  | inl no_page ↦ rw no_page refl
  | inr got ↦
      p1b_9-passes k law hits svadu bp_data bp_code b inert got
      ∙ ap (λ (r : Option ℕ × Board). is_page r.0) (sym got.result)
]

-- V is cleared in the entry of a page in use.
pub p1b_1b-passes :
    (k : Kernel) (law : IsKernel k) (hits : Oracle) (svadu : Bool) (bp_data bp_code : ℕ) (b : Board)
    → bp_data % 4096 ≡ 0
    → bp_data < 2 ^ 64
    → law.is_table bp_data ≡ false
    → b.resolver ≡ false
    → verdict (test_p1b_1b_vbit_clear_live k hits svadu bp_data bp_code b) ≡ true
unfolding test_p1b_1b_vbit_clear_live expect allows permits
p1b_1b-passes k law hits svadu bp_data bp_code b data_page small outside inert =
    let va : ℕ = 0xD0080000 in
    let at : ℕ = law.entry_at 0 va in
    let frame : ℕ = bp_data / 4096 in
    let whole : frame * 4096 ≡ bp_data = omega arith in
    let to_page : frame * 4096 + 0 ≡ bp_data = omega arith in
    let wrote =
      write_live k law hits svadu va frame refl (ap law.is_table whole ∙ outside) b
        0x1122334455667788 in
    let value : wrote.0.mem bp_data ≡ 0x1122334455667788 = ap wrote.0.mem (sym to_page) ∙ wrote.2 in
    let ppn : (frame * 1024 + 0xC7) / 2 ^ 10 * 2 ^ 12 % 2 ^ 64 ≡ bp_data = omega arith in
    let cleared : bit 0 (bit_and (wrote.0.mem at) (2 ^ 64 - 1 - 1)) ≡ 0 =
      omega (arith, bit-and 0 (wrote.0.mem at) (2 ^ 64 - 1 - 1)) in
    rw (law.arch_map_rw va bp_data b refl data_page) (
      step-passes _ wrote.1 (
        rw (value, law.pte_lookup va wrote.0 (page_at at) wrote.4.1)
          (rw (ap (λ x. x / 2 ^ 10 * 2 ^ 12 % 2 ^ 64) wrote.4.2 ∙ ppn, ==-refl bp_data)
            (step-passes _
              (provoked k law hits svadu load va (page_at at)
                (bit_and (wrote.0.mem at) (2 ^ 64 - 1 - 1)) _ _
                (inl refl, wrote.4.1, rw (==-refl at) refl) (rw cleared refl) (wrote.3 ∙ inert) refl
                refl refl)
              refl))))
