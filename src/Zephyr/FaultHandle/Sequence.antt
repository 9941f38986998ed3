-- ===== src/Zephyr/FaultHandle/Sequence.antt =====
-- P1C.4: a fault on each of eight pages, each repaired in turn.
use zephyr_riscv_test_suite.Prelude.{
  ℕ, zero, suc, ◌+◌, ◌*◌, ◌/◌, ◌%◌, ◌^◌, ◌<◌, ◌≤◌, ◌≡◌, ◌≢◌, refl, arith, ap, ◌∙◌, Bool, true,
  false, ==-refl, ==-ne, inl, none, bit_or,
}
use zephyr_riscv_test_suite.PageTable.{Memory, store}
use zephyr_riscv_test_suite.Hart.{load, permits}
use zephyr_riscv_test_suite.Zephyr.Board.{Board, Kernel, Oracle, goes_on, verdict, allows, page_of}
use zephyr_riscv_test_suite.Zephyr.Board.Behaviour.{IsKernel}
use zephyr_riscv_test_suite.Zephyr.Board.Accesses.{Kept, step-passes, allows-word}
use zephyr_riscv_test_suite.Zephyr.Board.Pages.{
  Page, Page-Kept, laid, lay, lay-Page, fix_count-lay, entry-apart, data-apart,
}
use zephyr_riscv_test_suite.Zephyr.FaultHandle.{
  k_sys_fatal_error_handler, p1c_before, test_p1c_4_sequential_faults, plant, read_back, c4_va,
  c4_value,
}
use zephyr_riscv_test_suite.Zephyr.FaultHandle.Repairs.{fixed-goes}

module _ (k : Kernel) (law : IsKernel k) (hits : Oracle) (svadu : Bool) (bp : ℕ)
    (data_page : bp % 4096 ≡ 0)
    (outside : (j : ℕ) → j < 8 → law.is_table (bp + j * 4096) ≡ false) where
  abbrev There : Board → ℕ → Type 0
  There = Page k law 0xD0200000 bp 6 8 c4_value refl refl data_page outside

  abbrev laid_from : (left i : ℕ) → Board → Board
  laid_from = lay k law 0xD0200000 bp 6 8 c4_value refl refl data_page outside

  abbrev laid_one : ℕ → Board → Board
  laid_one = laid k law 0xD0200000 bp 6 8 c4_value refl refl data_page outside

  abbrev entry_of : ℕ → ℕ
  entry_of i = law.entry_at 0 (c4_va i)

  entries_apart : (i j : ℕ) → i < 8 → j < 8 → i ≢ j → entry_of i ≢ entry_of j
  entries_apart = entry-apart k law 0xD0200000 bp 6 8 c4_value refl refl data_page outside

  table_apart : (i j : ℕ) → j < 8 → entry_of i ≢ bp + j * 4096
  table_apart = data-apart k law 0xD0200000 bp 6 8 c4_value refl refl data_page outside

  There-Kept :
      (b b' : Board) (i j pte : ℕ)
      → i ≢ j
      → Kept b b' (page_of (c4_va i)) pte 0
      → There b j
      → There b' j
  There-Kept = Page-Kept k law 0xD0200000 bp 6 8 c4_value refl refl data_page outside

  plant-goes :
      (left i : ℕ) (b : Board) → plant k hits svadu bp left i b ≡ goes_on tt (laid_from left i b)
  unfolding plant lay
  plant-goes zero i b = refl
  plant-goes (suc left) i b =
      let from : Board = record b { mem = store b.mem (bp + i * 4096) (c4_value i) } in
      let stored : c4_value i % 2 ^ 64 ≡ c4_value i = omega arith in
      rw (stored, law.map_raw (c4_va i) (bp + i * 4096) 6 0 from (omega arith) (omega arith))
        (plant-goes left (i + 1) (laid_one i b))

  -- Word `i` and the other pages behind a repair of entry `i`.
  abbrev repair : ℕ → ℕ → Board → Board
  repair i new b = record b {
    mem = store b.mem (entry_of i) new;
    fix_count = b.fix_count + 1;
    tlb = λ p. none;
  }

  repair-data :
      (i new : ℕ) (b : Board)
      → i < 8
      → There b i
      → (repair i new b).mem (bp + i * 4096) ≡ c4_value i
  repair-data i new b h page = rw (==-ne (entry_of i) (bp + i * 4096) (table_apart i i h)) page.1

  repair-Page :
      (i j new : ℕ) (b : Board) → i < 8 → i ≢ j → j < 8 → There b j → There (repair i new b) j
  repair-Page i j new b hi ne h page = (
    (inl refl, page.0.1, rw (==-ne (entry_of i) (entry_of j) (entries_apart i j hi h ne)) page.0.2),
    rw (==-ne (entry_of i) (bp + j * 4096) (table_apart i j h)) page.1,
  )

  read_back-goes :
      (left i : ℕ) (b : Board)
      → i + left ≡ 8
      → ((j : ℕ) → i ≤ j → j < 8 → There b j)
      → b.resolver ≡ true
      → b.fix_count ≡ i
      → (b' : Board) × (read_back k hits svadu left i b ≡ goes_on tt b') × (b'.fix_count ≡ 8)
  unfolding read_back allows permits
  read_back-goes zero i b ends there registered counted = (b, refl, omega arith)
  read_back-goes (suc left) i b ends there registered counted =
      let page = there i (omega arith) (omega arith) in
      let at : ℕ = law.entry_at 0 (c4_va i) in
      let pte : ℕ = (bp + i * 4096) / 4096 * 1024 + 6 in
      let denied : allows load b.sstatus pte 0 ≡ false =
        allows-word load b.sstatus ((bp + i * 4096) / 4096) 6 ∙ refl in
      let got =
        fixed-goes k law hits svadu k_sys_fatal_error_handler load (c4_va i) at pte b page.0
          (λ p d. goes_on (d.mem p) d) denied (omega arith) registered in
      let target : pte / 1024 * 4096 + c4_va i % 4096 ≡ bp + i * 4096 = omega arith in
      let new : ℕ = bit_or pte 0x43 in
      let value : got.0.mem (pte / 1024 * 4096 + c4_va i % 4096) ≡ c4_value i =
        ap got.0.mem target
        ∙ ap (λ (f : Memory). f (bp + i * 4096)) got.2.mem
        ∙ repair-data i new b (omega arith) page in
      let rest =
        read_back-goes left (i + 1) got.0 (omega arith)
          (λ j lo hi.
            let ne : i ≢ j = λ e. omega arith in
            There-Kept (repair i new b) got.0 i j new ne got.2
              (repair-Page i j new b (omega arith) ne hi (there j (omega arith) hi)))
          (got.2.resolver ∙ registered) (got.2.fix_count ∙ ap (λ c. c + 1) counted) in
      (rest.0, rw (got.1, value, ==-refl (c4_value i)) rest.1, rest.2)

  -- The pages are planted, and each is read through a repair.
  pub p1c_4-passes :
      (b : Board) → verdict (test_p1c_4_sequential_faults k hits svadu bp (p1c_before b)) ≡ true
  unfolding test_p1c_4_sequential_faults p1c_before
  p1c_4-passes b =
      let c : Board = p1c_before b in
      let laid_out : Board = laid_from 8 0 c in
      let there =
        lay-Page k law 0xD0200000 bp 6 8 c4_value refl refl data_page outside 8 0 c (omega arith)
          (λ j h. absurd (omega (arith, h))) in
      let read =
        read_back-goes 8 0 (record laid_out { resolver = true }) refl (λ j lo hi. there j hi) refl
          (fix_count-lay k law 0xD0200000 bp 6 8 c4_value refl refl data_page outside 8 0 c) in
      rw (plant-goes 8 0 c) (step-passes _ read.1 (rw read.2 refl))
