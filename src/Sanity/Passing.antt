-- ===== src/Sanity/Passing.antt =====
-- The run of p0_sanity.c with address translation off.
use zephyr_riscv_test_suite.Prelude.{
  ℕ, zero, suc, ◌+◌, ◌*◌, ◌/◌, ◌%◌, ◌^◌, ◌<◌, ◌≤◌, ◌≡◌, refl, arith, Bool, true, ◌==◌, ==-refl,
  ==-ne, ==_iff, ap, ◌∙◌, sym, Bool-cases, inl, inr,
}
use zephyr_riscv_test_suite.Word.{u64, ◌&◌, complement}
use zephyr_riscv_test_suite.PageTable.{Memory, store}
use zephyr_riscv_test_suite.Machine.{Machine}
use zephyr_riscv_test_suite.MTrap.{
  ecall, m_trap_handler, sbi_call, reflect_ecall, is_interrupt, cause_code,
}
use zephyr_riscv_test_suite.STrap.{s_trap_handler, exception, record_trap, sepc_slot}
use zephyr_riscv_test_suite.Hart.{Layout, load64, store64, translate, attempt, set_mem}
use zephyr_riscv_test_suite.Mmu.{clear_fault}
use zephyr_riscv_test_suite.Mmu.Runs.{end_of}
use zephyr_riscv_test_suite.Suite.{
  done, Script, bind, passes, succeeds, succeeds-step, succeeds-bind, ◌>>=◌, ◌>>◌, say, say_dec,
  test_log, assert_eq, banner,
}
use zephyr_riscv_test_suite.Sanity.{
  Site, p0_2, p0_3, p0_4, p0_test_main, non_sbi_ecall, fill, check_word, check_heap, pattern,
  heap_size_words,
}

module _ (svadu : Bool) (at : Layout) (here : Site) where
  abbrev word : ℕ → ℕ
  word i = here.heap_start + 8 * i

  load64-bare :
      (va : ℕ) (m : Machine)
      → (m.satp / 2 ^ 60 == 0) ≡ true
      → load64 svadu at va m ≡ done (m.tables.mem va) m
  unfolding attempt translate
  load64-bare va m bare = rw bare refl

  store64-bare :
      (va val : ℕ) (m : Machine)
      → (m.satp / 2 ^ 60 == 0) ≡ true
      → store64 svadu at va val m ≡ done tt (set_mem (store m.tables.mem va (val % 2 ^ 64)) m)
  unfolding attempt translate
  store64-bare va val m bare = rw bare refl

  -- The memory behind the first loop.
  filled : (left i : ℕ) → Memory → Memory
  filled zero i mem = mem
  filled (suc left) i mem =
      filled left (i + 1) (store mem (word i) (pattern svadu at here i % 2 ^ 64))

  fill-filled :
      (left i : ℕ) (m : Machine)
      → (m.satp / 2 ^ 60 == 0) ≡ true
      → fill svadu at here left i m ≡ done tt (set_mem (filled left i m.tables.mem) m)
  unfolding fill filled
  fill-filled zero i m bare = refl
  fill-filled (suc left) i m bare = rw (store64-bare (word i) (pattern svadu at here i) m bare) (
      fill-filled left (i + 1)
        (set_mem (store m.tables.mem (word i) (pattern svadu at here i % 2 ^ 64)) m) bare)

  filled-below : (left i j : ℕ) (mem : Memory) → j < i → filled left i mem (word j) ≡ mem (word j)
  unfolding filled
  filled-below zero i j mem h = refl
  filled-below (suc left) i j mem h =
      filled-below left (i + 1) j (store mem (word i) (pattern svadu at here i % 2 ^ 64))
        (omega arith)
      ∙ rw (==-ne (word i) (word j) (omega arith)) refl

  filled-within :
      (left i j : ℕ) (mem : Memory)
      → i ≤ j
      → j < i + left
      → filled left i mem (word j) ≡ pattern svadu at here j
  unfolding filled
  filled-within zero i j mem h g = absurd (omega arith)
  filled-within (suc left) i j mem h g = elim (Bool-cases (i == j)) [
    | inl same ↦
        let e : j ≡ i = sym ((==_iff i j).0 same) in
        filled-below left (i + 1) j (store mem (word i) (pattern svadu at here i % 2 ^ 64))
          (omega arith)
        ∙ rw (e, ==-refl (word i)) (omega arith)
    | inr apart ↦
        filled-within left (i + 1) j (store mem (word i) (pattern svadu at here i % 2 ^ 64))
          (ground arith) (omega arith)
  ]

  check_heap-clean :
      (left i mem_errors : ℕ) (m : Machine)
      → (m.satp / 2 ^ 60 == 0) ≡ true
      → ((j : ℕ) → i ≤ j → j < i + left → m.tables.mem (word j) ≡ pattern svadu at here j)
      → check_heap svadu at here left i mem_errors m ≡ done mem_errors m
  unfolding check_heap check_word
  check_heap-clean zero i mem_errors m bare ok = refl
  check_heap-clean (suc left) i mem_errors m bare ok =
      rw
        (
          load64-bare (word i) m bare,
          ok i (omega arith) (omega arith),
          ==-refl (pattern svadu at here i),
        )
        (check_heap-clean left (i + 1) mem_errors m bare
          (λ j h g. ok j (omega arith) (omega arith)))

  p0_3-ends :
      (a0 : ℕ) (m : Machine)
      → (m.stvec & complement 3) ≡ here.s_trap_vector
      → (m' : Machine) × (p0_3 svadu at here a0 m ≡ done tt m') × (m'.satp ≡ m.satp)
  unfolding p0_3 clear_fault non_sbi_ecall ecall m_trap_handler sbi_call reflect_ecall is_interrupt
      cause_code s_trap_handler exception record_trap test_log assert_eq
  p0_3-ends a0 m vector = (
    end_of (p0_3 svadu at here a0 m) m,
    rw
        (
          vector,
          ==-refl here.s_trap_vector,
          ==-refl (sepc_slot at.frame),
          ==-refl (u64 (here.ecall_at + 4)),
        )
        refl,
    rw
        (
          vector,
          ==-refl here.s_trap_vector,
          ==-refl (sepc_slot at.frame),
          ==-refl (u64 (here.ecall_at + 4)),
        )
        refl,
  )

  p0_4-passes : (m : Machine) → (m.satp / 2 ^ 60 == 0) ≡ true → passes (p0_4 svadu at here m) ≡ true
  unfolding p0_4 test_log assert_eq
  p0_4-passes m bare =
      ap (λ r. passes (bind r (λ _. checking))) (fill-filled words 0 logged bare)
      ∙ ap
          (λ r. passes (bind r (λ e. assert_eq e 0 "SRAM read/write errors detected" 41 >> report)))
          (check_heap-clean words 0 0 swept bare
            (λ j h g. filled-within words 0 j logged.tables.mem h (omega arith)))
    where
      words : ℕ
      words = heap_size_words svadu at here

      logged : Machine
      logged = end_of (test_log "P0.4 — SRAM read/write sweep..." m) m

      swept : Machine
      swept = set_mem (filled words 0 logged.tables.mem) logged

      report : Script (Unit {0})
      report = do
        say "    Tested "
        say_dec words
        say " 64-bit words: OK\n"
        test_log "P0.4 — SRAM read/write sweep: OK"

      checking : Script (Unit {0})
      checking = do
        mem_errors ← check_heap svadu at here words 0 0
        assert_eq mem_errors 0 "SRAM read/write errors detected" 41
        report

-- With address translation off and stvec at the trap vector, phase 0 comes to its end and returns 0,
-- whatever the machine holds and wherever the heap is, so that its assertions on the ecall and on the
-- words of the sweep hold.
pub p0_test_main-succeeds :
    (svadu : Bool) (at : Layout) (here : Site) (a0 : ℕ) (m : Machine)
    → (m.satp / 2 ^ 60 == 0) ≡ true
    → (m.stvec & complement 3) ≡ here.s_trap_vector
    → succeeds (p0_test_main svadu at here a0 m) ≡ true
unfolding p0_test_main p0_2 test_log banner
p0_test_main-succeeds svadu at here a0 m bare vector =
    let trapped = p0_3-ends svadu at here a0 _ vector in
    succeeds-step (p0_3 svadu at here a0) _ trapped.1 (
      succeeds-bind (p0_4 svadu at here trapped.0) _
        (p0_4-passes svadu at here trapped.0 (rw trapped.2 bare)) (λ n. refl))
