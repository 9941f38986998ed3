-- ===== src/STrap/Faults.antt =====
-- Exceptions in S-mode: the page-fault handler in both its modes, and which exceptions end the run.
use zephyr_riscv_test_suite.Prelude.{
  ℕ, ◌+◌, ◌%◌, ◌^◌, ◌<◌, ◌≡◌, ◌≢◌, ◌↔◌, ◌⊎◌, arith, true, ◌==◌, some, ap, sym, subst, ◌∙◌,
  if◌then◌else◌,
}
use zephyr_riscv_test_suite.Word.{u64}
use zephyr_riscv_test_suite.Word.Bits.{and-mask}
use zephyr_riscv_test_suite.Machine.{Machine}
use zephyr_riscv_test_suite.MTrap.{is_interrupt, cause_code}
use zephyr_riscv_test_suite.MTrap.Laws.{is_interrupt-leb, cause_code-mod}
use zephyr_riscv_test_suite.PageTable.{Tables, store, page, pt_walk, Place}
use zephyr_riscv_test_suite.PageTable.Tree.{resolve, lookup, IsTree}
use zephyr_riscv_test_suite.PageTable.Tree.Lookup.{
  resolve-lookup, pt_walk-locate, locate, lookup-located,
}
use zephyr_riscv_test_suite.Verdict.{Outcome, final, returns, test_fail}
use zephyr_riscv_test_suite.STrap.{
  s_trap_handler, exception, page_fault, fix_page, skip_insn, fix_entry, satp_root, record_trap,
  sepc_slot, load_u16,
}
use zephyr_riscv_test_suite.STrap.Fix.{IsPageFault, fix_entry-is_valid, fix_entry-is_leaf}

module _ (ecall_pc code stval sepc frame : ℕ) (m : Machine) (fault : IsPageFault code) where
  -- The walk that the handler makes for the faulting address.
  abbrev pub faulting : Place
  faulting = pt_walk m.tables.mem (satp_root m.satp) stval

  abbrev pub fixed : ℕ
  fixed = fix_entry code (m.tables.mem faulting.at)

  abbrev pub handled : Outcome
  handled = s_trap_handler ecall_pc code stval sepc frame m

  -- A page fault in the fixing mode, at an address whose walk ends at an entry: the handler returns,
  -- and has changed one word of memory, the entry that the
  -- walk of the address ends at, to the fixed entry; the trap is recorded and counted.
  pub fix_lem :
      m.trap.handler_action ≢ 1
      → faulting.at ≢ 0
      → (returns handled ≡ true)
        × ((final handled).tables ≡ record m.tables { mem = store m.tables.mem faulting.at fixed })
        × ((final handled).trap ≡ record_trap code stval sepc m.trap)
  unfolding s_trap_handler exception page_fault fix_page is_interrupt cause_code record_trap
  fix_lem fixing somewhere = ground arith

  -- A load or store page fault in the skipping mode: the handler returns and resumes behind the instruction, 4 bytes further if
  -- the two low bits of the instruction are set and 2 otherwise, by one write to the trap's
  -- frame; the trap is recorded and counted.
  pub skip_lem :
      m.trap.handler_action ≡ 1
      → code ≢ 12
      → (returns handled ≡ true)
        × ((final handled).tables ≡ record m.tables {
          mem =
              store m.tables.mem
                (sepc_slot frame)
                (u64 (sepc + (if load_u16 m.tables.mem sepc % 4 == 3 then 4 else 2)));
        })
        × ((final handled).trap ≡ record_trap code stval sepc m.trap)
  unfolding s_trap_handler exception page_fault skip_insn is_interrupt cause_code record_trap
      test_fail
  skip_lem skipping load = ground (arith, and-mask 2 (load_u16 m.tables.mem sepc))

  -- After a page fault was fixed, for tables that form a tree under the root that satp names and an
  -- address whose walk ends at an entry, the address resolves to the fixed entry, at the same level.
  pub fix_resolves :
      (pool : ℕ) {root : ℕ} (t : IsTree pool m.tables root)
      → satp_root m.satp ≡ page pool root
      → m.trap.handler_action ≢ 1
      → faulting.at ≢ 0
      → resolve (final handled).tables.mem (page pool root) stval ≡ some (fixed, faulting.level)
  fix_resolves pool {root} t names fixing somewhere =
      let here : faulting ≡ locate 2 m.tables.mem (page pool root) stval =
        ap (λ (r : ℕ). pt_walk m.tables.mem r stval) names
        ∙ pt_walk-locate m.tables.mem (page pool root) stval in
      let ends =
        lookup-located pool m.tables t stval fixed
          (fix_entry-is_valid code (m.tables.mem faulting.at))
          (fix_entry-is_leaf code (m.tables.mem faulting.at) fault) 2 root t.root_allocated
          t.root_level in
      ap (λ (s : Tables). resolve s.mem (page pool root) stval) (fix_lem fixing somewhere).1
      ∙ resolve-lookup (store m.tables.mem faulting.at fixed) (page pool root) stval
      ∙ subst
          (λ (w : Place).
            lookup 2 (store m.tables.mem w.at fixed) (page pool root) stval ≡ some (fixed, w.level))
          (sym here) ends

-- An exception, a cause below 2 ^ 63, lets the test go on exactly if it is an ecall, or a page fault that the handler's
-- mode can deal with: a load or store to skip, or an address whose walk ends at an entry.
pub exception_returns :
    (ecall_pc scause stval sepc frame : ℕ) (m : Machine)
    → scause < 2 ^ 63
    → (returns (s_trap_handler ecall_pc scause stval sepc frame m) ≡ true) ↔ (
        (scause ≡ 9)
        ⊎ (((scause ≡ 13) ⊎ (scause ≡ 15)) × (m.trap.handler_action ≡ 1))
        ⊎ (IsPageFault scause
            × (m.trap.handler_action ≢ 1)
            × ((pt_walk m.tables.mem (satp_root m.satp) stval).at ≢ 0)))
unfolding s_trap_handler exception page_fault skip_insn fix_page record_trap test_fail
exception_returns ecall_pc scause stval sepc frame m h = (
  λ r. ground (arith, is_interrupt-leb scause (omega arith), cause_code-mod scause),
  λ r. ground (arith, is_interrupt-leb scause (omega arith), cause_code-mod scause),
)
