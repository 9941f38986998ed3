-- ===== src/Examples/Traps.antt =====
-- Traps of a machine whose satp names the tables of `Examples.PageTables`, with the page at
-- 0x40000000 absent.
use zephyr_riscv_test_suite.Prelude.{
  ℕ, ◌+◌, ◌^◌, ◌≡◌, ◌≢◌, ◌↔◌, ◌⊎◌, inl, inr, refl, arith, some, none, [], ◌==◌, if◌then◌else◌, true,
}
use zephyr_riscv_test_suite.PageTable.{
  Tables, page, pt_walk, pt_map_page, satp_sv39, ensure_table, pt_alloc_page, clear_entries,
  is_valid, is_leaf, pte_table, vpn2, vpn1, vpn0, pte_leaf, pte_absent, pte_branch, pt_ppn,
  pt_setup_identity_kernel,
}
use zephyr_riscv_test_suite.PageTable.Tree.{resolve, IsTree}
use zephyr_riscv_test_suite.PageTable.Map.{pt_map_page-IsTree}
use zephyr_riscv_test_suite.Machine.{Machine, TrapState}
use zephyr_riscv_test_suite.MTrap.{m_trap_handler, never}
use zephyr_riscv_test_suite.MTrap.Laws.{
  IsServed, resumes, resumes-m_trap_handler, TimerCycle, set_timer-TimerCycle,
}
use zephyr_riscv_test_suite.Verdict.{returns, final}
use zephyr_riscv_test_suite.STrap.{s_trap_handler, satp_root}
use zephyr_riscv_test_suite.STrap.Fix.{IsPageFault, satp_root-satp_sv39}
use zephyr_riscv_test_suite.STrap.Faults.{fix_resolves, exception_returns, faulting, fixed}
use zephyr_riscv_test_suite.Examples.PageTables.{pool, identity, identity_tree, va, room, clear_way}

abbrev quiet : TrapState
quiet = record {
  scause = 0;
  stval = 0;
  sepc = 0;
  fault_count = 0;
  expected_cause = 0;
  expected_stval = 0;
  handler_action = 0;
  irq_count = 0;
  timer_irq_count = 0;
  soft_irq_count = 0;
  last_irq_cause = 0;
}

abbrev pub absent : Tables
absent = pt_map_page pool (page pool 0) va 0x80000000 6 0 identity

pub absent_tree : IsTree pool absent 0
absent_tree = pt_map_page-IsTree pool refl identity identity_tree va room clear_way 0x80000000 6 0

abbrev pub m : Machine
m = record {
  tables = absent;
  trap = quiet;
  console = [];
  verdict = none;
  satp = satp_sv39 pool;
  stvec = 0x80000100;
  scause = 0;
  sepc = 0;
  stval = 0;
  mstatus = 0;
  mie = 0;
  mip = 0;
  mhartid = 0;
  mtimecmp = λ h. never;
  msip = λ h. 0;
  m_trap_info = [];
}

walk_at : pt_walk absent.mem pool va ≡ record { at = pool + 0x2000; level = 0 }
unfolding pt_walk pt_map_page ensure_table pt_alloc_page clear_entries is_valid is_leaf pte_table
    vpn2 vpn1 vpn0 pte_leaf pte_absent pte_branch pt_ppn pt_setup_identity_kernel
walk_at = refl

pub names : satp_root m.satp ≡ page pool 0
names = satp_root-satp_sv39 pool (omega arith) refl

-- The frame of the trap, and the address behind its ecall.
abbrev frame : ℕ
frame = 0x80030000

abbrev pc : ℕ
pc = 0x80000200

somewhere : (pt_walk m.tables.mem (satp_root m.satp) va).at ≢ 0
somewhere = rw (names, walk_at) (omega arith)

fix_resolves_example :
    resolve (final (s_trap_handler pc 13 va 0x80000400 frame m)).tables.mem (page pool 0) va
    ≡ some (
      fixed pc 13 va 0x80000400 frame m (inr (inl refl)),
      (faulting pc 13 va 0x80000400 frame m (inr (inl refl))).level,
    )
fix_resolves_example =
    fix_resolves pc 13 va 0x80000400 frame m (inr (inl refl)) pool absent_tree names (omega arith)
      somewhere

abbrev pub skipping : Machine
skipping = record m { trap = record quiet { handler_action = 1 } }

abbrev illegal : ℕ
illegal = 2

exception_returns_example : (returns (s_trap_handler pc illegal 0 0x80000400 frame m) ≡ true) ↔ (
    (illegal ≡ 9)
    ⊎ (((illegal ≡ 13) ⊎ (illegal ≡ 15)) × (m.trap.handler_action ≡ 1))
    ⊎ (IsPageFault illegal
        × (m.trap.handler_action ≢ 1)
        × ((pt_walk m.tables.mem (satp_root m.satp) 0).at ≢ 0)))
exception_returns_example = exception_returns pc illegal 0 0x80000400 frame m (omega arith)

-- The registers a7 and a0 of an ecall.
abbrev registers : ℕ → ℕ → ℕ → ℕ
registers a7 a0 i = if i == 11 then a7 else if i == 4 then a0 else 0

resumes-m_trap_handler_example :
    (resumes (m_trap_handler (2 ^ 63 + 7) 0x80000400 0 (registers 0 0) m) ≡ true)
    ↔ IsServed (2 ^ 63 + 7)
resumes-m_trap_handler_example =
    resumes-m_trap_handler (2 ^ 63 + 7) 0x80000400 0 (registers 0 0) m (omega arith)

set_timer-TimerCycle_example : TimerCycle 5 0x80000400 1000 (registers 0 1000) m
set_timer-TimerCycle_example =
    set_timer-TimerCycle 5 0x80000400 (registers 0 1000) m (omega arith) refl
