-- ===== src/Machine.antt =====
-- The state that the trap handlers and the runtime of smode.c and m_trap.c share: the memory and
-- the page pool, `g_trap`, the CSRs of one hart, the CLINT's registers by hart, the console, and the
-- word written to the test finisher.
pub mod Bit
use zephyr_riscv_test_suite.Prelude.{
  ℕ, ◌+◌, ◌-◌, ◌%◌, ◌^◌, Option, some, List, ◌++◌, ◌==◌, if◌then◌else◌,
}
use zephyr_riscv_test_suite.Word.{◌&◌, ◌∣∣◌, complement}
use zephyr_riscv_test_suite.PageTable.{Tables}

-- `struct trap_state`.
pub record TrapState : Type 0 where
  pub scause : ℕ
  pub stval : ℕ
  pub sepc : ℕ
  pub fault_count : ℕ
  pub expected_cause : ℕ
  pub expected_stval : ℕ
  pub handler_action : ℕ
  pub irq_count : ℕ
  pub timer_irq_count : ℕ
  pub soft_irq_count : ℕ
  pub last_irq_cause : ℕ

pub record Machine : Type 0 where
  pub tables : Tables
  pub trap : TrapState
  pub console : List ℕ
  pub verdict : Option ℕ  -- the last word written to the finisher
  pub satp : ℕ
  pub stvec : ℕ
  pub scause : ℕ
  pub sepc : ℕ
  pub stval : ℕ
  pub mstatus : ℕ
  pub mie : ℕ
  pub mip : ℕ
  pub mhartid : ℕ
  pub mtimecmp : ℕ → ℕ
  pub msip : ℕ → ℕ
  pub m_trap_info : List ℕ

-- `csrs` and `csrc`: set and clear the bits of a mask.
abbrev pub csrs : ℕ → ℕ → ℕ
csrs csr bits = csr ∣∣ bits

abbrev pub csrc : ℕ → ℕ → ℕ
csrc csr bits = csr & complement bits

-- A register of the CLINT, written for one hart.
abbrev pub at_hart : (ℕ → ℕ) → ℕ → ℕ → ℕ → ℕ
at_hart regs hart v k = if hart == k then v else regs k

abbrev pub send : List ℕ → Machine → Machine
send text m = record m { console = m.console ++ text }
