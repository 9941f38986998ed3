-- ===== src/STrap/Interrupts.antt =====
-- Interrupts in S-mode: what is counted, what is acknowledged, and what is left pending.
use zephyr_riscv_test_suite.Prelude.{
  ℕ, ◌+◌, ◌^◌, ◌<◌, ◌≤◌, ◌≡◌, ◌↔◌, ◌⊎◌, refl, arith, true, ◌==◌, if◌then◌else◌,
}
use zephyr_riscv_test_suite.Machine.{Machine, TrapState}
use zephyr_riscv_test_suite.Machine.Bit.{
  bit, bit-csrc, bit-csrs, stip-IsMask, mtip-IsMask, ssip-IsMask,
}
use zephyr_riscv_test_suite.MTrap.{is_interrupt, cause_code, never, ecall, sbi_set_timer}
use zephyr_riscv_test_suite.MTrap.Laws.{is_interrupt-leb, cause_code-mod}
use zephyr_riscv_test_suite.Verdict.{final, returns, test_fail}
use zephyr_riscv_test_suite.STrap.{
  s_trap_handler, interrupt, timer_interrupt, soft_interrupt, record_trap,
}

-- What the handler counts for an interrupt; a fault is counted too, whatever the trap was.
abbrev counted : ℕ → ℕ → ℕ → TrapState → TrapState
counted scause stval sepc t = record t {
  scause = scause;
  stval = stval;
  sepc = sepc;
  fault_count = t.fault_count + 1;
  irq_count = t.irq_count + 1;
  last_irq_cause = scause;
}

module _ (ecall_pc stval sepc frame : ℕ) (m : Machine) where
  -- After the timer interrupt of S-mode the handler returns, has counted it once, and has cleared
  -- STIP through the M-mode handler, which leaves the compare register of this hart at the maximum
  -- and MTIP enabled; no other hart's register and no other bit below 64 changes.
  pub s_timer_lem :
      (k : ℕ)
      → k < 64
      → let m' = final (s_trap_handler ecall_pc (2 ^ 63 + 5) stval sepc frame m) in
        (returns (s_trap_handler ecall_pc (2 ^ 63 + 5) stval sepc frame m) ≡ true)
        × (m'.trap ≡ record (counted (2 ^ 63 + 5) stval sepc m.trap) {
          timer_irq_count = m.trap.timer_irq_count + 1;
        })
        × (m'.mtimecmp k ≡ (if m.mhartid == k then never else m.mtimecmp k))
        × (bit k m'.mip ≡ (if k == 5 then 0 else bit k m.mip))
        × (bit k m'.mie ≡ (if k == 7 then 1 else bit k m.mie))
  unfolding s_trap_handler interrupt timer_interrupt record_trap is_interrupt cause_code ecall
      sbi_set_timer
  s_timer_lem k h =
      (refl, refl, refl, bit-csrc 5 stip-IsMask m.mip k h, bit-csrs 7 mtip-IsMask m.mie k h)

  -- After the software interrupt of S-mode the handler returns, has counted it once and has cleared
  -- SSIP; no other pending bit below 64 and no other state changes.
  pub s_soft_lem :
      (k : ℕ)
      → k < 64
      → let m' = final (s_trap_handler ecall_pc (2 ^ 63 + 1) stval sepc frame m) in
        (returns (s_trap_handler ecall_pc (2 ^ 63 + 1) stval sepc frame m) ≡ true)
        × (m' ≡ record m {
          trap = record (counted (2 ^ 63 + 1) stval sepc m.trap) {
            soft_irq_count = m.trap.soft_irq_count + 1;
          };
          mip = m'.mip;
        })
        × (bit k m'.mip ≡ (if k == 1 then 0 else bit k m.mip))
  unfolding s_trap_handler interrupt soft_interrupt record_trap is_interrupt cause_code
  s_soft_lem k h = (refl, refl, bit-csrc 1 ssip-IsMask m.mip k h)

  -- An interrupt, a 64-bit cause from 2 ^ 63 up, stops the run exactly if it is none of the supervisor's three.
  pub interrupt_returns :
      (scause : ℕ)
      → 2 ^ 63 ≤ scause
      → scause < 2 ^ 64
      → (returns (s_trap_handler ecall_pc scause stval sepc frame m) ≡ true)
        ↔ ((scause ≡ 2 ^ 63 + 1) ⊎ (scause ≡ 2 ^ 63 + 5) ⊎ (scause ≡ 2 ^ 63 + 9))
  unfolding s_trap_handler interrupt timer_interrupt soft_interrupt test_fail ecall sbi_set_timer
  interrupt_returns scause lo hi = ground (arith, is_interrupt-leb scause hi, cause_code-mod scause)
