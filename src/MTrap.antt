-- ===== src/MTrap.antt =====
-- The M-mode trap handler of baremetal/common/m_trap.c: timer and software interrupts are passed
-- on to S-mode, the three SBI calls are served, any other ecall of S-mode is reflected to its trap
-- vector, and all else ends in the panic.
pub mod Laws
use zephyr_riscv_test_suite.Prelude.{
  ℕ, ◌+◌, ◌-◌, ◌*◌, ◌/◌, ◌%◌, ◌^◌, List, [], ◌∷◌, some, Bool, not, ◌==◌, ltb, if◌then◌else◌,
}
use zephyr_riscv_test_suite.Word.{u64, u32, ◌>>◌, ◌&◌, ◌∣∣◌, complement}
use zephyr_riscv_test_suite.Platform.{
  mip_ssip, mip_stip, mip_mtip, irq_m_timer, irq_m_soft, cause_ecall_smode, sbi_set_timer_id,
  sbi_send_ipi_id, sbi_clear_ipi_id, num_harts,
}
use zephyr_riscv_test_suite.Machine.{Machine, csrs, csrc, at_hart}

-- The handler returns the address to resume at, or never returns.
pub data Resumption : Type 0 where
  resume : ℕ → Machine → Resumption
  panicked : Machine → Resumption

unfoldable pub is_interrupt : ℕ → Bool
is_interrupt cause = not ((cause >> 63) & 1 == 0)

unfoldable pub cause_code : ℕ → ℕ
cause_code cause = cause & 0x7FFFFFFFFFFFFFFF

-- The largest uint64_t: no timer interrupt.
abbrev pub never : ℕ
never = 0xFFFFFFFFFFFFFFFF

-- Disable MTI, set mtimecmp to the maximum, inject STIP.
unfoldable pub forward_timer : Machine → Machine
forward_timer m = record m {
  mie = csrc m.mie mip_mtip;
  mtimecmp = at_hart m.mtimecmp m.mhartid never;
  mip = csrs m.mip mip_stip;
}

-- Clear MSIP, inject SSIP.
unfoldable pub forward_soft : Machine → Machine
forward_soft m = record m { msip = at_hart m.msip m.mhartid 0; mip = csrs m.mip mip_ssip }

unfoldable pub sbi_set_timer : ℕ → Machine → Machine
sbi_set_timer val m = record m {
  mtimecmp = at_hart m.mtimecmp m.mhartid val;
  mip = csrc m.mip mip_stip;
  mie = csrs m.mie mip_mtip;
}

unfoldable pub sbi_send_ipi : ℕ → Machine → Machine
sbi_send_ipi target m =
    if ltb target num_harts then record m { msip = at_hart m.msip target 1 } else m

unfoldable pub sbi_clear_ipi : Machine → Machine
sbi_clear_ipi m = record m { mip = csrc m.mip mip_ssip }

-- A non-SBI ecall, as the S-mode handler is to see it.
unfoldable pub reflect_ecall : ℕ → Machine → Resumption
reflect_ecall mepc m = resume (m.stvec & complement 3) (record m {
  scause = cause_ecall_smode;
  sepc = mepc;
  stval = 0;
  mstatus = csrs m.mstatus (2 ^ 8);
})

-- The finisher word of the panic: failure, with 500 + cause above it.
unfoldable pub panic_word : ℕ → ℕ
panic_word cause = 0x3333 ∣∣ u32 (u32 (500 + u32 cause) * 2 ^ 16)

unfoldable pub panic : ℕ → ℕ → ℕ → Machine → Resumption
unfolding panic_word
panic mcause mepc mtval m = panicked (record m {
  m_trap_info = mcause ∷ mepc ∷ mtval ∷ [];
  verdict = some (panic_word (cause_code mcause));
})

-- The ecalls: `frame[11]` is a7, the function, and `frame[4]` is a0, its argument.
unfoldable pub sbi_call : ℕ → ℕ → ℕ → Machine → Resumption
sbi_call a7 a0 mepc m =
    if a7 == sbi_set_timer_id
    then resume (u64 (mepc + 4)) (sbi_set_timer a0 m)
    else if a7 == sbi_send_ipi_id
    then resume (u64 (mepc + 4)) (sbi_send_ipi a0 m)
    else if a7 == sbi_clear_ipi_id
    then resume (u64 (mepc + 4)) (sbi_clear_ipi m)
    else reflect_ecall mepc m

unfoldable pub m_trap_handler : ℕ → ℕ → ℕ → (ℕ → ℕ) → Machine → Resumption
m_trap_handler mcause mepc mtval frame m =
    let code = cause_code mcause in
    if is_interrupt mcause
    then (if code == irq_m_timer
        then resume mepc (forward_timer m)
        else if code == irq_m_soft
        then resume mepc (forward_soft m)
        else panic mcause mepc mtval m)
    else (if code == cause_ecall_smode
        then sbi_call (frame 11) (frame 4) mepc m
        else panic mcause mepc mtval m)

-- `ecall` in S-mode at `pc`, with the registers a7 and a0: the hart traps to M-mode.
abbrev ecall_frame : ℕ → ℕ → ℕ → ℕ
ecall_frame a7 a0 i = if i == 11 then a7 else if i == 4 then a0 else 0

unfoldable pub ecall : ℕ → ℕ → ℕ → Machine → Resumption
unfolding m_trap_handler sbi_call is_interrupt cause_code
ecall a7 a0 pc m = m_trap_handler cause_ecall_smode pc 0 (ecall_frame a7 a0) m
