-- ===== src/STrap.antt =====
-- The S-mode trap handler of baremetal/common/smode.c (lines 220 to 341). The fences have no effect
-- in the model, which has no TLB. Counters of type `int` are plain numbers: the source's do not
-- overflow below 2 ^ 31 traps.
pub mod Fix
pub mod Faults
pub mod Interrupts
use zephyr_riscv_test_suite.Prelude.{
  ℕ, ◌+◌, ◌-◌, ◌*◌, ◌/◌, ◌%◌, ◌^◌, List, [], ◌∷◌, ◌++◌, Bool, ◌==◌, ◌||◌, if◌then◌else◌, codes,
}
use zephyr_riscv_test_suite.Word.{u64, u32, ◌<<◌, ◌&◌, ◌∣∣◌}
use zephyr_riscv_test_suite.Platform.{
  pgshift, pte_v, pte_r, pte_w, pte_x, pte_a, pte_d, mip_ssip, irq_s_timer, irq_s_soft, irq_s_ext,
  cause_inst_page_fault, cause_load_page_fault, cause_store_page_fault, cause_illegal_inst,
  cause_ecall_smode, sbi_set_timer_id,
}
use zephyr_riscv_test_suite.PageTable.{Memory, store, entry, pt_walk, Place}
use zephyr_riscv_test_suite.Console.{uart_puts, uart_put_hex, uart_put_dec, newline}
use zephyr_riscv_test_suite.Machine.{Machine, TrapState, csrc, send}
use zephyr_riscv_test_suite.MTrap.{
  Resumption, resume, panicked, is_interrupt, cause_code, ecall, never,
}
use zephyr_riscv_test_suite.Verdict.{Outcome, returned, stopped, test_fail}

-- A 16-bit load from an even address, in little-endian order.
unfoldable pub load_u16 : Memory → ℕ → ℕ
load_u16 mem a = mem (a / 8 * 8) / 2 ^ (8 * (a % 8)) % 2 ^ 16

-- What every trap records first.
unfoldable pub record_trap : ℕ → ℕ → ℕ → TrapState → TrapState
record_trap scause stval sepc t = record t {
  scause = scause;
  stval = stval;
  sepc = sepc;
  fault_count = t.fault_count + 1;
}

-- `frame[30]`, from which the trap's return takes the address to resume at.
abbrev pub sepc_slot : ℕ → ℕ
sepc_slot frame = entry frame 30

abbrev pub store_mem : ℕ → ℕ → Machine → Machine
store_mem a v m = record m { tables = record m.tables { mem = store m.tables.mem a v } }

-- The flags that the handler adds to the entry of a page that faulted.
unfoldable pub fix_entry : ℕ → ℕ → ℕ
fix_entry code pte =
    let fixed = pte ∣∣ (pte_v ∣∣ pte_a ∣∣ pte_d) in
    if code == cause_load_page_fault
    then fixed ∣∣ pte_r
    else if code == cause_store_page_fault
    then fixed ∣∣ (pte_r ∣∣ pte_w)
    else if code == cause_inst_page_fault
    then fixed ∣∣ (pte_r ∣∣ pte_x)
    else fixed

-- The root table that satp names.
unfoldable pub satp_root : ℕ → ℕ
satp_root satp = (satp & 0x00000FFFFFFFFFFF) << pgshift

unfoldable pub fix_page : ℕ → ℕ → Machine → Outcome
fix_page code stval m =
    let w = pt_walk m.tables.mem (satp_root m.satp) stval in
    let pte = m.tables.mem w.at in
    let fixed = fix_entry code pte in
    if w.at == 0
    then test_fail 200 m
    else returned (
        send
          (uart_puts (codes "  [TRAP] PTE before fix: ")
            ++ uart_put_hex pte
            ++ newline ∷ []
            ++ uart_puts (codes "  [TRAP] PTE after fix:  ")
            ++ uart_put_hex fixed
            ++ newline ∷ [])
          (store_mem w.at fixed m))

-- Skip the faulting instruction: 4 bytes long if its two low bits are set, else 2.
unfoldable pub skip_insn : ℕ → ℕ → ℕ → Machine → Outcome
skip_insn code sepc frame m =
    if code == cause_inst_page_fault
    then test_fail 201 (
        send
          (uart_puts (codes "  [TRAP] ERROR: skip unsupported for ifetch faults" ++ newline ∷ []))
          m)
    else (let insn_lo = load_u16 m.tables.mem sepc in
        let insn_len = if (insn_lo & 0x3) == 0x3 then 4 else 2 in
        returned (store_mem (sepc_slot frame) (u64 (sepc + insn_len)) m))

unfoldable pub page_fault : ℕ → ℕ → ℕ → ℕ → Machine → Outcome
page_fault code stval sepc frame m =
    let said =
      send
        (uart_puts (codes "  [TRAP] Page fault: cause=")
          ++ uart_put_dec (u32 code)
          ++ uart_puts (codes " stval=")
          ++ uart_put_hex stval
          ++ uart_puts (codes " sepc=")
          ++ uart_put_hex sepc
          ++ newline ∷ [])
        m in
    if m.trap.handler_action == 1 then skip_insn code sepc frame said else fix_page code stval said

-- The program counter of the handler's own ecall is the linker's, hence a parameter.
module _ (ecall_pc : ℕ) where
  abbrev resumed : Resumption → Outcome
  resumed (resume pc m) = returned m
  resumed (panicked m) = stopped m

  -- Clear STIP through the SBI: no timer interrupt any more.
  unfoldable pub timer_interrupt : Machine → Outcome
  timer_interrupt m = resumed (
      ecall sbi_set_timer_id never ecall_pc
        (record m { trap = record m.trap { timer_irq_count = m.trap.timer_irq_count + 1 } }))

  unfoldable pub soft_interrupt : Machine → Outcome
  soft_interrupt m = returned (record m {
    trap = record m.trap { soft_irq_count = m.trap.soft_irq_count + 1 };
    mip = csrc m.mip mip_ssip;
  })

  unfoldable pub interrupt : ℕ → ℕ → Machine → Outcome
  interrupt scause code m =
      let counted = record m {
        trap = record m.trap { irq_count = m.trap.irq_count + 1; last_irq_cause = scause };
      } in
      if code == irq_s_timer
      then timer_interrupt counted
      else if code == irq_s_soft
      then soft_interrupt counted
      else if code == irq_s_ext
      then returned counted
      else test_fail (u32 (100 + code)) (
          send
            (uart_puts (codes "UNEXPECTED S-MODE INTERRUPT: cause=")
              ++ uart_put_hex scause
              ++ newline ∷ [])
            counted)

  unfoldable pub exception : ℕ → ℕ → ℕ → ℕ → Machine → Outcome
  exception code stval sepc frame m =
      if code == cause_inst_page_fault
        || code == cause_load_page_fault
        || code == cause_store_page_fault
      then page_fault code stval sepc frame m
      else if code == cause_illegal_inst
      then test_fail 300 (
          send
            (uart_puts (codes "  [TRAP] Illegal instruction at sepc=")
              ++ uart_put_hex sepc
              ++ newline ∷ [])
            m)
      else if code == cause_ecall_smode
      then returned (
          store_mem (sepc_slot frame) (u64 (sepc + 4)) (
            send
              (uart_puts (codes "  [TRAP] ecall from S-mode at sepc=")
                ++ uart_put_hex sepc
                ++ newline ∷ [])
              m))
      else test_fail (u32 (400 + code)) (
          send
            (uart_puts (codes "  [TRAP] Unexpected exception: cause=")
              ++ uart_put_dec (u32 code)
              ++ uart_puts (codes " stval=")
              ++ uart_put_hex stval
              ++ newline ∷ [])
            m)

  unfoldable pub s_trap_handler : ℕ → ℕ → ℕ → ℕ → Machine → Outcome
  s_trap_handler scause stval sepc frame m =
      let seen = record m { trap = record_trap scause stval sepc m.trap } in
      let code = cause_code scause in
      if is_interrupt scause
      then interrupt scause code seen
      else exception code stval sepc frame seen
