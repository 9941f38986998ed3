-- ===== src/MTrap/Laws.antt =====
-- What the M-mode handler does to the state, on every branch.
use zephyr_riscv_test_suite.Prelude.{
  ℕ, ◌+◌, ◌-◌, ◌*◌, ◌/◌, ◌%◌, ◌^◌, ◌<◌, ◌≡◌, refl, arith, Bool, true, false, bit_and, ◌==◌, ◌&&◌,
  ltb, leb, ◌↔◌, if◌then◌else◌, ◌⊎◌,
}
use zephyr_riscv_test_suite.Word.{u64}
use zephyr_riscv_test_suite.Word.Bits.{and-mask, and-digit, or-add, or_comm}
use zephyr_riscv_test_suite.Machine.{Machine, csrs, csrc}
use zephyr_riscv_test_suite.Machine.Bit.{
  bit, bit-csrs, bit-csrc, stip-IsMask, mtip-IsMask, ssip-IsMask, spp-IsMask,
}
use zephyr_riscv_test_suite.MTrap.{
  Resumption, resume, panicked, is_interrupt, cause_code, forward_timer, forward_soft,
  reflect_ecall, sbi_set_timer, sbi_send_ipi, panic_word, panic, sbi_call, m_trap_handler, never,
}

-- Bit 63 marks an interrupt; the other bits are its number.
pub is_interrupt-leb : (c : ℕ) → c < 2 ^ 64 → is_interrupt c ≡ leb (2 ^ 63) c
unfolding is_interrupt
is_interrupt-leb c h = ground (arith, and-mask 1 (c / 2 ^ 63))

pub cause_code-mod : (c : ℕ) → cause_code c ≡ c % 2 ^ 63
unfolding cause_code
cause_code-mod c = and-mask 63 c

-- The causes that the handler serves: the machine timer and software interrupts, and an ecall of
-- S-mode.
abbrev pub IsServed : ℕ → Type 0
IsServed mcause = (mcause ≡ 2 ^ 63 + 7) ⊎ (mcause ≡ 2 ^ 63 + 3) ⊎ (mcause ≡ 9)

abbrev pub resumes : Resumption → Bool
resumes (resume _ _) = true
resumes (panicked _) = false

sbi_call-resumes : (a7 a0 mepc : ℕ) (m : Machine) → resumes (sbi_call a7 a0 mepc m) ≡ true
unfolding sbi_call reflect_ecall
sbi_call-resumes a7 a0 mepc m = ground arith

-- For a 64-bit cause, the handler returns exactly if the cause is one that it serves; for all
-- others it stops in the panic.
pub resumes-m_trap_handler :
    (mcause mepc mtval : ℕ) (frame : ℕ → ℕ) (m : Machine)
    → mcause < 2 ^ 64
    → (resumes (m_trap_handler mcause mepc mtval frame m) ≡ true) ↔ IsServed mcause
unfolding m_trap_handler panic
resumes-m_trap_handler mcause mepc mtval frame m h = (
  λ r. ground (arith, is_interrupt-leb mcause h, cause_code-mod mcause),
  λ r. ground (
    arith,
    is_interrupt-leb mcause h,
    cause_code-mod mcause,
    sbi_call-resumes (frame 11) (frame 4) mepc m,
  ),
)

-- The finisher word of the panic holds 0x3333 in its low half and 500 + cause, cut to 16 bits, above.
pub panic_word_lem :
    (code : ℕ)
    → (panic_word code % 2 ^ 16 ≡ 0x3333)
      × (panic_word code / 2 ^ 16 ≡ (500 + code % 2 ^ 32) % 2 ^ 16)
unfolding panic_word
panic_word_lem code =
    let high = (500 + code % 2 ^ 32) % 2 ^ 16 in
    let e : (500 + code % 2 ^ 32) % 2 ^ 32 * 2 ^ 16 % 2 ^ 32 ≡ high * 2 ^ 16 = omega arith in
    rw (e, or_comm 0x3333 (high * 2 ^ 16), or-add 16 high 0x3333 (omega arith)) (omega arith)

-- A timer request at its two ends. The call arms the timer of this hart and withdraws a pending
-- request; the interrupt disarms it and makes the supervisor's bit pending, and returns to the
-- interrupted code. Hart or bit `k`, if it is another one, does not change.
pub record TimerCycle (k mepc val : ℕ) (frame : ℕ → ℕ) (m : Machine) : Type 0 where
  pub armed : Machine
  pub fired : Machine
  pub call : m_trap_handler 9 mepc 0 frame m ≡ resume (u64 (mepc + 4)) armed
  pub fire :
      (pc : ℕ) (frame' : ℕ → ℕ) → m_trap_handler (2 ^ 63 + 7) pc 0 frame' armed ≡ resume pc fired
  pub armed_time : armed.mtimecmp k ≡ (if m.mhartid == k then val else m.mtimecmp k)
  pub armed_pending : bit k armed.mip ≡ (if k == 5 then 0 else bit k m.mip)
  pub armed_enabled : bit k armed.mie ≡ (if k == 7 then 1 else bit k m.mie)
  pub fired_time : fired.mtimecmp k ≡ (if m.mhartid == k then never else m.mtimecmp k)
  pub fired_pending : bit k fired.mip ≡ (if k == 5 then 1 else bit k m.mip)
  pub fired_enabled : bit k fired.mie ≡ (if k == 7 then 0 else bit k m.mie)

-- An ecall with the function SBI_SET_TIMER arms the timer of its hart with the time asked for,
-- enables MTIP and clears STIP; the machine timer interrupt that follows disarms it, disables MTIP
-- and sets STIP; both return, and no other bit below 64 and no other hart's timer changes.
pub set_timer-TimerCycle :
    (k mepc : ℕ) (frame : ℕ → ℕ) (m : Machine)
    → k < 64
    → frame 11 ≡ 0
    → TimerCycle k mepc (frame 4) frame m
unfolding m_trap_handler sbi_call sbi_set_timer forward_timer is_interrupt cause_code
set_timer-TimerCycle k mepc frame m lt h = record {
  armed = sbi_set_timer (frame 4) m;
  fired = forward_timer (sbi_set_timer (frame 4) m);
  call = rw h refl;
  fire = λ pc frame'. refl;
  armed_time = refl;
  armed_pending = bit-csrc 5 stip-IsMask m.mip k lt;
  armed_enabled = bit-csrs 7 mtip-IsMask m.mie k lt;
  fired_time = ground arith;
  fired_pending =
      ground (
        arith,
        bit-csrs 5 stip-IsMask (csrc m.mip (2 ^ 5)) k lt,
        bit-csrc 5 stip-IsMask m.mip k lt,
      );
  fired_enabled =
      ground (
        arith,
        bit-csrc 7 mtip-IsMask (csrs m.mie (2 ^ 7)) k lt,
        bit-csrs 7 mtip-IsMask m.mie k lt,
      );
}

-- An ecall with the function SBI_SEND_IPI returns behind the ecall; it sets the software interrupt
-- of the target, if there is such a hart, and changes nothing else.
pub send_ipi_lem :
    (k mepc : ℕ) (frame : ℕ → ℕ) (m : Machine)
    → frame 11 ≡ 1
    → (sent : Machine) × (m_trap_handler 9 mepc 0 frame m ≡ resume (u64 (mepc + 4)) sent)
      × (sent.msip k ≡ (if frame 4 == k && ltb k 2 then 1 else m.msip k))
      × (sent ≡ record m { msip = sent.msip })
unfolding m_trap_handler sbi_call sbi_send_ipi is_interrupt cause_code
send_ipi_lem k mepc frame m h = (sbi_send_ipi (frame 4) m, rw h refl, ground arith, ground arith)

-- The machine software interrupt of a hart returns to the interrupted code; it clears its own
-- request, makes the supervisor's software interrupt pending, and leaves every other pending bit
-- below 64, every other hart's request and all other state alone.
pub soft_irq_lem :
    (k pc mtval : ℕ) (frame : ℕ → ℕ) (m : Machine)
    → k < 64
    → (taken : Machine) × (m_trap_handler (2 ^ 63 + 3) pc mtval frame m ≡ resume pc taken)
      × (taken.msip k ≡ (if m.mhartid == k then 0 else m.msip k))
      × (bit k taken.mip ≡ (if k == 1 then 1 else bit k m.mip))
      × (taken ≡ record m { msip = taken.msip; mip = taken.mip })
unfolding m_trap_handler forward_soft is_interrupt cause_code
soft_irq_lem k pc mtval frame m h =
    (forward_soft m, refl, refl, bit-csrs 1 ssip-IsMask m.mip k h, refl)

round_four : (x : ℕ) → x < 2 ^ 64 → bit_and x (2 ^ 64 - 1 - 3) ≡ x / 4 * 4
round_four x h =
    omega
      (arith, and-digit x (2 ^ 64 - 1 - 3), and-digit (x / 2) (2 ^ 63 - 2), and-mask 62 (x / 2 / 2))

-- An ecall with a function above the SBI's three goes on in the supervisor's trap vector, with the
-- cause, the address and the previous privilege that the hardware would have recorded; no other bit
-- of mstatus below 64 and no other state changes.
pub reflect_lem :
    (k mepc : ℕ) (frame : ℕ → ℕ) (m : Machine)
    → k < 64
    → 2 < frame 11
    → m.stvec < 2 ^ 64
    → (seen : Machine) × (m_trap_handler 9 mepc 0 frame m ≡ resume (m.stvec / 4 * 4) seen)
      × (seen.scause ≡ 9)
      × (seen.sepc ≡ mepc)
      × (seen.stval ≡ 0)
      × (bit k seen.mstatus ≡ (if k == 8 then 1 else bit k m.mstatus))
      × (seen ≡ record m { scause = 9; sepc = mepc; stval = 0; mstatus = seen.mstatus })
unfolding m_trap_handler sbi_call reflect_ecall is_interrupt cause_code
reflect_lem k mepc frame m lt h fits = (
  record m { scause = 9; sepc = mepc; stval = 0; mstatus = csrs m.mstatus (2 ^ 8) },
  ground (arith, round_four m.stvec fits),
  refl,
  refl,
  refl,
  bit-csrs 8 spp-IsMask m.mstatus k lt,
  refl,
)
