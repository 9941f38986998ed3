-- ===== src/Console/Uart.antt =====
-- The polling loop of `uart_putc`. The device is a parameter: what each read of its line status
-- register returns.
use zephyr_riscv_test_suite.Prelude.{
  ℕ, zero, suc, ◌+◌, ◌%◌, ◌^◌, ◌<◌, ◌≡◌, refl, arith, List, [], ◌∷◌, ◌++◌, ◌==◌, if◌then◌else◌,
  Option, none, some, Bool, true, false, not,
}
use zephyr_riscv_test_suite.Word.{◌&◌}

-- UART0_LSR_THRE.
abbrev uart0_lsr_thre : ℕ
uart0_lsr_thre = 2 ^ 5

pub record Uart : Type 0 where
  pub reads : ℕ  -- how often the status was read
  pub sent : List ℕ  -- the bytes written to the transmit register

module _ (lsr : ℕ → ℕ) where
  abbrev pub ready : ℕ → Bool
  ready n = not (lsr n & uart0_lsr_thre == 0)

  -- `while ((*lsr & UART0_LSR_THRE) == 0) ;` then `*thr = (unsigned char)c`.
  unfoldable pub uart_putc : ℕ → ℕ → Uart → Option Uart
  uart_putc zero c u = none
  uart_putc (suc fuel) c u =
      let again = uart_putc fuel c (record u { reads = u.reads + 1 }) in
      if ready u.reads
      then some (record { reads = u.reads + 1; sent = u.sent ++ c % 256 ∷ [] })
      else again

  -- If the device first reports room at read `n`, `uart_putc` reads up to that one and sends its
  -- byte, once, after all that was sent before.
  pub uart_putc_lem :
      (wait : ℕ) (c : ℕ) (u : Uart)
      → ((k : ℕ) → k < wait → ready (u.reads + k) ≡ false)
      → ready (u.reads + wait) ≡ true
      → uart_putc (suc wait) c u
        ≡ some (record { reads = u.reads + wait + 1; sent = u.sent ++ c % 256 ∷ [] })
  unfolding uart_putc
  uart_putc_lem zero c u early now =
      let start : u.reads + 0 ≡ u.reads = omega arith in
      let go : ready u.reads ≡ true = rw start at now in rw (start, go) refl
  uart_putc_lem (suc wait) c u early now =
      let start : u.reads + 0 ≡ u.reads = omega arith in
      let stop : ready u.reads ≡ false = rw start at (early 0 (omega arith)) in
      let step : (k : ℕ) → u.reads + suc k ≡ u.reads + 1 + k = λ k. omega arith in
      rw (stop, step wait)
        (uart_putc_lem wait c (record u { reads = u.reads + 1 })
          (λ k h. rw (step k) at (early (suc k) (omega arith))) (rw (step wait) at now))
