-- ===== src/Verdict.antt =====
-- The verdict of a run: `test_pass`, `test_fail` and `test_assert` of baremetal/common/smode.c, with
-- the finisher words of QEMU's test device, and the HTIF words that the original suite writes
-- instead (rv64gcv-baremetal-testsuite-main/common/smode.c).
pub mod Words
use zephyr_riscv_test_suite.Prelude.{
  ℕ, ◌+◌, ◌-◌, ◌*◌, ◌/◌, ◌%◌, ◌^◌, List, [], ◌∷◌, ◌++◌, some, Bool, true, false, ◌==◌, ltb,
  if◌then◌else◌, codes,
}
use zephyr_riscv_test_suite.Word.{u32, ◌∣∣◌}
use zephyr_riscv_test_suite.Console.{uart_puts, uart_put_dec, newline}
use zephyr_riscv_test_suite.Machine.{Machine, send}

-- A routine returns, or it has ended in the wait loop behind a verdict.
pub data Outcome : Type 0 where
  returned : Machine → Outcome
  stopped : Machine → Outcome

abbrev pub final : Outcome → Machine
final (returned m) = m
final (stopped m) = m

abbrev pub returns : Outcome → Bool
returns (returned m) = true
returns (stopped m) = false

infixl 5 ◌>>=◌
abbrev pub ◌>>=◌ : Outcome → (Machine → Outcome) → Outcome
returned m >>= f = f m
stopped m >>= f = stopped m

abbrev pub qemu_finish_pass : ℕ
qemu_finish_pass = 0x5555

abbrev pub qemu_finish_fail : ℕ
qemu_finish_fail = 0x3333

unfoldable pub qemu_test_exit : ℕ → Machine → Outcome
qemu_test_exit value m = stopped (record m { verdict = some value })

-- The finisher word for a failure; `code` is the bit pattern of an `int`.
unfoldable pub fail_word : ℕ → ℕ
fail_word code = qemu_finish_fail ∣∣ u32 (u32 code * 2 ^ 16)

unfoldable pub test_pass : Machine → Outcome
unfolding qemu_test_exit
test_pass m = qemu_test_exit qemu_finish_pass (send (uart_puts (codes "[PASS]" ++ newline ∷ [])) m)

unfoldable pub test_fail : ℕ → Machine → Outcome
unfolding qemu_test_exit
test_fail code m =
    qemu_test_exit (fail_word code)
      (send (uart_puts (codes "[FAIL] code=") ++ uart_put_dec code ++ newline ∷ []) m)

unfoldable pub test_assert : Bool → List ℕ → ℕ → Machine → Outcome
unfolding test_fail
test_assert condition msg fail_code m =
    if condition
    then returned m
    else test_fail fail_code
        (send (uart_puts (codes "ASSERT FAILED: ") ++ uart_puts msg ++ newline ∷ []) m)

-- `htif_write(1)` and `htif_write((code << 1) | 1)`: the argument is an `int`, and is extended with
-- its sign.
abbrev pub htif_pass : ℕ
htif_pass = 1

unfoldable pub htif_fail_word : ℕ → ℕ
htif_fail_word code =
    let w = u32 (code * 2) ∣∣ 1 in if ltb w (2 ^ 31) then w else w + (2 ^ 64 - 2 ^ 32)

-- `s_mode_entry`: the test's result decides. The test itself is an argument: it ends by itself, or
-- returns its result.
pub data TestRun : Type 0 where
  result : ℕ → Machine → TestRun
  ended : Machine → TestRun

abbrev finish : TestRun → Outcome
finish (ended m) = stopped m
finish (result r m) = if r == 0 then test_pass m else test_fail r m

unfoldable pub s_mode_entry : ℕ → (Machine → TestRun) → Machine → Outcome
unfolding test_pass test_fail
s_mode_entry s_trap_vector test_main m = finish (
    test_main (
      send (uart_puts (newline ∷ codes "=== S-mode entry, stvec set ===" ++ newline ∷ []))
        (record m { stvec = s_trap_vector })))
