-- ===== src/Zephyr/Basics.antt =====
-- zephyr-suite/p0_sanity/src/p0_sanity.c, without an MMU: an address is a physical one. What is printed
-- is not modelled. The firmware behind an ecall and which addresses are backed are parameters.
pub mod Passing
use Prim.Native.String.{String}
use zephyr_riscv_test_suite.Prelude.{
  ℕ, zero, suc, ◌+◌, ◌-◌, ◌*◌, ◌/◌, ◌%◌, ◌^◌, Bool, true, false, not, ◌||◌, ◌==◌, if◌then◌else◌,
  List, [], ◌∷◌,
}
use zephyr_riscv_test_suite.Word.{u64, ◌∣∣◌, ◌&◌, ◌>>◌ as shift_right, complement}
use zephyr_riscv_test_suite.Zephyr.Board.{
  Board, Thread, Script, goes_on, test_passed, test_failed, bind, ◌>>=◌, ◌>>◌, pure, gets, modify,
  peek, poke, zassert_equal, zassert_unreachable,
}

abbrev pub exc_load_access : ℕ
exc_load_access = 5

-- -2, as a 64-bit word.
abbrev pub sbi_err_not_supported : ℕ
sbi_err_not_supported = 2 ^ 64 - 2

unfoldable pub k_sys_fatal_error_handler : (scause stval : ℕ) → Board → Thread (Unit {0})
k_sys_fatal_error_handler scause stval b =
    if not b.expect_fault
    then test_failed "UNEXPECTED fault" b
    else if not (scause == b.expected_scause) || not (stval == b.expected_stval)
    then test_failed "MISMATCH" (record b { expect_fault = false })
    else test_passed (record b { expect_fault = false })

abbrev pub test_uart_tx : Script (Unit {0})
test_uart_tx = pure tt

unfoldable pub test_csr_read_sstatus : Script (Unit {0})
test_csr_read_sstatus = do
  sstatus ← gets (λ b. b.sstatus)
  zassert_equal (shift_right sstatus 32 & 0x3) 2 "sstatus.UXL != 2 (RV64)"

-- What an ecall makes of a0, a1, a6 and a7: the new a0.
abbrev pub Firmware : Type 0
Firmware = (a0 a1 a6 a7 : ℕ) → Board → Thread ℕ

unfoldable pub test_ecall_smode_sbi : Firmware → Script (Unit {0})
test_ecall_smode_sbi ecall = do
  a0 ← ecall 0 0 0 0xFF
  zassert_equal a0 sbi_err_not_supported "unknown ecall, want SBI_ERR_NOT_SUPPORTED"

-- A load of a 32-bit word; without RAM or a device there it is an access fault.
unfoldable pub load32 : (ℕ → Bool) → ℕ → Script ℕ
load32 backed a b =
    if backed a
    then goes_on (b.mem a % 2 ^ 32) b
    else bind (k_sys_fatal_error_handler exc_load_access a b)
        (λ _. test_failed "returned from the fatal handler")

unfoldable pub test_trap_is_caught : (ℕ → Bool) → Script (Unit {0})
test_trap_is_caught backed = do
  modify (λ b. record b {
    expected_scause = exc_load_access;
    expected_stval = 0xC0000000;
    expect_fault = true;
  })
  _ ← load32 backed 0xC0000000
  zassert_unreachable "load from unbacked address did not trap"

abbrev pub sweep_words : ℕ
sweep_words = 1024

abbrev pub first_pattern : ℕ → ℕ
first_pattern i = u64 (0xA5A5A5A500000000 ∣∣ i)

abbrev pub second_pattern : ℕ → ℕ
second_pattern i = complement (first_pattern i)

-- The loops of the sweep with a pattern, with `left` rounds to go at round `i`.
unfoldable pub fill_buf : (pattern : ℕ → ℕ) (buf left i : ℕ) → Script (Unit {0})
fill_buf pattern buf zero i = pure tt
fill_buf pattern buf (suc left) i = do
  poke (buf + i * 8) (pattern i)
  fill_buf pattern buf left (i + 1)

unfoldable pub check_buf : (pattern : ℕ → ℕ) (buf left i : ℕ) → Script (Unit {0})
check_buf pattern buf zero i = pure tt
check_buf pattern buf (suc left) i = do
  zassert_equal (← peek (buf + i * 8)) (pattern i) "pattern mismatch"
  check_buf pattern buf left (i + 1)

unfoldable pub test_sram_rw_sweep : ℕ → Script (Unit {0})
test_sram_rw_sweep buf = do
  fill_buf first_pattern buf sweep_words 0
  check_buf first_pattern buf sweep_words 0
  fill_buf second_pattern buf sweep_words 0
  check_buf second_pattern buf sweep_words 0

unfoldable pub p0_suite : Firmware → (ℕ → Bool) → ℕ → List (Script (Unit {0}))
p0_suite ecall backed buf =
    test_uart_tx
    ∷ test_csr_read_sstatus
    ∷ test_ecall_smode_sbi ecall
    ∷ test_trap_is_caught backed
    ∷ test_sram_rw_sweep buf
    ∷ []
