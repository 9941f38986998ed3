-- ===== src/Examples/Runtime.antt =====
-- The console and the verdict at concrete inputs.
use zephyr_riscv_test_suite.Prelude.{
  ℕ, ◌-◌, ◌^◌, ◌<◌, ◌≤◌, ◌≡◌, refl, arith, some, List, [], ◌∷◌, ◌++◌, ltb, if◌then◌else◌, codes,
  length,
}
use zephyr_riscv_test_suite.Console.{uart_put_hex, uart_put_dec}
use zephyr_riscv_test_suite.Console.Numbers.{
  read_digits, read_int, uart_put_hex_lem, uart_put_dec_lem, read_int-uart_put_dec,
}
use zephyr_riscv_test_suite.Console.Uart.{uart_putc, uart_putc_lem}

uart_put_hex_lem_example :
    (digits : List ℕ) × (uart_put_hex 0xCAFE ≡ codes "0x" ++ digits)
    × (length digits ≡ 16)
    × (read_digits 16 0 digits ≡ some 0xCAFE)
uart_put_hex_lem_example = uart_put_hex_lem 0xCAFE (omega arith)

uart_put_dec_lem_example :
    (0 < length (uart_put_dec 1234))
    × (length (uart_put_dec 1234) ≤ 10)
    × (read_digits 10 0 (uart_put_dec 1234) ≡ some 1234)
uart_put_dec_lem_example = uart_put_dec_lem 1234 (omega arith)

read_int-uart_put_dec_example : read_int (uart_put_dec (2 ^ 32 - 5)) ≡ some (2 ^ 32 - 5)
read_int-uart_put_dec_example = read_int-uart_put_dec (2 ^ 32 - 5) (omega arith) (omega arith)

-- A device that is ready from its third status read on.
abbrev third : ℕ → ℕ
third n = if ltb n 2 then 0 else 32

uart_putc_lem_example :
    uart_putc third 3 65 (record { reads = 0; sent = [] })
    ≡ some (record { reads = 3; sent = 65 ∷ [] })
uart_putc_lem_example =
    uart_putc_lem third 2 65 (record { reads = 0; sent = [] }) (λ k h. ground arith) refl

abbrev code : ℕ
code = 7
