-- ===== src/Console.antt =====
-- The console of baremetal/common/smode.c (lines 23 to 71): the UART's polling loop, and the texts
-- that `uart_puts`, `uart_put_hex` and `uart_put_dec` send, as lists of bytes.
pub mod Uart
pub mod Numbers
use zephyr_riscv_test_suite.Prelude.{
  ℕ, zero, suc, ◌+◌, ◌-◌, ◌*◌, ◌/◌, ◌%◌, ◌^◌, List, [], ◌∷◌, ◌++◌, ◌==◌, ltb, if◌then◌else◌, codes,
  get_or, Option, none, some,
}
use zephyr_riscv_test_suite.Word.{◌>>◌, ◌&◌}

abbrev pub newline : ℕ
newline = 10

-- `uart_puts`: a newline is sent as CR LF, and the text ends at its first 0.
unfoldable pub uart_puts : List ℕ → List ℕ
uart_puts [] = []
uart_puts (c ∷ s) =
    let rest = uart_puts s in
    if c == 0 then [] else if c == newline then 13 ∷ c ∷ rest else c ∷ rest

abbrev pub hex : List ℕ
hex = codes "0123456789abcdef"

-- The loop of `uart_put_hex`, with `k` digits to go: `i` is `4 * (k - 1)`.
unfoldable pub hex_loop : ℕ → ℕ → List ℕ
hex_loop zero val = []
hex_loop (suc k) val = get_or hex ((val >> (4 * k)) & 0xF) 0 ∷ hex_loop k val

unfoldable pub uart_put_hex : ℕ → List ℕ
unfolding hex_loop
uart_put_hex val = codes "0x" ++ hex_loop 16 val

-- The loop of `uart_put_dec`: `buf` holds the digits written so far, the last one first, which is
-- the order in which the second loop sends them. `none` means that the fuel ran out.
unfoldable pub dec_loop : ℕ → ℕ → List ℕ → Option (List ℕ)
dec_loop zero val buf = none
dec_loop (suc fuel) val buf =
    let buf' = (b'0' + val % 10) ∷ buf in
    let rest = dec_loop fuel (val / 10) buf' in if val / 10 == 0 then some buf' else rest

-- As many digits as an `int` can have.
abbrev pub dec_fuel : ℕ
dec_fuel = 10

abbrev dec_text : Option (List ℕ) → List ℕ
dec_text none = []
dec_text (some buf) = buf

-- `uart_put_dec` on the bit pattern of an `int`. To negate INT_MIN is undefined in C; the model
-- gives its mathematical value there.
unfoldable pub uart_put_dec : ℕ → List ℕ
unfolding dec_loop
uart_put_dec val =
    if ltb val (2 ^ 31)
    then dec_text (dec_loop dec_fuel val [])
    else b'-' ∷ dec_text (dec_loop dec_fuel (2 ^ 32 - val) [])
