-- ===== src/Console/Numbers.antt =====
-- The printed numbers read back: `uart_put_hex` and `uart_put_dec` lose nothing.
use native.Mathlib.Nat.{
  pow-suc, div-add-mod, mod-lt, mod-eq_of_lt, add-mul-mod_self_left, one-le-pow,
}
use zephyr_riscv_test_suite.Prelude.{
  ℕ, zero, suc, ◌+◌, ◌-◌, ◌*◌, ◌/◌, ◌%◌, ◌^◌, ◌<◌, ◌≤◌, ◌≡◌, ◌≢◌, refl, ap, ◌∙◌, arith, List, [],
  ◌∷◌, ◌++◌, ◌==◌, if◌then◌else◌, Option, none, some, codes, length, get_or, ltb, leb, ◌&&◌, true,
  false, Bool-cases, inl, inr, Bool-cases, inl, inr,
}
use zephyr_riscv_test_suite.Word.Bits.{and-mask}
use zephyr_riscv_test_suite.Console.{hex, hex_loop, uart_put_hex, dec_loop, uart_put_dec}

-- A digit of base 16, in lower case.
digit_value : ℕ → Option ℕ
digit_value c =
    if leb b'0' c && leb c b'9'
    then some (c - b'0')
    else if leb b'a' c && leb c b'f'
    then some (c - b'a' + 10)
    else none

-- The number that a text in base `b` stands for, after the digits already read.
pub read_digits : ℕ → ℕ → List ℕ → Option ℕ
read_digits b acc [] = some acc
read_digits b acc (c ∷ s) = elim (digit_value c) [
  | none ↦ none
  | some d ↦ read_digits b (acc * b + d) s
]

digit_value-hex : (d : ℕ) → d < 16 → digit_value (get_or hex d 0) ≡ some d
unfolding digit_value
digit_value-hex zero h = refl
digit_value-hex (suc zero) h = refl
digit_value-hex (suc (suc zero)) h = refl
digit_value-hex (suc (suc (suc zero))) h = refl
digit_value-hex (suc (suc (suc (suc zero)))) h = refl
digit_value-hex (suc (suc (suc (suc (suc zero))))) h = refl
digit_value-hex (suc (suc (suc (suc (suc (suc zero)))))) h = refl
digit_value-hex (suc (suc (suc (suc (suc (suc (suc zero))))))) h = refl
digit_value-hex (suc (suc (suc (suc (suc (suc (suc (suc zero)))))))) h = refl
digit_value-hex (suc (suc (suc (suc (suc (suc (suc (suc (suc zero))))))))) h = refl
digit_value-hex (suc (suc (suc (suc (suc (suc (suc (suc (suc (suc zero)))))))))) h = refl
digit_value-hex (suc (suc (suc (suc (suc (suc (suc (suc (suc (suc (suc zero))))))))))) h = refl
digit_value-hex (suc (suc (suc (suc (suc (suc (suc (suc (suc (suc (suc (suc zero)))))))))))) h =
    refl
digit_value-hex (suc (suc (suc (suc (suc (suc (suc (suc (suc (suc (suc (suc (suc zero)))))))))))))
      h =
    refl
digit_value-hex
      (suc (suc (suc (suc (suc (suc (suc (suc (suc (suc (suc (suc (suc (suc zero)))))))))))))) h =
    refl
digit_value-hex
      (suc (suc (suc (suc (suc (suc (suc (suc (suc (suc (suc (suc (suc (suc (suc zero)))))))))))))))
      h =
    refl
digit_value-hex
      (suc
        (suc (suc (suc (suc (suc (suc (suc (suc (suc (suc (suc (suc (suc (suc (suc d))))))))))))))))
      h =
    absurd (omega arith)

digit_value-dec : (d : ℕ) → d < 10 → digit_value (b'0' + d) ≡ some d
unfolding digit_value
digit_value-dec d h = ground arith

read_digits-cons :
    (b acc c d : ℕ) (s : List ℕ)
    → digit_value c ≡ some d
    → read_digits b acc (c ∷ s) ≡ read_digits b (acc * b + d) s
unfolding read_digits
read_digits-cons b acc c d s h = rw (h, read_digits) refl

mod-split : (v p : ℕ) → 0 < p → v % (16 * p) ≡ v / p % 16 * p + v % p
mod-split v p h =
    let whole : v ≡ v / p % 16 * p + v % p + 16 * p * (v / p / 16) =
      omega (arith, div-add-mod v p, ap (λ (t : ℕ). t * p) (div-add-mod (v / p) 16)) in
    let small : v / p % 16 * p + v % p < 16 * p = grind (arith, mod-lt v h) in
    ap (λ (t : ℕ). t % (16 * p)) whole
    ∙ add-mul-mod_self_left (v / p % 16 * p + v % p) (16 * p) (v / p / 16)
    ∙ mod-eq_of_lt small

pow-four : (k : ℕ) → 2 ^ (4 * suc k) ≡ 16 * 2 ^ (4 * k)
pow-four k =
    let m = 4 * k in
    let e : 4 * suc k ≡ suc (suc (suc (suc m))) = omega arith in
    rw e (
      omega (
        arith,
        pow-suc 2 m,
        pow-suc 2 (suc m),
        pow-suc 2 (suc (suc m)),
        pow-suc 2 (suc (suc (suc m))),
      ))

read-hex_loop :
    (k acc val : ℕ)
    → read_digits 16 acc (hex_loop k val) ≡ some (acc * 2 ^ (4 * k) + val % 2 ^ (4 * k))
unfolding read_digits hex_loop
read-hex_loop zero acc val = ap some (omega arith)
read-hex_loop (suc k) acc val =
    let p = 2 ^ (4 * k) in
    rw (and-mask 4 (val / p)) (
      read_digits-cons 16 acc (get_or hex (val / p % 16) 0) (val / p % 16) (hex_loop k val)
        (digit_value-hex (val / p % 16) (omega arith))
      ∙ read-hex_loop k (acc * 16 + val / p % 16) val
      ∙ ap some
          (rw (pow-four k, mod-split val p (one-le-pow (4 * k) 2 (omega arith))) (omega arith)))

length-hex_loop : (k val : ℕ) → length (hex_loop k val) ≡ k
unfolding hex_loop
length-hex_loop zero val = refl
length-hex_loop (suc k) val = ap suc (length-hex_loop k val)

-- `uart_put_hex` of a 64-bit number sends `0x` and 16 digits, which read back as the number.
pub uart_put_hex_lem :
    (val : ℕ)
    → val < 2 ^ 64
    → (digits : List ℕ) × (uart_put_hex val ≡ codes "0x" ++ digits)
      × (length digits ≡ 16)
      × (read_digits 16 0 digits ≡ some val)
unfolding uart_put_hex
uart_put_hex_lem val h =
    (hex_loop 16 val, refl, length-hex_loop 16 val, read-hex_loop 16 0 val ∙ ap some (omega arith))

dec_loop-suc :
    (fuel val : ℕ) (buf : List ℕ)
    → dec_loop (suc fuel) val buf ≡ (
        if val / 10 == 0
        then some ((b'0' + val % 10) ∷ buf)
        else dec_loop fuel (val / 10) ((b'0' + val % 10) ∷ buf))
unfolding dec_loop
dec_loop-suc fuel val buf = refl

read-digit :
    (acc val : ℕ) (buf : List ℕ)
    → read_digits 10 acc ((b'0' + val % 10) ∷ buf) ≡ read_digits 10 (acc * 10 + val % 10) buf
read-digit acc val buf =
    read_digits-cons 10 acc (b'0' + val % 10) (val % 10) buf
      (digit_value-dec (val % 10) (omega arith))

-- `out` prints `val` in front of the digits in `buf`.
record Prints (fuel val : ℕ) (buf : List ℕ) : Type 0 where
  out : List ℕ
  returns : dec_loop fuel val buf ≡ some out
  short : length out ≤ length buf + fuel
  some_digit : 0 < length out
  reads : read_digits 10 0 out ≡ read_digits 10 val buf

dec_last : (fuel val : ℕ) (buf : List ℕ) → (val / 10 == 0) ≡ true → Prints (suc fuel) val buf
dec_last fuel val buf last =
    let small : val % 10 ≡ val = ground arith in
    record {
      out = (b'0' + val % 10) ∷ buf;
      returns = dec_loop-suc fuel val buf ∙ rw last refl;
      short = omega arith;
      some_digit = omega arith;
      reads = read-digit 0 val buf ∙ ap (λ (t : ℕ). read_digits 10 t buf) (omega arith);
    }

-- The loop ends, if the number has at most as many digits as the fuel.
dec_loop-Prints : (fuel val : ℕ) (buf : List ℕ) → val < 10 ^ suc fuel → Prints (suc fuel) val buf
dec_loop-Prints zero val buf h = dec_last zero val buf (ground arith)
dec_loop-Prints (suc fuel) val buf h = elim (Bool-cases (val / 10 == 0)) [
  | inl last ↦ dec_last (suc fuel) val buf last
  | inr more ↦
      let r =
        dec_loop-Prints fuel (val / 10) ((b'0' + val % 10) ∷ buf)
          (omega (arith, pow-suc 10 (suc fuel))) in
      record {
        out = r.out;
        returns = dec_loop-suc (suc fuel) val buf ∙ rw more r.returns;
        short = omega (arith, r.short);
        some_digit = r.some_digit;
        reads =
            r.reads
            ∙ read-digit (val / 10) val buf
            ∙ ap (λ (t : ℕ). read_digits 10 t buf) (omega arith);
      }
]

-- What `uart_put_dec` sends for an `int` from 0 up reads back as the number, and needs at most 10
-- of the 20 bytes of its buffer.
pub uart_put_dec_lem :
    (val : ℕ)
    → val < 2 ^ 31
    → (0 < length (uart_put_dec val))
      × (length (uart_put_dec val) ≤ 10)
      × (read_digits 10 0 (uart_put_dec val) ≡ some val)
unfolding uart_put_dec read_digits
uart_put_dec_lem val h =
    let r = dec_loop-Prints 9 val [] (omega arith) in
    let pos : ltb val (2 ^ 31) ≡ true = ground arith in
    rw (pos, r.returns) (r.some_digit, omega (arith, r.short), r.reads)

uart_put_dec_negative :
    (magnitude : ℕ)
    → 0 < magnitude
    → magnitude < 2 ^ 31
    → uart_put_dec (2 ^ 32 - magnitude) ≡ b'-' ∷ uart_put_dec magnitude
unfolding uart_put_dec
uart_put_dec_negative magnitude h k =
    let neg : ltb (2 ^ 32 - magnitude) (2 ^ 31) ≡ false = ground arith in
    let back : 2 ^ 32 - (2 ^ 32 - magnitude) ≡ magnitude = omega arith in
    let pos : ltb magnitude (2 ^ 31) ≡ true = ground arith in rw (neg, back, pos) refl

negate : Option ℕ → Option ℕ
negate none = none
negate (some m) = some (2 ^ 32 - m)

-- The bit pattern of the `int` that a text stands for.
pub read_int : List ℕ → Option ℕ
read_int [] = none
read_int (c ∷ s) = if c == b'-' then negate (read_digits 10 0 s) else read_digits 10 0 (c ∷ s)

read_int-digits :
    (s : List ℕ) {v : ℕ} → 0 < length s → read_digits 10 0 s ≡ some v → read_int s ≡ some v
unfolding read_int
read_int-digits [] h e = absurd (omega arith)
read_int-digits (c ∷ s) h e = elim (Bool-cases (c == b'-')) [
  | inl minus ↦
      let same : c ≡ b'-' = ground arith in
      let stuck : read_digits 10 0 (b'-' ∷ s) ≡ none = unfold read_digits digit_value in refl in
      absurd (ground (arith, stuck, rw same at e))
  | inr plain ↦ rw plain e
]

-- What `uart_put_dec` sends for a 32-bit `int` other than INT_MIN reads back as that `int`.
pub read_int-uart_put_dec :
    (val : ℕ) → val < 2 ^ 32 → val ≢ 2 ^ 31 → read_int (uart_put_dec val) ≡ some val
unfolding read_int negate
read_int-uart_put_dec val h ne = elim (Bool-cases (ltb val (2 ^ 31))) [
  | inl pos ↦
      let l = uart_put_dec_lem val (ground arith) in read_int-digits (uart_put_dec val) l.0 l.2
  | inr neg ↦
      let m = 2 ^ 32 - val in
      let back : 2 ^ 32 - m ≡ val = omega arith in
      let big : 2 ^ 31 ≤ val = ground arith in
      let l = uart_put_dec_lem m (omega arith) in
      rw (← back)
        (ap read_int (uart_put_dec_negative m (omega arith) (omega arith)) ∙ ap negate l.2)
]
