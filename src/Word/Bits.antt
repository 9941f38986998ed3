-- ===== src/Word/Bits.antt =====
-- Laws of `&` and `|` at variables: the lowest digit, what is above the low digits, low masks.
use Prim.Native.Nat.{digits, bit_and-bitwise, bit_or-bitwise}
use native.Mathlib.Nat.{pow-suc, one-le-pow, div-div-eq-div-mul}
use zephyr_riscv_test_suite.Prelude.{
  ℕ, zero, suc, ◌+◌, ◌-◌, ◌*◌, ◌/◌, ◌%◌, ◌^◌, ◌≤◌, ◌<◌, min, max, bit_and, bit_or, ◌≡◌, refl, ap,
  ap₂, ◌∙◌, sym, arith,
}

module _ (rest : ℕ → ℕ) (op : ℕ → ℕ → ℕ) where
  -- Any two counts of digits to go give one result, if both reach the end of the first number.
  digits-count : (a n m b : ℕ) → a ≤ n → a ≤ m → digits rest op n a b ≡ digits rest op m a b
  digits-count a zero zero b p q = refl
  digits-count zero zero (suc m) b p q = refl
  digits-count (suc a) zero (suc m) b p q = absurd (omega arith)
  digits-count zero (suc n) zero b p q = refl
  digits-count (suc a) (suc n) zero b p q = absurd (omega arith)
  digits-count zero (suc n) (suc m) b p q = refl
  digits-count (suc a) (suc n) (suc m) b p q =
      ap (λ (t : ℕ). t * 2 + op (suc a % 2) (b % 2))
        (digits-count (suc a / 2) n m (b / 2) (omega arith) (omega arith))

-- The lowest digit of `a | b`, and the rest.
pub or-digit : (a b : ℕ) → bit_or a b ≡ 2 * bit_or (a / 2) (b / 2) + max (a % 2) (b % 2)
or-digit zero b = omega (arith, bit_or-bitwise 0 b, bit_or-bitwise 0 (b / 2))
or-digit (suc a) b = omega (
  arith,
  bit_or-bitwise (suc a) b,
  bit_or-bitwise (suc a / 2) (b / 2),
  digits-count (λ y. y) max (suc a / 2) a (suc a / 2) (b / 2) (omega arith) (omega arith),
)

-- The lowest digit of `a & b`, and the rest.
pub and-digit : (a b : ℕ) → bit_and a b ≡ 2 * bit_and (a / 2) (b / 2) + min (a % 2) (b % 2)
and-digit zero b = omega (arith, bit_and-bitwise 0 b, bit_and-bitwise 0 (b / 2))
and-digit (suc a) b = omega (
  arith,
  bit_and-bitwise (suc a) b,
  bit_and-bitwise (suc a / 2) (b / 2),
  digits-count (λ y. 0) min (suc a / 2) a (suc a / 2) (b / 2) (omega arith) (omega arith),
)

or-zero_below : (n a : ℕ) → a ≤ n → bit_or a 0 ≡ a
or-zero_below n zero h = refl
or-zero_below zero (suc a) h = absurd (omega arith)
or-zero_below (suc n) (suc a) h =
    omega (arith, or-digit (suc a) 0, or-zero_below n (suc a / 2) (omega arith))

pub or-zero : (a : ℕ) → bit_or a 0 ≡ a
or-zero a = or-zero_below a a (omega arith)

or-comm_below : (n a b : ℕ) → a ≤ n → bit_or a b ≡ bit_or b a
or-comm_below n zero b h = omega (arith, bit_or-bitwise 0 b, or-zero b)
or-comm_below zero (suc a) b h = absurd (omega arith)
or-comm_below (suc n) (suc a) b h = omega (
  arith,
  or-digit (suc a) b,
  or-digit b (suc a),
  or-comm_below n (suc a / 2) (b / 2) (omega arith),
)

pub or_comm : (a b : ℕ) → bit_or a b ≡ bit_or b a
or_comm a b = or-comm_below a a b (omega arith)

and-zero_below : (n a : ℕ) → a ≤ n → bit_and a 0 ≡ 0
and-zero_below n zero h = refl
and-zero_below zero (suc a) h = absurd (omega arith)
and-zero_below (suc n) (suc a) h =
    omega (arith, and-digit (suc a) 0, and-zero_below n (suc a / 2) (omega arith))

pub and-zero : (a : ℕ) → bit_and a 0 ≡ 0
and-zero a = and-zero_below a a (omega arith)

pow-half : (k a : ℕ) → a / 2 ^ suc k ≡ a / 2 ^ k / 2
pow-half k a = ap (λ (t : ℕ). a / t) (pow-suc 2 k) ∙ sym (div-div-eq-div-mul a (2 ^ k) 2)

pow-twice : (k q : ℕ) → q * 2 ^ suc k ≡ 2 * (q * 2 ^ k)
pow-twice k q = omega (arith, ap (λ (t : ℕ). q * t) (pow-suc 2 k))

over_one : (a : ℕ) → a / 2 ^ 0 ≡ a
over_one a = omega arith

-- Above the lowest `k` digits, `|` is the `|` of what stands there.
pub or-high : (k a b : ℕ) → bit_or a b / 2 ^ k ≡ bit_or (a / 2 ^ k) (b / 2 ^ k)
or-high zero a b = over_one (bit_or a b) ∙ sym (ap₂ bit_or (over_one a) (over_one b))
or-high (suc k) a b =
    pow-half k (bit_or a b)
    ∙ ap (λ (t : ℕ). t / 2) (or-high k a b)
    ∙ omega (arith, or-digit (a / 2 ^ k) (b / 2 ^ k))
    ∙ sym (ap₂ bit_or (pow-half k a) (pow-half k b))

pub and-high : (k a b : ℕ) → bit_and a b / 2 ^ k ≡ bit_and (a / 2 ^ k) (b / 2 ^ k)
and-high zero a b = over_one (bit_and a b) ∙ sym (ap₂ bit_and (over_one a) (over_one b))
and-high (suc k) a b =
    pow-half k (bit_and a b)
    ∙ ap (λ (t : ℕ). t / 2) (and-high k a b)
    ∙ omega (arith, and-digit (a / 2 ^ k) (b / 2 ^ k))
    ∙ sym (ap₂ bit_and (pow-half k a) (pow-half k b))

-- `a | b` is a sum, if `a` is a multiple of `2 ^ k` and `b` is below it.
pub or-add : (k q r : ℕ) → r < 2 ^ k → bit_or (q * 2 ^ k) r ≡ q * 2 ^ k + r
or-add zero q zero h = omega (arith, or-zero (q * 1))
or-add zero q (suc r) h = absurd (omega arith)
or-add (suc k) q r h = ground (
  arith,
  or-digit (q * 2 ^ suc k) r,
  pow-twice k q,
  pow-suc 2 k,
  or-add k q (r / 2) (omega (arith, pow-suc 2 k)),
)

-- `|` of two numbers of `k` digits has `k` digits, and leaves what is above them alone.
pub or-lt : (k r s : ℕ) → r < 2 ^ k → s < 2 ^ k → bit_or r s < 2 ^ k
or-lt zero zero s h h' = omega (arith, bit_or-bitwise 0 s)
or-lt zero (suc r) s h h' = absurd (omega arith)
or-lt (suc k) r s h h' = omega (
  arith,
  or-digit r s,
  pow-suc 2 k,
  or-lt k (r / 2) (s / 2) (omega (arith, pow-suc 2 k)) (omega (arith, pow-suc 2 k)),
)

pub or-low :
    (k q r s : ℕ) → r < 2 ^ k → s < 2 ^ k → bit_or (q * 2 ^ k + r) s ≡ q * 2 ^ k + bit_or r s
or-low zero q zero zero h h' = omega (arith, or-zero (q * 1 + 0))
or-low zero q zero (suc s) h h' = absurd (omega arith)
or-low zero q (suc r) s h h' = absurd (omega arith)
or-low (suc k) q r s h h' = ground (
  arith,
  or-digit (q * 2 ^ suc k + r) s,
  or-digit r s,
  pow-twice k q,
  pow-suc 2 k,
  or-low k q (r / 2) (s / 2) (omega (arith, pow-suc 2 k)) (omega (arith, pow-suc 2 k)),
)

and-low : (k q r : ℕ) → r < 2 ^ k → bit_and (q * 2 ^ k + r) (2 ^ k - 1) ≡ r
and-low zero q r h = omega (arith, and-zero (q * 1 + r))
and-low (suc k) q r h = ground (
  arith,
  and-digit (q * 2 ^ suc k + r) (2 ^ suc k - 1),
  pow-twice k q,
  pow-suc 2 k,
  one-le-pow k 2,
  and-low k q (r / 2) (omega (arith, pow-suc 2 k)),
)

-- A mask of `k` ones is the remainder by `2 ^ k`.
pub and-mask : (k a : ℕ) → bit_and a (2 ^ k - 1) ≡ a % 2 ^ k
and-mask k a = ground (arith, one-le-pow k 2, and-low k (a / 2 ^ k) (a % 2 ^ k))

and-le_below : (n a b : ℕ) → a ≤ n → bit_and a b ≤ a
and-le_below n zero b h = omega (arith, bit_and-bitwise 0 b)
and-le_below zero (suc a) b h = absurd (omega arith)
and-le_below (suc n) (suc a) b h =
    ground (arith, and-digit (suc a) b, and-le_below n (suc a / 2) (b / 2) (omega arith))

pub and-le : (a b : ℕ) → bit_and a b ≤ a
and-le a b = and-le_below a a b (omega arith)
