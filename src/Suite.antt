-- ===== src/Suite.antt =====
-- How a test program runs: the macros TEST_LOG and ASSERT_EQ of
-- rv64gcv-baremetal-testsuite-main/common/test.h, and programs as functions of the machine that
-- return a value, end with a verdict, or never get on.
use Prim.Native.String.{String}
use zephyr_riscv_test_suite.Prelude.{
  ℕ, Bool, true, false, [], ◌∷◌, ◌==◌, ◌≡◌, refl, ◌∙◌, ap, arith, if◌then◌else◌, text,
}
use zephyr_riscv_test_suite.Word.{u64}
use zephyr_riscv_test_suite.Console.{uart_puts, uart_put_hex, uart_put_dec, newline}
use zephyr_riscv_test_suite.Machine.{Machine, send}
use zephyr_riscv_test_suite.Verdict.{Outcome, returned, stopped, test_fail, test_assert}

pub data Run {ℓ} (A : Type ℓ) : Type ℓ where
  done : A → Machine → Run A
  verdict : Machine → Run A
  hung : Machine → Run A

abbrev pub Script {ℓ} : Type ℓ → Type ℓ
Script A = Machine → Run A

abbrev pub bind {ℓ κ} : {A : Type ℓ} {B : Type κ} → Run A → (A → Script B) → Run B
bind (done a m) f = f a m
bind (verdict m) f = verdict m
bind (hung m) f = hung m

infixl 5 ◌>>=◌ ◌>>◌
abbrev pub ◌>>=◌ {ℓ κ} : {A : Type ℓ} {B : Type κ} → Script A → (A → Script B) → Script B
◌>>=◌ s f m = bind (s m) f

abbrev pub ◌>>◌ {ℓ} : {B : Type ℓ} → Script (Unit {0}) → Script B → Script B
◌>>◌ s k m = bind (s m) (λ _. k)

abbrev pub pure {ℓ} : {A : Type ℓ} → A → Script A
pure a m = done a m

abbrev pub gets {ℓ} : {A : Type ℓ} → (Machine → A) → Script A
gets f m = done (f m) m

abbrev pub modify : (Machine → Machine) → Script (Unit {0})
modify f m = done tt (f m)

-- A routine of the runtime, as a step of a program.
abbrev pub from_outcome : Outcome → Run (Unit {0})
from_outcome (returned m) = done tt m
from_outcome (stopped m) = verdict m

abbrev pub call : (Machine → Outcome) → Script (Unit {0})
call f m = from_outcome (f m)

-- The console, for a literal and for a number.
abbrev pub say : String → Script (Unit {0})
say s m = done tt (send (uart_puts (text s)) m)

abbrev pub say_hex : ℕ → Script (Unit {0})
say_hex v m = done tt (send (uart_put_hex v) m)

abbrev pub say_dec : ℕ → Script (Unit {0})
say_dec v m = done tt (send (uart_put_dec v) m)

abbrev pub end_line : Script (Unit {0})
end_line m = done tt (send (newline ∷ []) m)

unfoldable pub test_log : String → Script (Unit {0})
test_log msg = do say "  [TEST] "; say msg; end_line

-- The message is printed, and the run ends, if the two numbers differ as uint64_t.
unfoldable pub assert_eq : ℕ → ℕ → String → ℕ → Script (Unit {0})
assert_eq actual expected msg code m =
    let failed =
      (do
        say "  ASSERT_EQ FAILED: "
        say msg
        say "\n    actual="
        say_hex (u64 actual)
        say " expected="
        say_hex (u64 expected)
        end_line
        call (test_fail code))
        m in
    if u64 actual == u64 expected then done tt m else failed

unfoldable pub assert_that : Bool → String → ℕ → Script (Unit {0})
assert_that condition msg code = call (test_assert condition (text msg) code)

-- The three lines around a phase.
unfoldable pub banner : String → Script (Unit {0})
banner title = do
  say "\n========================================\n"
  say title
  say "========================================\n"

-- A program that has come to its end, without a verdict on the way.
abbrev pub passes {ℓ} : {A : Type ℓ} → Run A → Bool
passes (done a m) = true
passes (verdict m) = false
passes (hung m) = false

-- A test program that returns 0, which is success.
abbrev pub succeeds : Run ℕ → Bool
succeeds (done r m) = r == 0
succeeds (verdict m) = false
succeeds (hung m) = false

pub passes-bind {ℓ} :
    {A : Type ℓ} (r : Run (Unit {0})) (k : Script A)
    → passes r ≡ true
    → ((m : Machine) → passes (k m) ≡ true)
    → passes (bind r (λ _. k)) ≡ true
passes-bind (done a m) k p rest = rest m
passes-bind (verdict m) k p rest = absurd (ground arith)
passes-bind (hung m) k p rest = absurd (ground arith)

pub succeeds-bind :
    (r : Run (Unit {0})) (k : Script ℕ)
    → passes r ≡ true
    → ((m : Machine) → succeeds (k m) ≡ true)
    → succeeds (bind r (λ _. k)) ≡ true
succeeds-bind (done a m) k p rest = rest m
succeeds-bind (verdict m) k p rest = absurd (ground arith)
succeeds-bind (hung m) k p rest = absurd (ground arith)

-- A step that comes to its end leads on to the rest.
pub succeeds-step :
    (s : Script (Unit {0})) (k : Script ℕ) {m m' : Machine}
    → s m ≡ done tt m'
    → succeeds (k m') ≡ true
    → succeeds (bind (s m) (λ _. k)) ≡ true
succeeds-step s k e h = ap (λ r. succeeds (bind r (λ _. k))) e ∙ h

-- Where the rest of a program succeeds, the program does if its first part comes to its end.
pub succeeds-first :
    (r : Run (Unit {0})) (k : Script ℕ)
    → ((m : Machine) → succeeds (k m) ≡ true)
    → succeeds (bind r (λ _. k)) ≡ passes r
succeeds-first (done a m) k rest = rest m
succeeds-first (verdict m) k rest = refl
succeeds-first (hung m) k rest = refl
