-- ===== src/Zephyr.antt =====
-- The suite for Zephyr in zephyr-suite: tests that report through ztest. A failed `zassert_equal` ends
-- its test with the message, as ztest documents; what it prints is not modelled.
pub mod Atomics
pub mod Fixups
pub mod Board
pub mod FaultGen
pub mod FaultHandle
pub mod Tlb
pub mod Enable
pub mod Basics
pub mod Cores
use Prim.Native.String.{String}
use zephyr_riscv_test_suite.Prelude.{
  ℕ, Bool, true, false, not, ◌==◌, ◌≡◌, ◌&&◌, if◌then◌else◌, List, [], ◌∷◌,
}

pub data Test {ℓ} (A : Type ℓ) : Type ℓ where
  passed : A → Test A
  failed : String → Test A

infixl 5 ◌>>=◌ ◌>>◌
abbrev pub ◌>>=◌ {ℓ κ} : {A : Type ℓ} {B : Type κ} → Test A → (A → Test B) → Test B
◌>>=◌ (passed a) f = f a
◌>>=◌ (failed msg) f = failed msg

abbrev pub ◌>>◌ {ℓ} : {B : Type ℓ} → Test (Unit {0}) → Test B → Test B
◌>>◌ t k = t >>= (λ _. k)

abbrev pub zassert_true : Bool → String → Test (Unit {0})
zassert_true condition msg = if condition then passed tt else failed msg

abbrev pub zassert_false : Bool → String → Test (Unit {0})
zassert_false condition msg = zassert_true (not condition) msg

abbrev pub zassert_equal : ℕ → ℕ → String → Test (Unit {0})
zassert_equal a b msg = zassert_true (a == b) msg

-- The tests of a suite run one after the other, each whatever became of the others.
abbrev pub all_passed : List (Test (Unit {0})) → Bool
all_passed [] = true
all_passed (passed tt ∷ rest) = all_passed rest
all_passed (failed msg ∷ rest) = false
