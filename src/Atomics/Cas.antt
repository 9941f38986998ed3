-- ===== src/Atomics/Cas.antt =====
-- LR and SC with a reservation that can be lost, and `cas_d` where it is lost some times.
use zephyr_riscv_test_suite.Prelude.{
  ℕ, zero, suc, ◌+◌, ◌^◌, ◌<◌, ◌≡◌, ◌≢◌, refl, arith, ◌==◌, ==-ne, if◌then◌else◌, some, Bool, true,
  false, not, ◌&&◌, Bool-cases, inl, inr, ◌∙◌,
}
use zephyr_riscv_test_suite.Atomics.{AtomicUnit, Word, cas_d, lr_d_aq, sc_d_rl}

-- LR loads the word and reserves it. An SC stores if the hart still has the reservation, and gives it up.
-- Without one it fails, with a code that is not 0, and leaves the word alone. A hart may lose a
-- reservation at any time; `lost n` says whether it has lost that of the SC after `n` earlier ones.
pub record IsReserving (hart : AtomicUnit) : Type 0 where
  pub lost : ℕ → Bool
  pub code : ℕ → ℕ
  pub nonzero : (n : ℕ) → code n ≢ 0
  pub word_sized : (n : ℕ) → code n < 2 ^ 64
  pub lr : (w : Word) → hart.lr w ≡ record { rd = w.mem; word = record w { reserved = true } }
  pub sc :
      (w : Word) (val : ℕ)
      → hart.sc w val ≡ (
          if w.reserved && not (lost w.scs)
          then record { rd = 0; word = record { mem = val; reserved = false; scs = w.scs + 1 } }
          else record {
            rd = code w.scs;
            word = record { mem = w.mem; reserved = false; scs = w.scs + 1 };
          })

-- The word when its SC has failed.
abbrev pub behind_failure : Word → Word
behind_failure w = record { mem = w.mem; reserved = false; scs = w.scs + 1 }

-- A round whose reservation is lost is no more than a start again.
failed_round :
    (hart : AtomicUnit) (r : IsReserving hart) (fuel : ℕ) (w : Word) (expected desired : ℕ)
    → (w.mem == expected) ≡ true
    → r.lost w.scs ≡ true
    → cas_d hart (suc fuel) w expected desired ≡ cas_d hart fuel (behind_failure w) expected desired
unfolding cas_d lr_d_aq sc_d_rl
failed_round hart r fuel w expected desired same lost =
    rw (r.lr w, same, r.sc (record w { reserved = true }) desired)
      (rw (lost, ==-ne (r.code w.scs) 0 (r.nonzero w.scs)) refl)

-- On a hart that loses the reservation `wait` times and then keeps it, `cas_d` leaves its loop after
-- `wait + 1` rounds if the word is the one expected, with the desired word and the result 1; otherwise
-- it leaves at once, with the word as it was and the result 0.
pub cas_d_lem :
    (hart : AtomicUnit) (r : IsReserving hart) (wait : ℕ) (w : Word) (expected desired : ℕ)
    → ((k : ℕ) → k < wait → r.lost (w.scs + k) ≡ true)
    → r.lost (w.scs + wait) ≡ false
    → cas_d hart (suc wait) w expected desired
      ≡ some (
          if w.mem == expected
          then record {
            ok = 1;
            word = record { mem = desired; reserved = false; scs = w.scs + wait + 1 };
          }
          else record { ok = 0; word = record w { reserved = true } })
unfolding cas_d lr_d_aq sc_d_rl
cas_d_lem hart r zero w expected desired early now =
    let start : w.scs + 0 ≡ w.scs = omega arith in
    let won : r.lost w.scs ≡ false = rw start at now in
    elim (Bool-cases (w.mem == expected)) [
      | inr differ ↦ rw (r.lr w, differ) refl
      | inl same ↦
          rw (r.lr w, same, r.sc (record w { reserved = true }) desired) (rw (won, start) refl)
    ]
cas_d_lem hart r (suc wait) w expected desired early now =
    let start : w.scs + 0 ≡ w.scs = omega arith in
    let lost : r.lost w.scs ≡ true = rw start at (early 0 (omega arith)) in
    let shift : (k : ℕ) → w.scs + suc k ≡ w.scs + 1 + k = λ k. omega arith in
    let next : w.scs + 1 + wait + 1 ≡ w.scs + suc wait + 1 = omega arith in
    let rest =
      cas_d_lem hart r wait (behind_failure w) expected desired
        (λ k h. rw (shift k) at (early (suc k) (omega arith))) (rw (shift wait) at now) in
    elim (Bool-cases (w.mem == expected)) [
      | inr differ ↦ rw (r.lr w, differ) refl
      | inl same ↦
          failed_round hart r (suc wait) w expected desired same lost ∙ rest ∙ rw (same, next) refl
    ]
