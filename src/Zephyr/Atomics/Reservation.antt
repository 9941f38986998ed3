-- ===== src/Zephyr/Atomics/Reservation.antt =====
-- LR and SC under the lock of interrupts.
use zephyr_riscv_test_suite.Prelude.{
  ℕ, ◌≡◌, refl, ==-ne, Bool, true, false, not, ◌&&◌, Bool-cases, inl, inr, [], ◌∷◌,
}
use zephyr_riscv_test_suite.Atomics.{AtomicUnit, Word}
use zephyr_riscv_test_suite.Atomics.Cas.{IsReserving}
use zephyr_riscv_test_suite.Zephyr.{all_passed}
use zephyr_riscv_test_suite.Zephyr.Atomics.{IrqApi, test_p3_1_lr_sc}

-- On a hart whose SC stores if it has its reservation and fails if it has none, with an `irq_lock` that
-- disables interrupts: whichever interrupts arrive, and whether they are enabled before the test or not,
-- the test of LR and SC passes exactly if the hart loses neither reservation by itself.
pub all_passed-test_p3_1_lr_sc :
    (hart : AtomicUnit) (r : IsReserving hart) (irq : IrqApi) (arrives : ℕ → Bool) (enabled : Bool)
    → ((e : Bool) → (irq.irq_lock e).enabled ≡ false)
    → all_passed (test_p3_1_lr_sc hart irq arrives enabled ∷ [])
      ≡ (not (r.lost 0) && not (r.lost 1))
unfolding test_p3_1_lr_sc
all_passed-test_p3_1_lr_sc hart r irq arrives enabled disables =
    let stored : ℕ → ℕ → Word = λ v n. record { mem = v; reserved = false; scs = n } in
    let reserved : ℕ → ℕ → Word = λ v n. record { mem = v; reserved = true; scs = n } in
    rw
      (
        disables enabled,
        r.lr (stored 0x1122334455667788 0),
        r.sc (reserved 0x1122334455667788 0) 0xAABBCCDDEEFF0011,
      )
      (elim (Bool-cases (r.lost 0)) [
        | inl lost ↦ rw (lost, ==-ne (r.code 0) 0 (r.nonzero 0)) refl
        | inr kept ↦
            rw
              (
                kept,
                disables _,
                r.lr (stored 0xAABBCCDDEEFF0011 1),
                r.sc (reserved 0xAABBCCDDEEFF0011 1) 0x0102030405060708,
              )
              (elim (Bool-cases (r.lost 1)) [
                | inl lost ↦ rw (lost, ==-ne (r.code 1) 0 (r.nonzero 1)) refl
                | inr kept' ↦ rw kept' refl
              ])
      ])
