-- ===== src/Hart/Faults.antt =====
-- What becomes of an access that may not be made: it is skipped, or made again behind a fixed entry.
use zephyr_riscv_test_suite.Prelude.{
  ℕ, ◌+◌, ◌%◌, ◌^◌, ◌<◌, ◌≡◌, ◌≢◌, refl, arith, Bool, true, false, ◌==◌, ==-refl, if◌then◌else◌,
  none, ap, ◌∙◌, inl, inr,
}
use zephyr_riscv_test_suite.Word.{u64}
use zephyr_riscv_test_suite.Machine.{Machine}
use zephyr_riscv_test_suite.PageTable.{Tables, Memory, store}
use zephyr_riscv_test_suite.Verdict.{Outcome, returned, stopped, final, returns}
use zephyr_riscv_test_suite.STrap.{record_trap, sepc_slot, load_u16}
use zephyr_riscv_test_suite.STrap.Fix.{IsPageFault}
use zephyr_riscv_test_suite.STrap.Faults.{skip_lem}
use zephyr_riscv_test_suite.Suite.{done, Script}
use zephyr_riscv_test_suite.Hart.{
  sepc_of, Layout, Access, load, fetch, write, cause, translate, enter_trap, trap, attempt, access,
  after_trap, settle,
}

pub cause-IsPageFault : (a : Access) → IsPageFault (cause a)
cause-IsPageFault load = inr (inl refl)
cause-IsPageFault fetch = inl refl
cause-IsPageFault write = inr (inr refl)

pub returned-final : (o : Outcome) → returns o ≡ true → o ≡ returned (final o)
returned-final (returned m) h = refl
returned-final (stopped m) h = absurd (ground arith)

module _ (svadu : Bool) (at : Layout) {A : Type 0} (a : Access) (va : ℕ) (effect : ℕ → Script A)
    (skipped : A) (m : Machine) where
  abbrev pub trapped : Machine
  trapped = final (trap svadu at a va m)

  pub access-skips :
      m.trap.handler_action ≡ 1
      → cause a ≢ 12
      → sepc_of at a va < 2 ^ 64
      → translate svadu a va m ≡ none
      → (access svadu at a va effect skipped m ≡ done skipped trapped)
        × (trapped.trap ≡ record_trap (cause a) va (sepc_of at a va) m.trap)
  unfolding attempt trap enter_trap
  access-skips skipping no_fetch fits denied =
      let here =
        skip_lem at.ecall_pc (cause a) va (sepc_of at a va) at.frame (enter_trap svadu at a va m)
          (cause-IsPageFault a) skipping no_fetch in
      let behind : ((final (trap svadu at a va m)).tables.mem (sepc_slot at.frame)
            == sepc_of at a va)
          ≡ false =
        ap (λ (t : Tables). t.mem (sepc_slot at.frame) == sepc_of at a va) here.1 ∙ elsewhere in
      (
        ap (λ o. settle svadu at a va effect skipped o m (attempt svadu at a va effect skipped 2))
              denied
            ∙ ap
                (λ o.
                  after_trap svadu at a va effect skipped o
                    (attempt svadu at a va effect skipped 2))
                (returned-final (trap svadu at a va m) here.0)
            ∙ rw behind refl,
        here.2,
      )
    where
      mem : Memory
      mem = (enter_trap svadu at a va m).tables.mem

      target : ℕ
      target = u64 (sepc_of at a va + (if load_u16 mem (sepc_of at a va) % 4 == 3 then 4 else 2))

      elsewhere :
          (store mem (sepc_slot at.frame) target (sepc_slot at.frame) == sepc_of at a va) ≡ false
      elsewhere = rw (==-refl (sepc_slot at.frame)) (ground arith)
