-- ===== src/Examples/Programs.antt =====
-- The test programs of phases 0, 1 and 3, on the machine of `Examples.Traps` and on an atomic unit that
-- loses some reservations, and LR and SC in the Zephyr suite of phase 3.
use zephyr_riscv_test_suite.Prelude.{
  ℕ, zero, suc, ◌+◌, ◌<◌, ◌≡◌, refl, arith, Bool, true, false, not, ◌&&◌, ltb, some, [], ◌∷◌, ◌==◌,
  if◌then◌else◌,
}
use zephyr_riscv_test_suite.Suite.{succeeds}
use zephyr_riscv_test_suite.Atomics.{AtomicUnit, Word, cas_d}
use zephyr_riscv_test_suite.Atomics.Cas.{IsReserving, cas_d_lem}
use zephyr_riscv_test_suite.Atomics.Program.{p3_test_main}
use zephyr_riscv_test_suite.Atomics.Conforming.{IsConforming, amo_result, p3_test_main-succeeds}
use zephyr_riscv_test_suite.Zephyr.{all_passed}
use zephyr_riscv_test_suite.Zephyr.Atomics.{IrqApi, test_p3_1_lr_sc}
use zephyr_riscv_test_suite.Zephyr.Atomics.Reservation.{all_passed-test_p3_1_lr_sc}
use zephyr_riscv_test_suite.Machine.{Machine}
use zephyr_riscv_test_suite.Sanity.{Site, p0_test_main}
use zephyr_riscv_test_suite.Sanity.Passing.{p0_test_main-succeeds}
use zephyr_riscv_test_suite.Mmu.Generation.{p1b_test_main}
use zephyr_riscv_test_suite.Mmu.Handling.{p1c_test_main}
use zephyr_riscv_test_suite.Mmu.Runs.{qemu}
use zephyr_riscv_test_suite.Mmu.Runs.Generation.Sections.{p1b_test_main-succeeds}
use zephyr_riscv_test_suite.Mmu.Runs.Handling.{p1c_test_main-succeeds}
use zephyr_riscv_test_suite.Examples.Traps.{m}

p1b_test_main-succeeds_example : succeeds (p1b_test_main false qemu m) ≡ true
p1b_test_main-succeeds_example = p1b_test_main-succeeds false m refl

p1c_test_main-succeeds_example : succeeds (p1c_test_main true qemu m) ≡ true
p1c_test_main-succeeds_example = p1c_test_main-succeeds true m

-- An atomic unit that loses the reservations that `loses` says.
abbrev unit : (ℕ → Bool) → AtomicUnit
unit loses = record {
  amo = λ op w mem val. record { rd = mem; mem = amo_result op w mem val };
  lr = λ w. record { rd = w.mem; word = record w { reserved = true } };
  sc = λ w val.
      if w.reserved && not (loses w.scs)
      then record { rd = 0; word = record { mem = val; reserved = false; scs = w.scs + 1 } }
      else record { rd = 1; word = record { mem = w.mem; reserved = false; scs = w.scs + 1 } };
}

abbrev reserving : (loses : ℕ → Bool) → IsReserving (unit loses)
reserving loses = record {
  lost = loses;
  code = λ n. 1;
  nonzero = λ n. omega arith;
  word_sized = λ n. omega arith;
  lr = λ w. refl;
  sc = λ w val. refl;
}

abbrev conforming : (loses : ℕ → Bool) → IsConforming (unit loses)
conforming loses = record { amo = λ op w mem val h g. refl; reserving = reserving loses }

-- The third reservation is lost, the first of `cas_d`.
abbrev third : ℕ → Bool
third n = n == 2

third_early : (k : ℕ) → k < 1 → third (2 + k) ≡ true
third_early zero h = refl
third_early (suc k) h = absurd (omega arith)

p3_test_main-succeeds_example : succeeds (p3_test_main (unit third) 2 m) ≡ true
p3_test_main-succeeds_example =
    p3_test_main-succeeds (unit third) (conforming third) m 1 third_early refl

-- The first two reservations are lost.
abbrev first_two : ℕ → Bool
first_two n = ltb n 2

abbrev seven : Word
seven = record { mem = 7; reserved = false; scs = 0 }

two_early : (k : ℕ) → k < 2 → first_two (0 + k) ≡ true
two_early zero h = refl
two_early (suc zero) h = refl
two_early (suc (suc k)) h = absurd (omega arith)

cas_d_lem_example :
    cas_d (unit first_two) 3 seven 7 9
    ≡ some (record { ok = 1; word = record { mem = 9; reserved = false; scs = 3 } })
cas_d_lem_example = cas_d_lem (unit first_two) (reserving first_two) 2 seven 7 9 two_early refl

-- The key is whether interrupts were enabled; one is always waiting.
abbrev irq : IrqApi
irq = record {
  irq_lock = λ enabled. record { key = if enabled then 1 else 0; enabled = false };
  irq_unlock = λ key enabled. key == 1;
}

all_passed-test_p3_1_lr_sc_example :
    all_passed (test_p3_1_lr_sc (unit third) irq (λ n. true) true ∷ []) ≡ true
all_passed-test_p3_1_lr_sc_example =
    all_passed-test_p3_1_lr_sc (unit third) (reserving third) irq (λ n. true) true (λ e. refl)

-- Translation off, and the trap vector set.
abbrev bare : Machine
bare = record m { satp = 0 }

abbrev site : Site
site = record {
  s_trap_vector = 0x80000100;
  ecall_at = 0x80000300;
  heap_start = 0x80100000;
  heap_end = 0x80110000;
  sstatus = λ x. x;
}

p0_test_main-succeeds_example : succeeds (p0_test_main false qemu site 7 bare) ≡ true
p0_test_main-succeeds_example = p0_test_main-succeeds false qemu site 7 bare refl refl
