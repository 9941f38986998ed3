-- ===== src/Atomics/Conforming.antt =====
-- The phase-3 program on a hart that does what the instruction set says.
use zephyr_riscv_test_suite.Prelude.{
  ℕ, suc, ◌+◌, ◌-◌, ◌%◌, ◌^◌, ◌<◌, ◌≡◌, refl, arith, ◌==◌, ==-ne, leb, if◌then◌else◌, Bool, true,
  false, not, ◌&&◌, ◌∙◌, bit_and, bit_or, bit_xor, Bool-cases, inl, inr,
}
use zephyr_riscv_test_suite.Word.{u64}
use zephyr_riscv_test_suite.Verdict.{test_fail}
use zephyr_riscv_test_suite.Machine.{Machine}
use zephyr_riscv_test_suite.Suite.{
  passes, succeeds, succeeds-bind, succeeds-first, assert_eq, test_log, banner,
}
use zephyr_riscv_test_suite.Atomics.{
  AtomicUnit, Word, Op, amoswap, amoadd, amoand, amoor, amoxor, amomin, amomax, amominu, amomaxu,
  amo_swap_d, amo_add_d, amo_and_d, amo_or_d, amo_xor_d, amo_min_d, amo_max_d, amo_minu_d,
  amo_maxu_d, amo_swap_w, amo_add_w, amo_and_w, amo_or_w, amo_xor_w, amo_min_w, amo_max_w,
  amo_minu_w, amo_maxu_w, lr_d, sc_d, lr_d_aq, sc_d_rl, cas_d,
}
use zephyr_riscv_test_suite.Atomics.Cas.{IsReserving, cas_d_lem}
use zephyr_riscv_test_suite.Atomics.Program.{stored, p3_1, p3_2, p3_3, p3_4, p3_test_main}

-- The order of the signed numbers of `w` bits is that of their patterns, moved by half the range.
abbrev pub signed_le : (w a b : ℕ) → Bool
signed_le w a b = leb ((a + 2 ^ (w - 1)) % 2 ^ w) ((b + 2 ^ (w - 1)) % 2 ^ w)

-- What an AMO leaves in a word.
abbrev pub amo_result : Op → (w mem val : ℕ) → ℕ
amo_result amoswap w mem val = val
amo_result amoadd w mem val = (mem + val) % 2 ^ w
amo_result amoand w mem val = bit_and mem val
amo_result amoor w mem val = bit_or mem val
amo_result amoxor w mem val = bit_xor mem val
amo_result amomin w mem val = if signed_le w mem val then mem else val
amo_result amomax w mem val = if signed_le w mem val then val else mem
amo_result amominu w mem val = if leb mem val then mem else val
amo_result amomaxu w mem val = if leb mem val then val else mem

pub record IsConforming (hart : AtomicUnit) : Type 0 where
  pub amo :
      (op : Op) (w mem val : ℕ)
      → mem < 2 ^ w
      → val < 2 ^ w
      → hart.amo op w mem val ≡ record { rd = mem; mem = amo_result op w mem val }
  pub reserving : IsReserving hart

-- ASSERT_EQ sees that an SC has failed.
code-differs :
    {hart : AtomicUnit} (c : IsConforming hart) (n : ℕ) → (u64 (c.reserving.code n) == 0) ≡ false
code-differs c n =
    let whole : c.reserving.code n % 2 ^ 64 ≡ c.reserving.code n =
      omega (arith, c.reserving.word_sized n) in
    rw whole (==-ne (c.reserving.code n) 0 (c.reserving.nonzero n))

module _ (hart : AtomicUnit) (c : IsConforming hart) (m : Machine) where
  -- P3.1 comes to its end exactly if the hart keeps its two reservations.
  p3_1-lost : passes (p3_1 hart m) ≡ (not (c.reserving.lost 0) && not (c.reserving.lost 1))
  unfolding p3_1 lr_d sc_d lr_d_aq sc_d_rl assert_eq test_log test_fail
  p3_1-lost =
      let r = c.reserving in
      let reserved : ℕ → ℕ → Word = λ v n. record { mem = v; reserved = true; scs = n } in
      rw
        (
          r.lr (stored 0x1122334455667788 0),
          r.sc (reserved 0x1122334455667788 0) 0xAABBCCDDEEFF0011,
        )
        (elim (Bool-cases (r.lost 0)) [
          | inl lost ↦ rw (lost, code-differs c 0) refl
          | inr kept ↦
              rw
                (
                  kept,
                  r.lr (stored 0xAABBCCDDEEFF0011 1),
                  r.sc (reserved 0xAABBCCDDEEFF0011 1) 0x0102030405060708,
                )
                (elim (Bool-cases (r.lost 1)) [
                  | inl lost ↦ rw (lost, code-differs c 1) refl
                  | inr kept' ↦ rw kept' refl
                ])
        ])

  p3_2-passes : passes (p3_2 hart m) ≡ true
  unfolding p3_2 assert_eq test_log amo_swap_d amo_add_d amo_and_d amo_or_d amo_xor_d amo_min_d
      amo_max_d amo_minu_d amo_maxu_d
  p3_2-passes =
      rw
        (
          c.amo amoswap 64 0x10 0x44 (omega arith) (omega arith),
          c.amo amoadd 64 0x44 0x05 (omega arith) (omega arith),
          c.amo amoand 64 0x49 0x0F (omega arith) (omega arith),
          c.amo amoor 64 0x09 0x30 (omega arith) (omega arith),
          c.amo amoxor 64 0x39 0x11 (omega arith) (omega arith),
          c.amo amomin 64 5 (2 ^ 64 - 3) (omega arith) (omega arith),
          c.amo amomax 64 (2 ^ 64 - 3) 7 (omega arith) (omega arith),
          c.amo amomaxu 64 5 (2 ^ 64 - 3) (omega arith) (omega arith),
          c.amo amominu 64 (2 ^ 64 - 3) 5 (omega arith) (omega arith),
        )
        refl

  p3_3-passes : passes (p3_3 hart m) ≡ true
  unfolding p3_3 assert_eq test_log amo_swap_w amo_add_w amo_and_w amo_or_w amo_xor_w amo_min_w
      amo_max_w amo_minu_w amo_maxu_w
  p3_3-passes =
      rw
        (
          c.amo amoswap 32 0x10 0x77 (omega arith) (omega arith),
          c.amo amoadd 32 0x77 0x09 (omega arith) (omega arith),
          c.amo amoand 32 0x80 0x0F (omega arith) (omega arith),
          c.amo amoor 32 0 0x33 (omega arith) (omega arith),
          c.amo amoxor 32 0x33 0x55 (omega arith) (omega arith),
          c.amo amomin 32 5 (2 ^ 32 - 2) (omega arith) (omega arith),
          c.amo amomax 32 (2 ^ 32 - 2) 7 (omega arith) (omega arith),
          c.amo amomaxu 32 5 (2 ^ 32 - 3) (omega arith) (omega arith),
          c.amo amominu 32 (2 ^ 32 - 3) 5 (omega arith) (omega arith),
        )
        refl

  p3_4-passes :
      (wait : ℕ)
      → ((k : ℕ) → k < wait → c.reserving.lost (2 + k) ≡ true)
      → c.reserving.lost (2 + wait) ≡ false
      → passes (p3_4 hart (suc wait) m) ≡ true
  unfolding p3_4 assert_eq test_log cas_d lr_d_aq sc_d_rl
  p3_4-passes wait early now =
      let behind : Word = record { mem = 0x2222; reserved = false; scs = 2 + wait + 1 } in
      rw (cas_d_lem hart c.reserving wait (stored 0x1111 2) 0x1111 0x2222 early now)
        (rw (c.reserving.lr behind) refl)

-- On a hart whose AMO, LR and SC do what the instruction set says, and that loses the reservation of
-- `cas_d` in `wait` rounds and then keeps it, with fuel for one round more: the phase-3 program returns
-- 0 exactly if the hart loses neither of the two reservations of P3.1. Each SC there has its reservation
-- from the LR before it, and nothing else makes an assertion fail.
pub p3_test_main-succeeds :
    (hart : AtomicUnit) (c : IsConforming hart) (m : Machine) (wait : ℕ)
    → ((k : ℕ) → k < wait → c.reserving.lost (2 + k) ≡ true)
    → c.reserving.lost (2 + wait) ≡ false
    → succeeds (p3_test_main hart (suc wait) m)
      ≡ (not (c.reserving.lost 0) && not (c.reserving.lost 1))
unfolding p3_test_main banner
p3_test_main-succeeds hart c m wait early now =
    succeeds-first (p3_1 hart _) _ (λ m1.
      succeeds-bind (p3_2 hart m1) _ (p3_2-passes hart c m1) (λ m2.
        succeeds-bind (p3_3 hart m2) _ (p3_3-passes hart c m2) (λ m3.
          succeeds-bind (p3_4 hart (suc wait) m3) _ (p3_4-passes hart c m3 wait early now)
            (λ m4. refl))))
    ∙ p3_1-lost hart c _
