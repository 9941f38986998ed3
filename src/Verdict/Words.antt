-- ===== src/Verdict/Words.antt =====
-- The verdict words tell success from failure, and keep the failure's code.
use zephyr_riscv_test_suite.Prelude.{
  ℕ, ◌+◌, ◌*◌, ◌/◌, ◌%◌, ◌^◌, ◌≡◌, ◌↔◌, refl, arith, bit_or, Bool-cases, inl, inr, some,
  if◌then◌else◌, ◌==◌, false,
}
use zephyr_riscv_test_suite.Word.Bits.{or-add, or_comm}
use zephyr_riscv_test_suite.Machine.{Machine}
use zephyr_riscv_test_suite.Verdict.{
  fail_word, htif_fail_word, htif_pass, qemu_finish_pass, qemu_finish_fail, returns, final, result,
  s_mode_entry,
}

fail_word-sum : (code : ℕ) → fail_word code ≡ code % 2 ^ 16 * 2 ^ 16 + 0x3333
unfolding fail_word
fail_word-sum code =
    let e : code % 2 ^ 32 * 2 ^ 16 % 2 ^ 32 ≡ code % 2 ^ 16 * 2 ^ 16 = omega arith in
    rw (e, or_comm 0x3333 (code % 2 ^ 16 * 2 ^ 16), or-add 16 (code % 2 ^ 16) 0x3333 (omega arith))
      refl

-- The finisher word of a failure carries the low 16 bits of the code above the failure mark.
pub fail_word_lem :
    (code : ℕ)
    → (fail_word code % 2 ^ 16 ≡ qemu_finish_fail) × (fail_word code / 2 ^ 16 ≡ code % 2 ^ 16)
fail_word_lem code = omega (arith, fail_word-sum code)

htif_word-sum : (code : ℕ) → bit_or (code * 2 % 2 ^ 32) 1 ≡ code % 2 ^ 31 * 2 + 1
htif_word-sum code =
    let e : code * 2 % 2 ^ 32 ≡ code % 2 ^ 31 * 2 ^ 1 = omega arith in
    rw (e, or-add 1 (code % 2 ^ 31) 1 (omega arith)) (omega arith)

-- Under HTIF a failure is told from success exactly if its code is not 0 modulo 2 ^ 31: the word is
-- odd, and has the low 31 bits of the code above its lowest bit.
pub htif_fail_word_lem :
    (code : ℕ)
    → ((htif_fail_word code ≡ htif_pass) ↔ (code % 2 ^ 31 ≡ 0))
      × (htif_fail_word code % 2 ≡ 1)
      × (htif_fail_word code / 2 % 2 ^ 31 ≡ code % 2 ^ 31)
unfolding htif_fail_word
htif_fail_word_lem code = ground (arith, htif_word-sum code)

-- The run of a test that returns `r` stops with a verdict, which is success exactly for the result
-- 0; otherwise it has the failure mark and the low 16 bits of the result.
pub s_mode_entry_lem :
    (s_trap_vector r : ℕ) (body : Machine → Machine) (m : Machine)
    → let o = s_mode_entry s_trap_vector (λ k. result r (body k)) m in
      (word : ℕ) × (returns o ≡ false)
      × ((final o).verdict ≡ some word)
      × ((word ≡ qemu_finish_pass) ↔ (r ≡ 0))
      × (word % 2 ^ 16 ≡ (if r == 0 then qemu_finish_pass else qemu_finish_fail))
      × (word / 2 ^ 16 ≡ r % 2 ^ 16)
unfolding s_mode_entry
s_mode_entry_lem s_trap_vector r body m = elim (Bool-cases (r == 0)) [
  | inl zero ↦
      (qemu_finish_pass, rw zero refl, rw zero refl, ground arith, ground arith, ground arith)
  | inr other ↦ (
    fail_word r,
    rw other refl,
    rw other refl,
    ground (arith, fail_word-sum r),
    ground (arith, fail_word-sum r),
    ground (arith, fail_word-sum r),
  )
]
