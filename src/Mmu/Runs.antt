-- ===== src/Mmu/Runs.antt =====
-- Runs of the programs on one layout of the memory, for any contents of memory and registers.
pub mod Enable
pub mod Handling
pub mod Generation
use zephyr_riscv_test_suite.Prelude.{
  ℕ, ◌+◌, ◌*◌, ◌/◌, ◌%◌, ◌^◌, ◌≡◌, ◌==◌, ◌||◌, if◌then◌else◌, arith, refl, true,
}
use zephyr_riscv_test_suite.Machine.{Machine}
use zephyr_riscv_test_suite.Hart.{Layout}
use zephyr_riscv_test_suite.Suite.{Run, done, verdict, hung, passes}

-- A pool in the first 2 MB, where the port reserves it, with the stack behind it; the loads of the
-- programs are at one address and the stores that are to be skipped at another.
abbrev pub qemu : Layout
qemu = record {
  pool = 0x80010000;
  frame = 0x80030000;
  ecall_pc = 0x80000200;
  pc = λ va. if va == 0xD0010000 || va == 0xD0050000 then 0x80000408 else 0x80000400;
}

-- The machine that a run has ended in, if it has come to its end.
abbrev pub end_of {ℓ} : {A : Type ℓ} → Run A → Machine → Machine
end_of (done a m) other = m
end_of _ other = other

-- A `ret` stored into the low half of a word is found there.
pub ret_word : (word : ℕ) → ((word / 2 ^ 32 * 2 ^ 32 + 0x00008067) % 2 ^ 32 == 0x00008067) ≡ true
ret_word word = ground arith

pub done-end_of :
    (r : Run (Unit {0})) (other : Machine) → passes r ≡ true → r ≡ done tt (end_of r other)
done-end_of (done a m) other p = refl
done-end_of (verdict m) other p = absurd (ground arith)
done-end_of (hung m) other p = absurd (ground arith)
