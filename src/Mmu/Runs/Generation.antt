-- ===== src/Mmu/Runs/Generation.antt =====
-- The run of p1b_fault_gen.c, section by section: what each section leaves is an explicit machine.
-- Here: the parts that the sections share, and what a skipped or a fixed access makes of them.
pub mod Stages
pub mod Early
pub mod Sections
use zephyr_riscv_test_suite.Prelude.{
  ℕ, ◌≡◌, ◌≢◌, refl, true, false, Bool, ◌&&◌, ◌+◌, ◌-◌, ◌*◌, ◌/◌, ◌%◌, ◌^◌, ◌<◌, ◌==◌,
  if◌then◌else◌, ap, ◌∙◌, sym, Option, some, none, arith,
}
use Prim.Native.String.{String}
use zephyr_riscv_test_suite.Machine.{csrc}
use zephyr_riscv_test_suite.Machine.Bit.{bit, bit-csrc, sum-IsMask}
use zephyr_riscv_test_suite.Hart.{
  sepc_of, access, cause, Layout, fetch, permits, is_marked, through, translate, enter_trap, trap,
  attempt, load, write, load64, store64, store32, Access, call_code,
}
use zephyr_riscv_test_suite.PageTable.{
  pt_map_page, ensure_table, pt_alloc_page, clear_entries, is_valid, is_leaf, pte_table, vpn2, vpn1,
  vpn0, pte_leaf, pte_absent, pte_branch, pt_ppn, pt_setup_identity_kernel, pt_reset, satp_sv39,
  pt_walk,
}
use zephyr_riscv_test_suite.PageTable.Tree.{lookup}
use zephyr_riscv_test_suite.PageTable.Tree.Lookup.{locate}
use zephyr_riscv_test_suite.Machine.{Machine}
use zephyr_riscv_test_suite.Platform.{sram_base, pte_r, cause_inst_page_fault}
use zephyr_riscv_test_suite.Verdict.{final}
use zephyr_riscv_test_suite.Suite.{
  Run, Script, succeeds-step, bind, done, hung, pure, ◌>>=◌, ◌>>◌, passes, succeeds, test_log,
  assert_eq, banner,
}
use zephyr_riscv_test_suite.Mmu.{
  enable_identity, map_page, set_action, clear_count, clear_fault, fault_count, scause,
}
use zephyr_riscv_test_suite.Mmu.Runs.{qemu, end_of, ret_word, done-end_of}
use zephyr_riscv_test_suite.STrap.{
  s_trap_handler, exception, page_fault, fix_page, skip_insn, record_trap, fix_entry, satp_root,
  load_u16,
}
use zephyr_riscv_test_suite.MTrap.{is_interrupt, cause_code}
use zephyr_riscv_test_suite.Hart.Faults.{access-skips, trapped}
use zephyr_riscv_test_suite.Mmu.Generation.{
  p1b_1, p1b_2, p1b_3, p1b_4, p1b_5, p1b_6, p1b_7, p1b_8, p1b_test_main, verify_fault,
  plant_megapage,
}

-- A section up to its access.
unfoldable pub before_skip : (log : String) (va pa perm valid : ℕ) → Script (Unit {0})
before_skip log va pa perm valid = do
  test_log log
  map_page qemu qemu.pool va pa perm valid
  clear_fault

unfoldable pub before_call :
    (svadu : Bool) (log : String) (va pa perm valid : ℕ) → Script (Unit {0})
before_call svadu log va pa perm valid = do
  test_log log
  set_action 0
  store32 svadu qemu pa 0x00008067
  map_page qemu qemu.pool va pa perm valid
  clear_fault

-- A section behind its access.
unfoldable pub after_skip : (counted name : String) (cause va code : ℕ) → Script (Unit {0})
after_skip counted name cause va code = do
  assert_eq (← fault_count) 1 counted code
  verify_fault name cause va (code + 1)

unfoldable pub after_call : (counted cause ok : String) (code : ℕ) → Script (Unit {0})
after_call counted cause ok code = do
  assert_eq (← fault_count) 1 counted code
  assert_eq (← scause) 12 cause (code + 1)
  test_log ok
  set_action 1

-- A section whose access is denied in the skipping mode ends behind the trap.
pub skip_step :
    {A : Type 0} (svadu : Bool) (section tail : Script (Unit {0})) (a : Access) (va : ℕ)
    (effect : ℕ → Script A) (skipped : A) (s h : Machine)
    → section s ≡ bind (access svadu qemu a va effect skipped h) (λ _. tail)
    → h.trap.handler_action ≡ 1
    → cause a ≢ 12
    → sepc_of qemu a va < 2 ^ 64
    → translate svadu a va h ≡ none
    → passes (tail (final (trap svadu qemu a va h))) ≡ true
    → section s
      ≡ done tt (end_of (tail (final (trap svadu qemu a va h))) (final (trap svadu qemu a va h)))
skip_step svadu section tail a va effect skipped s h parts skipping no_fetch fits denied ok =
    parts
    ∙ ap (λ r. bind r (λ _. tail))
        (access-skips svadu qemu a va effect skipped h skipping no_fetch fits denied).0
    ∙ done-end_of (tail (final (trap svadu qemu a va h))) (final (trap svadu qemu a va h)) ok

-- A section that calls the `ret` planted in a page ends behind the call.
pub call_step :
    (section tail : Script (Unit {0})) (called : Run (Unit {0})) (word : ℕ) (s h : Machine)
    → section s ≡ bind called (λ _. tail)
    → called
      ≡ (if (word / 2 ^ 32 * 2 ^ 32 + 0x00008067) % 2 ^ 32 == 0x00008067 then done tt h else hung h)
    → passes (tail h) ≡ true
    → section s ≡ done tt (end_of (tail h) h)
call_step section tail called word s h parts found ok =
    parts
    ∙ ap (λ r. bind r (λ _. tail))
        (found ∙ ap (λ b. if b then done tt h else hung h) (ret_word word))
    ∙ done-end_of (tail h) h ok
