-- ===== src/Examples/ZephyrMmu.antt =====
-- The MMU tests of the Zephyr suite under a kernel with one table of entries from 2 ^ 70 on.
use zephyr_riscv_test_suite.Prelude.{
  ap, inr, ℕ, ◌+◌, ◌*◌, ◌/◌, ◌%◌, ◌^◌, ◌<◌, ◌≡◌, refl, arith, Bool, true, false, not, ◌==◌, ==-ne,
  if◌then◌else◌, Option, none, some,
}
use zephyr_riscv_test_suite.Zephyr.Board.{Board, Kernel, Oracle, all_pass, covers, page_of}
use zephyr_riscv_test_suite.Zephyr.Board.Behaviour.{IsKernel, mapped, cleared}
use zephyr_riscv_test_suite.PageTable.{Place}
use zephyr_riscv_test_suite.Zephyr.Enable.{p1a_suite}
use zephyr_riscv_test_suite.Zephyr.Enable.Passing.{p1a_suite-passes}
use zephyr_riscv_test_suite.Zephyr.FaultGen.{p1b_suite}
use zephyr_riscv_test_suite.Zephyr.FaultGen.Suite.{p1b_suite-passes}
use zephyr_riscv_test_suite.Zephyr.FaultHandle.{p1c_suite}
use zephyr_riscv_test_suite.Zephyr.FaultHandle.Suite.{p1c_suite-passes}
use zephyr_riscv_test_suite.Zephyr.Tlb.{p1d_suite}
use zephyr_riscv_test_suite.Zephyr.Tlb.Suite.{p1d_suite-passes}

abbrev entry_at : (level va : ℕ) → ℕ
entry_at level va = 2 ^ 70 + va / 4096 * 8

abbrev is_table : ℕ → Bool
is_table a = not (a / 2 ^ 70 == 0)

abbrev retries : Option Bool → Bool
retries none = false
retries (some retry) = retry

-- The address of the entry at a place, and an entry that is cleared.
abbrev place_at : Option Place → Option ℕ
place_at none = none
place_at (some w) = some w.at

abbrev unmap : Option Place → ℕ → Board → Board
unmap none va b = b
unmap (some w) va b = cleared w va b

abbrev kernel : Kernel
kernel = record {
  map_raw = λ va pa bits level b. mapped va level (pa / 4096 * 1024 + bits) (entry_at level va) b;
  pte_lookup = λ va b. place_at (b.places va);
  arch_mem_map = λ va pa size flags b.
      mapped va 0 (pa / 4096 * 1024 + (if flags == 2 then 0xCB else 0xC7)) (entry_at 0 va) b;
  arch_mem_unmap = λ va size b. unmap (b.places va) va b;
  k_mem_map = λ size flags b. (
    some 0xC0000000,
    mapped 0xC0000000 0 (0x80100 * 1024 + (if flags == 4 then 0xC3 else 0xC7))
        (entry_at 0 0xC0000000) b,
  );
  k_mem_unmap = λ va size b. unmap (b.places va) va b;
  perm_rw = 1;
  perm_exec = 2;
  map_uninit = 4;
  retries = retries;
}

abbrev kernel_law : IsKernel kernel
kernel_law = record {
  entry_at = entry_at;
  is_table = is_table;
  in_table =
      λ level va. rw (==-ne ((2 ^ 70 + va / 4096 * 8) / 2 ^ 70) 0 (λ e. omega (arith, e))) refl;
  one_entry = λ va other h g e. omega (arith, e);
  map_raw = λ va pa bits level b h g. refl;
  pte_lookup = λ va b w there. ap place_at there;
  arch_map_rw = λ va pa b h g. refl;
  arch_map_exec = λ va pa b h g. refl;
  mem_map_rw = λ b. inr (record {
    va = 0xC0000000;
    frame = 0x80100;
    contents = b.mem;
    aligned = refl;
    data_page = refl;
    result = refl;
  });
  mem_map_ro = λ b. inr (record {
    va = 0xC0000000;
    frame = 0x80100;
    contents = b.mem;
    aligned = refl;
    data_page = refl;
    result = refl;
  });
  mem_unmap = λ va b w there. ap (λ o. unmap o va b) there;
  unresolved = refl;
  resolved = λ retry. refl;
}

-- The hart uses the TLB at every other access.
abbrev at_times : Oracle
at_times clock va = clock % 2 == 0

-- The image starts with an instruction; one leaf maps the first GiB.
abbrev after_boot : Board
after_boot = record {
  mem = λ a. if a == 0x80000000 then 0x13 else if a == 0x80300000 then 0xEF else 0;
  places =
      λ va. if covers 2 (page_of va) 0 then some (record { at = 0x80300000; level = 2 }) else none;
  tlb = λ p. none;
  clock = 0;
  satp = 8 * 2 ^ 60 + 0x80300;
  sstatus = 0;
  expect_fault = false;
  expected_scause = 0;
  expected_stval = 0;
  resolver = false;
  fix_count = 0;
}

p1b_suite-passes_example :
    all_pass (p1b_suite kernel at_times true 0x80100000 0x80101000) after_boot ≡ true
p1b_suite-passes_example =
    p1b_suite-passes kernel kernel_law at_times true 0x80100000 0x80101000 after_boot refl refl
      (omega arith) refl refl refl

run_of_pages :
    (start : ℕ)
    → start < 2 ^ 32
    → (n : ℕ) → n < 256
    → (j : ℕ) → j < n
    → is_table (start + j * 4096) ≡ false
run_of_pages start low n few j h =
    let below : (start + j * 4096) / 2 ^ 70 ≡ 0 = omega arith in rw below refl

p1c_suite-passes_example :
    all_pass
      (p1c_suite kernel at_times false 0x80100000 0x80101000 0x80102000 0x80103000 0x8010B000)
      after_boot
    ≡ true
p1c_suite-passes_example =
    p1c_suite-passes kernel kernel_law at_times false 0x80100000 0x80101000 0x80102000 0x80103000
      0x8010B000 after_boot (refl, refl) (refl, refl) (refl, refl)
      (refl, run_of_pages 0x80103000 (omega arith) 8 (omega arith)) (refl, refl)

p1d_suite-passes_example :
    all_pass (p1d_suite kernel at_times true 0x80100000 0x80110000 0x80200000) after_boot ≡ true
p1d_suite-passes_example =
    p1d_suite-passes kernel kernel_law at_times true 0x80100000 0x80110000 0x80200000 after_boot
      (record { at = 0x80300000; level = 2 }) refl (omega arith)
      (run_of_pages 0x80100000 (omega arith) 5 (omega arith)) refl
      (run_of_pages 0x80110000 (omega arith) 128 (omega arith)) (omega arith) (omega arith) refl
      (λ e. omega (arith, e)) refl refl refl refl

page_outside : (o : ℕ) → o < 4096 → is_table (0x80100000 + o) ≡ false
page_outside o h = let below : (0x80100000 + o) / 2 ^ 70 ≡ 0 = omega arith in rw below refl

p1a_suite-passes_example : all_pass (p1a_suite kernel at_times true 0x80100000) after_boot ≡ true
p1a_suite-passes_example =
    p1a_suite-passes kernel kernel_law at_times true 0x80100000 after_boot refl page_outside refl
      (λ e. omega (arith, e))
