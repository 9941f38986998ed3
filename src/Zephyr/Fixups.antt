-- ===== src/Zephyr/Fixups.antt =====
-- The resolvers of page faults that the Zephyr suite registers with the kernel: `p1c_fixup` of
-- zephyr-suite/p1c_fault_handle and `p2_fixup` of zephyr-suite/p2_interrupts. The kernel's
-- `z_riscv_mmu_pte_lookup`, which finds the entry of an address, is a parameter; NULL is `none`.
pub mod Granting
use zephyr_riscv_test_suite.Prelude.{
  ℕ, ◌+◌, Bool, true, false, not, ◌==◌, if◌then◌else◌, Option, none, some,
}
use zephyr_riscv_test_suite.Word.{◌∣∣◌}
use zephyr_riscv_test_suite.Platform.{
  pte_v, pte_r, pte_w, pte_x, pte_a, pte_d, cause_inst_page_fault, cause_load_page_fault,
  cause_store_page_fault,
}
use zephyr_riscv_test_suite.PageTable.{Memory, store}

-- The words of memory and `fix_count`.
pub record Entries : Type 0 where
  pub mem : Memory
  pub fix_count : ℕ

-- Whether the kernel is to make the access again, and what the resolver leaves.
pub record Resolved : Type 0 where
  pub retry : Bool
  pub entries : Entries

abbrev pub unresolved : Entries → Resolved
unresolved s = record { retry = false; entries = s }

-- `*pte |= flags`, the fence, and the counter.
abbrev pub add_flags : ℕ → ℕ → Entries → Resolved
add_flags pte flags s = record {
  retry = true;
  entries = record { mem = store s.mem pte (s.mem pte ∣∣ flags); fix_count = s.fix_count + 1 };
}

module _ (pte_lookup : ℕ → Option ℕ) where
  -- The `switch` of `p1c_fixup`.
  abbrev pub by_cause : ℕ → ℕ → Entries → Resolved
  by_cause scause pte s =
      if scause == cause_load_page_fault
      then add_flags pte (pte_v ∣∣ pte_r ∣∣ pte_a) s
      else if scause == cause_store_page_fault
      then add_flags pte (pte_v ∣∣ pte_r ∣∣ pte_w ∣∣ pte_a ∣∣ pte_d) s
      else if scause == cause_inst_page_fault
      then add_flags pte (pte_v ∣∣ pte_r ∣∣ pte_x ∣∣ pte_a) s
      else unresolved s

  abbrev at_entry : (ℕ → Entries → Resolved) → Option ℕ → Entries → Resolved
  at_entry f none s = unresolved s
  at_entry f (some pte) s = f pte s

  unfoldable pub p1c_fixup : (scause stval : ℕ) → Entries → Resolved
  p1c_fixup scause stval s = at_entry (by_cause scause) (pte_lookup stval) s

  unfoldable pub p2_fixup : (scause stval : ℕ) → Entries → Resolved
  p2_fixup scause stval s =
      if not (scause == cause_load_page_fault)
      then unresolved s
      else at_entry (λ pte. add_flags pte (pte_v ∣∣ pte_r ∣∣ pte_a)) (pte_lookup stval) s
