-- ===== src/Examples/Retries.antt =====
-- A load from the absent page of `Examples.Traps`, in both modes of the handler.
use zephyr_riscv_test_suite.Prelude.{
  ℕ, ◌+◌, ◌/◌, ◌^◌, ◌≤◌, ◌≡◌, ◌≢◌, refl, arith, false, ◌==◌, none,
}
use zephyr_riscv_test_suite.PageTable.{
  page, satp_sv39, pt_ppn, is_valid, pt_map_page, pte_table, ensure_table, pt_setup_identity_kernel,
  pt_alloc_page, vpn2, clear_entries, pte_branch, vpn1, vpn0, is_leaf, pte_absent, pte_leaf,
  pt_walk,
}
use zephyr_riscv_test_suite.PageTable.Tree.{lookup}
use zephyr_riscv_test_suite.STrap.{record_trap, sepc_slot, satp_root}
use zephyr_riscv_test_suite.Suite.{Script, done}
use zephyr_riscv_test_suite.Hart.{
  load, access, translate, permits, is_marked, through, physical, enter_trap,
}
use zephyr_riscv_test_suite.Hart.Retry.{access-fixes, place, pte, handled}
use zephyr_riscv_test_suite.Mmu.Runs.{qemu}
use zephyr_riscv_test_suite.Examples.PageTables.{pool, va}
use zephyr_riscv_test_suite.Examples.Traps.{m, absent, absent_tree, names}

abbrev reads : ℕ → Script ℕ
reads pa n = done (n.tables.mem pa) n

denied : translate false load va m ≡ none
unfolding translate through permits is_marked lookup satp_sv39 pt_ppn is_valid pt_map_page pte_table
    ensure_table pt_setup_identity_kernel pt_alloc_page vpn2 clear_entries pte_branch vpn1 vpn0
    is_leaf pte_absent
denied = refl

paged : (m.satp / 2 ^ 60 == 0) ≡ false
unfolding satp_sv39 pt_ppn
paged = refl

pages : absent.next_page ≡ 3
unfolding pt_map_page ensure_table pt_alloc_page pt_setup_identity_kernel is_valid pte_table
    clear_entries pte_branch vpn2 vpn1 vpn0 pte_leaf pt_ppn pte_absent
pages = refl

behind : page pool absent.next_page ≤ sepc_slot qemu.frame
behind = rw pages (omega arith)

walk_at : place false qemu load va reads 0 m ≡ record { at = pool + 0x2000; level = 0 }
unfolding pt_walk enter_trap pt_map_page ensure_table pt_alloc_page clear_entries is_valid is_leaf
    pte_table vpn2 vpn1 vpn0 pte_leaf pte_absent pte_branch pt_ppn pt_setup_identity_kernel
    satp_root satp_sv39
walk_at = refl

somewhere : (place false qemu load va reads 0 m).at ≢ 0
somewhere = rw walk_at (omega arith)

entry_there : pte false qemu load va reads 0 m ≡ 0x20000006
unfolding pt_walk enter_trap pt_map_page ensure_table pt_alloc_page clear_entries is_valid is_leaf
    pte_table vpn2 vpn1 vpn0 pte_leaf pte_absent pte_branch pt_ppn pt_setup_identity_kernel
    satp_root satp_sv39
entry_there = refl

access-fixes_example :
    (access false qemu load va reads 0 m
      ≡ reads
          (physical
            (pte false qemu load va reads 0 m)
            (place false qemu load va reads 0 m).level
            va)
          (handled false qemu load va reads 0 m))
    × ((handled false qemu load va reads 0 m).trap ≡ record_trap 13 va 0x80000400 m.trap)
access-fixes_example =
    access-fixes false qemu load va reads 0 m pool absent_tree behind names (omega arith) somewhere
      paged (rw entry_there refl) (rw (entry_there, walk_at) refl) denied
