-- ===== src/Hart/Retry.antt =====
-- What becomes of an access that faults while the handler fixes entries.
use zephyr_riscv_test_suite.Prelude.{
  ℕ, ◌*◌, ◌/◌, ◌%◌, ◌^◌, ◌≤◌, ◌≡◌, ◌≢◌, refl, arith, Bool, true, false, ◌==◌, ==-refl, ==-ne, none,
  some, ap, ◌∙◌, sym,
}
use zephyr_riscv_test_suite.Word.Bits.{and-mask}
use zephyr_riscv_test_suite.Machine.{Machine}
use zephyr_riscv_test_suite.Machine.Bit.{bit}
use zephyr_riscv_test_suite.PageTable.{Tables, Place, entry, page, pt_walk}
use zephyr_riscv_test_suite.PageTable.Tree.{IsTree, lookup}
use zephyr_riscv_test_suite.PageTable.Tree.Lookup.{
  resolve-lookup, pt_walk-locate, locate, locate-Placed,
}
use zephyr_riscv_test_suite.PageTable.Tree.Outside.{outside-IsTree}
use zephyr_riscv_test_suite.Verdict.{final}
use zephyr_riscv_test_suite.STrap.{
  s_trap_handler, exception, page_fault, fix_page, fix_entry, satp_root, record_trap, sepc_slot,
}
use zephyr_riscv_test_suite.MTrap.{is_interrupt, cause_code}
use zephyr_riscv_test_suite.STrap.Fix.{IsPageFault, bit-fix_entry, fix_entry-frame}
use zephyr_riscv_test_suite.STrap.Faults.{fix_lem, fix_resolves}
use zephyr_riscv_test_suite.Suite.{Script}
use zephyr_riscv_test_suite.Hart.{
  sepc_of, Layout, Access, load, fetch, write, cause, has_right, user_rule, permits, is_marked,
  physical, root_of, through, translate, enter_trap, trap, attempt, access, after_trap, settle,
}
use zephyr_riscv_test_suite.Hart.Faults.{cause-IsPageFault, returned-final}

satp_root-root_of : (satp : ℕ) → satp_root satp ≡ satp % 2 ^ 44 * 4096
unfolding satp_root
satp_root-root_of satp = omega (arith, and-mask 44 satp)

-- A fixed entry has what its access needs.
has_right-fix_entry :
    (a : Access) (sstatus pte : ℕ) → has_right a sstatus (fix_entry (cause a) pte) ≡ true
has_right-fix_entry load sstatus pte = ground (arith, bit-fix_entry 13 pte 1)
has_right-fix_entry fetch sstatus pte =
    ground (arith, bit-fix_entry 12 pte 3, bit-fix_entry 12 pte 1)
has_right-fix_entry write sstatus pte =
    ground (arith, bit-fix_entry 15 pte 1, bit-fix_entry 15 pte 2)

pub user_rule-kernel :
    (a : Access) (sstatus pte : ℕ) → bit 4 pte ≡ 0 → user_rule a sstatus pte ≡ true
user_rule-kernel load sstatus pte h = rw h refl
user_rule-kernel fetch sstatus pte h = rw h refl
user_rule-kernel write sstatus pte h = rw h refl

-- The handler does not make a page one of the user.
fix_entry-kernel : (a : Access) (pte : ℕ) → bit 4 pte ≡ 0 → bit 4 (fix_entry (cause a) pte) ≡ 0
fix_entry-kernel load pte h = omega (arith, bit-fix_entry 13 pte 4)
fix_entry-kernel fetch pte h = omega (arith, bit-fix_entry 12 pte 4)
fix_entry-kernel write pte h = omega (arith, bit-fix_entry 15 pte 4)

is_marked-fix_entry : (a : Access) (pte : ℕ) → is_marked a (fix_entry (cause a) pte) ≡ true
unfolding is_marked
is_marked-fix_entry load pte = ground (arith, bit-fix_entry 13 pte 6)
is_marked-fix_entry fetch pte = ground (arith, bit-fix_entry 12 pte 6)
is_marked-fix_entry write pte = ground (arith, bit-fix_entry 15 pte 6, bit-fix_entry 15 pte 7)

-- The fixed entry lets the access through, if it is not a page of the user and its frame is aligned.
permits-fix_entry :
    (a : Access) (sstatus pte k : ℕ)
    → bit 4 pte ≡ 0
    → pte / 1024 % 2 ^ (9 * k) ≡ 0
    → permits a sstatus (fix_entry (cause a) pte) k ≡ true
unfolding permits
permits-fix_entry a sstatus pte k kernel aligned =
    rw
      (
        has_right-fix_entry a sstatus pte,
        user_rule-kernel a sstatus (fix_entry (cause a) pte) (fix_entry-kernel a pte kernel),
        fix_entry-frame (cause a) pte,
        aligned,
      )
      refl

satp-fixed :
    (ecall_pc code stval sepc frame : ℕ) (m : Machine)
    → IsPageFault code
    → m.trap.handler_action ≢ 1
    → (pt_walk m.tables.mem (satp_root m.satp) stval).at ≢ 0
    → (final (s_trap_handler ecall_pc code stval sepc frame m)).satp ≡ m.satp
unfolding s_trap_handler exception page_fault fix_page is_interrupt cause_code record_trap
satp-fixed ecall_pc code stval sepc frame m fault fixing somewhere = ground arith

module _ (svadu : Bool) (at : Layout) {A : Type 0} (a : Access) (va : ℕ) (effect : ℕ → Script A)
    (skipped : A) (m : Machine) where
  -- The machine in the handler, and the entry that its walk ends at.
  abbrev pub entered : Machine
  entered = enter_trap svadu at a va m

  abbrev pub place : Place
  place = pt_walk entered.tables.mem (satp_root m.satp) va

  abbrev pub pte : ℕ
  pte = entered.tables.mem place.at

  abbrev pub handled : Machine
  handled = final (trap svadu at a va m)

  module _ (pool : ℕ) {root : ℕ} (t : IsTree pool m.tables root)
      (behind : page pool m.tables.next_page ≤ sepc_slot at.frame)
      (names : satp_root m.satp ≡ page pool root) (fixing : m.trap.handler_action ≢ 1)
      (somewhere : place.at ≢ 0) where
    -- The frame's word is none of the tables'.
    entered_tree : IsTree pool entered.tables root
    unfolding enter_trap
    entered_tree = outside-IsTree pool m.tables (sepc_slot at.frame) (sepc_of at a va) behind t

    apart : place.at ≢ sepc_slot at.frame
    unfolding enter_trap
    apart hit =
        let w =
          locate-Placed pool entered.tables entered_tree va 2 root entered_tree.root_allocated
            entered_tree.root_level in
        let here : place ≡ locate 2 entered.tables.mem (page pool root) va =
          ap (λ (r : ℕ). pt_walk entered.tables.mem r va) names
          ∙ pt_walk-locate entered.tables.mem (page pool root) va in
        let there : entry (page pool w.in_page) w.index ≡ sepc_slot at.frame =
          sym w.found ∙ ap (λ (q : Place). q.at) (sym here) ∙ hit in
        omega (arith, w.allocated, w.small)

    -- Behind the trap the address is translated by the fixed entry.
    translate-handled :
        (m.satp / 2 ^ 60 == 0) ≡ false
        → bit 4 pte ≡ 0
        → pte / 1024 % 2 ^ (9 * place.level) ≡ 0
        → translate svadu a va handled ≡ some (physical pte place.level va, handled)
    unfolding translate through trap enter_trap
    translate-handled paged kernel aligned =
        let found =
          fix_resolves at.ecall_pc (cause a) va (sepc_of at a va) at.frame entered
            (cause-IsPageFault a) pool entered_tree names fixing somewhere in
        let satp : handled.satp ≡ m.satp =
          satp-fixed at.ecall_pc (cause a) va (sepc_of at a va) at.frame entered
            (cause-IsPageFault a) fixing somewhere in
        let mapped : lookup 2 handled.tables.mem (root_of handled) va
            ≡ some (fix_entry (cause a) pte, place.level) =
          ap (λ (s : ℕ). lookup 2 handled.tables.mem (s % 2 ^ 44 * 4096) va) satp
          ∙ ap (λ (r : ℕ). lookup 2 handled.tables.mem r va)
              (sym (satp_root-root_of m.satp) ∙ names)
          ∙ sym (resolve-lookup handled.tables.mem (page pool root) va)
          ∙ found in
        rw
          (
            mapped,
            satp,
            paged,
            permits-fix_entry a handled.mstatus pte place.level kernel aligned,
            is_marked-fix_entry a pte,
            fix_entry-frame (cause a) pte,
          )
          refl

    -- With Sv39 on, a tree of tables under the root in satp, the trap frame behind the allocated pages
    -- and the handler in the fixing mode, an access that is not permitted, and whose walk ends at an
    -- entry that is not for the user and has a frame aligned for its level, is made again after one
    -- trap, which is on record; it then takes effect at its place in the frame that the entry had.
    pub access-fixes :
        (m.satp / 2 ^ 60 == 0) ≡ false
        → bit 4 pte ≡ 0
        → pte / 1024 % 2 ^ (9 * place.level) ≡ 0
        → translate svadu a va m ≡ none
        → (access svadu at a va effect skipped m ≡ effect (physical pte place.level va) handled)
          × (handled.trap ≡ record_trap (cause a) va (sepc_of at a va) m.trap)
    unfolding attempt trap enter_trap
    access-fixes paged kernel aligned denied =
        let here =
          fix_lem at.ecall_pc (cause a) va (sepc_of at a va) at.frame entered (cause-IsPageFault a)
            fixing somewhere in
        let again : (handled.tables.mem (sepc_slot at.frame) == sepc_of at a va) ≡ true =
          ap (λ (t : Tables). t.mem (sepc_slot at.frame) == sepc_of at a va) here.1
          ∙ rw
              (
                ==-ne place.at (sepc_slot at.frame) apart,
                ==-refl (sepc_slot at.frame),
                ==-refl (sepc_of at a va),
              )
              refl in
        (
          ap (λ o. settle svadu at a va effect skipped o m (attempt svadu at a va effect skipped 2))
                denied
              ∙ ap
                  (λ o.
                    after_trap svadu at a va effect skipped o
                      (attempt svadu at a va effect skipped 2))
                  (returned-final (trap svadu at a va m) here.0)
              ∙ rw (again, translate-handled paged kernel aligned) refl,
          here.2,
        )
