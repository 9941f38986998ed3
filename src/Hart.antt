-- ===== src/Hart.antt =====
-- Loads, stores and fetches of a test program on a hart with Sv39, by the instruction set: an access
-- is translated by the walk of PageTable/Tree and checked against the entry's flags; if it may not be
-- made it traps through the vector of baremetal/common/baremetal_trap.S to `s_trap_handler`, and goes
-- on where the frame says. The hart has no TLB. `svadu` says whether it sets the A and D flags by
-- itself or leaves that to a fault. The linker's and the compiler's addresses are a parameter.
pub mod Faults
pub mod Retry
use zephyr_riscv_test_suite.Prelude.{
  ℕ, zero, suc, ◌+◌, ◌-◌, ◌*◌, ◌/◌, ◌%◌, ◌^◌, Bool, true, false, not, ◌&&◌, ◌||◌, ◌==◌,
  if◌then◌else◌, Option, none, some,
}
use zephyr_riscv_test_suite.Word.{◌∣∣◌}
use zephyr_riscv_test_suite.Machine.{Machine}
use zephyr_riscv_test_suite.Machine.Bit.{bit}
use zephyr_riscv_test_suite.PageTable.{Memory, store}
use zephyr_riscv_test_suite.PageTable.Tree.{lookup, Mapping}
use zephyr_riscv_test_suite.PageTable.Tree.Lookup.{locate}
use zephyr_riscv_test_suite.Verdict.{Outcome, returned, stopped}
use zephyr_riscv_test_suite.STrap.{s_trap_handler, sepc_slot, store_mem}
use zephyr_riscv_test_suite.Suite.{Run, done, verdict, hung, Script}

pub record Layout : Type 0 where
  pub pool : ℕ  -- `_page_table_start`
  pub frame : ℕ  -- the trap frame on the stack
  pub ecall_pc : ℕ  -- the ecall in the handler's `sbi_set_timer`
  pub pc : ℕ → ℕ  -- the instruction that loads or stores at an address

pub data Access : Type 0 where
  load fetch write : Access

abbrev pub cause : Access → ℕ
cause load = 13
cause fetch = 12
cause write = 15

-- The flags R, X, and R with W; MXR, bit 19 of sstatus, lets loads use X.
abbrev pub has_right : Access → (sstatus pte : ℕ) → Bool
has_right load sstatus pte = bit 1 pte == 1 || (bit 19 sstatus == 1 && bit 3 pte == 1)
has_right fetch sstatus pte = bit 3 pte == 1 && not (bit 2 pte == 1 && bit 1 pte == 0)
has_right write sstatus pte = bit 1 pte == 1 && bit 2 pte == 1

-- A page of the user needs SUM, bit 18 of sstatus, and is never executed.
abbrev pub user_rule : Access → (sstatus pte : ℕ) → Bool
user_rule fetch sstatus pte = bit 4 pte == 0
user_rule _ sstatus pte = bit 4 pte == 0 || bit 18 sstatus == 1

-- Whether an entry of level `k` lets the access through; a superpage has to be aligned.
unfoldable pub permits : Access → (sstatus pte k : ℕ) → Bool
permits a sstatus pte k =
    has_right a sstatus pte && user_rule a sstatus pte && pte / 1024 % 2 ^ (9 * k) == 0

-- The flag A, and D for a store.
unfoldable pub is_marked : Access → ℕ → Bool
is_marked write pte = bit 6 pte == 1 && bit 7 pte == 1
is_marked _ pte = bit 6 pte == 1

abbrev pub mark : Access → ℕ → ℕ
mark write pte = pte ∣∣ 0xC0
mark _ pte = pte ∣∣ 0x40

abbrev pub physical : (pte k va : ℕ) → ℕ
physical pte k va = pte / 1024 * 4096 / 2 ^ (12 + 9 * k) * 2 ^ (12 + 9 * k) + va % 2 ^ (12 + 9 * k)

-- The table that satp names.
abbrev pub root_of : Machine → ℕ
root_of m = m.satp % 2 ^ 44 * 4096

abbrev pub set_mem : Memory → Machine → Machine
set_mem mem m = record m { tables = record m.tables { mem = mem } }

-- What the hardware writes to sepc: a fetch traps at the address that is fetched, a load or a store at
-- its instruction.
abbrev pub sepc_of : Layout → Access → ℕ → ℕ
sepc_of at fetch va = va
sepc_of at load va = at.pc va
sepc_of at write va = at.pc va

module _ (svadu : Bool) where
  -- The physical address behind an entry, and the machine once the flags are set.
  unfoldable pub through : Access → ℕ → Machine → Mapping → Option (ℕ × Machine)
  through a va m none = none
  through a va m (some (pte, k)) =
      let marked =
        set_mem (store m.tables.mem (locate 2 m.tables.mem (root_of m) va).at (mark a pte)) m in
      if permits a m.mstatus pte k
      then (if is_marked a pte
          then some (physical pte k va, m)
          else if svadu
          then some (physical pte k va, marked)
          else none)
      else none

  unfoldable pub translate : Access → ℕ → Machine → Option (ℕ × Machine)
  translate a va m =
      let mapped = lookup 2 m.tables.mem (root_of m) va in
      if m.satp / 2 ^ 60 == 0 then some (va, m) else through a va m mapped

  module _ (at : Layout) where
    -- The trap as the hardware and the vector record it, before the handler.
    unfoldable pub enter_trap : Access → ℕ → Machine → Machine
    enter_trap a va m =
        store_mem (sepc_slot at.frame) (sepc_of at a va)
          (record m { scause = cause a; sepc = sepc_of at a va; stval = va })

    unfoldable pub trap : Access → ℕ → Machine → Outcome
    trap a va m =
        s_trap_handler at.ecall_pc (cause a) va (sepc_of at a va) at.frame (enter_trap a va m)

    -- An access with an effect on the physical address, tried at most `fuel` times; if the handler
    -- resumes behind it there is no value, and `skipped` stands for what the register holds.
    module _ {ℓ} {A : Type ℓ} (a : Access) (va : ℕ) (effect : ℕ → Script A) (skipped : A) where
      abbrev pub after_trap : Outcome → Script A → Run A
      after_trap (stopped m) again = verdict m
      after_trap (returned m) again =
          if m.tables.mem (sepc_slot at.frame) == sepc_of at a va then again m else done skipped m

      abbrev pub settle : Option (ℕ × Machine) → Machine → Script A → Run A
      settle (some (pa, m')) m again = effect pa m'
      settle none m again = after_trap (trap a va m) again

      unfoldable pub attempt : ℕ → Script A
      attempt zero m = hung m
      attempt (suc fuel) m = settle (translate a va m) m (attempt fuel)

      abbrev pub access : Script A
      access = attempt 3

    -- `*(volatile uint64_t *)va`, read and written; the address is a multiple of 8.
    abbrev pub load64 : ℕ → Script ℕ
    load64 va = access load va (λ pa m. done (m.tables.mem pa) m) 0

    abbrev pub store64 : ℕ → ℕ → Script (Unit {0})
    store64 va val =
        access write va (λ pa m. done tt (set_mem (store m.tables.mem pa (val % 2 ^ 64)) m)) tt

    -- `*(volatile uint32_t *)va = val`, at a multiple of 8: the low half of a word.
    abbrev pub store32 : ℕ → ℕ → Script (Unit {0})
    store32 va val =
        access write va
          (λ pa m.
            done tt (
              set_mem (store m.tables.mem pa (m.tables.mem pa / 2 ^ 32 * 2 ^ 32 + val % 2 ^ 32)) m))
          tt

    -- A call of the code at `va`, a multiple of 8, which returns at once if that is a `ret`; what any
    -- other code does is not known, and counts as a program that does not get on.
    abbrev pub call_code : ℕ → Script (Unit {0})
    call_code va =
        access fetch va
          (λ pa m. if m.tables.mem pa % 2 ^ 32 == 0x00008067 then done tt m else hung m) tt
