-- ===== src/Zephyr/Fixups/Granting.antt =====
-- An entry that a resolver has repaired lets the access through that faulted.
use zephyr_riscv_test_suite.Prelude.{
  ℕ, ◌+◌, ◌*◌, ◌/◌, ◌%◌, ◌^◌, ◌≡◌, ◌≢◌, refl, arith, true, ==-refl, ==-ne, Option, some, bit_or,
}
use zephyr_riscv_test_suite.Word.Bits.{or-high, or-zero}
use zephyr_riscv_test_suite.Machine.Bit.{bit, bit-or}
use zephyr_riscv_test_suite.PageTable.{store}
use zephyr_riscv_test_suite.Hart.{Access, load, fetch, write, cause, permits, is_marked, has_right}
use zephyr_riscv_test_suite.Hart.Retry.{user_rule-kernel}
use zephyr_riscv_test_suite.Zephyr.Fixups.{Entries, p1c_fixup}

-- The flags that `p1c_fixup` adds for an access.
abbrev pub granted : Access → ℕ
granted load = 0x43
granted write = 0xC7
granted fetch = 0x4B

has_right-granted :
    (a : Access) (sstatus pte : ℕ) → has_right a sstatus (bit_or pte (granted a)) ≡ true
has_right-granted load sstatus pte = ground (arith, bit-or 1 pte 0x43)
has_right-granted fetch sstatus pte = ground (arith, bit-or 3 pte 0x4B, bit-or 1 pte 0x4B)
has_right-granted write sstatus pte = ground (arith, bit-or 1 pte 0xC7, bit-or 2 pte 0xC7)

granted-kernel : (a : Access) (pte : ℕ) → bit 4 pte ≡ 0 → bit 4 (bit_or pte (granted a)) ≡ 0
granted-kernel load pte h = omega (arith, bit-or 4 pte 0x43)
granted-kernel fetch pte h = omega (arith, bit-or 4 pte 0x4B)
granted-kernel write pte h = omega (arith, bit-or 4 pte 0xC7)

pub granted-frame : (a : Access) (pte : ℕ) → bit_or pte (granted a) / 1024 ≡ pte / 1024
granted-frame load pte = omega (arith, or-high 10 pte 0x43, or-zero (pte / 2 ^ 10))
granted-frame fetch pte = omega (arith, or-high 10 pte 0x4B, or-zero (pte / 2 ^ 10))
granted-frame write pte = omega (arith, or-high 10 pte 0xC7, or-zero (pte / 2 ^ 10))

pub is_marked-granted : (a : Access) (pte : ℕ) → is_marked a (bit_or pte (granted a)) ≡ true
unfolding is_marked
is_marked-granted load pte = ground (arith, bit-or 6 pte 0x43)
is_marked-granted fetch pte = ground (arith, bit-or 6 pte 0x4B)
is_marked-granted write pte = ground (arith, bit-or 6 pte 0xC7, bit-or 7 pte 0xC7)

pub permits-granted :
    (a : Access) (sstatus pte k : ℕ)
    → bit 4 pte ≡ 0
    → pte / 1024 % 2 ^ (9 * k) ≡ 0
    → permits a sstatus (bit_or pte (granted a)) k ≡ true
unfolding permits
permits-granted a sstatus pte k kernel aligned =
    rw
      (
        has_right-granted a sstatus pte,
        user_rule-kernel a sstatus (bit_or pte (granted a)) (granted-kernel a pte kernel),
        granted-frame a pte,
        aligned,
      )
      refl

pub p1c_fixup-granted :
    (a : Access) (pte_lookup : ℕ → Option ℕ) (va pte : ℕ) (s : Entries)
    → pte_lookup va ≡ some pte
    → p1c_fixup pte_lookup (cause a) va s ≡ record {
      retry = true;
      entries = record {
        mem = store s.mem pte (bit_or (s.mem pte) (granted a));
        fix_count = s.fix_count + 1;
      };
    }
unfolding p1c_fixup
p1c_fixup-granted load pte_lookup va pte s found = rw found refl
p1c_fixup-granted fetch pte_lookup va pte s found = rw found refl
p1c_fixup-granted write pte_lookup va pte s found = rw found refl

-- For each kind of access, where the kernel finds an entry that is not for the user and has a frame
-- aligned for its level `k`: `p1c_fixup` asks for another try and counts it, changes no other word, and
-- leaves an entry that permits the access and has the flags A and D that it needs.
pub p1c_fixup-permits :
    (a : Access) (pte_lookup : ℕ → Option ℕ) (va pte k sstatus : ℕ) (s : Entries)
    → pte_lookup va ≡ some pte
    → bit 4 (s.mem pte) ≡ 0
    → s.mem pte / 1024 % 2 ^ (9 * k) ≡ 0
    → let r = p1c_fixup pte_lookup (cause a) va s in
      (r.retry ≡ true)
      × (r.entries.fix_count ≡ s.fix_count + 1)
      × ((b : ℕ) → pte ≢ b → r.entries.mem b ≡ s.mem b)
      × (permits a sstatus (r.entries.mem pte) k ≡ true)
      × (is_marked a (r.entries.mem pte) ≡ true)
p1c_fixup-permits a pte_lookup va pte k sstatus s found kernel aligned =
    rw (p1c_fixup-granted a pte_lookup va pte s found, ==-refl pte)
      (
        refl,
        refl,
        λ b ne. rw (==-ne pte b ne) refl,
        permits-granted a sstatus (s.mem pte) k kernel aligned,
        is_marked-granted a (s.mem pte),
      )
