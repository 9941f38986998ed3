-- ===== src/Atomics/Program.antt =====
-- tests/p3_atomics.c. The word that an instruction acts on is in a `let`; its new name is the value
-- that it has from there on.
use zephyr_riscv_test_suite.Prelude.{ℕ, false, Option, none, some}
use zephyr_riscv_test_suite.Suite.{Script, ◌>>◌, pure, hung, test_log, assert_eq, banner}
use zephyr_riscv_test_suite.Atomics.{
  AtomicUnit, Word, Swapped, sext32, neg64, neg32, amo_swap_d, amo_add_d, amo_and_d, amo_or_d,
  amo_xor_d, amo_min_d, amo_max_d, amo_minu_d, amo_maxu_d, amo_swap_w, amo_add_w, amo_and_w,
  amo_or_w, amo_xor_w, amo_min_w, amo_max_w, amo_minu_w, amo_maxu_w, lr_d, sc_d, lr_d_aq, sc_d_rl,
  cas_d,
}

-- A word that was stored plainly, after `n` SCs.
abbrev pub stored : (v n : ℕ) → Word
stored v n = record { mem = v; reserved = false; scs = n }

module _ (hart : AtomicUnit) where
  -- A program that waits for a loop without end.
  abbrev finish : Option Swapped → (Swapped → Script (Unit {0})) → Script (Unit {0})
  finish none k m = hung m
  finish (some e) k m = k e m

  -- LR/SC, plain and with `.aq` and `.rl`.
  unfoldable pub p3_1 : Script (Unit {0})
  p3_1 = do
    test_log "P3.1 — LR/SC (success + failure path)..."
    let atom64 : Word = stored 0x1122334455667788 0
    let old = lr_d hart atom64
    assert_eq old.rd 0x1122334455667788 "P3.1 lr.d old value" 700
    let sc_ok = sc_d hart old.word 0xAABBCCDDEEFF0011
    assert_eq sc_ok.rd 0 "P3.1 first sc.d should succeed" 701
    assert_eq sc_ok.word.mem 0xAABBCCDDEEFF0011 "P3.1 first sc.d write" 702
    let old_aq = lr_d_aq hart sc_ok.word
    assert_eq old_aq.rd 0xAABBCCDDEEFF0011 "P3.1 lr.d.aq old value" 705
    let sc_rl = sc_d_rl hart old_aq.word 0x0102030405060708
    assert_eq sc_rl.rd 0 "P3.1 sc.d.rl should succeed" 706
    assert_eq sc_rl.word.mem 0x0102030405060708 "P3.1 sc.d.rl write" 707
    test_log "P3.1 — LR/SC: OK"

  -- The 64-bit AMOs.
  unfoldable pub p3_2 : Script (Unit {0})
  p3_2 = do
    test_log "P3.2 — AMO .d (swap/add/and/or/xor/min/max)..."
    let e0 = amo_swap_d hart 0x10 0x44
    assert_eq e0.rd 0x10 "P3.2 amoswap.d old" 710
    assert_eq e0.mem 0x44 "P3.2 amoswap.d new" 711
    let e1 = amo_add_d hart e0.mem 0x05
    assert_eq e1.rd 0x44 "P3.2 amoadd.d old" 712
    assert_eq e1.mem 0x49 "P3.2 amoadd.d new" 713
    let e2 = amo_and_d hart e1.mem 0x0F
    assert_eq e2.rd 0x49 "P3.2 amoand.d old" 714
    assert_eq e2.mem 0x09 "P3.2 amoand.d new" 715
    let e3 = amo_or_d hart e2.mem 0x30
    assert_eq e3.rd 0x09 "P3.2 amoor.d old" 716
    assert_eq e3.mem 0x39 "P3.2 amoor.d new" 717
    let e4 = amo_xor_d hart e3.mem 0x11
    assert_eq e4.rd 0x39 "P3.2 amoxor.d old" 718
    assert_eq e4.mem 0x28 "P3.2 amoxor.d new" 719
    let e5 = amo_min_d hart 5 (neg64 3)
    assert_eq e5.rd 5 "P3.2 amomin.d old" 720
    assert_eq e5.mem (neg64 3) "P3.2 amomin.d new" 721
    let e6 = amo_max_d hart e5.mem 7
    assert_eq e6.rd (neg64 3) "P3.2 amomax.d old" 722
    assert_eq e6.mem 7 "P3.2 amomax.d new" 723
    let e7 = amo_maxu_d hart 5 (neg64 3)
    assert_eq e7.rd 5 "P3.2 amomaxu.d old" 724
    assert_eq e7.mem (neg64 3) "P3.2 amomaxu.d new" 725
    let e8 = amo_minu_d hart (neg64 3) 5
    assert_eq e8.rd (neg64 3) "P3.2 amominu.d old" 726
    assert_eq e8.mem 5 "P3.2 amominu.d new" 727
    test_log "P3.2 — AMO .d: OK"

  -- The 32-bit AMOs.
  unfoldable pub p3_3 : Script (Unit {0})
  p3_3 = do
    test_log "P3.3 — AMO .w (swap/add/and/or/xor/min/max)..."
    let e0 = amo_swap_w hart 0x10 0x77
    assert_eq e0.rd 0x10 "P3.3 amoswap.w old" 730
    assert_eq e0.mem 0x77 "P3.3 amoswap.w new" 731
    let e1 = amo_add_w hart e0.mem 0x09
    assert_eq e1.rd 0x77 "P3.3 amoadd.w old" 732
    assert_eq e1.mem 0x80 "P3.3 amoadd.w new" 733
    let e2 = amo_and_w hart e1.mem 0x0F
    assert_eq e2.rd 0x80 "P3.3 amoand.w old" 734
    assert_eq e2.mem 0x00 "P3.3 amoand.w new" 735
    let e3 = amo_or_w hart e2.mem 0x33
    assert_eq e3.rd 0x00 "P3.3 amoor.w old" 736
    assert_eq e3.mem 0x33 "P3.3 amoor.w new" 737
    let e4 = amo_xor_w hart e3.mem 0x55
    assert_eq e4.rd 0x33 "P3.3 amoxor.w old" 738
    assert_eq e4.mem 0x66 "P3.3 amoxor.w new" 739
    let e5 = amo_min_w hart 5 (neg32 2)
    assert_eq e5.rd 5 "P3.3 amomin.w old" 740
    assert_eq (sext32 e5.mem) (neg64 2) "P3.3 amomin.w new" 741
    let e6 = amo_max_w hart e5.mem 7
    assert_eq (sext32 e6.rd) (neg64 2) "P3.3 amomax.w old" 742
    assert_eq (sext32 e6.mem) 7 "P3.3 amomax.w new" 743
    let e7 = amo_maxu_w hart 5 (neg32 3)
    assert_eq e7.rd 5 "P3.3 amomaxu.w old" 744
    assert_eq e7.mem (neg32 3) "P3.3 amomaxu.w new" 745
    let e8 = amo_minu_w hart (neg32 3) 5
    assert_eq e8.rd (neg32 3) "P3.3 amominu.w old" 746
    assert_eq e8.mem 5 "P3.3 amominu.w new" 747
    test_log "P3.3 — AMO .w: OK"

  -- The compare-and-swap, after the two SCs of P3.1; `fuel` bounds the rounds of its loop.
  unfoldable pub p3_4 : ℕ → Script (Unit {0})
  p3_4 fuel =
      test_log "P3.4 — CAS via LR/SC..."
      >> finish (cas_d hart fuel (stored 0x1111 2) 0x1111 0x2222) (λ first.
        (do
          assert_eq first.ok 1 "P3.4 CAS should succeed on matching expected" 748
          assert_eq first.word.mem 0x2222 "P3.4 CAS success value" 749)
        >> finish (cas_d hart fuel first.word 0x1111 0x3333) (λ second. (do
          assert_eq second.ok 0 "P3.4 CAS should fail on mismatched expected" 750
          assert_eq second.word.mem 0x2222 "P3.4 CAS failure should not update" 751
          test_log "P3.4 — CAS: OK")))

  unfoldable pub p3_test_main : ℕ → Script ℕ
  p3_test_main fuel = do
    banner "Phase 3: Atomic Operations Tests\n"
    p3_1
    p3_2
    p3_3
    p3_4 fuel
    banner "Phase 3: ALL TESTS PASSED\n"
    pure 0
