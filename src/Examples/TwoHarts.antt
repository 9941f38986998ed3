-- ===== src/Examples/TwoHarts.antt =====
-- Runs of the two harts: one hart after the other through the spinlock, the two in turn through the
-- ping-pong, and the hand-over of one and of two tests.
use zephyr_riscv_test_suite.Prelude.{
  ℕ, zero, suc, ◌+◌, ◌*◌, ◌%◌, ◌^◌, ◌<◌, ◌≤◌, ◌≡◌, refl, arith, [], ◌∷◌,
}
use zephyr_riscv_test_suite.DualCore.Spinlock as spinlock
use zephyr_riscv_test_suite.DualCore.PingPong as ping_pong
use zephyr_riscv_test_suite.DualCore.Park as park
use zephyr_riscv_test_suite.DualCore.Spinlock.Safety.{holds, mutual_exclusion}
use zephyr_riscv_test_suite.DualCore.Spinlock.Progress.{Finishes, spinlock_finishes}
use zephyr_riscv_test_suite.DualCore.PingPong.Safety.{
  playing, passed, ping_pong_count_lem, strict_alternation,
}
use zephyr_riscv_test_suite.DualCore.Park.Order.{
  Polite, start, loop, hand_over, handed_over_order, lost_wakeup,
}

-- Hart 0 alone, and then hart 1, after `n` rounds.
abbrev alone : ℕ → spinlock.System
alone n = record {
  mem = record { lock = 0; shared_var = n };
  core0 = spinlock.next_round n;
  core1 = spinlock.acquire 0;
}

abbrev after : ℕ → spinlock.System
after n = record {
  mem = record { lock = 0; shared_var = 50 + n };
  core0 = spinlock.finished;
  core1 = spinlock.next_round n;
}

more : (n : ℕ) → n < 50 → spinlock.next_round n ≡ spinlock.acquire n
more n h = ground arith

run_alone : (n : ℕ) → n ≤ 50 → spinlock.Steps spinlock.init (alone n)
run_alone zero h = spinlock.stay
run_alone (suc n) h =
    let before = rw (more n (omega arith)) at (run_alone n (omega arith)) in
    let entered = spinlock.then_step before (spinlock.step0 (spinlock.take refl)) in
    let loaded = spinlock.then_step entered (spinlock.step0 spinlock.load) in
    let stored = spinlock.then_step loaded (spinlock.step0 spinlock.store) in
    let sum : (n + 1) % 2 ^ 64 ≡ suc n = omega arith in
    let next : n + 1 ≡ suc n = omega arith in
    rw (sum, next) at (spinlock.then_step stored (spinlock.step0 spinlock.release))

run_after : (n : ℕ) → n ≤ 50 → spinlock.Steps spinlock.init (after n)
run_after zero h = run_alone 50 (omega arith)
run_after (suc n) h =
    let before = rw (more n (omega arith)) at (run_after n (omega arith)) in
    let entered = spinlock.then_step before (spinlock.step1 (spinlock.take refl)) in
    let loaded = spinlock.then_step entered (spinlock.step1 spinlock.load) in
    let stored = spinlock.then_step loaded (spinlock.step1 spinlock.store) in
    let sum : (50 + n + 1) % 2 ^ 64 ≡ 50 + suc n = omega arith in
    let next : n + 1 ≡ suc n = omega arith in
    rw (sum, next) at (spinlock.then_step stored (spinlock.step1 spinlock.release))

-- Hart 0 has the lock, and hart 1 has tried to take it.
abbrev contended : spinlock.System
contended = record {
  mem = record { lock = 1; shared_var = 0 };
  core0 = spinlock.entered 0;
  core1 = spinlock.acquire 0;
}

run_contended : spinlock.Steps spinlock.init contended
run_contended =
    spinlock.then_step (spinlock.then_step spinlock.stay (spinlock.step0 (spinlock.take refl)))
      (spinlock.step1 (spinlock.spin (omega arith)))

mutual_exclusion_example : holds contended.core0 + holds contended.core1 ≤ 1
mutual_exclusion_example = mutual_exclusion run_contended

spinlock_finishes_example : Finishes contended
spinlock_finishes_example = spinlock_finishes run_contended

-- Both harts after `n` rounds of the ping-pong.
abbrev both : ℕ → ping_pong.System
both n = record {
  mem = record { count = 2 * n; turn = 0 };
  core0 = ping_pong.next_round n;
  core1 = ping_pong.next_round n;
}

waits : (n : ℕ) → n < 100 → ping_pong.next_round n ≡ ping_pong.waiting n
waits n h = ground arith

run_both : (n : ℕ) → n ≤ 100 → ping_pong.Steps ping_pong.init (both n)
run_both zero h = ping_pong.stay
run_both (suc n) h =
    let before = rw (waits n (omega arith)) at (run_both n (omega arith)) in
    let seen0 = ping_pong.then_step before (ping_pong.step0 (ping_pong.see refl)) in
    let loaded0 = ping_pong.then_step seen0 (ping_pong.step0 ping_pong.load) in
    let stored0 = ping_pong.then_step loaded0 (ping_pong.step0 ping_pong.store) in
    let passed0 = ping_pong.then_step stored0 (ping_pong.step0 ping_pong.pass) in
    let seen1 = ping_pong.then_step passed0 (ping_pong.step1 (ping_pong.see refl)) in
    let loaded1 = ping_pong.then_step seen1 (ping_pong.step1 ping_pong.load) in
    let stored1 = ping_pong.then_step loaded1 (ping_pong.step1 ping_pong.store) in
    let sum : ((2 * n + 1) % 2 ^ 64 + 1) % 2 ^ 64 ≡ 2 * suc n = omega arith in
    let next : n + 1 ≡ suc n = omega arith in
    rw (sum, next) at (ping_pong.then_step stored1 (ping_pong.step1 ping_pong.pass))

ping_pong_count_lem_example : (both 100).mem.count ≡ 200
ping_pong_count_lem_example = ping_pong_count_lem (run_both 100 (omega arith)) refl refl

strict_alternation_example :
    (playing (both 3).core0 + playing (both 3).core1 ≤ 1)
    × (passed (both 3).core1 ≤ passed (both 3).core0)
    × (passed (both 3).core0 ≤ passed (both 3).core1 + 1)
strict_alternation_example = strict_alternation (run_both 3 (omega arith))

-- The test 1 has run and the test 2 is handed over.
abbrev second_waits : park.System
second_waits = record {
  mem = record { g_core1_smode_ready = 1; g_smode_target = 2 };
  core1 = park.parked;
  asked = 2 ∷ 1 ∷ [];
  ran = 1 ∷ [];
}

polite : Polite second_waits
polite =
    let ready = loop start park.signal_ready in
    let first = hand_over 1 (omega arith) refl refl ready in
    let called = loop (loop first (park.wake_up (omega arith))) park.call in
    let over = loop (loop called park.return) park.reset in hand_over 2 (omega arith) refl refl over

handed_over_order_example : second_waits.asked ≡ 2 ∷ 1 ∷ []
handed_over_order_example = handed_over_order polite

lost_wakeup_example : park.Steps park.init (record {
  mem = record { g_core1_smode_ready = 1; g_smode_target = 0 };
  core1 = park.parked;
  asked = 2 ∷ 1 ∷ [];
  ran = 1 ∷ [];
})
lost_wakeup_example = lost_wakeup 1 2 (omega arith) (omega arith)
