-- ===== src/Examples/Handshakes.antt =====
-- Runs of the counter and of the payload behind the flag.
use zephyr_riscv_test_suite.Prelude.{ℕ, zero, suc, ◌+◌, ◌%◌, ◌^◌, ◌<◌, ◌≤◌, ◌≡◌, ◌≢◌, refl, arith}
use zephyr_riscv_test_suite.DualCore.Counter as counter
use zephyr_riscv_test_suite.DualCore.Fence as fence
use zephyr_riscv_test_suite.DualCore.Counter.Total.{shared_counter_lem}
use zephyr_riscv_test_suite.DualCore.Fence.Handover.{fence_ok_lem, producer_hangs, hung}

-- Hart 0 alone, and then hart 1, after `n` rounds.
abbrev alone : ℕ → counter.System
alone n = record {
  mem = record { shared_counter = n; core1_atomic_done = 0 };
  core0 = counter.next_round n;
  core1 = counter.adding 0;
}

abbrev after : ℕ → counter.System
after n = record {
  mem = record { shared_counter = 100 + n; core1_atomic_done = 0 };
  core0 = counter.behind;
  core1 = counter.next_round n;
}

more : (n : ℕ) → n < 100 → counter.next_round n ≡ counter.adding n
more n h = ground arith

run_alone : (n : ℕ) → n ≤ 100 → counter.Steps counter.init (alone n)
run_alone zero h = counter.stay
run_alone (suc n) h =
    let before = rw (more n (omega arith)) at (run_alone n (omega arith)) in
    let sum : (n + 1) % 2 ^ 64 ≡ suc n = omega arith in
    let next : n + 1 ≡ suc n = omega arith in
    rw (sum, next) at (counter.then_step before (counter.step0 (counter.loop0 counter.amo_add)))

run_after : (n : ℕ) → n ≤ 100 → counter.Steps counter.init (after n)
run_after zero h = run_alone 100 (omega arith)
run_after (suc n) h =
    let before = rw (more n (omega arith)) at (run_after n (omega arith)) in
    let sum : (100 + n + 1) % 2 ^ 64 ≡ 100 + suc n = omega arith in
    let next : n + 1 ≡ suc n = omega arith in
    rw (sum, next) at (counter.then_step before (counter.step1 (counter.loop1 counter.amo_add)))

abbrev counted : counter.System
counted = record {
  mem = record { shared_counter = 200; core1_atomic_done = 1 };
  core0 = counter.ended;
  core1 = counter.ended;
}

run_counted : counter.Steps counter.init counted
run_counted =
    counter.then_step
      (counter.then_step (run_after 100 (omega arith)) (counter.step1 counter.signal))
      (counter.step0 (counter.leave refl))

shared_counter_lem_example : counted.mem.shared_counter ≡ 200
shared_counter_lem_example = shared_counter_lem run_counted refl

-- Part A, up to the assertion of hart 0.
abbrev handed_over : fence.System
handed_over = record {
  mem = record {
    fence_payload = 0xDEADBEEF;
    fence_expected = 0xDEADBEEF;
    fence_flag = 1;
    fence_done = 1;
    fence_ok = 1;
  };
  producer = fence.over;
  consumer = fence.told;
  cleared = 0;
}

raised : handed_over.mem.fence_flag ≢ 0
raised = λ e. absurd (omega arith)

run_handed_over : fence.Steps fence.part_a fence.init handed_over
run_handed_over =
    let put : fence.Steps fence.part_a fence.init _ =
      fence.then_step fence.stay (fence.produce fence.put) in
    let sent = fence.then_step put (fence.produce fence.raise) in
    let seen = fence.then_step sent (fence.consume (fence.see raised)) in
    let read = fence.then_step seen (fence.consume fence.read) in
    let compared = fence.then_step read (fence.consume fence.compare) in
    let told = fence.then_step compared (fence.consume fence.signal) in
    fence.then_step told (fence.produce (fence.leave refl))

fence_ok_lem_example : handed_over.mem.fence_ok ≡ 1
fence_ok_lem_example = fence_ok_lem run_handed_over refl fence.produced

unset : hung.mem.fence_done ≢ 1
unset = λ e. absurd (omega arith)

-- Hart 1 looks at `fence_done` once more.
producer_hangs_example : fence.Steps fence.part_b fence.init hung × (hung ≡ hung)
producer_hangs_example =
    producer_hangs (fence.then_step fence.stay (fence.produce (fence.spin unset)))
