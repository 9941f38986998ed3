-- ===== src/Examples/ZephyrCores.antt =====
-- Runs of the two workers of the Zephyr suite, one after the other.
use zephyr_riscv_test_suite.Prelude.{
  ℕ, zero, suc, ◌+◌, ◌*◌, ◌%◌, ◌^◌, ◌<◌, ◌≤◌, ◌≡◌, ◌⊎◌, refl, arith,
}
use zephyr_riscv_test_suite.Zephyr.Cores.{System, Steps, stay, then_step, step_first, step_second}
use zephyr_riscv_test_suite.Zephyr.Cores.Increments.{
  Incrementer, incrementing, inc_round, Inc, atomic_inc, inc_start, inc_per_cpu, stress_counter_lem,
}
use zephyr_riscv_test_suite.Zephyr.Cores.Locked.{
  Guarded, Worker, locking, lock_ended, locked_round, Turn, k_spin_lock, load_counter,
  store_counter, k_spin_unlock, locked_start, locked_inc_per_cpu, inside, locked_counter_lem,
}
use zephyr_riscv_test_suite.Zephyr.Cores.Publish.{
  Buffer, filling, fill_ended, fill_round, checking, check_ended, check_round, spinning, put,
  Produce, fill_word, publish, Consume, see_flag, good_word, publish_start, buf_words,
  flag_never_seen, Filled, consumer_bad_words_lem,
}
use zephyr_riscv_test_suite.Zephyr.Cores.Semaphores.{
  Signals, Pinger, Ponger, giving_ping, all_pinged, ping_round, taking_ping, pong_ended, pong_round,
  Ping, give_ping, take_pong, Pong, take_ping, count_pong, give_pong, pingpong_start,
  pingpong_rounds, pings, pongs, pings_taken, pongs_taken, pong_rounds_lem,
}

abbrev incs : (counter m n : ℕ) → System ℕ Incrementer Incrementer
incs counter m n = record { mem = counter; first = inc_round m; second = inc_round n }

inc_more : (n : ℕ) → n < 100 → inc_round n ≡ incrementing n
inc_more n h = ground arith

first_incs : (n : ℕ) → n ≤ 100 → Steps Inc Inc inc_start (incs n n 0)
first_incs zero h = stay
first_incs (suc n) h =
    let before = rw (inc_more n (omega arith)) at (first_incs n (omega arith)) in
    let sum : (n + 1) % 2 ^ 64 ≡ suc n = omega arith in
    let next : n + 1 ≡ suc n = omega arith in
    rw (sum, next) at (then_step before (step_first atomic_inc))

both_incs : (n : ℕ) → n ≤ 100 → Steps Inc Inc inc_start (incs (100 + n) 100 n)
both_incs zero h = first_incs 100 (omega arith)
both_incs (suc n) h =
    let before = rw (inc_more n (omega arith)) at (both_incs n (omega arith)) in
    let sum : (100 + n + 1) % 2 ^ 64 ≡ 100 + suc n = omega arith in
    let next : n + 1 ≡ suc n = omega arith in
    rw (sum, next) at (then_step before (step_second atomic_inc))

stress_counter_lem_example : 200 ≡ 2 * inc_per_cpu
stress_counter_lem_example = stress_counter_lem (both_incs 100 (omega arith)) refl refl

abbrev locked : (counter m n : ℕ) → System Guarded Worker Worker
locked counter m n = record {
  mem = record { counter_lock = 0; locked_counter = counter };
  first = locked_round m;
  second = locked_round n;
}

locked_more : (n : ℕ) → n < 50 → locked_round n ≡ locking n
locked_more n h = ground arith

first_locked : (n : ℕ) → n ≤ 50 → Steps Turn Turn locked_start (locked n n 0)
first_locked zero h = stay
first_locked (suc n) h =
    let before = rw (locked_more n (omega arith)) at (first_locked n (omega arith)) in
    let held = then_step before (step_first (k_spin_lock refl)) in
    let stored = then_step (then_step held (step_first load_counter)) (step_first store_counter) in
    let next : n + 1 ≡ suc n = omega arith in
    rw next at (then_step stored (step_first k_spin_unlock))

both_locked : (n : ℕ) → n ≤ 50 → Steps Turn Turn locked_start (locked (50 + n) 50 n)
both_locked zero h = first_locked 50 (omega arith)
both_locked (suc n) h =
    let before = rw (locked_more n (omega arith)) at (both_locked n (omega arith)) in
    let held = then_step before (step_second (k_spin_lock refl)) in
    let stored =
      then_step (then_step held (step_second load_counter)) (step_second store_counter) in
    let sum : 50 + n + 1 ≡ 50 + suc n = omega arith in
    let next : n + 1 ≡ suc n = omega arith in
    rw (sum, next) at (then_step stored (step_second k_spin_unlock))

locked_counter_lem_example :
    (inside lock_ended + inside lock_ended ≤ 1)
    × (lock_ended ≡ lock_ended → lock_ended ≡ lock_ended → 100 ≡ 2 * locked_inc_per_cpu)
locked_counter_lem_example = locked_counter_lem (both_locked 50 (omega arith))

filled : ℕ → Buffer
filled zero = publish_start.mem
filled (suc n) = put n (filled n)

flag_of : (n : ℕ) → (filled n).publish_flag ≡ 0
unfolding filled
flag_of zero = refl
flag_of (suc n) = flag_of n

fill_more : (n : ℕ) → n < 64 → fill_round n ≡ filling n
fill_more n h = ground arith

filling_run :
    (n : ℕ)
    → n ≤ 64
    → Steps Produce Consume publish_start
        (record { mem = filled n; first = fill_round n; second = spinning 0 })
unfolding filled
filling_run zero h = stay
filling_run (suc n) h =
    let before = rw (fill_more n (omega arith)) at (filling_run n (omega arith)) in
    let next : n + 1 ≡ suc n = omega arith in rw next at (then_step before (step_first fill_word))

abbrev published : Buffer
published = record (filled 64) { publish_flag = 1 }

check_more : (n : ℕ) → n < 64 → check_round n ≡ checking n
check_more n h = ground arith

checking_run :
    (n : ℕ)
    → n ≤ 64
    → Steps Produce Consume publish_start
        (record { mem = published; first = fill_ended; second = check_round n })
checking_run zero h =
    then_step (then_step (filling_run 64 (omega arith)) (step_first publish))
      (step_second (see_flag (λ e. omega (arith, e))))
checking_run (suc n) h =
    let before = rw (check_more n (omega arith)) at (checking_run n (omega arith)) in
    let good = (consumer_bad_words_lem before).2 refl n (omega arith) in
    let next : n + 1 ≡ suc n = omega arith in
    rw next at (then_step before (step_second (good_word good)))

consumer_bad_words_lem_example :
    (check_ended ≡ check_ended
      → (published.consumer_bad_words ≡ 0) ⊎ (published.consumer_bad_words ≡ flag_never_seen))
    × ((i : ℕ) → check_ended ≡ checking i → Filled published.shared_buf buf_words)
    × (fill_ended ≡ fill_ended → Filled published.shared_buf buf_words)
consumer_bad_words_lem_example = consumer_bad_words_lem (checking_run 64 (omega arith))

abbrev rounds : ℕ → System Signals Pinger Ponger
rounds n = record {
  mem = record { ping_sem = 0; pong_sem = 0; pong_rounds = n };
  first = ping_round n;
  second = pong_round n;
}

ping_more : (n : ℕ) → n < 20 → ping_round n ≡ giving_ping n
ping_more n h = ground arith

pong_more : (n : ℕ) → n < 20 → pong_round n ≡ taking_ping n
pong_more n h = ground arith

pingpong_run : (n : ℕ) → n ≤ 20 → Steps Ping Pong pingpong_start (rounds n)
pingpong_run zero h = stay
pingpong_run (suc n) h =
    let before =
      rw (ping_more n (omega arith), pong_more n (omega arith)) at (pingpong_run n (omega arith)) in
    let pinged =
      then_step (then_step before (step_first give_ping)) (step_second (take_ping refl)) in
    let ponged = then_step (then_step pinged (step_second count_pong)) (step_second give_pong) in
    let next : n + 1 ≡ suc n = omega arith in
    rw next at (then_step ponged (step_first (take_pong refl)))

pong_rounds_lem_example :
    (0 ≤ 1)
    × (0 ≤ 1)
    × (pings all_pinged ≡ pings_taken (pong_ended 20) + 0)
    × (pongs (pong_ended 20) ≡ pongs_taken all_pinged + 0)
    × (all_pinged ≡ all_pinged → 20 ≡ pingpong_rounds)
pong_rounds_lem_example = pong_rounds_lem (pingpong_run 20 (omega arith))
