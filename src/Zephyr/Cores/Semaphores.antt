-- ===== src/Zephyr/Cores/Semaphores.antt =====
-- P4.5: the test and its worker take turns by two semaphores with the limit 1. A take succeeds where the
-- count is 1, and may time out where it is 0.
use zephyr_riscv_test_suite.Prelude.{
  ℕ, ◌+◌, ◌≤◌, ◌≡◌, ◌==◌, ap, refl, arith, Bool-cases, inl, inr, if◌then◌else◌, min,
}
use zephyr_riscv_test_suite.Zephyr.Cores.{System, Steps, Steps-keep}

abbrev pub pingpong_rounds : ℕ
pingpong_rounds = 20

pub record Signals : Type 0 where
  pub ping_sem : ℕ
  pub pong_sem : ℕ
  pub pong_rounds : ℕ

-- The test, in round `i`: before its give, before its take; behind a failed take, or behind its loop.
pub data Pinger : Type 0 where
  giving_ping : (i : ℕ) → Pinger
  taking_pong : (i : ℕ) → Pinger
  no_pong : (i : ℕ) → Pinger
  all_pinged : Pinger

abbrev pub ping_round : ℕ → Pinger
ping_round i = if i == pingpong_rounds then all_pinged else giving_ping i

-- The worker, in round `i`: before its take, before the count, before its give; or at its end, with `i`
-- rounds behind it.
pub data Ponger : Type 0 where
  taking_ping : (i : ℕ) → Ponger
  counting : (i : ℕ) → Ponger
  giving_pong : (i : ℕ) → Ponger
  pong_ended : (i : ℕ) → Ponger

abbrev pub pong_round : ℕ → Ponger
pong_round i = if i == pingpong_rounds then pong_ended i else taking_ping i

pub data Ping (m : Signals) : Pinger → Signals → Pinger → Type 0 where
  give_ping :
      {i : ℕ}
      → Ping m (giving_ping i) (record m { ping_sem = min (m.ping_sem + 1) 1 }) (taking_pong i)
  take_pong :
      {i : ℕ}
      → m.pong_sem ≡ 1
      → Ping m (taking_pong i) (record m { pong_sem = 0 }) (ping_round (i + 1))
  miss_pong : {i : ℕ} → m.pong_sem ≡ 0 → Ping m (taking_pong i) m (no_pong i)

pub data Pong (m : Signals) : Ponger → Signals → Ponger → Type 0 where
  take_ping :
      {i : ℕ} → m.ping_sem ≡ 1 → Pong m (taking_ping i) (record m { ping_sem = 0 }) (counting i)
  miss_ping : {i : ℕ} → m.ping_sem ≡ 0 → Pong m (taking_ping i) m (pong_ended i)
  count_pong :
      {i : ℕ} → Pong m (counting i) (record m { pong_rounds = m.pong_rounds + 1 }) (giving_pong i)
  give_pong :
      {i : ℕ}
      → Pong m (giving_pong i) (record m { pong_sem = min (m.pong_sem + 1) 1 }) (pong_round (i + 1))

abbrev pub pingpong_start : System Signals Pinger Ponger
pingpong_start = record {
  mem = record { ping_sem = 0; pong_sem = 0; pong_rounds = 0 };
  first = ping_round 0;
  second = pong_round 0;
}

-- How often each has given and taken.
abbrev pub pings : Pinger → ℕ
pings (giving_ping i) = i
pings (taking_pong i) = i + 1
pings (no_pong i) = i + 1
pings all_pinged = pingpong_rounds

abbrev pub pongs_taken : Pinger → ℕ
pongs_taken (giving_ping i) = i
pongs_taken (taking_pong i) = i
pongs_taken (no_pong i) = i
pongs_taken all_pinged = pingpong_rounds

abbrev pub pings_taken : Ponger → ℕ
pings_taken (taking_ping i) = i
pings_taken (counting i) = i + 1
pings_taken (giving_pong i) = i + 1
pings_taken (pong_ended i) = i

abbrev pub pongs : Ponger → ℕ
pongs (taking_ping i) = i
pongs (counting i) = i
pongs (giving_pong i) = i
pongs (pong_ended i) = i

abbrev pongs_counted : Ponger → ℕ
pongs_counted (taking_ping i) = i
pongs_counted (counting i) = i
pongs_counted (giving_pong i) = i + 1
pongs_counted (pong_ended i) = i

record Inv (m : Signals) (p : Pinger) (q : Ponger) : Type 0 where
  ping_count : pings p ≡ pings_taken q + m.ping_sem
  pong_count : pongs q ≡ pongs_taken p + m.pong_sem
  rounds : m.pong_rounds ≡ pongs_counted q

ping_round_lem : (i : ℕ) → (pings (ping_round i) ≡ i) × (pongs_taken (ping_round i) ≡ i)
ping_round_lem i = elim (Bool-cases (i == pingpong_rounds)) [
  | inl last ↦ rw last (ground arith, ground arith)
  | inr more ↦ rw more (refl, refl)
]

pong_round_lem :
    (i : ℕ)
    → (pings_taken (pong_round i) ≡ i)
      × (pongs (pong_round i) ≡ i)
      × (pongs_counted (pong_round i) ≡ i)
pong_round_lem i = elim (Bool-cases (i == pingpong_rounds)) [
  | inl last ↦ rw last (refl, refl, refl)
  | inr more ↦ rw more (refl, refl, refl)
]

-- The worker gives no more than it has taken, and counts in between.
pongs-le :
    (q : Ponger)
    → (pongs q ≤ pings_taken q) × (pongs q ≤ pongs_counted q) × (pongs_counted q ≤ pings_taken q)
pongs-le (taking_ping i) = (omega arith, omega arith, omega arith)
pongs-le (counting i) = (omega arith, omega arith, omega arith)
pongs-le (giving_pong i) = (omega arith, omega arith, omega arith)
pongs-le (pong_ended i) = (omega arith, omega arith, omega arith)

pings-le : (p : Pinger) → pings p ≤ pongs_taken p + 1
pings-le (giving_ping i) = omega arith
pings-le (taking_pong i) = omega arith
pings-le (no_pong i) = omega arith
pings-le all_pinged = omega arith

Ping-Inv : {m m' : Signals} {p p' : Pinger} (q : Ponger) → Ping m p m' p' → Inv m p q → Inv m' p' q
Ping-Inv q give_ping v =
    let few = pongs-le q in
    record {
      ping_count = omega (arith, v.ping_count, v.pong_count, few.0);
      pong_count = v.pong_count;
      rounds = v.rounds;
    }
Ping-Inv q (take_pong {i} full) v =
    let n = ping_round_lem (i + 1) in
    record {
      ping_count = omega (arith, n.0, v.ping_count);
      pong_count = omega (arith, n.1, v.pong_count, full);
      rounds = v.rounds;
    }
Ping-Inv q (miss_pong empty) v = record {
  ping_count = v.ping_count;
  pong_count = v.pong_count;
  rounds = v.rounds;
}

Pong-Inv : {m m' : Signals} {q q' : Ponger} (p : Pinger) → Pong m q m' q' → Inv m p q → Inv m' p q'
Pong-Inv p (take_ping full) v = record {
  ping_count = omega (arith, v.ping_count, full);
  pong_count = v.pong_count;
  rounds = v.rounds;
}
Pong-Inv p (miss_ping empty) v = record {
  ping_count = v.ping_count;
  pong_count = v.pong_count;
  rounds = v.rounds;
}
Pong-Inv p count_pong v = record {
  ping_count = v.ping_count;
  pong_count = v.pong_count;
  rounds = omega (arith, v.rounds);
}
Pong-Inv p (give_pong {i}) v =
    let n = pong_round_lem (i + 1) in
    let few = pings-le p in
    record {
      ping_count = omega (arith, n.0, v.ping_count);
      pong_count = omega (arith, n.1, v.pong_count, v.ping_count, few);
      rounds = omega (arith, n.2, v.rounds);
    }

-- Wherever the test and its worker come, with takes that time out or not, no give is lost at a full
-- semaphore: each holds the gives that have not been taken, and at most one. And where the test has
-- passed its last round, the worker has counted every round.
pub pong_rounds_lem :
    {s : System Signals Pinger Ponger}
    → Steps Ping Pong pingpong_start s
    → (s.mem.ping_sem ≤ 1)
      × (s.mem.pong_sem ≤ 1)
      × (pings s.first ≡ pings_taken s.second + s.mem.ping_sem)
      × (pongs s.second ≡ pongs_taken s.first + s.mem.pong_sem)
      × (s.first ≡ all_pinged → s.mem.pong_rounds ≡ pingpong_rounds)
pong_rounds_lem {s} r =
    let v =
      Steps-keep Ping Pong Inv (λ m m' p p' q mv. Ping-Inv q mv) (λ m m' p q q' mv. Pong-Inv p mv) r
        (record { ping_count = refl; pong_count = refl; rounds = refl }) in
    let worker = pongs-le s.second in
    let test = pings-le s.first in
    (
      omega (arith, v.ping_count, v.pong_count, worker.0, test),
      omega (arith, v.ping_count, v.pong_count, worker.0, test),
      v.ping_count,
      v.pong_count,
      λ ended. omega (
        arith,
        v.ping_count,
        v.pong_count,
        v.rounds,
        worker.0,
        worker.1,
        worker.2,
        ap pings ended,
        ap pongs_taken ended,
      ),
    )
