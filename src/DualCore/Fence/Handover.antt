-- ===== src/DualCore/Fence/Handover.antt =====
-- The consumer sees the payload, in both parts; in part B the producer may never see the end.
use zephyr_riscv_test_suite.Prelude.{ℕ, ◌≡◌, ◌≢◌, ◌==◌, refl, arith, if◌then◌else◌, subst, sym}
use zephyr_riscv_test_suite.DualCore.Fence.{
  Shared, Producer, putting, awaiting, over, Consumer, polling, reading, comparing, told, Produce,
  put, raise, spin, leave, Consume, poll, see, read, compare, signal, Part, part_b, System, zeroed,
  AtAssert, produced, consumed, Step, produce, consume, clear, init, Steps, stay, then_step,
}

abbrev Put : Shared → Producer → Type 0
Put m putting = Unit
Put m over = m.fence_ok ≡ 1
Put m _ = m.fence_payload ≡ m.fence_expected

abbrev Seen : Shared → Consumer → Type 0
Seen m polling = Unit
Seen m reading = m.fence_payload ≡ m.fence_expected
Seen m (comparing payload) = payload ≡ m.fence_expected
Seen m _ = m.fence_ok ≡ 1

record Inv (m : Shared) (p : Producer) (c : Consumer) : Type 0 where
  put_before : Put m p
  flagged : m.fence_flag ≢ 0 → m.fence_payload ≡ m.fence_expected
  seen : Seen m c
  done : m.fence_done ≡ 1 → m.fence_ok ≡ 1

Seen-put :
    (m : Shared) (c : Consumer) → Seen m c → Seen (record m { fence_payload = m.fence_expected }) c
Seen-put m reading h = refl
Seen-put m polling h = tt
Seen-put m _ h = h

Seen-raise : (m : Shared) (c : Consumer) → Seen m c → Seen (record m { fence_flag = 1 }) c
Seen-raise m polling h = tt
Seen-raise m _ h = h

Put-compare :
    (m : Shared) (p : Producer) (ok : ℕ) → ok ≡ 1 → Put m p → Put (record m { fence_ok = ok }) p
Put-compare m putting ok e h = tt
Put-compare m over ok e h = e
Put-compare m _ ok e h = h

Put-signal : (m : Shared) (p : Producer) → Put m p → Put (record m { fence_done = 1 }) p
Put-signal m putting h = tt
Put-signal m _ h = h

Produce-Inv :
    {m m' : Shared} {p p' : Producer} (c : Consumer) → Produce m p m' p' → Inv m p c → Inv m' p' c
Produce-Inv {m} c put v = record {
  put_before = refl;
  flagged = λ f. refl;
  seen = Seen-put m c v.seen;
  done = v.done;
}
Produce-Inv {m} c raise v = record {
  put_before = v.put_before;
  flagged = λ f. v.put_before;
  seen = Seen-raise m c v.seen;
  done = v.done;
}
Produce-Inv c (spin ne) v = v
Produce-Inv c (leave e) v = record {
  put_before = v.done e;
  flagged = v.flagged;
  seen = v.seen;
  done = v.done;
}

Consume-Inv :
    {m m' : Shared} {c c' : Consumer} (p : Producer) → Consume m c m' c' → Inv m p c → Inv m' p c'
Consume-Inv p (poll e) v = v
Consume-Inv p (see ne) v = record {
  put_before = v.put_before;
  flagged = v.flagged;
  seen = v.flagged ne;
  done = v.done;
}
Consume-Inv p read v = record {
  put_before = v.put_before;
  flagged = v.flagged;
  seen = v.seen;
  done = v.done;
}
Consume-Inv {m} p (compare {payload}) v = record {
  put_before = Put-compare m p _ equal v.put_before;
  flagged = v.flagged;
  seen = equal;
  done = λ e. equal;
}
  where
    equal : (let ok : ℕ = if payload == m.fence_expected then 1 else 0 in ok ≡ 1)
    equal = ground (arith, v.seen)
Consume-Inv {m} p signal v = record {
  put_before = Put-signal m p v.put_before;
  flagged = v.flagged;
  seen = v.seen;
  done = λ e. v.seen;
}

Uncleared : System → Type 0
Uncleared s = s.cleared ≡ 0 → Inv s.mem s.producer s.consumer

Step-Uncleared : {part : Part} {s t : System} → Step part s t → Uncleared s → Uncleared t
unfolding Uncleared
Step-Uncleared {s} (produce mv) v = λ e. Produce-Inv s.consumer mv (v e)
Step-Uncleared {s} (consume mv) v = λ e. Consume-Inv s.producer mv (v e)
Step-Uncleared (clear z at) v = λ e. absurd (omega arith)

Steps-Uncleared : {part : Part} {s : System} → Steps part init s → Uncleared s
unfolding Uncleared
Steps-Uncleared stay = λ e. record {
  put_before = tt;
  flagged = λ f. absurd (f refl);
  seen = tt;
  done = λ d. absurd (omega arith);
}
Steps-Uncleared (then_step r st) = Step-Uncleared st (Steps-Uncleared r)

AtAssert-ok :
    {part : Part} {m : Shared} {p : Producer} {c : Consumer}
    → AtAssert part p c
    → Inv m p c
    → m.fence_ok ≡ 1
AtAssert-ok produced v = v.put_before
AtAssert-ok consumed v = v.seen

-- In both parts, in every reachable state in which hart 0 has come to its assertion and has not yet
-- cleared `g_p4`, `fence_ok` is 1: the consumer has read the payload that was put.
pub fence_ok_lem :
    {part : Part} {s : System}
    → Steps part init s
    → s.cleared ≡ 0
    → AtAssert part s.producer s.consumer
    → s.mem.fence_ok ≡ 1
unfolding Uncleared
fence_ok_lem r z at = AtAssert-ok at (Steps-Uncleared r z)

-- Hart 0 is through with part B and has cleared `g_p4`; hart 1 waits for `fence_done`.
abbrev pub hung : System
hung = record { mem = zeroed; producer = awaiting; consumer = told; cleared = 1 }

Produce-hung :
    {m : Shared} {p : Producer}
    → Produce zeroed awaiting m p
    → record { mem = m; producer = p; consumer = told; cleared = 1 } ≡ hung
Produce-hung (spin ne) = refl
Produce-hung (leave e) = absurd (omega arith)

Step-hung : {t : System} → Step part_b hung t → t ≡ hung
Step-hung (produce mv) = Produce-hung mv
Step-hung (consume mv) = elim mv [ ]
Step-hung (clear z at) = absurd (omega arith)

Steps-hung : {s : System} → Steps part_b hung s → s ≡ hung
Steps-hung stay = refl
Steps-hung {s} (then_step r st) = Step-hung (subst (λ u. Step part_b u s) (Steps-hung r) st)

flag_up : (record zeroed { fence_flag = 1 }).fence_flag ≢ 0
flag_up = λ e. absurd (omega arith)

run_hung : Steps part_b init hung
run_hung =
    let put_it = then_step (then_step stay (produce put)) (produce raise) in
    let read_it = then_step (then_step put_it (consume (see flag_up))) (consume read) in
    let told_it = then_step (then_step read_it (consume compare)) (consume signal) in
    then_step told_it (clear refl consumed)

-- In part B a state can be reached in which hart 1 waits for the `fence_done` that hart 0 has
-- cleared, and every run from there stays in that state.
pub producer_hangs : {s : System} → Steps part_b hung s → Steps part_b init s × (s ≡ hung)
producer_hangs r = (subst (λ u. Steps part_b init u) (sym (Steps-hung r)) run_hung, Steps-hung r)
