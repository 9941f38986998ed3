-- ===== src/DualCore/PingPong/Safety.antt =====
-- The harts alternate strictly, and the final count is that of both.
use zephyr_riscv_test_suite.Prelude.{
  ℕ, ◌+◌, ◌-◌, ◌*◌, ◌≤◌, ◌<◌, ◌≡◌, ◌⊎◌, ◌∙◌, sym, ap, refl, arith, Bool-cases, inl, inr, ◌==◌,
}
use zephyr_riscv_test_suite.DualCore.PingPong.{
  Shared, Pc, waiting, my_turn, loaded, passing, finished, Move, spin, see, load, store, pass,
  System, Step, step0, step1, init, Steps, stay, then_step, next_round, ping_pong_count,
}

-- Between the wait for the turn and the write that passes it.
abbrev pub playing : Pc → ℕ
playing (my_turn i) = 1
playing (loaded i temp) = 1
playing (passing i) = 1
playing _ = 0

-- The increments stored, and the turns passed, by a hart.
abbrev pub stored : Pc → ℕ
stored (waiting i) = i
stored (my_turn i) = i
stored (loaded i temp) = i
stored (passing i) = i + 1
stored finished = ping_pong_count

abbrev pub passed : Pc → ℕ
passed (waiting i) = i
passed (my_turn i) = i
passed (loaded i temp) = i
passed (passing i) = i
passed finished = ping_pong_count

abbrev pub IsFresh : ℕ → Pc → Type 0
IsFresh count (loaded i temp) = count ≡ temp
IsFresh count _ = Unit

abbrev pub InLoop : Pc → Type 0
InLoop (waiting i) = i < ping_pong_count
InLoop (my_turn i) = i < ping_pong_count
InLoop (loaded i temp) = i < ping_pong_count
InLoop (passing i) = i < ping_pong_count
InLoop finished = Unit

-- What holds of the hart that plays at turn `me`.
pub record Player (me : ℕ) (m : Shared) (p : Pc) : Type 0 where
  pub holder : playing p ≡ 1 → m.turn ≡ me
  pub fresh : IsFresh m.count p
  pub in_loop : InLoop p

pub record Inv (s : System) : Type 0 where
  pub player0 : Player 0 s.mem s.core0
  pub player1 : Player 1 s.mem s.core1
  pub total : s.mem.count ≡ stored s.core0 + stored s.core1
  -- Hart 0 is ahead by one exactly while it is the turn of hart 1.
  pub alternate : passed s.core0 ≡ passed s.core1 + s.mem.turn
  pub one_turn : s.mem.turn ≤ 1

next_round_lem :
    (i : ℕ)
    → i < ping_pong_count
    → (playing (next_round (i + 1)) ≡ 0)
      × (stored (next_round (i + 1)) ≡ i + 1)
      × (passed (next_round (i + 1)) ≡ i + 1)
      × InLoop (next_round (i + 1))
next_round_lem i h = elim (Bool-cases (i + 1 == ping_pong_count)) [
  | inl last ↦ rw last (refl, ground arith, ground arith, tt)
  | inr more ↦ rw more (refl, refl, refl, ground arith)
]

IsFresh-outside : (v : ℕ) (q : Pc) → playing q ≡ 0 → IsFresh v q
IsFresh-outside v (loaded i temp) h = absurd (omega arith)
IsFresh-outside v (waiting i) h = tt
IsFresh-outside v _ h = tt

playing-le : (q : Pc) → (playing q ≡ 0) ⊎ (playing q ≡ 1)
playing-le (waiting i) = inl refl
playing-le finished = inl refl
playing-le _ = inr refl

stored-le : (q : Pc) → InLoop q → stored q ≤ ping_pong_count
stored-le (waiting i) h = omega arith
stored-le finished h = omega arith
stored-le _ h = omega arith

-- What a move of one hart keeps, with the other at `q`.
record Kept (me : ℕ) (m m' : Shared) (p p' q : Pc) : Type 0 where
  mine : Player me m' p'
  others : Player (1 - me) m' q
  added : m'.count + stored p ≡ m.count + stored p'
  handed :
      (m'.turn ≡ m.turn) × (passed p' ≡ passed p)
      ⊎ (m.turn ≡ me) × (m'.turn ≡ 1 - me) × (passed p' ≡ passed p + 1)

Move-Kept :
    (me : ℕ) {m m' : Shared} {p p' : Pc} (q : Pc)
    → me ≤ 1
    → m.count ≡ stored p + stored q
    → Move me m p m' p'
    → Player me m p
    → Player (1 - me) m q
    → Kept me m m' p p' q
Move-Kept me q b c (spin h) a o = record {
  mine = a;
  others = o;
  added = refl;
  handed = inl (refl, refl);
}
Move-Kept me q b c (see h) a o = record {
  mine = record { holder = λ _. h; fresh = tt; in_loop = a.in_loop };
  others = o;
  added = refl;
  handed = inl (refl, refl);
}
Move-Kept me q b c load a o = record {
  mine = record { holder = a.holder; fresh = refl; in_loop = a.in_loop };
  others = o;
  added = refl;
  handed = inl (refl, refl);
}
Move-Kept me {m} q b c store a o = record {
  mine = record { holder = a.holder; fresh = tt; in_loop = a.in_loop };
  others = record { holder = o.holder; fresh = IsFresh-outside _ q idle; in_loop = o.in_loop };
  added = omega (arith, a.fresh, stored-le q o.in_loop, a.in_loop);
  handed = inl (refl, refl);
}
  where
    idle : playing q ≡ 0
    idle = elim (playing-le q) [
      | inl out ↦ out
      | inr in_play ↦ absurd (omega (arith, a.holder refl, o.holder in_play))
    ]
Move-Kept me q b c (pass {i}) a o =
    let n = next_round_lem i a.in_loop in
    record {
      mine = record {
        holder = λ e. absurd (omega (arith, n.0));
        fresh = IsFresh-outside _ (next_round (i + 1)) n.0;
        in_loop = n.3;
      };
      others = record { holder = λ e. refl; fresh = o.fresh; in_loop = o.in_loop };
      added = omega (arith, n.1);
      handed = inr (a.holder refl, refl, omega (arith, n.2));
    }

Step-Inv : {s t : System} → Step s t → Inv s → Inv t
Step-Inv {s} (step0 {m} {p} mv) v =
    let k = Move-Kept 0 s.core1 (omega arith) v.total mv v.player0 v.player1 in
    record {
      player0 = k.mine;
      player1 = k.others;
      total = omega (arith, k.added, v.total);
      alternate = ground (arith, k.handed, v.alternate);
      one_turn = ground (arith, k.handed, v.one_turn);
    }
Step-Inv {s} (step1 {m} {p} mv) v =
    let k = Move-Kept 1 s.core0 (omega arith) (omega (arith, v.total)) mv v.player1 v.player0 in
    record {
      player0 = k.others;
      player1 = k.mine;
      total = omega (arith, k.added, v.total);
      alternate = ground (arith, k.handed, v.alternate);
      one_turn = ground (arith, k.handed, v.one_turn);
    }

pub Steps-Inv : {s : System} → Steps init s → Inv s
Steps-Inv stay = record {
  player0 = record { holder = λ e. refl; fresh = tt; in_loop = omega arith };
  player1 = record { holder = λ e. absurd (omega arith); fresh = tt; in_loop = omega arith };
  total = refl;
  alternate = refl;
  one_turn = omega arith;
}
Steps-Inv (then_step r st) = Step-Inv st (Steps-Inv r)

passed-le : (q : Pc) → InLoop q → passed q ≤ ping_pong_count
passed-le (waiting i) h = omega arith
passed-le finished h = omega arith
passed-le _ h = omega arith

all_stored : (q : Pc) → InLoop q → passed q ≡ ping_pong_count → stored q ≡ ping_pong_count
all_stored (passing i) h e = absurd (omega arith)
all_stored finished h e = refl
all_stored (waiting i) h e = e
all_stored (my_turn i) h e = e
all_stored (loaded i temp) h e = e

-- In every reachable state in which hart 0 has finished its rounds and the turn is back at 0, the
-- count is the number of rounds of both harts.
pub ping_pong_count_lem :
    {s : System}
    → Steps init s
    → s.core0 ≡ finished
    → s.mem.turn ≡ 0
    → s.mem.count ≡ ping_pong_count * 2
ping_pong_count_lem {s} r done back =
    let v = Steps-Inv r in
    let stored0 = v.total ∙ ap (λ q. stored q + stored s.core1) done in
    let passed0 = sym (ap passed done) ∙ v.alternate in
    let stored1 = all_stored s.core1 v.player1.in_loop (omega (arith, passed0, back)) in
    omega (arith, stored0, stored1)

-- In every reachable state at most one hart is between its turn's start and its passing on, and
-- hart 0 has passed the turn as often as hart 1, or once more.
pub strict_alternation :
    {s : System}
    → Steps init s
    → (playing s.core0 + playing s.core1 ≤ 1)
      × (passed s.core1 ≤ passed s.core0)
      × (passed s.core0 ≤ passed s.core1 + 1)
strict_alternation {s} r =
    let v = Steps-Inv r in
    (
      elim (playing-le s.core0) [
        | inl out0 ↦ elim (playing-le s.core1) [
          | inl out1 ↦ omega (arith, out0, out1)
          | inr in1 ↦ omega (arith, out0, in1)
        ]
        | inr in0 ↦ elim (playing-le s.core1) [
          | inl out1 ↦ omega (arith, in0, out1)
          | inr in1 ↦ absurd (omega (arith, v.player0.holder in0, v.player1.holder in1))
        ]
      ],
      omega (arith, v.alternate),
      omega (arith, v.alternate, v.one_turn),
    )
