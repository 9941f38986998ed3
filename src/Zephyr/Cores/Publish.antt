-- ===== src/Zephyr/Cores/Publish.antt =====
-- P4.2 and its reverse: a buffer is filled and then published by a flag.
use zephyr_riscv_test_suite.Prelude.{
  ℕ, ◌+◌, ◌-◌, ◌*◌, ◌%◌, ◌^◌, ◌≤◌, ◌<◌, ◌≡◌, ◌≢◌, ◌⊎◌, ◌==◌, ◌∙◌, ap, subst, refl, arith, sym,
  Bool-cases, ==_iff, inl, inr, if◌then◌else◌,
}
use zephyr_riscv_test_suite.Word.{u32, ◌∣∣◌}
use zephyr_riscv_test_suite.Zephyr.Cores.{System, Steps, Steps-keep}

abbrev pub buf_words : ℕ
buf_words = 64

abbrev pub spin_limit : ℕ
spin_limit = 10 * 1000 * 1000

-- -1, as an `int`.
abbrev pub flag_never_seen : ℕ
flag_never_seen = 2 ^ 32 - 1

pub record Buffer : Type 0 where
  pub shared_buf : ℕ → ℕ
  pub publish_flag : ℕ
  pub consumer_bad_words : ℕ

abbrev pub code_word : ℕ → ℕ
code_word i = u32 (0xC0DE0000 ∣∣ i)

pub data Filler : Type 0 where
  filling : (i : ℕ) → Filler
  publishing : Filler
  fill_ended : Filler

abbrev pub fill_round : ℕ → Filler
fill_round i = if i == buf_words then publishing else filling i

pub data Checker : Type 0 where
  spinning : (spins : ℕ) → Checker
  checking : (i : ℕ) → Checker
  check_ended : Checker

abbrev pub check_round : ℕ → Checker
check_round i = if i == buf_words then check_ended else checking i

abbrev pub put : ℕ → Buffer → Buffer
put i m = record m { shared_buf = λ j. if j == i then code_word i else m.shared_buf j }

-- `producer_entry`.
pub data Produce (m : Buffer) : Filler → Buffer → Filler → Type 0 where
  fill_word : {i : ℕ} → Produce m (filling i) (put i m) (fill_round (i + 1))
  publish : Produce m publishing (record m { publish_flag = 1 }) fill_ended

-- `consumer_entry`.
pub data Consume (m : Buffer) : Checker → Buffer → Checker → Type 0 where
  spin :
      {n : ℕ}
      → m.publish_flag ≡ 0
      → n + 1 ≤ spin_limit
      → Consume m (spinning n) m (spinning (n + 1))
  give_up :
      {n : ℕ}
      → m.publish_flag ≡ 0
      → spin_limit < n + 1
      → Consume m (spinning n) (record m { consumer_bad_words = flag_never_seen }) check_ended
  see_flag : {n : ℕ} → m.publish_flag ≢ 0 → Consume m (spinning n) m (check_round 0)
  good_word :
      {i : ℕ} → m.shared_buf i ≡ code_word i → Consume m (checking i) m (check_round (i + 1))
  bad_word :
      {i : ℕ}
      → m.shared_buf i ≢ code_word i
      → Consume m
          (checking i)
          (record m { consumer_bad_words = (m.consumer_bad_words + 1) % 2 ^ 32 })
          (check_round (i + 1))

abbrev pub publish_start : System Buffer Filler Checker
publish_start = record {
  mem = record { shared_buf = λ i. 0; publish_flag = 0; consumer_bad_words = 0 };
  first = fill_round 0;
  second = spinning 0;
}

abbrev pub Filled : (ℕ → ℕ) → ℕ → Type 0
Filled buf n = (j : ℕ) → j < n → buf j ≡ code_word j

-- What the producer has written, and that it has not published it yet.
abbrev Fills : Filler → Buffer → Type 0
Fills (filling i) m = (i < buf_words) × Filled m.shared_buf i × (m.publish_flag ≡ 0)
Fills publishing m = Filled m.shared_buf buf_words × (m.publish_flag ≡ 0)
Fills fill_ended m = Filled m.shared_buf buf_words

-- What the consumer knows.
abbrev Checks : Checker → Buffer → Type 0
Checks (spinning n) m = m.consumer_bad_words ≡ 0
Checks (checking i) m = (i < buf_words) × (m.publish_flag ≢ 0) × (m.consumer_bad_words ≡ 0)
Checks check_ended m = (m.consumer_bad_words ≡ 0) ⊎ (m.consumer_bad_words ≡ flag_never_seen)

abbrev Inv : Buffer → Filler → Checker → Type 0
Inv m p q = Fills p m × Checks q m

-- A published buffer is whole.
whole : (p : Filler) (m : Buffer) → Fills p m → m.publish_flag ≢ 0 → Filled m.shared_buf buf_words
whole (filling i) m f set = absurd (set f.2)
whole publishing m f set = absurd (set f.1)
whole fill_ended m f set = f

fill_round-Fills :
    (i : ℕ) (m : Buffer)
    → i < buf_words
    → Filled m.shared_buf (i + 1)
    → m.publish_flag ≡ 0
    → Fills (fill_round (i + 1)) m
fill_round-Fills i m h filled unset = elim (Bool-cases (i + 1 == buf_words)) [
  | inl last ↦
      let all : i + 1 ≡ buf_words = (==_iff (i + 1) buf_words).0 last in
      rw last (subst (Filled m.shared_buf) all filled, unset)
  | inr more ↦ rw more (ground arith, filled, unset)
]

check_round-Checks :
    (i : ℕ) (m : Buffer)
    → i ≤ buf_words
    → m.publish_flag ≢ 0
    → m.consumer_bad_words ≡ 0
    → Checks (check_round i) m
check_round-Checks i m h set none_bad = elim (Bool-cases (i == buf_words)) [
  | inl last ↦ rw last (inl none_bad)
  | inr more ↦ rw more (ground arith, set, none_bad)
]

put-Filled : (i : ℕ) (m : Buffer) → Filled m.shared_buf i → Filled (put i m).shared_buf (i + 1)
put-Filled i m filled j h = elim (Bool-cases (j == i)) [
  | inl same ↦ rw same (ap code_word (sym ((==_iff j i).0 same)))
  | inr other ↦
      let ne : j ≢ i = λ e. absurd (ground (arith, sym other ∙ (==_iff j i).1 e)) in
      rw other (filled j (omega arith))
]

-- The producer does not touch what the consumer knows of.
Checks-same :
    (q : Checker) (m m' : Buffer)
    → (m.publish_flag ≢ 0 → m'.publish_flag ≢ 0)
    → m'.consumer_bad_words ≡ m.consumer_bad_words
    → Checks q m
    → Checks q m'
Checks-same (spinning n) m m' flag bad c = bad ∙ c
Checks-same (checking i) m m' flag bad c = (c.0, flag c.1, bad ∙ c.2)
Checks-same check_ended m m' flag bad c = elim c [
  | inl good ↦ inl (bad ∙ good)
  | inr missed ↦ inr (bad ∙ missed)
]

Produce-Inv :
    {m m' : Buffer} {p p' : Filler} (q : Checker) → Produce m p m' p' → Inv m p q → Inv m' p' q
Produce-Inv {m} q (fill_word {i}) v = (
  fill_round-Fills i (put i m) v.0.0 (put-Filled i m v.0.1) v.0.2,
  Checks-same q m (put i m) (λ set. set) refl v.1,
)
Produce-Inv {m} q publish v =
    (v.0.0, Checks-same q m (record m { publish_flag = 1 }) (λ set e. omega (arith, e)) refl v.1)

-- The consumer changes its own counter only.
Fills-same :
    (p : Filler) (m : Buffer) (bad : ℕ)
    → Fills p m
    → Fills p (record m { consumer_bad_words = bad })
Fills-same (filling i) m bad f = f
Fills-same publishing m bad f = f
Fills-same fill_ended m bad f = f

Consume-Inv :
    {m m' : Buffer} {q q' : Checker} (p : Filler) → Consume m q m' q' → Inv m p q → Inv m' p q'
Consume-Inv p (spin unset few) v = v
Consume-Inv {m} p (give_up unset many) v = (Fills-same p m flag_never_seen v.0, inr refl)
Consume-Inv {m} p (see_flag set) v = (v.0, (omega arith, set, v.1))
Consume-Inv {m} p (good_word {i} good) v =
    (v.0, check_round-Checks (i + 1) m (omega (arith, v.1.0)) v.1.1 v.1.2)
Consume-Inv {m} p (bad_word {i} bad) v = absurd (bad (whole p m v.0 v.1.1 i v.1.0))

-- Wherever the consumer has ended, it has found no stale word, or has given up before it saw the flag,
-- and wherever it checks, the whole buffer is written; and where the producer has ended too, the buffer
-- holds each of its words.
pub consumer_bad_words_lem :
    {s : System Buffer Filler Checker}
    → Steps Produce Consume publish_start s
    → (s.second ≡ check_ended
        → (s.mem.consumer_bad_words ≡ 0) ⊎ (s.mem.consumer_bad_words ≡ flag_never_seen))
      × ((i : ℕ) → s.second ≡ checking i → Filled s.mem.shared_buf buf_words)
      × (s.first ≡ fill_ended → Filled s.mem.shared_buf buf_words)
consumer_bad_words_lem {s} r =
    let v =
      Steps-keep Produce Consume Inv (λ m m' p p' q mv. Produce-Inv q mv)
        (λ m m' p q q' mv. Consume-Inv p mv) r
        ((omega arith, (λ j h. absurd (omega (arith, h))), refl), refl) in
    (
      λ ended. subst (λ q. Checks q s.mem) ended v.1,
      λ i at. whole s.first s.mem v.0 (subst (λ q. Checks q s.mem) at v.1).1,
      λ ended. subst (λ p. Fills p s.mem) ended v.0,
    )
