-- ===== src/DualCore/Park/Order.antt =====
-- When a test handed over to hart 1 runs, and when it is lost.
use zephyr_riscv_test_suite.Prelude.{
  ℕ, zero, suc, List, [], ◌∷◌, ◌++◌, ◌≡◌, ◌≢◌, ◌∙◌, ap, refl, arith,
}
use zephyr_riscv_test_suite.DualCore.Park.{
  Shared, Pc, booting, parked, calling, running, returned, System, Move, signal_ready, sleep,
  wake_up, call, return, reset, wake_core1_smode, core1_step, wake, init, Steps, stay, then_step,
}

-- A run in which hart 0 hands a test over only when the one before it is over: hart 1 is parked and
-- the target is null again.
pub data Polite : System → Type 0 where
  start : Polite init
  loop :
      {s : System} {m : Shared} {ran : List ℕ} {p : Pc}
      → Polite s
      → Move s.mem s.ran s.core1 m ran p
      → Polite (record s { mem = m; core1 = p; ran = ran })
  hand_over :
      {s : System} (func : ℕ)
      → func ≢ 0
      → s.core1 ≡ parked
      → s.mem.g_smode_target ≡ 0
      → Polite s
      → Polite (wake_core1_smode s func)

-- The tests that are handed over and have not started.
abbrev pub pending : Pc → ℕ → List ℕ
pending parked zero = []
pending parked (suc n) = suc n ∷ []
pending calling target = target ∷ []
pending _ _ = []

-- A null target before the first test; a live one until the reset.
abbrev pub Target : Pc → ℕ → Type 0
Target booting target = target ≡ 0
Target parked target = Unit
Target calling target = target ≢ 0
Target (running job) target = target ≡ job
Target returned target = Unit

pub record Inv (m : Shared) (p : Pc) (asked ran : List ℕ) : Type 0 where
  pub target : Target p m.g_smode_target
  pub order : asked ≡ pending p m.g_smode_target ++ ran

pending-parked : (target : ℕ) → target ≢ 0 → pending parked target ≡ target ∷ []
pending-parked zero ne = absurd (ne refl)
pending-parked (suc n) ne = refl

Move-Inv :
    {m m' : Shared} {p p' : Pc} {asked ran ran' : List ℕ}
    → Move m ran p m' ran' p'
    → Inv m p asked ran
    → Inv m' p' asked ran'
Move-Inv {m} signal_ready v = record { target = tt; order = rw (v.target) (v.order) }
Move-Inv (sleep e) v = v
Move-Inv {m} {asked} {ran} (wake_up ne) v = record {
  target = ne;
  order = v.order ∙ ap (λ l. l ++ ran) (pending-parked (m.g_smode_target) ne);
}
Move-Inv call v = record { target = refl; order = v.order }
Move-Inv return v = record { target = tt; order = v.order }
Move-Inv reset v = record { target = tt; order = v.order }

idle-Inv :
    {m : Shared} {p : Pc} {asked ran : List ℕ} (func : ℕ)
    → func ≢ 0
    → p ≡ parked
    → m.g_smode_target ≡ 0
    → Inv m p asked ran
    → Inv (record m { g_smode_target = func }) p (func ∷ asked) ran
idle-Inv {m} {p} {asked} {ran} func ne at free v =
    rw at record { target = tt; order = rw (pending-parked func ne) (ap (λ l. func ∷ l) all_ran) }
  where
    all_ran : asked ≡ ran
    all_ran =
        v.order
        ∙ ap (λ q. pending q (m.g_smode_target) ++ ran) at
        ∙ ap (λ t. pending parked t ++ ran) free

pub Polite-Inv : {s : System} → Polite s → Inv s.mem s.core1 s.asked s.ran
Polite-Inv start = record { target = refl; order = refl }
Polite-Inv (loop r mv) = Move-Inv mv (Polite-Inv r)
Polite-Inv (hand_over func ne at free r) = idle-Inv func ne at free (Polite-Inv r)

-- In a run in which each test is handed over when the one before it is over, the tests run in the order in which they are handed over, each of them once: those
-- handed over are those that ran, and before them the one that waits to be called, if any.
pub handed_over_order :
    {s : System} → Polite s → s.asked ≡ pending s.core1 s.mem.g_smode_target ++ s.ran
handed_over_order r = (Polite-Inv r).order

-- Any two tests can be handed over such that only the first one runs: the second, handed over while
-- the first runs, is erased by the reset, and hart 1 is parked again.
pub lost_wakeup :
    (first second : ℕ)
    → first ≢ 0
    → second ≢ 0
    → Steps init (record {
      mem = record { g_core1_smode_ready = 1; g_smode_target = 0 };
      core1 = parked;
      asked = second ∷ first ∷ [];
      ran = first ∷ [];
    })
lost_wakeup first second ne ne' =
    then_step
      (then_step
        (then_step
          (then_step
            (then_step
              (then_step (then_step stay (core1_step (signal_ready)))
                (wake first ne (λ e. absurd (omega arith))))
              (core1_step (wake_up ne)))
            (core1_step (call)))
          (wake second ne' (λ e. absurd (omega arith))))
        (core1_step (return)))
      (core1_step (reset))
