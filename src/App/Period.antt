-- ===== src/App/Period.antt =====
-- The blink period as a function of the rises of the sensor.
use zephyr_riscv_test_suite.Prelude.{
  ℕ, zero, suc, ◌+◌, ◌-◌, ◌*◌, ◌%◌, ◌≡◌, refl, ap, subst, arith, List, [], ◌∷◌, ◌++◌, Bool-cases,
  inl, inr, ◌&&◌, ◌==◌, if◌then◌else◌, true, false,
}
use zephyr_riscv_test_suite.App.{
  Call, k_timer_start, k_timer_stop, gpio_pin_set, blink_gpio_led_set_period_ms, Sample,
  fetch_failed, get_failed, value, Loop, next_period, round, main_loop, init,
}

-- The rises, from 0 to 1, of the values up to the first failure, after `n` rises and the value
-- `last`.
unfoldable pub rises : ℕ → ℕ → List Sample → ℕ
rises n last [] = n
rises n last (fetch_failed ∷ rest) = n
rises n last (get_failed ∷ rest) = n
rises n last (value v ∷ rest) = rises (if last == 0 && v == 1 then n + 1 else n) v rest

-- The period goes down from 1000 to 0 in steps of 100, and starts again.
abbrev pub period_at : ℕ → ℕ
period_at n = 1000 - 100 * (n % 11)

-- The calls of the first `n` rises.
unfoldable pub calls_at : ℕ → List Call
calls_at zero = []
calls_at (suc n) =
    calls_at n
    ++ (if (n + 1) % 11 == 10
        then k_timer_stop ∷ gpio_pin_set 0 ∷ []
        else k_timer_start (period_at (suc n)) (period_at (suc n)) ∷ [])

next_period_lem : (n : ℕ) → next_period (period_at n) ≡ period_at (suc n)
unfolding next_period
next_period_lem n = ground arith

record After (n : ℕ) (s : Loop) : Type 0 where
  period : s.period_ms ≡ period_at n
  called : s.calls ≡ calls_at n

set_period_lem :
    (n : ℕ)
    → blink_gpio_led_set_period_ms (period_at (suc n)) ≡ (
        if (n + 1) % 11 == 10
        then k_timer_stop ∷ gpio_pin_set 0 ∷ []
        else k_timer_start (period_at (suc n)) (period_at (suc n)) ∷ [])
unfolding blink_gpio_led_set_period_ms
set_period_lem n = ground arith

up-After :
    (n v : ℕ) (s : Loop) → s.last_val1 == 0 && v == 1 ≡ true → After n s → After (n + 1) (round v s)
unfolding round calls_at
up-After n v s up a =
    let next : n + 1 ≡ suc n = omega arith in
    rw (up, next, a.period, next_period_lem n, a.called)
      (record { period = refl; called = ap (λ l. calls_at n ++ l) (set_period_lem n) })

same-After :
    (n v : ℕ) (s : Loop) → s.last_val1 == 0 && v == 1 ≡ false → After n s → After n (round v s)
unfolding round
same-After n v s same a = rw same (record { period = a.period; called = a.called })

last-round : (v : ℕ) (s : Loop) → (round v s).last_val1 ≡ v
unfolding round
last-round v s = ground arith

main_loop-After :
    (n : ℕ) (samples : List Sample) (s : Loop)
    → After n s
    → After (rises n s.last_val1 samples) (main_loop samples s)
unfolding main_loop rises
main_loop-After n [] s a = a
main_loop-After n (fetch_failed ∷ rest) s a = a
main_loop-After n (get_failed ∷ rest) s a = a
main_loop-After n (value v ∷ rest) s a = elim (Bool-cases (s.last_val1 == 0 && v == 1)) [
  | inl up ↦ rw up (
      subst (λ l. After (rises (n + 1) l rest) (main_loop rest (round v s))) (last-round v s)
        (main_loop-After (n + 1) rest (round v s) (up-After n v s up a)))
  | inr same ↦ rw same (
      subst (λ l. After (rises n l rest) (main_loop rest (round v s))) (last-round v s)
        (main_loop-After n rest (round v s) (same-After n v s same a)))
]

-- Whatever the sensor delivers, after `n` rises the period is 1000 less 100 for each rise since the
-- last multiple of 11, and the driver has made the calls of these `n` rises in order: the timer is
-- started with each period, and stopped, with the LED off, at the period 0.
pub main_loop-period :
    (samples : List Sample)
    → ((main_loop samples init).period_ms ≡ period_at (rises 0 0 samples))
      × ((main_loop samples init).calls ≡ calls_at (rises 0 0 samples))
unfolding calls_at
main_loop-period samples =
    let a = main_loop-After 0 samples init (record { period = refl; called = refl }) in
    (a.period, a.called)
