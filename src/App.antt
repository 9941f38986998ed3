-- ===== src/App.antt =====
-- The example application: the loop of app/src/main.c, which lowers the blink period at each rise of
-- the sensor, and drivers/blink/gpio_led.c, which it drives. The kernel is not modelled: a run yields
-- the calls that the driver makes of its timer and its pin, and takes what the sensor delivers.
pub mod Period
use zephyr_riscv_test_suite.Prelude.{
  ℕ, ◌+◌, ◌-◌, ◌%◌, ◌^◌, List, [], ◌∷◌, ◌++◌, Bool, ◌&&◌, ◌==◌, if◌then◌else◌,
}

abbrev pub blink_period_ms_step : ℕ
blink_period_ms_step = 100

abbrev pub blink_period_ms_max : ℕ
blink_period_ms_max = 1000

-- A call of the driver: `k_timer_start`, `k_timer_stop` or `gpio_pin_set_dt`.
pub data Call : Type 0 where
  k_timer_start : (duration period : ℕ) → Call
  k_timer_stop : Call
  gpio_pin_set : ℕ → Call

unfoldable pub blink_gpio_led_set_period_ms : ℕ → List Call
blink_gpio_led_set_period_ms period_ms =
    if period_ms == 0
    then k_timer_stop ∷ gpio_pin_set 0 ∷ []
    else k_timer_start period_ms period_ms ∷ []

-- What one round of the loop gets from the sensor.
pub data Sample : Type 0 where
  fetch_failed : Sample
  get_failed : Sample
  value : (val1 : ℕ) → Sample

pub record Loop : Type 0 where
  pub period_ms : ℕ
  pub last_val1 : ℕ
  pub calls : List Call

-- The period at a rise of the sensor, in `unsigned int`.
unfoldable pub next_period : ℕ → ℕ
next_period period_ms =
    if period_ms == 0
    then blink_period_ms_max
    else (period_ms + (2 ^ 32 - blink_period_ms_step)) % 2 ^ 32

unfoldable pub round : ℕ → Loop → Loop
round val1 s =
    let period_ms = next_period s.period_ms in
    if s.last_val1 == 0 && val1 == 1
    then record {
      period_ms = period_ms;
      last_val1 = val1;
      calls = s.calls ++ blink_gpio_led_set_period_ms period_ms;
    }
    else record s { last_val1 = val1 }

-- The loop over the samples of a run; a failure ends it.
unfoldable pub main_loop : List Sample → Loop → Loop
main_loop [] s = s
main_loop (fetch_failed ∷ rest) s = s
main_loop (get_failed ∷ rest) s = s
main_loop (value val1 ∷ rest) s = main_loop rest (round val1 s)

abbrev pub init : Loop
init = record { period_ms = blink_period_ms_max; last_val1 = 0; calls = [] }
