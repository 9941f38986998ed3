-- ===== src/Examples/Runs.antt =====
-- The application's loop on a short run of the sensor.
use zephyr_riscv_test_suite.Prelude.{◌≡◌, List, [], ◌∷◌}
use zephyr_riscv_test_suite.App.{Sample, value, fetch_failed, k_timer_start, main_loop, init}
use zephyr_riscv_test_suite.App.Period.{main_loop-period, rises, calls_at}

-- Two rises, and then a failure before a third one.
abbrev samples : List Sample
samples = value 1 ∷ value 1 ∷ value 0 ∷ value 1 ∷ value 0 ∷ fetch_failed ∷ value 1 ∷ []

main_loop-period_example :
    ((main_loop samples init).period_ms ≡ 800)
    × ((main_loop samples init).calls ≡ k_timer_start 900 900 ∷ k_timer_start 800 800 ∷ [])
unfolding rises calls_at
main_loop-period_example = main_loop-period samples
