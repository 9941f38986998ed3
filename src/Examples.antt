-- ===== src/Examples.antt =====
-- The theorems at concrete inputs: page tables, traps, accesses made again, the console with the
-- verdict, the application, the two harts, the test programs, and the MMU tests under Zephyr.
mod PageTables
mod Traps
mod Runtime
mod TwoHarts
mod Handshakes
mod Runs
mod Programs
mod Retries
mod ZephyrMmu
mod ZephyrCores
