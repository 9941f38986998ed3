-- ===== src/Lib.antt =====
-- A model of the bare-metal RISC-V test suite that runs on Zephyr's QEMU port: its runtime in S-mode
-- and M-mode, its two-hart tests, and the repository's example application.
--
-- The parts and the code that they model:
--   Platform: the constants of rv64gcv-baremetal-testsuite-main/common/platform.h.
--   PageTable: the Sv39 page tables of baremetal/common/smode.c. `pt_alloc_page`, `pt_map_page`,
--     `pt_setup_identity_kernel` and `pt_walk` are functions of the same name over a memory of 64-bit
--     words and the index of the next free page of the pool. PageTable/Tree says what the tables mean.
--   Console: `uart_putc` with its polling loop, and the text sent by `uart_puts`, `uart_put_hex` and
--     `uart_put_dec` (baremetal/common/smode.c).
--   Verdict: `test_pass`, `test_fail`, `test_assert` and `s_mode_entry` of the same file, with the
--     words for QEMU's test finisher, and the HTIF words of rv64gcv-baremetal-testsuite-main.
--   Machine: the state that the handlers share, with the CSRs of one hart and the CLINT's registers.
--   MTrap: `m_trap_handler` of baremetal/common/m_trap.c.
--   STrap: `s_trap_handler` of baremetal/common/smode.c. It walks the page tables to fix a fault, and
--     reaches the M-mode handler by an ecall when it acknowledges the timer.
--   DualCore: the hand-over of tests to hart 1 (`core1_smode_park_loop`, `wake_core1_smode`) and the
--     tests of rv64gcv-baremetal-testsuite-main/tests/p4_dualcore.c, as step relations in
--     which each step is one shared access of one hart.
--   Suite: how a test program runs: it returns, ends with a verdict, or does not get on. TEST_LOG and
--     ASSERT_EQ of rv64gcv-baremetal-testsuite-main/common/test.h.
--   Hart: loads, stores and fetches of a test program on a hart with Sv39, by the instruction set:
--     the walk, the flags, the trap through baremetal/common/baremetal_trap.S to `s_trap_handler`, and
--     the return to where the frame says. Hart/Faults is about skipped accesses, Hart/Retry about
--     those that the handler fixes.
--   Sanity and Mmu: the programs p0_sanity.c, p1a_mmu_enable.c, p1b_fault_gen.c and p1c_fault_handle.c
--     of rv64gcv-baremetal-testsuite-main/tests, one function for each numbered section. Mmu/Runs
--     follows them on a layout of memory, for any contents of memory and registers.
--   Atomics: the AMO, LR/SC and `cas_d` helpers of common/test.h over an atomic unit, and the program
--     tests/p3_atomics.c. The unit acts on a word with a reservation, which Atomics/Cas lets a hart lose
--     at any time; Atomics/Conforming says what the AMOs have to do.
--   Zephyr: the suites for Zephyr. zephyr-suite/p3_atomics is Zephyr/Atomics, over the kernel's atomic
--     API and its `irq_lock`, with interrupts that take a reservation; the fault resolvers of zephyr-suite/p1c_fault_handle and zephyr-suite/p2_interrupts are
--     Zephyr/Fixups. The tests of zephyr-suite/p0_sanity, zephyr-suite/p1a_mmu_enable,
--     zephyr-suite/p1b_fault_gen, zephyr-suite/p1c_fault_handle and zephyr-suite/p1d_tlb_ptw are
--     Zephyr/Basics, Zephyr/Enable, Zephyr/FaultGen, Zephyr/FaultHandle and Zephyr/Tlb, one function
--     for each ZTEST. But for the first, which has no MMU, they run on Zephyr/Board: a hart with Sv39
--     and a TLB under Zephyr's kernel, whose functions for mappings are a parameter with the laws of
--     Zephyr/Board/Behaviour. The two-worker tests of zephyr-suite/p4_dualcore are Zephyr/Cores, as
--     interleavings: the published buffer, the atomic counter, the spinlock and the semaphores.
--   App: the loop of app/src/main.c with the LED driver of drivers/blink/gpio_led.c, whose calls of
--     the kernel are its result; the samples of a run are an argument.
--   Prelude and Word: shared names, lists, and the operations of C on unsigned words.
--   Examples: the theorems at concrete inputs.
--
-- Bounds: an unsigned word of C is a natural number, and every operation that can wrap around is
-- written with its `% 2 ^ w`. The polling loop of `uart_putc` runs on fuel, one unit for each read of
-- the status register, and its theorem gives the fuel that is enough. The digit loop of
-- `uart_put_dec` has fuel for the 10 digits that an `int` can have, and its round trip shows that it
-- is enough. Counters of type `int` do not overflow in the model. An access of a program is tried at
-- most 3 times, which is enough where a trap either skips the access or fixes its entry. The loop of
-- `cas_d` has one unit of fuel for each round, and its theorem gives the rounds. The runs in Mmu/Runs
-- are on the layout `qemu`: the page pool at 0x80010000, the trap frame at 0x80030000, and two
-- addresses for the instructions that are to be skipped.
--
-- Parameters: the layout of the linker and the compiler, the atomic unit of the hart, Zephyr's atomic
-- API and its functions for mappings, whether the hart sets the A and D flags of an entry by itself,
-- and, for the suites of Zephyr, at which accesses the hart uses what its TLB has. There the TLB is
-- filled by accesses only, and the test's own data stand in the image, which is mapped to itself.
-- `k_mem_map` may return NULL. The intermediate page tables of the addresses that the tests map are
-- taken to be there, so that no function for mappings allocates one.
--
-- Not modelled: the TLB under the bare-metal programs and their fences, weak memory ordering, the
-- assembly of the start-up and of the M-mode trap entry, the HTIF console of the Spike build, the
-- Zephyr kernel and its patches, the bare-metal programs of phase 1D and phase 2, which need a TLB and
-- the arrival of interrupts, and of zephyr-suite the tests of phase 2 and the pinning of threads.
pub mod Prelude
pub mod Word
pub mod Platform
pub mod PageTable
pub mod Console
pub mod Machine
pub mod MTrap
pub mod Verdict
pub mod STrap
pub mod DualCore
pub mod Suite
pub mod Atomics
pub mod Hart
pub mod Mmu
pub mod Sanity
pub mod Zephyr
pub mod App
pub mod Examples
