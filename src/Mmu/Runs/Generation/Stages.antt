-- ===== src/Mmu/Runs/Generation/Stages.antt =====
-- The machines of a run of p1b_fault_gen.c from `m`: `hN` at the access of section N, `tN` behind its trap and `sN`
-- at its end.
use zephyr_riscv_test_suite.Prelude.{ℕ, true, Bool}
use zephyr_riscv_test_suite.Machine.{csrc}
use zephyr_riscv_test_suite.Hart.{fetch, trap, load, write}
use zephyr_riscv_test_suite.Machine.{Machine}
use zephyr_riscv_test_suite.Verdict.{final}
use zephyr_riscv_test_suite.Suite.{modify, Script, pure, ◌>>=◌, ◌>>◌, test_log, banner}
use zephyr_riscv_test_suite.Mmu.{enable_identity, map_page, set_action, clear_fault}
use zephyr_riscv_test_suite.Mmu.Runs.{qemu, end_of}
use zephyr_riscv_test_suite.Mmu.Generation.{plant_megapage, mstatus_sum}
use zephyr_riscv_test_suite.Mmu.Runs.Generation.{before_skip, before_call, after_skip, after_call}

module _ (svadu : Bool) (m : Machine) where
  unfoldable pub start : Script ℕ
  start = do
    banner "Phase 1B: Page Fault Generation\n"
    root ← enable_identity qemu
    test_log "MMU enabled with identity kernel map"
    set_action 1
    pure root

  unfoldable pub s0 : Machine
  s0 = end_of (start m) m

  -- P1B.1.
  unfoldable pub h1 : Machine
  h1 = end_of (before_skip "P1B.1 — Load from V=0 page..." 0xd0000000 0x801a0000 6 0 s0) s0

  unfoldable pub t1 : Machine
  t1 = final (trap svadu qemu load 0xd0000000 h1)

  unfoldable pub s1 : Machine
  s1 = end_of (after_skip "P1B.1 fault_count" "P1B.1 Load V=0" 13 0xD0000000 110 t1) t1

  -- P1B.2.
  unfoldable pub h2 : Machine
  h2 = end_of (before_skip "P1B.2 — Store to V=0 page..." 0xd0010000 0x801a1000 6 0 s1) s1

  unfoldable pub t2 : Machine
  t2 = final (trap svadu qemu write 0xd0010000 h2)

  unfoldable pub s2 : Machine
  s2 = end_of (after_skip "P1B.2 fault_count" "P1B.2 Store V=0" 15 0xD0010000 120 t2) t2

  -- P1B.3.
  unfoldable pub h3 : Machine
  h3 =
      end_of (before_call svadu "P1B.3 — Execute from V=0 page..." 0xd0030000 0x801a3000 10 0 s2) s2

  unfoldable pub t3 : Machine
  t3 = final (trap svadu qemu fetch 0xd0030000 h3)

  unfoldable pub s3 : Machine
  s3 =
      end_of
        (after_call "P1B.3 fault_count" "P1B.3 scause" "P1B.3 — Execute from V=0 page: OK" 130 t3)
        t3

  -- P1B.4.
  unfoldable pub h4 : Machine
  h4 = end_of (before_skip "P1B.4 — Load from R=0 page..." 0xd0040000 0x801a4000 8 1 s3) s3

  unfoldable pub t4 : Machine
  t4 = final (trap svadu qemu load 0xd0040000 h4)

  unfoldable pub s4 : Machine
  s4 = end_of (after_skip "P1B.4 fault_count" "P1B.4 Load R=0" 13 0xD0040000 140 t4) t4

  -- P1B.5.
  unfoldable pub h5 : Machine
  h5 = end_of (before_skip "P1B.5 — Store to W=0 page..." 0xd0050000 0x801a5000 2 1 s4) s4

  unfoldable pub t5 : Machine
  t5 = final (trap svadu qemu write 0xd0050000 h5)

  unfoldable pub s5 : Machine
  s5 = end_of (after_skip "P1B.5 fault_count" "P1B.5 Store W=0" 15 0xD0050000 150 t5) t5

  -- P1B.6.
  unfoldable pub h6 : Machine
  h6 = end_of (before_call svadu "P1B.6 — Execute from X=0 page..." 0xd0060000 0x801a6000 2 1 s5) s5

  unfoldable pub t6 : Machine
  t6 = final (trap svadu qemu fetch 0xd0060000 h6)

  unfoldable pub s6 : Machine
  s6 =
      end_of
        (after_call "P1B.6 fault_count" "P1B.6 scause" "P1B.6 — Execute from X=0 page: OK" 160 t6)
        t6

  -- P1B.7: SUM is cleared first, so that its value before does not matter.
  unfoldable pub h7 : Machine
  h7 =
      end_of
        ((do
          test_log "P1B.7 — S-mode access to U=1 page (SUM=0)..."
          map_page qemu qemu.pool 0xD0070000 0x801A7000 22 1
          modify (λ n. record n { mstatus = csrc n.mstatus mstatus_sum })
          clear_fault)
          s6)
        s6

  unfoldable pub t7 : Machine
  t7 = final (trap svadu qemu load 0xD0070000 h7)

  unfoldable pub s7 : Machine
  s7 = end_of (after_skip "P1B.7 fault_count" "P1B.7 U-page from S-mode" 13 0xD0070000 170 t7) t7

  -- P1B.8.
  unfoldable pub h8 : Machine
  h8 =
      end_of
        ((do
          test_log "P1B.8 — Misaligned superpage..."
          plant_megapage true qemu qemu.pool 0xE0000000 0x200004C7
          clear_fault)
          s7)
        s7

  unfoldable pub t8 : Machine
  t8 = final (trap svadu qemu load 0xE0000000 h8)

  unfoldable pub s8 : Machine
  s8 = end_of (after_skip "P1B.8 fault_count" "P1B.8 Misaligned megapage" 13 0xE0000000 180 t8) t8
