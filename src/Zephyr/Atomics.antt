-- ===== src/Zephyr/Atomics.antt =====
-- zephyr-suite/p3_atomics/src/p3_atomics.c: the tests of Zephyr's atomic API and of the instructions
-- that the API hides. The API is the kernel's, with `irq_lock`, and the instructions are the hart's,
-- hence they are parameters. A variable is in a `let`; its new name is the value that it has from there
-- on, and a `long` is its bit pattern.
pub mod Reservation
use zephyr_riscv_test_suite.Prelude.{
  ℕ, ◌+◌, ◌-◌, ◌^◌, Bool, false, ◌&&◌, if◌then◌else◌, List, [], ◌∷◌,
}
use zephyr_riscv_test_suite.Atomics.{
  AtomicUnit, Effect, Word, neg64, neg32, amoswap, amoadd, amoand, amoor, amoxor, amomin, amomax,
  amominu, amomaxu,
}
use zephyr_riscv_test_suite.Zephyr.{Test, ◌>>=◌, ◌>>◌, zassert_true, zassert_false, zassert_equal}

-- What `atomic_cas` returns and leaves.
pub record Attempted : Type 0 where
  pub ok : Bool
  pub mem : ℕ

pub record AtomicApi : Type 0 where
  pub atomic_cas : (mem old new : ℕ) → Attempted
  pub atomic_get : (mem : ℕ) → ℕ
  pub atomic_swap : (mem val : ℕ) → Effect
  pub atomic_set : (mem val : ℕ) → Effect
  pub atomic_add : (mem val : ℕ) → Effect
  pub atomic_sub : (mem val : ℕ) → Effect
  pub atomic_inc : (mem : ℕ) → Effect
  pub atomic_dec : (mem : ℕ) → Effect
  pub atomic_or : (mem val : ℕ) → Effect
  pub atomic_and : (mem val : ℕ) → Effect
  pub atomic_xor : (mem val : ℕ) → Effect
  pub atomic_max : (mem val : ℕ) → Effect
  pub atomic_min : (mem val : ℕ) → Effect
  pub atomic_maxu : (mem val : ℕ) → Effect
  pub atomic_minu : (mem val : ℕ) → Effect

module _ (api : AtomicApi) where
  unfoldable pub test_cas : Test (Unit {0})
  test_cas = do
    let e0 = api.atomic_cas 42 41 99
    zassert_false e0.ok "CAS with wrong old succeeded"
    zassert_equal (api.atomic_get e0.mem) 42 "CAS failure modified target"
    let e1 = api.atomic_cas e0.mem 42 99
    zassert_true e1.ok "CAS with right old failed"
    zassert_equal (api.atomic_get e1.mem) 99 "CAS success did not write"

  unfoldable pub test_swap_set : Test (Unit {0})
  test_swap_set = do
    let e0 = api.atomic_swap 21 7
    zassert_equal e0.rd 21 "swap old value"
    zassert_equal (api.atomic_get e0.mem) 7 "swap new value"
    let e1 = api.atomic_set e0.mem (neg64 5)
    zassert_equal e1.rd 7 "set returns old"
    zassert_equal (api.atomic_get e1.mem) (neg64 5) "set new value"

  unfoldable pub test_add_sub : Test (Unit {0})
  test_add_sub = do
    let e0 = api.atomic_add 100 23
    zassert_equal e0.rd 100 "add returns old"
    zassert_equal (api.atomic_get e0.mem) 123 "add result"
    let e1 = api.atomic_sub e0.mem 24
    zassert_equal e1.rd 123 "sub returns old"
    zassert_equal (api.atomic_get e1.mem) 99 "sub result"
    let e2 = api.atomic_inc e1.mem
    zassert_equal e2.rd 99 "inc returns old"
    let e3 = api.atomic_dec e2.mem
    zassert_equal e3.rd 100 "dec returns old"
    zassert_equal (api.atomic_get e3.mem) 99 "inc/dec net result"
    let e4 = api.atomic_set e3.mem 0x100000000
    let e5 = api.atomic_add e4.mem 1
    zassert_equal (api.atomic_get e5.mem) 0x100000001 "64-bit add"

  unfoldable pub test_bitwise : Test (Unit {0})
  test_bitwise = do
    let e0 = api.atomic_or 0xF0F0 0x0F0F
    zassert_equal e0.rd 0xF0F0 "or returns old"
    zassert_equal (api.atomic_get e0.mem) 0xFFFF "or result"
    let e1 = api.atomic_and e0.mem 0xFF00
    zassert_equal e1.rd 0xFFFF "and returns old"
    zassert_equal (api.atomic_get e1.mem) 0xFF00 "and result"
    let e2 = api.atomic_xor e1.mem 0xFFFF
    zassert_equal e2.rd 0xFF00 "xor returns old"
    zassert_equal (api.atomic_get e2.mem) 0x00FF "xor result"

  unfoldable pub test_min_max_signed : Test (Unit {0})
  test_min_max_signed = do
    let e0 = api.atomic_max 5 (neg64 8)
    zassert_equal e0.rd 5 "max returns old"
    zassert_equal (api.atomic_get e0.mem) 5 "max keeps larger (signed)"
    let e1 = api.atomic_min e0.mem (neg64 8)
    zassert_equal e1.rd 5 "min returns old"
    zassert_equal (api.atomic_get e1.mem) (neg64 8) "min takes smaller (signed)"

  unfoldable pub test_min_max_unsigned : Test (Unit {0})
  test_min_max_unsigned = do
    let e0 = api.atomic_maxu 5 0xFFFFFFFF00000000
    zassert_equal e0.rd 5 "maxu returns old"
    zassert_equal e0.mem 0xFFFFFFFF00000000 "maxu unsigned compare"
    let e1 = api.atomic_minu 5 0xFFFFFFFF00000000
    zassert_equal e1.rd 5 "minu returns old"
    zassert_equal e1.mem 5 "minu unsigned compare"

-- `irq_lock` from whether interrupts are enabled, and `irq_unlock` from its key.
pub record Locked : Type 0 where
  pub key : ℕ
  pub enabled : Bool

pub record IrqApi : Type 0 where
  pub irq_lock : (enabled : Bool) → Locked
  pub irq_unlock : (key : ℕ) (enabled : Bool) → Bool

-- An interrupt that arrives before an SC, where interrupts are enabled, takes its reservation. `arrives`
-- says whether there is one, by the number of SCs so far.
abbrev pub interrupted : (arrives : ℕ → Bool) (enabled : Bool) → Word → Word
interrupted arrives enabled w =
    if enabled && arrives w.scs then record w { reserved = false } else w

module _ (hart : AtomicUnit) where
  unfoldable pub test_p3_1_lr_sc : IrqApi → (arrives : ℕ → Bool) (enabled : Bool) → Test (Unit {0})
  test_p3_1_lr_sc irq arrives enabled = do
    let atom : Word = record { mem = 0x1122334455667788; reserved = false; scs = 0 }
    let locked = irq.irq_lock enabled
    let old = hart.lr atom
    let sc = hart.sc (interrupted arrives locked.enabled old.word) 0xAABBCCDDEEFF0011
    let unlocked = irq.irq_unlock locked.key locked.enabled
    zassert_equal old.rd 0x1122334455667788 "lr.d old value"
    zassert_equal sc.rd 0 "sc.d should succeed"
    zassert_equal sc.word.mem 0xAABBCCDDEEFF0011 "sc.d wrote new value"
    let locked_aq = irq.irq_lock unlocked
    let old_aq = hart.lr sc.word
    let sc_rl = hart.sc (interrupted arrives locked_aq.enabled old_aq.word) 0x0102030405060708
    zassert_equal old_aq.rd 0xAABBCCDDEEFF0011 "lr.d.aq old value"
    zassert_equal sc_rl.rd 0 "sc.d.rl should succeed"
    zassert_equal sc_rl.word.mem 0x0102030405060708 "sc.d.rl wrote new value"

  unfoldable pub test_p3_3_amo_w : Test (Unit {0})
  test_p3_3_amo_w = do
    let e0 = hart.amo amoswap 32 0x10 0x77
    zassert_equal e0.rd 0x10 "amoswap.w old"
    zassert_equal e0.mem 0x77 "amoswap.w new"
    let e1 = hart.amo amoadd 32 e0.mem 0x09
    zassert_equal e1.rd 0x77 "amoadd.w old"
    zassert_equal e1.mem 0x80 "amoadd.w new"
    let e2 = hart.amo amoand 32 e1.mem 0x0F
    zassert_equal e2.rd 0x80 "amoand.w old"
    zassert_equal e2.mem 0x00 "amoand.w new"
    let e3 = hart.amo amoor 32 e2.mem 0x33
    zassert_equal e3.rd 0x00 "amoor.w old"
    zassert_equal e3.mem 0x33 "amoor.w new"
    let e4 = hart.amo amoxor 32 e3.mem 0x55
    zassert_equal e4.rd 0x33 "amoxor.w old"
    zassert_equal e4.mem 0x66 "amoxor.w new"
    let e5 = hart.amo amomin 32 5 (neg32 2)
    zassert_equal e5.rd 5 "amomin.w old"
    zassert_equal e5.mem (neg32 2) "amomin.w new (signed)"
    let e6 = hart.amo amomax 32 e5.mem 7
    zassert_equal e6.rd (neg32 2) "amomax.w old"
    zassert_equal e6.mem 7 "amomax.w new (signed)"
    let e7 = hart.amo amomaxu 32 5 (neg32 3)
    zassert_equal e7.rd 5 "amomaxu.w old"
    zassert_equal e7.mem (neg32 3) "amomaxu.w new (unsigned)"
    let e8 = hart.amo amominu 32 (neg32 3) 5
    zassert_equal e8.rd (neg32 3) "amominu.w old"
    zassert_equal e8.mem 5 "amominu.w new (unsigned)"

-- The suite p3_atomics.
abbrev pub p3_suite :
    AtomicApi → AtomicUnit → IrqApi → (arrives : ℕ → Bool) (enabled : Bool) → List (Test (Unit {0}))
p3_suite api hart irq arrives enabled =
    test_cas api
    ∷ test_swap_set api
    ∷ test_add_sub api
    ∷ test_bitwise api
    ∷ test_min_max_signed api
    ∷ test_min_max_unsigned api
    ∷ test_p3_1_lr_sc hart irq arrives enabled
    ∷ test_p3_3_amo_w hart
    ∷ []
