-- ===== src/Zephyr/Cores.antt =====
-- zephyr-suite/p4_dualcore/src/p4_dualcore.c: two workers on two CPUs, as interleavings of their shared
-- accesses. A test starts both, waits for both, and then looks at what they left. On which CPU a worker
-- runs makes no difference here, so that P4.1 and its reverse are one system. Memory is sequentially
-- consistent. The kernel's threads, and the time that a join waits, are not modelled.
pub mod Publish
pub mod Increments
pub mod Locked
pub mod Semaphores

-- The shared memory, and where each worker stands.
pub record System (S P Q : Type 0) : Type 0 where
  pub mem : S
  pub first : P
  pub second : Q

module _ {S P Q : Type 0} (A : S → P → S → P → Type 0) (B : S → Q → S → Q → Type 0) where
  pub data Step (s : System S P Q) : System S P Q → Type 0 where
    step_first : {m : S} {p : P} → A s.mem s.first m p → Step s (record s { mem = m; first = p })
    step_second : {m : S} {q : Q} → B s.mem s.second m q → Step s (record s { mem = m; second = q })

  pub data Steps (s : System S P Q) : System S P Q → Type 0 where
    stay : Steps s s
    then_step : {t u : System S P Q} → Steps s t → Step t u → Steps s u

  -- What the moves of both keep holds wherever they come.
  module _ (Inv : S → P → Q → Type 0)
      (first_keeps : (m m' : S) (p p' : P) (q : Q) → A m p m' p' → Inv m p q → Inv m' p' q)
      (second_keeps : (m m' : S) (p : P) (q q' : Q) → B m q m' q' → Inv m p q → Inv m' p q') where
    pub Steps-keep :
        {s t : System S P Q} → Steps s t → Inv s.mem s.first s.second → Inv t.mem t.first t.second
    Steps-keep stay v = v
    Steps-keep (then_step r (step_first mv)) v = first_keeps _ _ _ _ _ mv (Steps-keep r v)
    Steps-keep (then_step r (step_second mv)) v = second_keeps _ _ _ _ _ mv (Steps-keep r v)
