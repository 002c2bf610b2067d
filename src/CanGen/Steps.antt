-- ===== src/CanGen/Steps.antt =====
-- The threads and interrupts of app/demos/frdm_can_traffic_generator/src/main.c in any order: a
-- round of the main loop, a shell command, a callback of the driver.
use zephyr_start.Base.{
  List, Option, Option-cases, arith, false, if◌then◌else◌, inl, inr, length, ltb, none, some, suc,
  zero, ℕ, ℤ, ◌≡◌, ◌≤◌, ◌⊎◌,
}
use zephyr_start.Kernel.{IsSemaphore}
use zephyr_start.CanGen.Slots.{
  HasSlots, Owes, k_sleep-HasSlots, main_round-HasSlots, restart_can_controller-HasSlots,
  send_demo_frames-HasSlots, tx_callback-Owes,
}
use zephyr_start.CanGen.Shell.{
  Argv, burst_loop, burst_of, cmd_can_gen_burst, cmd_can_gen_rate, cmd_can_gen_restart,
  cmd_can_gen_start, cmd_can_gen_stop, shell_sleep, argv1,
}
use zephyr_start.CanGen.Settings.{
  k_sleep-Kept, main_round-SameSettings, restart_can_controller-Kept, send_demo_frames-Kept,
  tx_callback-Kept,
}
use zephyr_start.CanGen.Parse.{parse_count, parse_period_ms}
use zephyr_start.CanGen.Defs.{
  Gen, loop_rounds, send_demo_frames, tx_callback, main_start, k_sleep, main_round, initial,
}
use zephyr_start.CanGen.Decimal.{parse_period_ms-bounds}
use zephyr_start.CanGen.Board.{IsDriver, Board}

-- Before the callback of a frame runs, the driver has it in flight no more.
abbrev pub Completes : {W : Type 0} → (W → ℕ) → W → W → Type 0
Completes inflight before after = inflight before ≡ suc (inflight after)

-- `completes` is what the driver does to the world before it calls the callback.
module _ {W : Type 0} (b : Board W) (completes : W → W → Type 0) where
  pub data Step (g : Gen W) : Gen W → Type 0 where
    loop : Step g (main_round b g)
    start : (argv : Argv) → Step g (cmd_can_gen_start argv g).1
    stop : Step g (cmd_can_gen_stop g).1
    rate : (argv : Argv) → Step g (cmd_can_gen_rate argv g).1
    burst : (argv : Argv) → Step g (cmd_can_gen_burst b argv g).1
    restart : Step g (cmd_can_gen_restart b g).1
    complete :
        (error : ℤ) (w : W)
        → completes g.world w
        → Step g (tx_callback b error (record g { world = w }))

  -- The states after `main` has set the controller up.
  pub data Reach (w : W) : Gen W → Type 0 where
    ready : {g : Gen W} → main_start b (initial w) ≡ some g → Reach w g
    next : {g h : Gen W} → Reach w g → Step g h → Reach w h

module _ {W : Type 0} (b : Board W) (inflight : W → ℕ) where
  pub record IsValid (g : Gen W) : Type 0 where
    pub slots : HasSlots inflight g
    pub period_min : 20 ≤ g.period_ms
    pub period_max : g.period_ms ≤ 5000

module _ {W : Type 0} (b : Board W) (inflight : W → ℕ)
    (s : IsSemaphore 3 b.k_sem_take b.k_sem_give b.k_sem_reset) (d : IsDriver b inflight) where
  main_start-IsValid :
      (w : W) {g : Gen W} → main_start b (initial w) ≡ some g → IsValid b inflight g
  unfolding main_start
  main_start-IsValid w h = ground arith

  loop_rounds-IsValid :
      (n : ℕ) (g : Gen W) → IsValid b inflight g → IsValid b inflight (loop_rounds b n g)
  unfolding loop_rounds
  loop_rounds-IsValid zero g v = v
  loop_rounds-IsValid (suc n) g v =
      loop_rounds-IsValid n (main_round b g)
        (ground (arith, main_round-HasSlots b inflight s d g v.slots, main_round-SameSettings b g))

  shell_sleep-IsValid :
      (ms : ℕ) (g : Gen W) → IsValid b inflight g → IsValid b inflight (shell_sleep b ms g)
  unfolding shell_sleep
  shell_sleep-IsValid ms g v =
      let slept : Gen W = k_sleep b ms g in
      loop_rounds-IsValid (b.rounds_meanwhile slept.world) slept
        (ground (arith, k_sleep-HasSlots b inflight s d ms g v.slots, k_sleep-Kept b ms g))

  burst_loop-IsValid :
      (n : ℕ) (g : Gen W) → IsValid b inflight g → IsValid b inflight (burst_loop b n g).1
  unfolding burst_loop
  burst_loop-IsValid zero g v = v
  burst_loop-IsValid (suc n) g v =
      let sent : Gen W = (send_demo_frames b g).1 in
      ground (
        arith,
        send_demo_frames-HasSlots b inflight s d g v.slots,
        send_demo_frames-Kept b g,
        shell_sleep-IsValid 10 sent,
        burst_loop-IsValid n (shell_sleep b 10 sent),
      )

  -- What the argument check of `start` and `rate` lets through.
  period_cases :
      (text : List ℕ)
      → (parse_period_ms text ≡ none)
        ⊎ ((v : ℕ) × (parse_period_ms text ≡ some v) × (20 ≤ v) × (v ≤ 5000))
  period_cases text = elim (Option-cases (parse_period_ms text)) [
    | inl e ↦ inl e
    | inr (v, e) ↦ inr (v, e, (parse_period_ms-bounds text e).0, (parse_period_ms-bounds text e).1)
  ]

  burst_of-IsValid :
      (count : Option ℕ) (g : Gen W)
      → IsValid b inflight g
      → IsValid b inflight (burst_of b count g).1
  unfolding burst_of
  burst_of-IsValid none g v = v
  burst_of-IsValid (some n) g v = burst_loop-IsValid n g v

  restart-IsValid :
      (g : Gen W) → IsValid b inflight g → IsValid b inflight (cmd_can_gen_restart b g).1
  unfolding cmd_can_gen_restart
  restart-IsValid g v =
      let paused : Gen W = record g { generator_enabled = false } in
      ground (
        arith,
        restart_can_controller-HasSlots b inflight s d paused,
        restart_can_controller-Kept b paused,
      )

  complete-IsValid :
      (g : Gen W) (error : ℤ) (w : W)
      → inflight g.world ≡ suc (inflight w)
      → IsValid b inflight g
      → IsValid b inflight (tx_callback b error (record g { world = w }))
  complete-IsValid g error w owed v =
      let handed : Gen W = record g { world = w } in
      let o : Owes b inflight s d 1 handed = omega arith in
      ground
        (arith, tx_callback-Owes b inflight s d 0 error handed o, tx_callback-Kept b error handed)

  pub Step-IsValid :
      {g h : Gen W} → Step b (Completes inflight) g h → IsValid b inflight g → IsValid b inflight h
  unfolding cmd_can_gen_start cmd_can_gen_stop cmd_can_gen_rate cmd_can_gen_burst
  Step-IsValid {g} loop v =
      ground (arith, main_round-HasSlots b inflight s d g v.slots, main_round-SameSettings b g)
  Step-IsValid {g} (start argv) v = ground (arith, period_cases (argv1 argv))
  Step-IsValid {g} stop v = ground arith
  Step-IsValid {g} (rate argv) v = ground (arith, period_cases (argv1 argv))
  Step-IsValid {g} (burst argv) v =
      burst_of-IsValid (if ltb 1 (length argv) then parse_count (argv1 argv) else some 10) g v
  Step-IsValid {g} restart v = restart-IsValid g v
  Step-IsValid {g} (complete error w owed) v = complete-IsValid g error w owed v

  -- In every reachable state the semaphore counts at most 3 and at least the places of the queue
  -- that no frame in flight takes, and the period is from 20 to 5000.
  pub Reach-IsValid : (w : W) {g : Gen W} → Reach b (Completes inflight) w g → IsValid b inflight g
  Reach-IsValid w (ready h) = main_start-IsValid w h
  Reach-IsValid w (next r st) = Step-IsValid st (Reach-IsValid w r)
