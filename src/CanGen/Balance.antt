-- ===== src/CanGen/Balance.antt =====
-- The statistics in every reachable state of app/demos/frdm_can_traffic_generator/src/main.c.
use zephyr_start.Base.{
  Option, arith, false, if◌then◌else◌, length, ltb, none, some, suc, ℕ, ◌%◌, ◌+◌, ◌^◌, ◌≡◌,
}
use zephyr_start.CanGen.Steps.{
  restart, Reach, Step, loop, start, stop, rate, burst, complete, ready, next,
}
use zephyr_start.CanGen.Shell.{
  burst_of, cmd_can_gen_burst, cmd_can_gen_rate, cmd_can_gen_restart, cmd_can_gen_start,
  cmd_can_gen_stop, argv1,
}
use zephyr_start.CanGen.Parse.{parse_count}
use zephyr_start.CanGen.Defs.{Gen, main_start, initial}
use zephyr_start.CanGen.Board.{IsDriver, Board}
use zephyr_start.CanGen.Accounts.{
  Balances, CountsRefusals, burst_loop-Balances, main_round-Balances,
  restart_can_controller-Balances, tx_callback-Balances,
}

-- The driver has a frame in flight no more, and has refused none.
abbrev pub Ends : {W : Type 0} → (W → ℕ) → (W → ℕ) → W → W → Type 0
Ends inflight refused before after =
    (inflight before ≡ suc (inflight after)) × (refused after ≡ refused before)

module _ {W : Type 0} (b : Board W) (inflight refused : W → ℕ) (d : IsDriver b inflight)
    (r : CountsRefusals b refused) where
  burst_of-Balances :
      (count : Option ℕ) (g : Gen W)
      → Balances b inflight refused 0 g
      → Balances b inflight refused 0 (burst_of b count g).1
  unfolding burst_of
  burst_of-Balances none g h = h
  burst_of-Balances (some n) g h = burst_loop-Balances b inflight refused d r n g h

  restart-Balances :
      (g : Gen W)
      → Balances b inflight refused 0 g
      → Balances b inflight refused 0 (cmd_can_gen_restart b g).1
  unfolding cmd_can_gen_restart
  restart-Balances g h =
      restart_can_controller-Balances b inflight refused d r
        (record g { generator_enabled = false }) h

  Step-Balances :
      {g g' : Gen W}
      → Step b (Ends inflight refused) g g'
      → Balances b inflight refused 0 g
      → Balances b inflight refused 0 g'
  unfolding cmd_can_gen_start cmd_can_gen_stop cmd_can_gen_rate cmd_can_gen_burst
  Step-Balances {g} loop h = main_round-Balances b inflight refused d r g h
  Step-Balances {g} (start argv) h = ground arith
  Step-Balances {g} stop h = h
  Step-Balances {g} (rate argv) h = ground arith
  Step-Balances {g} (burst argv) h =
      burst_of-Balances (if ltb 1 (length argv) then parse_count (argv1 argv) else some 10) g h
  Step-Balances {g} restart h = restart-Balances g h
  Step-Balances {g} (complete error w owed) h =
      tx_callback-Balances b inflight refused d r 0 error (record g { world = w })
        (omega (arith, h, owed.0, owed.1))

  main_start-Balances :
      (w : W) {g : Gen W}
      → main_start b (initial w) ≡ some g
      → inflight w ≡ 0
      → refused w ≡ 0
      → Balances b inflight refused 0 g
  unfolding main_start
  main_start-Balances w e none_flies none_refused =
      let rated = (b.can_set_bitrate 500000 w).1 in
      let started = (b.can_start rated).1 in
      ground (
        arith,
        d.bitrate_lem 500000 w,
        r.bitrate_lem 500000 w,
        d.start_lem rated,
        r.start_lem rated,
        d.configure_lem started,
        r.configure_lem started,
      )

  -- From a controller that has sent nothing, in every reachable state the frames that have ended, well or
  -- not, and those in flight are as many as those that were queued and those that the driver refused, up
  -- to the wrap-around of the counters.
  pub Reach-Balances :
      (w : W) {g : Gen W}
      → inflight w ≡ 0
      → refused w ≡ 0
      → Reach b (Ends inflight refused) w g
      → (g.tx_ok + g.tx_err + inflight g.world) % 2 ^ 32
        ≡ (g.tx_enqueued + refused g.world) % 2 ^ 32
  Reach-Balances w none_flies none_refused (ready e) =
      omega (arith, main_start-Balances w e none_flies none_refused)
  Reach-Balances w none_flies none_refused (next {g} steps step) =
      let before = Reach-Balances w none_flies none_refused steps in
      omega (arith, Step-Balances step (omega (arith, before)))
