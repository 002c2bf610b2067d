-- ===== src/CanGen/Accounts.antt =====
-- What the statistics of app/demos/frdm_can_traffic_generator/src/main.c add up to.
use zephyr_start.Base.{List, [], arith, length, pos, suc, zero, ℕ, ℤ, ◌%◌, ◌+◌, ◌^◌, ◌∷◌, ◌≡◌, ◌≢◌}
use zephyr_start.CanGen.Shell.{burst_loop, shell_sleep}
use zephyr_start.CanGen.Defs.{
  Gen, callbacks, demo_frames, inc32, loop_rounds, maybe_auto_recover, restart_can_controller,
  send_demo_frames, send_frame, send_frames, tx_callback, k_sleep, main_round,
}
use zephyr_start.CanGen.Board.{IsDriver, Board, Frame}

-- How many frames `can_send` has refused, which only a refusal changes.
pub record CountsRefusals {W : Type 0} (b : Board W) (refused : W → ℕ) : Type 0 where
  pub send_ok :
      (f : Frame) (w : W) → (b.can_send f w).0 ≡ pos 0 → refused (b.can_send f w).1 ≡ refused w
  pub send_err :
      (f : Frame) (w : W) → (b.can_send f w).0 ≢ pos 0 → refused (b.can_send f w).1 ≡ refused w + 1
  pub stop_lem : (w : W) → refused (b.can_stop w).2 ≡ refused w
  pub start_lem : (w : W) → refused (b.can_start w).1 ≡ refused w
  pub bitrate_lem : (n : ℕ) (w : W) → refused (b.can_set_bitrate n w).1 ≡ refused w
  pub configure_lem : (w : W) → refused (b.gpio_pin_configure w).1 ≡ refused w
  pub sleep_lem : (t : ℕ) (w : W) → refused (b.k_sleep t w).1 ≡ refused w
  pub uptime_lem : (w : W) → refused (b.k_uptime_get w).1 ≡ refused w
  pub uptime_32_lem : (w : W) → refused (b.k_uptime_get_32 w).1 ≡ refused w
  pub toggle_lem : (w : W) → refused (b.gpio_pin_toggle w) ≡ refused w

module _ {W : Type 0} (b : Board W) (inflight refused : W → ℕ) where
  -- The counters of 32 bits balance, where the driver has counted off `n` frames whose callbacks are
  -- still to run.
  abbrev pub Balances : ℕ → Gen W → Type 0
  Balances n g =
      (g.tx_ok + g.tx_err + n + inflight g.world) % 2 ^ 32
      ≡ (g.tx_enqueued + refused g.world) % 2 ^ 32

module _ {W : Type 0} (b : Board W) (inflight refused : W → ℕ) (d : IsDriver b inflight)
    (r : CountsRefusals b refused) where
  pub tx_callback-Balances :
      (n : ℕ) (e : ℤ) (g : Gen W)
      → Balances b inflight refused (suc n) g
      → Balances b inflight refused n (tx_callback b e g)
  unfolding tx_callback
  tx_callback-Balances n e g h = ground (arith, d.toggle_lem g.world, r.toggle_lem g.world)

  callbacks-Balances :
      (es : List ℤ) (g : Gen W)
      → Balances b inflight refused (length es) g
      → Balances b inflight refused 0 (callbacks b es g)
  unfolding callbacks
  callbacks-Balances [] g h = omega arith
  callbacks-Balances (e ∷ es) g h =
      callbacks-Balances es (tx_callback b e g) (tx_callback-Balances (length es) e g h)

  send_frame-Balances :
      (f : Frame) (g : Gen W)
      → Balances b inflight refused 0 g
      → Balances b inflight refused 0 (send_frame b f g).1
  unfolding send_frame
  send_frame-Balances f g h =
      ground (
        arith,
        d.send_ok f g.world,
        d.send_err f g.world,
        r.send_ok f g.world,
        r.send_err f g.world,
      )

  send_frames-Balances :
      (fs : List Frame) (g : Gen W)
      → Balances b inflight refused 0 g
      → Balances b inflight refused 0 (send_frames b fs g).1
  unfolding send_frames
  send_frames-Balances [] g h = h
  send_frames-Balances (f ∷ fs) g h =
      ground (arith, send_frame-Balances f g h, send_frames-Balances fs (send_frame b f g).1)

  send_demo_frames-Balances :
      (g : Gen W)
      → Balances b inflight refused 0 g
      → Balances b inflight refused 0 (send_demo_frames b g).1
  unfolding send_demo_frames
  send_demo_frames-Balances g h =
      let (uptime_ms, w) = b.k_uptime_get_32 g.world in
      let ticked : Gen W = record g { tx_sequence = inc32 g.tx_sequence; world = w } in
      send_frames-Balances (demo_frames b g.tx_sequence uptime_ms) ticked
        (omega (arith, h, d.uptime_32_lem g.world, r.uptime_32_lem g.world))

  pub restart_can_controller-Balances :
      (g : Gen W)
      → Balances b inflight refused 0 g
      → Balances b inflight refused 0 (restart_can_controller b g).1
  unfolding restart_can_controller
  restart_can_controller-Balances g h =
      let (ret, errors, w) = b.can_stop g.world in
      let stopped : Gen W = callbacks b errors (record g { world = w }) in
      ground (
        arith,
        d.stop_lem g.world,
        r.stop_lem g.world,
        callbacks-Balances errors (record g { world = w }),
        d.start_lem stopped.world,
        r.start_lem stopped.world,
      )

  maybe_auto_recover-Balances :
      (g : Gen W)
      → Balances b inflight refused 0 g
      → Balances b inflight refused 0 (maybe_auto_recover b g)
  unfolding maybe_auto_recover
  maybe_auto_recover-Balances g h =
      let (now, w) = b.k_uptime_get g.world in
      let seen : Gen W = record g { world = w } in
      let restarted : Gen W = (restart_can_controller b seen).1 in
      ground (
        arith,
        d.uptime_lem g.world,
        r.uptime_lem g.world,
        restart_can_controller-Balances seen,
        d.uptime_lem restarted.world,
        r.uptime_lem restarted.world,
      )

  k_sleep-Balances :
      (ms : ℕ) (g : Gen W)
      → Balances b inflight refused 0 g
      → Balances b inflight refused 0 (k_sleep b ms g)
  unfolding k_sleep
  k_sleep-Balances ms g h =
      let (errors, w) = b.k_sleep ms g.world in
      callbacks-Balances errors (record g { world = w })
        (omega (arith, h, d.sleep_lem ms g.world, r.sleep_lem ms g.world))

  pub main_round-Balances :
      (g : Gen W) → Balances b inflight refused 0 g → Balances b inflight refused 0 (main_round b g)
  unfolding main_round
  main_round-Balances g h =
      let sent : Gen W = (send_demo_frames b g).1 in
      let recovered : Gen W = maybe_auto_recover b sent in
      ground (
        arith,
        send_demo_frames-Balances g h,
        k_sleep-Balances 100 g h,
        maybe_auto_recover-Balances sent,
        k_sleep-Balances sent.period_ms sent,
        k_sleep-Balances recovered.period_ms recovered,
      )

  loop_rounds-Balances :
      (n : ℕ) (g : Gen W)
      → Balances b inflight refused 0 g
      → Balances b inflight refused 0 (loop_rounds b n g)
  unfolding loop_rounds
  loop_rounds-Balances zero g h = h
  loop_rounds-Balances (suc n) g h =
      loop_rounds-Balances n (main_round b g) (main_round-Balances g h)

  shell_sleep-Balances :
      (ms : ℕ) (g : Gen W)
      → Balances b inflight refused 0 g
      → Balances b inflight refused 0 (shell_sleep b ms g)
  unfolding shell_sleep
  shell_sleep-Balances ms g h =
      let slept : Gen W = k_sleep b ms g in
      loop_rounds-Balances (b.rounds_meanwhile slept.world) slept (k_sleep-Balances ms g h)

  pub burst_loop-Balances :
      (n : ℕ) (g : Gen W)
      → Balances b inflight refused 0 g
      → Balances b inflight refused 0 (burst_loop b n g).1
  unfolding burst_loop
  burst_loop-Balances zero g h = h
  burst_loop-Balances (suc n) g h =
      let sent : Gen W = (send_demo_frames b g).1 in
      ground (
        arith,
        send_demo_frames-Balances g h,
        shell_sleep-Balances 10 sent,
        burst_loop-Balances n (shell_sleep b 10 sent),
      )
