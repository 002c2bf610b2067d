-- ===== src/CanGen/Formed.antt =====
-- The frames that app/demos/frdm_can_traffic_generator/src/main.c hands to the controller.
use zephyr_start.Base.{
  Every, List, Option, [], arith, false, if◌then◌else◌, length, ltb, none, refl, some, suc, zero, ℕ,
  ℤ, ◌∙◌, ◌∷◌, ◌≡◌,
}
use zephyr_start.CanGen.Steps.{
  restart, Step, Reach, loop, start, stop, rate, burst, complete, ready, next,
}
use zephyr_start.CanGen.Shell.{
  burst_loop, burst_of, cmd_can_gen_burst, cmd_can_gen_rate, cmd_can_gen_restart, cmd_can_gen_start,
  cmd_can_gen_stop, shell_sleep, argv1,
}
use zephyr_start.CanGen.Parse.{parse_count}
use zephyr_start.CanGen.Frames.{IsFrame, demo_frames-IsFrame}
use zephyr_start.CanGen.Defs.{
  Gen, callbacks, demo_frames, inc32, loop_rounds, maybe_auto_recover, restart_can_controller,
  send_demo_frames, send_frame, send_frames, tx_callback, k_sleep, main_round, main_start, initial,
}
use zephyr_start.CanGen.Board.{IsLittleEndian, Board, Frame}

-- How many frames the controller has been given that are none, which only such a frame changes.
pub record CountsMalformed {W : Type 0} (b : Board W) (malformed : W → ℕ) : Type 0 where
  pub send_lem : (f : Frame) (w : W) → IsFrame f → malformed (b.can_send f w).1 ≡ malformed w
  pub stop_lem : (w : W) → malformed (b.can_stop w).2 ≡ malformed w
  pub start_lem : (w : W) → malformed (b.can_start w).1 ≡ malformed w
  pub bitrate_lem : (n : ℕ) (w : W) → malformed (b.can_set_bitrate n w).1 ≡ malformed w
  pub configure_lem : (w : W) → malformed (b.gpio_pin_configure w).1 ≡ malformed w
  pub sleep_lem : (t : ℕ) (w : W) → malformed (b.k_sleep t w).1 ≡ malformed w
  pub uptime_lem : (w : W) → malformed (b.k_uptime_get w).1 ≡ malformed w
  pub uptime_32_lem : (w : W) → malformed (b.k_uptime_get_32 w).1 ≡ malformed w
  pub toggle_lem : (w : W) → malformed (b.gpio_pin_toggle w) ≡ malformed w

-- The driver's own part of a completion gives the controller no frame.
abbrev pub Keeps : {W : Type 0} → (W → ℕ) → W → W → Type 0
Keeps malformed before later = malformed later ≡ malformed before

module _ {W : Type 0} (b : Board W) (e : IsLittleEndian b) (malformed : W → ℕ)
    (k : CountsMalformed b malformed) where
  -- The count after an operation.
  abbrev after : Gen W → ℕ
  after g = malformed g.world

  tx_callback-after : (error : ℤ) (g : Gen W) → after (tx_callback b error g) ≡ after g
  unfolding tx_callback
  tx_callback-after error g = ground (arith, k.toggle_lem g.world)

  callbacks-after : (es : List ℤ) (g : Gen W) → after (callbacks b es g) ≡ after g
  unfolding callbacks
  callbacks-after [] g = refl
  callbacks-after (error ∷ es) g =
      callbacks-after es (tx_callback b error g) ∙ tx_callback-after error g

  send_frame-after : (f : Frame) (g : Gen W) → IsFrame f → after (send_frame b f g).1 ≡ after g
  unfolding send_frame
  send_frame-after f g formed = ground (arith, k.send_lem f g.world formed)

  send_frames-after :
      (fs : List Frame) (g : Gen W) → Every fs IsFrame → after (send_frames b fs g).1 ≡ after g
  unfolding send_frames
  send_frames-after [] g _ = refl
  send_frames-after (f ∷ fs) g (this, others) =
      ground (arith, send_frame-after f g this, send_frames-after fs (send_frame b f g).1 others)

  send_demo_frames-after : (g : Gen W) → after (send_demo_frames b g).1 ≡ after g
  unfolding send_demo_frames
  send_demo_frames-after g =
      let (uptime_ms, w) = b.k_uptime_get_32 g.world in
      let ticked : Gen W = record g { tx_sequence = inc32 g.tx_sequence; world = w } in
      send_frames-after (demo_frames b g.tx_sequence uptime_ms) ticked
        (demo_frames-IsFrame b e g.tx_sequence uptime_ms)
      ∙ k.uptime_32_lem g.world

  restart_can_controller-after : (g : Gen W) → after (restart_can_controller b g).1 ≡ after g
  unfolding restart_can_controller
  restart_can_controller-after g =
      let (ret, errors, w) = b.can_stop g.world in
      let stopped : Gen W = callbacks b errors (record g { world = w }) in
      ground (
        arith,
        k.stop_lem g.world,
        callbacks-after errors (record g { world = w }),
        k.start_lem stopped.world,
      )

  maybe_auto_recover-after : (g : Gen W) → after (maybe_auto_recover b g) ≡ after g
  unfolding maybe_auto_recover
  maybe_auto_recover-after g =
      let (now, w) = b.k_uptime_get g.world in
      let seen : Gen W = record g { world = w } in
      let restarted : Gen W = (restart_can_controller b seen).1 in
      ground (
        arith,
        k.uptime_lem g.world,
        restart_can_controller-after seen,
        k.uptime_lem restarted.world,
      )

  k_sleep-after : (ms : ℕ) (g : Gen W) → after (k_sleep b ms g) ≡ after g
  unfolding k_sleep
  k_sleep-after ms g =
      let (errors, w) = b.k_sleep ms g.world in
      callbacks-after errors (record g { world = w }) ∙ k.sleep_lem ms g.world

  main_round-after : (g : Gen W) → after (main_round b g) ≡ after g
  unfolding main_round
  main_round-after g =
      let sent : Gen W = (send_demo_frames b g).1 in
      let recovered : Gen W = maybe_auto_recover b sent in
      ground (
        arith,
        send_demo_frames-after g,
        k_sleep-after 100 g,
        maybe_auto_recover-after sent,
        k_sleep-after sent.period_ms sent,
        k_sleep-after recovered.period_ms recovered,
      )

  loop_rounds-after : (n : ℕ) (g : Gen W) → after (loop_rounds b n g) ≡ after g
  unfolding loop_rounds
  loop_rounds-after zero g = refl
  loop_rounds-after (suc n) g = loop_rounds-after n (main_round b g) ∙ main_round-after g

  shell_sleep-after : (ms : ℕ) (g : Gen W) → after (shell_sleep b ms g) ≡ after g
  unfolding shell_sleep
  shell_sleep-after ms g =
      let slept : Gen W = k_sleep b ms g in
      loop_rounds-after (b.rounds_meanwhile slept.world) slept ∙ k_sleep-after ms g

  burst_loop-after : (n : ℕ) (g : Gen W) → after (burst_loop b n g).1 ≡ after g
  unfolding burst_loop
  burst_loop-after zero g = refl
  burst_loop-after (suc n) g =
      let sent : Gen W = (send_demo_frames b g).1 in
      ground (
        arith,
        send_demo_frames-after g,
        shell_sleep-after 10 sent,
        burst_loop-after n (shell_sleep b 10 sent),
      )

  burst_of-after : (count : Option ℕ) (g : Gen W) → after (burst_of b count g).1 ≡ after g
  unfolding burst_of
  burst_of-after none g = refl
  burst_of-after (some n) g = burst_loop-after n g

  Step-after : {g g' : Gen W} → Step b (Keeps malformed) g g' → after g' ≡ after g
  unfolding cmd_can_gen_start cmd_can_gen_stop cmd_can_gen_rate cmd_can_gen_burst
      cmd_can_gen_restart
  Step-after {g} loop = main_round-after g
  Step-after {g} (start argv) = ground arith
  Step-after {g} stop = refl
  Step-after {g} (rate argv) = ground arith
  Step-after {g} (burst argv) =
      burst_of-after (if ltb 1 (length argv) then parse_count (argv1 argv) else some 10) g
  Step-after {g} restart = restart_can_controller-after (record g { generator_enabled = false })
  Step-after {g} (complete error w kept) = tx_callback-after error (record g { world = w }) ∙ kept

  main_start-after : (w : W) {g : Gen W} → main_start b (initial w) ≡ some g → after g ≡ malformed w
  unfolding main_start
  main_start-after w started =
      let rated = (b.can_set_bitrate 500000 w).1 in
      let running = (b.can_start rated).1 in
      ground (arith, k.bitrate_lem 500000 w, k.start_lem rated, k.configure_lem running)

  -- Where the byte order is little-endian as documented and the controller has been given no malformed
  -- frame before: in every reachable state each frame that it was ever given has an identifier that fits
  -- its 11 or 29 bits, a length of at most 8, and that many bytes.
  pub Reach-Formed :
      (w : W) {g : Gen W} → Reach b (Keeps malformed) w g → malformed w ≡ 0 → malformed g.world ≡ 0
  Reach-Formed w (ready started) none_yet = main_start-after w started ∙ none_yet
  Reach-Formed w (next steps step) none_yet = Step-after step ∙ Reach-Formed w steps none_yet
