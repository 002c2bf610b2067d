-- ===== src/CanGen/Settings.antt =====
-- Sending, callbacks and recovery leave the shell's settings alone, in
-- app/demos/frdm_can_traffic_generator/src/main.c.
use zephyr_start.Base.{List, [], arith, ℕ, ℤ, ◌∷◌, ◌≡◌}
use zephyr_start.CanGen.Defs.{
  Gen, callbacks, demo_frames, inc32, maybe_auto_recover, restart_can_controller, send_demo_frames,
  send_frame, send_frames, tx_callback, k_sleep, main_round,
}
use zephyr_start.CanGen.Board.{Board, Frame}

module _ {W : Type 0} where
  -- The two settings that the shell commands change.
  pub record SameSettings (g g' : Gen W) : Type 0 where
    pub enabled : g'.generator_enabled ≡ g.generator_enabled
    pub period : g'.period_ms ≡ g.period_ms

  -- All that sending and callbacks leave alone.
  pub record Kept (g g' : Gen W) : Type 0 where
    pub enabled : g'.generator_enabled ≡ g.generator_enabled
    pub period : g'.period_ms ≡ g.period_ms
    pub due : g'.next_auto_recovery_ms ≡ g.next_auto_recovery_ms

module _ {W : Type 0} (b : Board W) where
  pub tx_callback-Kept : (e : ℤ) (g : Gen W) → Kept g (tx_callback b e g)
  unfolding tx_callback
  tx_callback-Kept e g = ground arith

  pub callbacks-Kept : (es : List ℤ) (g : Gen W) → Kept g (callbacks b es g)
  unfolding callbacks
  callbacks-Kept [] g = ground arith
  callbacks-Kept (e ∷ es) g =
      ground (arith, tx_callback-Kept e g, callbacks-Kept es (tx_callback b e g))

  pub send_frame-Kept : (f : Frame) (g : Gen W) → Kept g (send_frame b f g).1
  unfolding send_frame
  send_frame-Kept f g = ground arith

  pub send_frames-Kept : (fs : List Frame) (g : Gen W) → Kept g (send_frames b fs g).1
  unfolding send_frames
  send_frames-Kept [] g = ground arith
  send_frames-Kept (f ∷ fs) g =
      ground (arith, send_frame-Kept f g, send_frames-Kept fs (send_frame b f g).1)

  pub send_demo_frames-Kept : (g : Gen W) → Kept g (send_demo_frames b g).1
  unfolding send_demo_frames
  send_demo_frames-Kept g =
      let (uptime_ms, w) = b.k_uptime_get_32 g.world in
      let ticked : Gen W = record g { tx_sequence = inc32 g.tx_sequence; world = w } in
      ground (arith, send_frames-Kept (demo_frames b g.tx_sequence uptime_ms) ticked)

  pub restart_can_controller-Kept : (g : Gen W) → Kept g (restart_can_controller b g).1
  unfolding restart_can_controller
  restart_can_controller-Kept g =
      let (ret, errors, w) = b.can_stop g.world in
      ground (arith, callbacks-Kept errors (record g { world = w }))

  pub k_sleep-Kept : (ms : ℕ) (g : Gen W) → Kept g (k_sleep b ms g)
  unfolding k_sleep
  k_sleep-Kept ms g =
      let (errors, w) = b.k_sleep ms g.world in
      ground (arith, callbacks-Kept errors (record g { world = w }))

  pub maybe_auto_recover-SameSettings : (g : Gen W) → SameSettings g (maybe_auto_recover b g)
  unfolding maybe_auto_recover
  maybe_auto_recover-SameSettings g =
      ground (arith, restart_can_controller-Kept (record g { world = (b.k_uptime_get g.world).1 }))

  pub main_round-SameSettings : (g : Gen W) → SameSettings g (main_round b g)
  unfolding main_round
  main_round-SameSettings g =
      let sent : Gen W = (send_demo_frames b g).1 in
      let recovered : Gen W = maybe_auto_recover b sent in
      ground (
        arith,
        send_demo_frames-Kept g,
        maybe_auto_recover-SameSettings sent,
        k_sleep-Kept 100 g,
        k_sleep-Kept sent.period_ms sent,
        k_sleep-Kept recovered.period_ms recovered,
      )
