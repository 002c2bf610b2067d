-- ===== src/CanGen/Slots.antt =====
-- No transmit slot is lost: the semaphore of
-- app/demos/frdm_can_traffic_generator/src/main.c against the frames in flight.
use zephyr_start.Base.{List, [], arith, length, suc, ℕ, ℤ, ◌+◌, ◌-◌, ◌∷◌, ◌≤◌}
use zephyr_start.Kernel.{IsSemaphore}
use zephyr_start.CanGen.Defs.{
  Gen, callbacks, demo_frames, inc32, maybe_auto_recover, restart_can_controller, send_demo_frames,
  send_frame, send_frames, tx_callback, k_sleep, main_round,
}
use zephyr_start.CanGen.Board.{IsDriver, Board, Frame}

module _ {W : Type 0} (inflight : W → ℕ) where
  -- At least as many free slots as the queue has places that no frame takes, and not more than
  -- the depth of the queue.
  pub record HasSlots (g : Gen W) : Type 0 where
    pub upper : g.tx_queue_sem ≤ 3
    pub lower : 3 ≤ g.tx_queue_sem + inflight g.world

module _ {W : Type 0} (b : Board W) (inflight : W → ℕ)
    (s : IsSemaphore 3 b.k_sem_take b.k_sem_give b.k_sem_reset) (d : IsDriver b inflight) where
  -- The state in which the driver has counted off `n` frames whose callbacks are still to run.
  pub record Owes (n : ℕ) (g : Gen W) : Type 0 where
    pub upper : g.tx_queue_sem ≤ 3
    pub lower : 3 ≤ g.tx_queue_sem + n + inflight g.world

  pub tx_callback-Owes : (n : ℕ) (e : ℤ) (g : Gen W) → Owes (suc n) g → Owes n (tx_callback b e g)
  unfolding tx_callback
  tx_callback-Owes n e g o = ground (arith, s.give_lem g.tx_queue_sem, d.toggle_lem g.world)

  callbacks-HasSlots :
      (es : List ℤ) (g : Gen W) → Owes (length es) g → HasSlots inflight (callbacks b es g)
  unfolding callbacks
  callbacks-HasSlots [] g o = omega arith
  callbacks-HasSlots (e ∷ es) g o =
      callbacks-HasSlots es (tx_callback b e g) (tx_callback-Owes (length es) e g o)

  -- `send_frame` takes a slot exactly for a frame that the driver accepted.
  pub send_frame-HasSlots :
      (f : Frame) (g : Gen W) → HasSlots inflight g → HasSlots inflight (send_frame b f g).1
  unfolding send_frame
  send_frame-HasSlots f g v = ground (
    arith,
    s.take_some g.tx_queue_sem,
    s.take_none_err,
    s.take_none_count,
    s.give_lem (g.tx_queue_sem - 1),
    d.send_ok f g.world,
    d.send_err f g.world,
  )

  pub send_frames-HasSlots :
      (fs : List Frame) (g : Gen W) → HasSlots inflight g → HasSlots inflight (send_frames b fs g).1
  unfolding send_frames
  send_frames-HasSlots [] g v = v
  send_frames-HasSlots (f ∷ fs) g v =
      ground (arith, send_frame-HasSlots f g v, send_frames-HasSlots fs (send_frame b f g).1)

  pub send_demo_frames-HasSlots :
      (g : Gen W) → HasSlots inflight g → HasSlots inflight (send_demo_frames b g).1
  unfolding send_demo_frames
  send_demo_frames-HasSlots g v =
      let (uptime_ms, w) = b.k_uptime_get_32 g.world in
      let ticked : Gen W = record g { tx_sequence = inc32 g.tx_sequence; world = w } in
      let h : HasSlots inflight ticked = omega (arith, d.uptime_32_lem g.world) in
      send_frames-HasSlots (demo_frames b g.tx_sequence uptime_ms) ticked h

  pub restart_can_controller-HasSlots :
      (g : Gen W) → HasSlots inflight g → HasSlots inflight (restart_can_controller b g).1
  unfolding restart_can_controller
  restart_can_controller-HasSlots g v =
      let (ret, errors, w) = b.can_stop g.world in
      let stopped : Gen W = callbacks b errors (record g { world = w }) in
      ground (
        arith,
        d.stop_lem g.world,
        callbacks-HasSlots errors (record g { world = w }),
        d.start_lem stopped.world,
        s.reset_lem stopped.tx_queue_sem,
        s.give_lem 0,
        s.give_lem 1,
        s.give_lem 2,
      )

  pub maybe_auto_recover-HasSlots :
      (g : Gen W) → HasSlots inflight g → HasSlots inflight (maybe_auto_recover b g)
  unfolding maybe_auto_recover
  maybe_auto_recover-HasSlots g v =
      let (now, w) = b.k_uptime_get g.world in
      let seen : Gen W = record g { world = w } in
      let h : HasSlots inflight seen = omega (arith, d.uptime_lem g.world) in
      let restarted : Gen W = (restart_can_controller b seen).1 in
      ground (arith, h, restart_can_controller-HasSlots seen, d.uptime_lem restarted.world)

  pub k_sleep-HasSlots :
      (ms : ℕ) (g : Gen W) → HasSlots inflight g → HasSlots inflight (k_sleep b ms g)
  unfolding k_sleep
  k_sleep-HasSlots ms g v =
      let (errors, w) = b.k_sleep ms g.world in
      let woken : Gen W = record g { world = w } in
      let h : Owes (length errors) woken = omega (arith, d.sleep_lem ms g.world) in
      callbacks-HasSlots errors woken h

  pub main_round-HasSlots : (g : Gen W) → HasSlots inflight g → HasSlots inflight (main_round b g)
  unfolding main_round
  main_round-HasSlots g v = ground (
    arith,
    send_demo_frames-HasSlots g v,
    k_sleep-HasSlots 100 g v,
    maybe_auto_recover-HasSlots (send_demo_frames b g).1,
    k_sleep-HasSlots (send_demo_frames b g).1.period_ms (send_demo_frames b g).1,
    k_sleep-HasSlots (maybe_auto_recover b (send_demo_frames b g).1).period_ms
        (maybe_auto_recover b (send_demo_frames b g).1),
  )
