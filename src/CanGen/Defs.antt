-- ===== src/CanGen/Defs.antt =====
-- The state and the functions of app/demos/frdm_can_traffic_generator/src/main.c.
-- What the code prints is left out; the code returned by a shell command is in its result.
use zephyr_start.Base.{
  Bool, List, Option, [], ealready, false, if◌then◌else◌, is_zero, ltb, neg, none, not, pos, some,
  suc, true, zero, ℕ, ℤ, ◌%◌, ◌&&◌, ◌*◌, ◌++◌, ◌+◌, ◌==ℤ◌, ◌==◌, ◌^◌, ◌||◌, ◌∷◌,
}
use zephyr_start.CanGen.Board.{Board, Frame}

abbrev pub tx_queue_depth : ℕ
tx_queue_depth = 3

abbrev pub recovery_failure_limit : ℕ
recovery_failure_limit = 4

abbrev pub auto_recovery_backoff_ms : ℕ
auto_recovery_backoff_ms = 5000

-- `x++` on a `uint32_t`.
abbrev pub inc32 : ℕ → ℕ
inc32 x = (x + 1) % 2 ^ 32

-- The file's static variables, the count of `tx_queue_sem`, and the world outside.
-- `next_auto_recovery_ms` is an `int64_t` that starts at 0 and takes only times since boot.
pub record Gen (W : Type 0) : Type 0 where
  pub generator_enabled : Bool
  pub period_ms : ℕ
  pub tx_sequence : ℕ
  pub tx_enqueued : ℕ
  pub tx_ok : ℕ
  pub tx_err : ℕ
  pub tx_busy : ℕ
  pub tx_fail_streak : ℕ
  pub tx_recoveries : ℕ
  pub next_auto_recovery_ms : ℕ
  pub tx_queue_sem : ℕ
  pub world : W

module _ {W : Type 0} where
  -- The static initialisers.
  abbrev pub initial : W → Gen W
  initial w = record {
    generator_enabled = true;
    period_ms = 1000;
    tx_sequence = 0;
    tx_enqueued = 0;
    tx_ok = 0;
    tx_err = 0;
    tx_busy = 0;
    tx_fail_streak = 0;
    tx_recoveries = 0;
    next_auto_recovery_ms = 0;
    tx_queue_sem = tx_queue_depth;
    world = w;
  }

module _ {W : Type 0} (b : Board W) where
  unfoldable pub tx_callback : ℤ → Gen W → Gen W
  tx_callback error g =
      if is_zero error
      then record g {
        tx_ok = inc32 g.tx_ok;
        tx_fail_streak = 0;
        world = if b.led_port then b.gpio_pin_toggle g.world else g.world;
        tx_queue_sem = b.k_sem_give g.tx_queue_sem;
      }
      else record g {
        tx_err = inc32 g.tx_err;
        tx_fail_streak = inc32 g.tx_fail_streak;
        tx_queue_sem = b.k_sem_give g.tx_queue_sem;
      }

  -- The callbacks that the driver makes during a call, in order.
  unfoldable pub callbacks : List ℤ → Gen W → Gen W
  callbacks [] g = g
  callbacks (e ∷ es) g = callbacks es (tx_callback e g)

  after_can_send : ℤ × W → Gen W → ℤ × Gen W
  after_can_send (ret, w) g =
      if is_zero ret then (pos 0, record g { tx_enqueued = inc32 g.tx_enqueued; world = w }) else (
        ret,
        record g {
          tx_err = inc32 g.tx_err;
          tx_fail_streak = inc32 g.tx_fail_streak;
          tx_queue_sem = b.k_sem_give g.tx_queue_sem;
          world = w;
        },
      )

  after_take : ℤ × ℕ → Frame → Gen W → ℤ × Gen W
  unfolding after_can_send
  after_take (ret, count) frame g =
      if is_zero ret
      then after_can_send (b.can_send frame g.world) (record g { tx_queue_sem = count })
      else (
        ret,
        record g {
          tx_queue_sem = count;
          tx_busy = inc32 g.tx_busy;
          tx_fail_streak = inc32 g.tx_fail_streak;
        },
      )

  unfoldable pub send_frame : Frame → Gen W → ℤ × Gen W
  unfolding after_take
  send_frame frame g = after_take (b.k_sem_take g.tx_queue_sem) frame g

  -- The three frames. `(uint8_t)` and `(uint16_t)` are remainders.
  unfoldable pub heartbeat : ℕ → Frame
  heartbeat seq = record {
    id = 0x156;
    dlc = 2;
    ide = false;
    payload = seq % 256 ∷ (if seq % 2 == 0 then 0x5a else 0xa5) ∷ [];
  }

  unfoldable pub status : ℕ → ℕ → Frame
  status seq uptime_ms = record {
    id = 0x321;
    dlc = 8;
    ide = false;
    payload = 0xf0 ∷ 0x0d ∷ (b.put_le16 (seq % 2 ^ 16) ++ b.put_le32 uptime_ms);
  }

  unfoldable pub sensor : ℕ → Frame
  sensor seq = record {
    id = 0x18FF1560;
    dlc = 8;
    ide = true;
    payload =
        b.put_le16 (seq % 2 ^ 16)
        ++ (b.put_le16 ((2200 + seq % 80 * 5) % 2 ^ 16)
            ++ (b.put_le16 ((3300 + seq % 25) % 2 ^ 16) ++ (seq % 256 ∷ 0xc3 ∷ [])));
  }

  -- A list of frames sent in turn until one fails: `send_demo_frames` sends its three so.
  unfoldable pub send_frames : List Frame → Gen W → ℤ × Gen W
  send_frames [] g = (pos 0, g)
  send_frames (f ∷ fs) g =
      let (ret, g') = send_frame f g in
      elim (is_zero ret) [ true ↦ send_frames fs g' | false ↦ (ret, g') ]

  abbrev pub demo_frames : ℕ → ℕ → List Frame
  demo_frames seq uptime_ms = heartbeat seq ∷ status seq uptime_ms ∷ sensor seq ∷ []

  unfoldable pub send_demo_frames : Gen W → ℤ × Gen W
  unfolding send_frames send_frame
  send_demo_frames g =
      let (uptime_ms, w) = b.k_uptime_get_32 g.world in
      send_frames (demo_frames g.tx_sequence uptime_ms)
        (record g { tx_sequence = inc32 g.tx_sequence; world = w })

  give_times : ℕ → ℕ → ℕ
  give_times zero count = count
  give_times (suc n) count = give_times n (b.k_sem_give count)

  unfoldable pub reset_tx_semaphore : Gen W → Gen W
  unfolding give_times
  reset_tx_semaphore g = record g {
    tx_queue_sem = give_times tx_queue_depth (b.k_sem_reset g.tx_queue_sem);
  }

  after_start : ℤ × W → Gen W → ℤ × Gen W
  after_start (ret, w) g =
      if is_zero ret
      then (
        pos 0,
        record g { tx_fail_streak = 0; tx_recoveries = inc32 g.tx_recoveries; world = w },
      )
      else (ret, record g { world = w })

  after_stop : ℤ × List ℤ × W → Gen W → ℤ × Gen W
  unfolding after_start callbacks tx_callback reset_tx_semaphore
  after_stop (ret, errors, w) g =
      let stopped = callbacks errors (record g { world = w }) in
      if not (is_zero ret) && not (ret ==ℤ neg ealready)
      then (ret, stopped)
      else (let ready = reset_tx_semaphore stopped in after_start (b.can_start ready.world) ready)

  unfoldable pub restart_can_controller : Gen W → ℤ × Gen W
  unfolding after_stop
  restart_can_controller g = after_stop (b.can_stop g.world) g

  -- `send_ret` is only printed.
  unfoldable pub maybe_auto_recover : Gen W → Gen W
  unfolding restart_can_controller
  maybe_auto_recover g =
      let (now, w) = b.k_uptime_get g.world in
      let seen = record g { world = w } in
      if ltb g.tx_fail_streak recovery_failure_limit || ltb now g.next_auto_recovery_ms
      then seen
      else (let (ret, restarted) = restart_can_controller seen in
          let (later, w') = b.k_uptime_get restarted.world in
          record restarted { next_auto_recovery_ms = later + auto_recovery_backoff_ms; world = w' })

  unfoldable pub k_sleep : ℕ → Gen W → Gen W
  unfolding callbacks tx_callback
  k_sleep ms g = let (errors, w) = b.k_sleep ms g.world in callbacks errors (record g { world = w })

  -- One round of the `while (true)` of `main`.
  unfoldable pub main_round : Gen W → Gen W
  unfolding send_demo_frames maybe_auto_recover k_sleep
  main_round g =
      if g.generator_enabled
      then (let (ret, sent) = send_demo_frames g in
          let checked = if is_zero ret then sent else maybe_auto_recover sent in
          k_sleep checked.period_ms checked)
      else k_sleep 100 g

  -- Rounds of the loop.
  unfoldable pub loop_rounds : ℕ → Gen W → Gen W
  unfolding main_round
  loop_rounds zero g = g
  loop_rounds (suc n) g = loop_rounds n (main_round g)

  configure_led : Gen W → Gen W
  configure_led g =
      if b.led_port && b.gpio_is_ready
      then record g { world = (b.gpio_pin_configure g.world).1 }
      else g

  main_after_start : ℤ × W → Gen W → Option (Gen W)
  unfolding configure_led
  main_after_start (ret, w) g =
      if is_zero ret then some (configure_led (record g { world = w })) else none

  main_after_bitrate : ℤ × W → Gen W → Option (Gen W)
  unfolding main_after_start
  main_after_bitrate (ret, w) g =
      if is_zero ret then main_after_start (b.can_start w) (record g { world = w }) else none

  -- `main` up to its loop; `none` where it returns before. That the LED cannot be set up is only
  -- printed.
  unfoldable pub main_start : Gen W → Option (Gen W)
  unfolding main_after_bitrate
  main_start g =
      if b.device_is_ready then main_after_bitrate (b.can_set_bitrate 500000 g.world) g else none
