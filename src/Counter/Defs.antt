-- ===== src/Counter/Defs.antt =====
-- The frames, the threads and the work handler of app/demos/can_counter/src/main.c.
use zephyr_start.Base.{
  Bool, List, Option, [], codes, enospc, false, get_or, if◌then◌else◌, is_neg, is_zero, neg, none,
  not, some, suc, true, zero, ℕ, ℤ, ◌%◌, ◌&&◌, ◌++◌, ◌+◌, ◌==ℤ◌, ◌==◌, ◌^◌, ◌||◌, ◌∷◌,
}

-- What the program reads of a `struct can_frame`.
pub record Frame : Type 0 where
  pub id : ℕ
  pub ide : Bool
  pub rtr : Bool
  pub dlc : ℕ
  pub payload : List ℕ

-- The calls of the message queue `change_led_msgq`, the LED and the work queue, and the two orders of
-- bytes, `sys_cpu_to_be16` with its store and `sys_be16_to_cpu` with its load.
pub record Board (W : Type 0) : Type 0 where
  pub k_msgq_get : W → ℤ × Frame × W
  pub gpio_pin_set : Bool → W → W
  pub log_led : Bool → W → W
  pub k_work_poll_submit : W → ℤ × W
  pub put_be16 : ℕ → List ℕ
  pub get_be16 : List ℕ → ℕ

-- What `rx_thread` logs of a frame.
pub data RxLog : Type 0 where
  wrong_length : ℕ → RxLog
  counter_received : ℕ → RxLog

module _ {W : Type 0} (b : Board W) (accept_rtr : Bool) where
  -- One round of `rx_thread`, on the frame that it gets.
  unfoldable pub rx_round : Frame → List RxLog
  rx_round frame =
      if accept_rtr && frame.rtr
      then []
      else (if frame.dlc == 2
          then counter_received (b.get_be16 frame.payload) ∷ []
          else wrong_length frame.dlc ∷ [])

  unfoldable pub rx_thread : List Frame → List RxLog
  unfolding rx_round
  rx_thread [] = []
  rx_thread (frame ∷ frames) = rx_round frame ++ rx_thread frames

  -- `frame.data[0] == SET_LED`
  abbrev pub is_set : Frame → Bool
  is_set frame = get_or frame.payload 0 0 == 1

  -- The body of the loop below; `led_port` says that `led.port` is not NULL.
  unfoldable pub change_led : Bool → Frame → W → W
  change_led led_port frame w =
      if accept_rtr && frame.rtr
      then w
      else (if led_port then b.gpio_pin_set (is_set frame) w else b.log_led (is_set frame) w)

  -- The `while` of `change_led_work_handler`, with fuel; `none` is out of fuel.
  unfoldable pub change_led_loop : ℕ → Bool → W → Option W
  unfolding change_led
  change_led_loop zero led_port w = none
  change_led_loop (suc fuel) led_port w =
      let (ret, frame, w') = b.k_msgq_get w in
      let rest = change_led_loop fuel led_port (change_led led_port frame w') in
      if is_zero ret then rest else some w'

  -- That the new submission fails is only logged.
  unfoldable pub change_led_work_handler : ℕ → Bool → W → Option W
  unfolding change_led_loop
  change_led_work_handler fuel led_port w = elim (change_led_loop fuel led_port w) [
    | none ↦ none
    | some w' ↦ some (b.k_work_poll_submit w').1
  ]

-- `enum can_state` by its numbers.
unfoldable pub state_to_str : ℕ → List ℕ
state_to_str state =
    if state == 0
    then codes "error-active"
    else (if state == 1
        then codes "error-warning"
        else (if state == 2
            then codes "error-passive"
            else (if state == 3
                then codes "bus-off"
                else (if state == 4 then codes "stopped" else codes "unknown"))))

-- What `can_get_state` stores: the state and the error counts.
pub record Reading : Type 0 where
  pub state : ℕ
  pub tx_err_cnt : ℕ
  pub rx_err_cnt : ℕ

-- What a round of `poll_state_thread` does after it has asked for the state.
pub data Polled : Type 0 where
  failed : ℤ → Polled
  reported : Reading → Polled
  unchanged : Polled

-- The values that the thread starts with.
abbrev pub first_reading : Reading
first_reading = record { state = 0; tx_err_cnt = 0; rx_err_cnt = 0 }

-- The test of `poll_state_thread`, negated.
abbrev pub same : Reading → Reading → Bool
same r s =
    (r.tx_err_cnt == s.tx_err_cnt) && ((r.rx_err_cnt == s.rx_err_cnt) && (s.state == r.state))

-- One round, from the reading reported last, on the result of `can_get_state`.
unfoldable pub poll_round : Reading → ℤ × Reading → Polled × Reading
poll_round prev (err, reading) =
    if is_zero err
    then (if same reading prev then (unchanged, prev) else (reported reading, reading))
    else (failed err, prev)

unfoldable pub poll_state_thread : Reading → List (ℤ × Reading) → List Polled × Reading
unfolding poll_round
poll_state_thread prev [] = ([], prev)
poll_state_thread prev (r ∷ rs) =
    let (p, prev') = poll_round prev r in
    let (ps, prev'') = poll_state_thread prev' rs in (p ∷ ps, prev'')

-- `toggle`, a `uint8_t`, and `counter`, a `uint16_t`.
pub record Sender : Type 0 where
  pub toggle : ℕ
  pub counter : ℕ

abbrev pub initial : Sender
initial = record { toggle = 1; counter = 0 }

module _ {W : Type 0} (b : Board W) where
  abbrev pub change_led_frame : ℕ → Frame
  change_led_frame toggle = record {
    id = 0x10;
    ide = false;
    rtr = false;
    dlc = 1;
    payload = (if toggle % 2 == 1 then 1 else 0) ∷ [];
  }

  abbrev pub counter_frame : ℕ → Frame
  counter_frame counter = record {
    id = 0x12345;
    ide = true;
    rtr = false;
    dlc = 2;
    payload = b.put_be16 counter;
  }

  -- One round of the `while (1)` of `main`: the two frames that it hands to `can_send`, whose results
  -- it does not read.
  unfoldable pub main_round : Sender → (Frame × Frame) × Sender
  main_round s = (
    (change_led_frame s.toggle, counter_frame s.counter),
    record { toggle = (s.toggle + 1) % 2 ^ 8; counter = (s.counter + 1) % 2 ^ 16 },
  )

  -- The frames of a number of rounds.
  unfoldable pub main_rounds : ℕ → Sender → List (Frame × Frame)
  unfolding main_round
  main_rounds zero s = []
  main_rounds (suc n) s = let (frames, s') = main_round s in frames ∷ main_rounds n s'

-- What the calls of the set-up of `main` answer.
pub record Answers : Type 0 where
  pub device_is_ready : Bool
  pub can_start : ℤ
  pub led_port : Bool
  pub gpio_is_ready : Bool
  pub gpio_pin_configure : ℤ
  pub can_add_rx_filter : ℤ
  pub k_work_poll_submit : ℤ

-- The set-up in a build without CONFIG_LOOPBACK_MODE: `none` where `main` returns, or whether the LED
-- is used. That a thread cannot be created is only logged.
unfoldable pub set_up : Answers → Option Bool
set_up a =
    if not a.device_is_ready || not (is_zero a.can_start) || (a.led_port && not a.gpio_is_ready)
    then none
    else (if (a.can_add_rx_filter ==ℤ neg enospc) || not (is_zero a.k_work_poll_submit)
        then none
        else some (a.led_port && not (is_neg a.gpio_pin_configure)))
