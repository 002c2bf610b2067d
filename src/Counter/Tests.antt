-- ===== src/Counter/Tests.antt =====
-- Tests, and instances of the theorems about app/demos/can_counter/src/main.c.
use zephyr_start.Base.{
  Bool, List, [], arith, eagain, false, if◌then◌else◌, is_zero, length, ltb, lt→ltb, neg, negsuc,
  pos, refl, some, sym, true, ℕ, ℤ, ◌%◌, ◌*◌, ◌++◌, ◌+◌, ◌/◌, ◌==◌, ◌∷◌, ◌≡◌,
}
use zephyr_start.Counter.States.{
  Happening, changed, happen, happenings, queue_runs, state_change_callback, at_start,
}
use zephyr_start.Counter.Sends.{IsBigEndian}
use zephyr_start.Counter.Led.{IsQueue}
use zephyr_start.Counter.Defs.{
  Reading, change_led, change_led_loop, change_led_work_handler, first_reading, poll_round,
  poll_state_thread, failed, reported, unchanged, Board, Frame,
}
use zephyr_start.Counter.Blink.{Blinking, IsLoopback, blinks, blinks_lem}

record Desk : Type 0 where
  queue : List Frame
  level : Bool
  submits : ℕ

abbrev no_frame : Frame
no_frame = record { id = 0; ide = false; rtr = false; dlc = 0; payload = [] }

abbrev get_frame_of : List Frame → Desk → ℤ × Frame × Desk
get_frame_of [] w = (neg eagain, no_frame, w)
get_frame_of (f ∷ fs) w = (pos 0, f, record w { queue = fs })

abbrev be16_of : List ℕ → ℕ
be16_of [] = 0
be16_of (hi ∷ []) = hi * 256
be16_of (hi ∷ lo ∷ rest) = hi * 256 + lo

abbrev board : Board Desk
board = record {
  k_msgq_get = λ w. get_frame_of w.queue w;
  gpio_pin_set = λ v w. record w { level = v };
  log_led = λ v w. w;
  k_work_poll_submit = λ w. (pos 0, record w { submits = w.submits + 1 });
  put_be16 = λ x. x / 256 % 256 ∷ x % 256 ∷ [];
  get_be16 = be16_of;
}

get_frame_of-ret :
    (w : Desk) (q : List Frame) (f : Frame) (fs : List Frame)
    → q ≡ f ∷ fs
    → is_zero (get_frame_of q w).0 ≡ true
get_frame_of-ret w [] f fs e = cc
get_frame_of-ret w (g ∷ gs) f fs e = refl

get_frame_of-frame :
    (w : Desk) (q : List Frame) (f : Frame) (fs : List Frame)
    → q ≡ f ∷ fs
    → (get_frame_of q w).1 ≡ f
get_frame_of-frame w [] f fs e = cc
get_frame_of-frame w (g ∷ gs) f fs e = cc

get_frame_of-rest :
    (w : Desk) (q : List Frame) (f : Frame) (fs : List Frame)
    → q ≡ f ∷ fs
    → (get_frame_of q w).2.queue ≡ fs
get_frame_of-rest w [] f fs e = cc
get_frame_of-rest w (g ∷ gs) f fs e = cc

get_frame_of-none : (w : Desk) (q : List Frame) → q ≡ [] → is_zero (get_frame_of q w).0 ≡ false
get_frame_of-none w [] e = refl
get_frame_of-none w (g ∷ gs) e = cc

get_frame_of-empty :
    (w : Desk) (q : List Frame) → q ≡ w.queue → q ≡ [] → (get_frame_of q w).2.queue ≡ []
get_frame_of-empty w [] e h = sym e
get_frame_of-empty w (g ∷ gs) e h = cc

get_frame_of-level : (w : Desk) (q : List Frame) → (get_frame_of q w).2.level ≡ w.level
get_frame_of-level w [] = refl
get_frame_of-level w (g ∷ gs) = refl

board-IsQueue : IsQueue board (λ w. w.queue) (λ w. w.level)
board-IsQueue = record {
  get_ret = λ w f fs e. get_frame_of-ret w w.queue f fs e;
  get_frame = λ w f fs e. get_frame_of-frame w w.queue f fs e;
  get_rest = λ w f fs e. get_frame_of-rest w w.queue f fs e;
  get_none = λ w e. get_frame_of-none w w.queue e;
  get_none_pending = λ w e. get_frame_of-empty w w.queue refl e;
  get_pin = λ w. get_frame_of-level w w.queue;
  set_pin = λ v w. refl;
  set_pending = λ v w. refl;
  submit_pin = λ w. refl;
  submit_pending = λ w. refl;
}

board-IsBigEndian : IsBigEndian board
board-IsBigEndian = record { put = λ x. refl; get = λ hi lo rest. refl }

abbrev asks : ℕ → Bool → Frame
asks x remote = record { id = 0x10; ide = false; rtr = remote; dlc = 1; payload = x ∷ [] }

-- On, off, on, and a remote frame that is passed over.
abbrev busy : Desk
busy = record {
  queue = asks 1 false ∷ asks 0 false ∷ asks 1 false ∷ asks 0 true ∷ [];
  level = false;
  submits = 0;
}

busy_handled :
    change_led_work_handler board true 5 true busy
    ≡ some (record { queue = []; level = true; submits = 1 })
unfolding change_led_work_handler change_led_loop change_led
busy_handled = refl

abbrev warned : Reading
warned = record { state = 1; tx_err_cnt = 97; rx_err_cnt = 0 }

abbrev polls : List (ℤ × Reading)
polls = (pos 0, first_reading) ∷ (pos 0, warned) ∷ (negsuc 4, first_reading) ∷ (pos 0, warned) ∷ []

polls_reported :
    (poll_state_thread first_reading polls).0
    ≡ unchanged ∷ reported warned ∷ failed (negsuc 4) ∷ unchanged ∷ []
unfolding poll_state_thread poll_round
polls_reported = refl

-- Two changes before the work queue runs, then one more.
abbrev happened : List Happening
happened =
    changed (record { state = 1; tx_err_cnt = 96; rx_err_cnt = 0 })
    ∷ changed (record { state = 2; tx_err_cnt = 128; rx_err_cnt = 0 })
    ∷ queue_runs
    ∷ changed (record { state = 3; tx_err_cnt = 256; rx_err_cnt = 0 })
    ∷ queue_runs
    ∷ queue_runs
    ∷ []

two_logs : length (happenings happened at_start).0 ≡ 2
unfolding happenings happen state_change_callback
two_logs = refl

-- The controller in loop-back; a full queue drops the frame.
abbrev loop_back : Frame → Desk → Desk
loop_back f w = if ltb (length w.queue) 2 then record w { queue = w.queue ++ (f ∷ []) } else w

loop_back-IsLoopback : IsLoopback loop_back (λ w. w.queue) (λ w. w.level)
loop_back-IsLoopback = record {
  put_pending = λ f w room. rw (lt→ltb (length w.queue) 2 room) refl;
  put_pin = λ f w. kept (ltb (length w.queue) 2) f w;
}
  where
    kept :
        (room : Bool) (f : Frame) (w : Desk)
        → (if room then record w { queue = w.queue ++ (f ∷ []) } else w).level ≡ w.level
    kept true f w = refl
    kept false f w = refl

abbrev at_rest : Blinking Desk
at_rest = record {
  sender = record { toggle = 1; counter = 0 };
  desk = record { queue = []; level = false; submits = 0 };
}

-- Two rounds, the handler, a third round, and the handler again.
blinks_lem_example :
    (s' : Blinking Desk) × (blinks board loop_back true (2 ∷ 1 ∷ []) at_rest ≡ some s')
    × (s'.desk.queue ≡ [])
    × (s'.sender.toggle ≡ 4)
    × (s'.desk.level ≡ (s'.sender.toggle % 2 == 0))
blinks_lem_example =
    blinks_lem board true loop_back (λ w. w.queue) (λ w. w.level) board-IsQueue loop_back-IsLoopback
      2 (1 ∷ []) at_rest refl ((omega arith, omega arith), ((omega arith, omega arith), tt))
