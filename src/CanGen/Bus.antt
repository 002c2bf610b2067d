-- ===== src/CanGen/Bus.antt =====
-- A bus on which the tests run app/demos/frdm_can_traffic_generator/src/main.c.
use zephyr_start.Base.{
  Bool, Every, List, [], arith, eagain, ebusy, if◌then◌else◌, leb, length, length-replicate, ltb,
  min, neg, pos, refl, replicate, suc, true, zero, ℕ, ℤ, ◌%◌, ◌&&◌, ◌++◌, ◌+◌, ◌-◌, ◌/◌, ◌<◌, ◌==◌,
  ◌^◌, ◌∷◌, ◌≡◌, ◌≢◌,
}
use zephyr_start.Kernel.{IsSemaphore}
use zephyr_start.CanGen.Recovery.{LogsStops}
use zephyr_start.CanGen.Frames.{IsFrame}
use zephyr_start.CanGen.Formed.{CountsMalformed}
use zephyr_start.CanGen.Board.{IsClock, IsDriver, IsLittleEndian, Board, Frame}
use zephyr_start.CanGen.Accounts.{CountsRefusals}

-- A bus with three mailboxes that delivers every frame while a thread sleeps.
pub record Bus : Type 0 where
  pub mailboxes : ℕ
  pub time : ℕ
  pub refusals : ℕ
  pub malformed : ℕ
  pub stops : List ℕ

abbrev pub all_bytes : List ℕ → Bool
all_bytes [] = true
all_bytes (x ∷ xs) = ltb x 256 && all_bytes xs

abbrev pub is_frame : Frame → Bool
is_frame f =
    ltb f.id (if f.ide then 2 ^ 29 else 2 ^ 11)
    && (length f.payload == f.dlc)
    && leb f.dlc 8
    && all_bytes f.payload

abbrev pub bus_send : Frame → Bus → ℤ × Bus
bus_send f w =
    if ltb w.mailboxes 3
    then (
      pos 0,
      record w {
        mailboxes = suc w.mailboxes;
        malformed = if is_frame f then w.malformed else suc w.malformed;
      },
    )
    else (
      neg eagain,
      record w {
        refusals = suc w.refusals;
        malformed = if is_frame f then w.malformed else suc w.malformed;
      },
    )

abbrev pub take_count : ℕ → ℤ × ℕ
take_count zero = (neg ebusy, 0)
take_count (suc n) = (pos 0, n)

abbrev pub board : Board Bus
board = record {
  device_is_ready = true;
  can_set_bitrate = λ n w. (pos 0, w);
  gpio_is_ready = true;
  gpio_pin_configure = λ w. (pos 0, w);
  can_send = bus_send;
  can_stop = λ w. (
    pos 0,
    replicate w.mailboxes (neg 115),
    record w { mailboxes = 0; stops = w.stops ++ (w.time ∷ []) },
  );
  can_start = λ w. (pos 0, w);
  k_uptime_get = λ w. (w.time, w);
  k_uptime_get_32 = λ w. (w.time % 2 ^ 32, w);
  k_sleep = λ t w. (replicate w.mailboxes (pos 0), record w { mailboxes = 0; time = w.time + t });
  rounds_meanwhile = λ w. 1;
  led_port = true;
  gpio_pin_toggle = λ w. w;
  k_sem_take = take_count;
  k_sem_give = λ n. min (n + 1) 3;
  k_sem_reset = λ n. 0;
  put_le16 = λ x. x % 256 ∷ x / 256 % 256 ∷ [];
  put_le32 = λ x. x % 256 ∷ x / 256 % 256 ∷ x / 65536 % 256 ∷ x / 16777216 % 256 ∷ [];
}

pub board-IsSemaphore : IsSemaphore 3 board.k_sem_take board.k_sem_give board.k_sem_reset
board-IsSemaphore = record {
  take_some = some_left;
  take_none_err = λ e. cc;
  take_none_count = refl;
  give_lem = λ n. refl;
  reset_lem = λ n. refl;
}
  where
    some_left : (n : ℕ) → n ≢ 0 → take_count n ≡ (pos 0, n - 1)
    some_left zero h = absurd (h refl)
    some_left (suc n) h = ground arith

pub board-IsDriver : IsDriver board (λ w. w.mailboxes)
board-IsDriver = record {
  send_ok = λ f w h. ground arith;
  send_err = λ f w h. ground arith;
  stop_lem = λ w. omega (arith, length-replicate w.mailboxes (neg 115));
  start_lem = λ w. refl;
  bitrate_lem = λ n w. refl;
  configure_lem = λ w. refl;
  sleep_lem = λ t w. omega (arith, length-replicate w.mailboxes (pos 0));
  uptime_lem = λ w. refl;
  uptime_32_lem = λ w. refl;
  toggle_lem = λ w. refl;
}

pub board-IsClock : IsClock board (λ w. w.time)
board-IsClock = omega arith

pub board-LogsStops : LogsStops board (λ w. w.time) (λ w. w.stops)
board-LogsStops = record {
  stop_lem = λ w. refl;
  start_lem = λ w. refl;
  send_lem = λ f w. ground arith;
  uptime_lem = λ w. refl;
  uptime_32_lem = λ w. refl;
  sleep_lem = λ ms w. refl;
  toggle_lem = λ w. refl;
}

pub board-IsLittleEndian : IsLittleEndian board
board-IsLittleEndian = record { le16 = λ x. refl; le32 = λ x. refl }

pub board-CountsRefusals : CountsRefusals board (λ w. w.refusals)
board-CountsRefusals = record {
  send_ok = λ f w h. ground arith;
  send_err = λ f w h. ground arith;
  stop_lem = λ w. refl;
  start_lem = λ w. refl;
  bitrate_lem = λ n w. refl;
  configure_lem = λ w. refl;
  sleep_lem = λ t w. refl;
  uptime_lem = λ w. refl;
  uptime_32_lem = λ w. refl;
  toggle_lem = λ w. refl;
}

pub all_bytes_lem : (xs : List ℕ) → Every xs (λ x. x < 256) → all_bytes xs ≡ true
all_bytes_lem [] _ = refl
all_bytes_lem (x ∷ xs) (this, others) = ground (arith, this, all_bytes_lem xs others)

pub is_frame_lem : (f : Frame) → IsFrame f → is_frame f ≡ true
is_frame_lem f h = ground (arith, h.id_fits, h.full, h.short, all_bytes_lem f.payload h.bytes)

pub board-CountsMalformed : CountsMalformed board (λ w. w.malformed)
board-CountsMalformed = record {
  send_lem = λ f w formed. ground (arith, is_frame_lem f formed);
  stop_lem = λ w. refl;
  start_lem = λ w. refl;
  bitrate_lem = λ n w. refl;
  configure_lem = λ w. refl;
  sleep_lem = λ t w. refl;
  uptime_lem = λ w. refl;
  uptime_32_lem = λ w. refl;
  toggle_lem = λ w. refl;
}
