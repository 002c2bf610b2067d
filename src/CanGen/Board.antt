-- ===== src/CanGen/Board.antt =====
-- What the CAN traffic generator calls outside the repository: the controller, the kernel's
-- semaphore and clock, the byte-order helpers, the LED. `W` is the state of all of it.
use zephyr_start.Base.{Bool, List, [], length, pos, ℕ, ℤ, ◌%◌, ◌+◌, ◌/◌, ◌∷◌, ◌≡◌, ◌≢◌, ◌≤◌}

-- `struct can_frame`, with the fields that the generator fills.
pub record Frame : Type 0 where
  pub id : ℕ
  pub dlc : ℕ
  pub ide : Bool
  pub payload : List ℕ

-- `k_sleep` and `can_stop` report the error codes with which the driver called `tx_callback`
-- meanwhile, in order. `rounds_meanwhile` is the scheduler's: how many rounds of its loop `main` makes
-- while the shell's thread sleeps.
pub record Board (W : Type 0) : Type 0 where
  pub device_is_ready : Bool
  pub can_set_bitrate : ℕ → W → ℤ × W
  pub gpio_is_ready : Bool
  pub gpio_pin_configure : W → ℤ × W
  pub can_send : Frame → W → ℤ × W
  pub can_stop : W → ℤ × List ℤ × W
  pub can_start : W → ℤ × W
  pub k_uptime_get : W → ℕ × W
  pub k_uptime_get_32 : W → ℕ × W
  pub k_sleep : ℕ → W → List ℤ × W
  pub rounds_meanwhile : W → ℕ
  pub led_port : Bool
  pub gpio_pin_toggle : W → W
  pub k_sem_take : ℕ → ℤ × ℕ
  pub k_sem_give : ℕ → ℕ
  pub k_sem_reset : ℕ → ℕ
  pub put_le16 : ℕ → List ℕ
  pub put_le32 : ℕ → List ℕ

-- The documented contract of the driver: `inflight` counts the frames that `can_send` accepted and
-- whose callback has not run. Each accepted frame has its callback called once.
pub record IsDriver {W : Type 0} (b : Board W) (inflight : W → ℕ) : Type 0 where
  pub send_ok :
      (f : Frame) (w : W)
      → (b.can_send f w).0 ≡ pos 0
      → inflight (b.can_send f w).1 ≡ inflight w + 1
  pub send_err :
      (f : Frame) (w : W) → (b.can_send f w).0 ≢ pos 0 → inflight (b.can_send f w).1 ≡ inflight w
  pub stop_lem : (w : W) → inflight w ≡ inflight (b.can_stop w).2 + length (b.can_stop w).1
  pub start_lem : (w : W) → inflight (b.can_start w).1 ≡ inflight w
  pub bitrate_lem : (n : ℕ) (w : W) → inflight (b.can_set_bitrate n w).1 ≡ inflight w
  pub configure_lem : (w : W) → inflight (b.gpio_pin_configure w).1 ≡ inflight w
  pub sleep_lem :
      (t : ℕ) (w : W) → inflight w ≡ inflight (b.k_sleep t w).1 + length (b.k_sleep t w).0
  pub uptime_lem : (w : W) → inflight (b.k_uptime_get w).1 ≡ inflight w
  pub uptime_32_lem : (w : W) → inflight (b.k_uptime_get_32 w).1 ≡ inflight w
  pub toggle_lem : (w : W) → inflight (b.gpio_pin_toggle w) ≡ inflight w

-- The clock does not run back.
pub record IsClock {W : Type 0} (b : Board W) (clock : W → ℕ) : Type 0 where
  pub reads : (w : W) → clock w ≤ (b.k_uptime_get w).0
  pub read_past : (w : W) → (b.k_uptime_get w).0 ≤ clock (b.k_uptime_get w).1
  pub stop_past : (w : W) → clock w ≤ clock (b.can_stop w).2
  pub start_past : (w : W) → clock w ≤ clock (b.can_start w).1
  pub toggle_past : (w : W) → clock w ≤ clock (b.gpio_pin_toggle w)

-- `sys_put_le16` and `sys_put_le32` as documented: the bytes of the value, low byte first.
pub record IsLittleEndian {W : Type 0} (b : Board W) : Type 0 where
  pub le16 : (x : ℕ) → b.put_le16 x ≡ x % 256 ∷ x / 256 % 256 ∷ []
  pub le32 :
      (x : ℕ) → b.put_le32 x ≡ x % 256 ∷ x / 256 % 256 ∷ x / 65536 % 256 ∷ x / 16777216 % 256 ∷ []
