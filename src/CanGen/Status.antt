-- ===== src/CanGen/Status.antt =====
-- `can_state_name`, `print_status` and `cmd_can_gen_status` of
-- app/demos/frdm_can_traffic_generator/src/main.c.
use zephyr_start.Base.{List, [], codes, if◌then◌else◌, is_zero, pos, ℕ, ℤ, ◌==◌, ◌∷◌}
use zephyr_start.CanGen.Defs.{Gen}

-- `enum can_state` by its numbers.
unfoldable pub can_state_name : ℕ → List ℕ
can_state_name state =
    if state == 0
    then codes "error-active"
    else (if state == 1
        then codes "error-warning"
        else (if state == 2
            then codes "error-passive"
            else (if state == 3
                then codes "bus-off"
                else (if state == 4 then codes "stopped" else codes "unknown"))))

-- What `can_get_state` stores.
pub record BusState : Type 0 where
  pub state : ℕ
  pub rx_err_cnt : ℕ
  pub tx_err_cnt : ℕ

-- The lines that `print_status` prints, with their arguments.
pub data StatusLine : Type 0 where
  get_state_failed : ℤ → StatusLine
  device_line : StatusLine
  bitrate_line : ℕ → StatusLine
  generator_line : List ℕ → ℕ → StatusLine
  tx_line : (enqueued ok err busy next_seq : ℕ) → StatusLine
  recovery_line : (recoveries fail_streak : ℕ) → StatusLine
  state_line : List ℕ → ℕ → ℕ → StatusLine

abbrev pub can_bitrate : ℕ
can_bitrate = 500000

module _ {W : Type 0} (can_get_state : W → ℤ × BusState × W) where
  unfoldable pub print_status : Gen W → List StatusLine × Gen W
  unfolding can_state_name
  print_status g =
      let (ret, bus, w) = can_get_state g.world in
      let g' = record g { world = w } in
      if is_zero ret
      then (
        device_line
            ∷ bitrate_line can_bitrate
            ∷ generator_line (if g.generator_enabled then codes "running" else codes "stopped")
                g.period_ms
            ∷ tx_line g.tx_enqueued g.tx_ok g.tx_err g.tx_busy g.tx_sequence
            ∷ recovery_line g.tx_recoveries g.tx_fail_streak
            ∷ state_line (can_state_name bus.state) bus.rx_err_cnt bus.tx_err_cnt
            ∷ [],
        g',
      )
      else (get_state_failed ret ∷ [], g')

  unfoldable pub cmd_can_gen_status : Gen W → ℤ × List StatusLine × Gen W
  unfolding print_status
  cmd_can_gen_status g = let (lines, g') = print_status g in (pos 0, lines, g')
