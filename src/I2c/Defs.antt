-- ===== src/I2c/Defs.antt =====
-- `read_temperature_handler` of app/demos/i2c_shell/src/main.c and its `main`.
use zephyr_start.Base.{
  List, [], if◌then◌else◌, is_zero, ltb, negsuc, pos, ℕ, ℤ, ◌%◌, ◌*◌, ◌+◌, ◌-◌, ◌/◌, ◌^◌, ◌∷◌,
}

-- An `int16_t` of the 16 bits of `n`.
unfoldable pub to_int16 : ℕ → ℤ
to_int16 n =
    if ltb (n % 2 ^ 16) (2 ^ 15) then pos (n % 2 ^ 16) else negsuc (2 ^ 16 - 1 - n % 2 ^ 16)

-- `x >> 4` of an `int16_t`: rounds down, as arithmetic shifts of the compilers that Zephyr uses do.
unfoldable pub shift_4 : ℤ → ℤ
shift_4 (pos n) = pos (n / 16)
shift_4 (negsuc n) = negsuc (n / 16)

-- `temperature_register_value`: the first byte shifted by 8, or-ed with the second. The bytes are
-- below 2 ^ 8, so that the bits do not meet and the `|` is a sum.
unfoldable pub register_value : ℕ → ℕ → ℤ
unfolding to_int16
register_value high low = to_int16 (high * 2 ^ 8 + low)

-- `temperature_value`, in units of TEMP_SENSOR_RESOLUTION, which is 1 / 16 of a degree.
unfoldable pub temperature_sixteenths : ℕ → ℕ → ℤ
unfolding register_value shift_4
temperature_sixteenths high low = shift_4 (register_value high low)

-- What the command prints.
pub data Printed : Type 0 where
  no_communication : Printed
  data_reg : ℕ → ℕ → Printed
  temperature : ℤ → Printed

-- The command, given what `i2c_read` returns and stores; its result and what it prints, in order.
unfoldable pub read_temperature_handler : ℤ → ℕ → ℕ → ℤ × List Printed
unfolding temperature_sixteenths
read_temperature_handler error high low =
    if is_zero error
    then (pos 0, data_reg high low ∷ temperature (temperature_sixteenths high low) ∷ [])
    else (error, no_communication ∷ [])
