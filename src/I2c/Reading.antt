-- ===== src/I2c/Reading.antt =====
-- The temperatures that app/demos/i2c_shell/src/main.c computes.
use zephyr_start.Base.{arith, if◌then◌else◌, ltb, negsuc, pos, ℕ, ℤ, ◌*◌, ◌+◌, ◌-◌, ◌/◌, ◌<◌, ◌≡◌}
use zephyr_start.I2c.Defs.{register_value, shift_4, temperature_sixteenths, to_int16}

-- The reading as the sensor's 12 bits of two's complement, from the top of the 16: the value of the
-- 12 bits, less 2 ^ 12 where the sign bit is set.
unfoldable pub twos_complement_12 : ℕ → ℕ → ℤ
twos_complement_12 high low =
    let bits = high * 16 + low / 16 in if ltb high 128 then pos bits else negsuc (4095 - bits)

-- For bytes of a reading, the shifted register value is the 12-bit two's complement number of the
-- sensor, whatever its sign and the four low bits.
pub temperature_sixteenths_lem :
    (high low : ℕ)
    → high < 256
    → low < 256
    → temperature_sixteenths high low ≡ twos_complement_12 high low
unfolding temperature_sixteenths register_value to_int16 shift_4 twos_complement_12
temperature_sixteenths_lem high low h l = ground arith
