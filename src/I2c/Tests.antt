-- ===== src/I2c/Tests.antt =====
-- Tests, and instances of the theorems about app/demos/i2c_shell/src/main.c.
use zephyr_start.Base.{arith, negsuc, pos, refl, ◌≡◌}
use zephyr_start.I2c.Reading.{temperature_sixteenths_lem, twos_complement_12}
use zephyr_start.I2c.Defs.{register_value, shift_4, temperature_sixteenths, to_int16}

-- 25 degrees, and a quarter of a degree below zero.
warm : temperature_sixteenths 25 0 ≡ pos 400
unfolding temperature_sixteenths register_value to_int16 shift_4
warm = refl

cold : temperature_sixteenths 255 192 ≡ negsuc 3
unfolding temperature_sixteenths register_value to_int16 shift_4
cold = refl

temperature_sixteenths_example : temperature_sixteenths 255 192 ≡ twos_complement_12 255 192
temperature_sixteenths_example = temperature_sixteenths_lem 255 192 (omega arith) (omega arith)
