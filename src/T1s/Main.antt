-- ===== src/T1s/Main.antt =====
-- `main` of app/demos/ethernet_bridge/t1s_device/src/main.c, in a build with MCUboot.
use zephyr_start.Base.{Bool, List, [], enodev, if◌then◌else◌, neg, pos, true, ℕ, ℤ, ◌&&◌, ◌∷◌}
use zephyr_start.T1s.Defs.{Config, Device, Effect, rgb_apply}

-- What `main` calls outside, in order.
pub data Boot : Type 0 where
  pwm_off : List Effect → Boot
  set_mtu : ℕ → Boot
  server_start : Boot
  write_confirmed : Boot

abbrev pub t1s_safe_mtu : ℕ
t1s_safe_mtu = 576

-- The loop over the three channels.
unfoldable pub all_ready : List Bool → Bool
all_ready [] = true
all_ready (ready ∷ rest) = ready && all_ready rest

-- `pwm_ready` holds what `pwm_is_ready_dt` answers for each channel, `confirmed` the answer of
-- `boot_is_img_confirmed`; that the confirmation fails is only logged.
unfoldable pub main : Config → List Bool → Bool → Device → ℤ × List Boot
unfolding all_ready
main c pwm_ready confirmed d =
    if all_ready pwm_ready
    then (
      pos 0,
      pwm_off (rgb_apply c d)
          ∷ set_mtu t1s_safe_mtu
          ∷ server_start
          ∷ (if confirmed then [] else write_confirmed ∷ []),
    )
    else (neg enodev, [])
