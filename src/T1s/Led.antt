-- ===== src/T1s/Led.antt =====
-- The PWM pulses of the LED, `rgb_apply` of
-- app/demos/ethernet_bridge/t1s_device/src/main.c.
use zephyr_start.Base.{arith, ℕ, ◌*◌, ◌/◌, ◌<◌, ◌^◌, ◌≡◌, ◌≤◌}
use zephyr_start.T1s.Defs.{pulse_of}

product-le : (p v w : ℕ) → v ≤ w → p * v ≤ p * w
product-le p v w h = grind arith

-- Neither the product nor the quotient wraps.
pub pulse_of_lem : (p v : ℕ) → p < 2 ^ 32 → v ≤ 255 → pulse_of p v ≡ (p * v) / 255
unfolding pulse_of
pulse_of_lem p v hp hv = omega (arith, product-le p v 255 hv)

-- The pulse of a channel is at most its period, is none at 0 and the whole period at 255, and
-- grows with the value.
pub pulse_of_bounds :
    (p v w : ℕ)
    → p < 2 ^ 32
    → v ≤ w
    → w ≤ 255
    → (pulse_of p 0 ≡ 0) × (pulse_of p v ≤ pulse_of p w) × (pulse_of p w ≤ p) × (pulse_of p 255 ≡ p)
pulse_of_bounds p v w hp hv hw = omega (
  arith,
  pulse_of_lem p 0 hp (omega arith),
  pulse_of_lem p v hp (omega arith),
  pulse_of_lem p w hp hw,
  pulse_of_lem p 255 hp (omega arith),
  product-le p v w hv,
  product-le p w 255 hw,
)
