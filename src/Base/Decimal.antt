-- ===== src/Base/Decimal.antt =====
-- `%u` of printf: an unsigned number of 32 bits in decimal, as ASCII.
use Prim.Native.Nat.{ℕ, zero, suc, ◌+◌, ◌/◌, ◌%◌, ◌≤◌, ◌<◌}
use mathlib.Core.List.{List, [], ◌∷◌}
use native.Mathlib.Omega.{arith}
use zephyr_start.Base.Tests.{ltb, if◌then◌else◌}
use zephyr_start.Base.Lists.{length}

-- The digits of `n` in front of `acc`; ten rounds are enough below 2 ^ 32.
unfoldable pub decimal_loop : ℕ → ℕ → List ℕ → List ℕ
decimal_loop zero n acc = acc
decimal_loop (suc fuel) n acc =
    let rest = decimal_loop fuel (n / 10) ((48 + n % 10) ∷ acc) in
    if ltb n 10 then (48 + n) ∷ acc else rest

unfoldable pub decimal : ℕ → List ℕ
unfolding decimal_loop
decimal n = decimal_loop 10 n []

pub decimal_loop-length :
    (fuel n : ℕ) (acc : List ℕ) → length (decimal_loop fuel n acc) ≤ fuel + length acc
unfolding decimal_loop
decimal_loop-length zero n acc = omega arith
decimal_loop-length (suc fuel) n acc =
    ground (arith, decimal_loop-length fuel (n / 10) ((48 + n % 10) ∷ acc))

pub length-decimal-le : (n : ℕ) → length (decimal n) ≤ 10
unfolding decimal
length-decimal-le n = omega (arith, decimal_loop-length 10 n [])

byte_loop-length : (f n : ℕ) → n < 1000 → length (decimal_loop (suc (suc (suc f))) n []) ≤ 3
unfolding decimal_loop
byte_loop-length f n h = ground arith

pub length-decimal_byte : (n : ℕ) → n < 1000 → length (decimal n) ≤ 3
unfolding decimal
length-decimal_byte n h = byte_loop-length 7 n h
