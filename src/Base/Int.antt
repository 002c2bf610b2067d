-- ===== src/Base/Int.antt =====
-- The C type `int` where it holds a result code: `negsuc n` is -(n + 1).
use Prim.Native.Nat.{ℕ, zero, suc}
use mathlib.Core.Path.{◌≡◌}
use mathlib.Core.Bool.{Bool, true, false}
use native.Mathlib.Omega.{arith}
use zephyr_start.Base.Tests.{◌==◌}

pub data ℤ : Type 0 where
  pos : ℕ → ℤ
  negsuc : ℕ → ℤ

-- `-n`, as in `-EINVAL`.
abbrev pub neg : ℕ → ℤ
neg zero = pos zero
neg (suc n) = negsuc n

-- The test `ret < 0`.
abbrev pub is_neg : ℤ → Bool
is_neg (pos n) = false
is_neg (negsuc n) = true

-- The test `ret == 0`.
abbrev pub is_zero : ℤ → Bool
is_zero (pos n) = n == 0
is_zero (negsuc n) = false

infix 50 ◌==ℤ◌
abbrev pub ◌==ℤ◌ : ℤ → ℤ → Bool
pos a ==ℤ pos b = a == b
negsuc a ==ℤ negsuc b = a == b
_ ==ℤ _ = false

-- The error numbers of errno.h that the sources name.
abbrev pub enoent : ℕ
enoent = 2

abbrev pub ebusy : ℕ
ebusy = 16

abbrev pub enoexec : ℕ
enoexec = 8

abbrev pub eagain : ℕ
eagain = 11

abbrev pub enomem : ℕ
enomem = 12

abbrev pub enodev : ℕ
enodev = 19

abbrev pub einval : ℕ
einval = 22

abbrev pub enospc : ℕ
enospc = 28

abbrev pub ealready : ℕ
ealready = 120

pub is_zero→eq : (z : ℤ) → is_zero z ≡ true → z ≡ pos 0
is_zero→eq (pos n) h = ground arith
is_zero→eq (negsuc n) h = cc

pub ==ℤ-eq : (a b : ℤ) → a ==ℤ b ≡ true → a ≡ b
==ℤ-eq (pos a) (pos b) h = ground arith
==ℤ-eq (negsuc a) (negsuc b) h = ground arith
==ℤ-eq (pos a) (negsuc b) h = cc
==ℤ-eq (negsuc a) (pos b) h = cc

pub ==ℤ-refl : (a : ℤ) → a ==ℤ a ≡ true
==ℤ-refl (pos a) = ground arith
==ℤ-refl (negsuc a) = ground arith
