-- ===== src/Float.antt =====
-- Python's `float`: an IEEE 754 binary64 number, kept as its 64-bit pattern, so that the constants of
-- the code, its comparisons and `math.isfinite` are exact and run. Arithmetic is rounded by the
-- machine and is a parameter (Float/Fpu).
pub mod Order
pub mod Fpu
pub mod Fixed
use lekiwi.Prelude.{
  ℕ, ◌+◌, ◌-◌, ◌%◌, ◌^◌, Bool, true, false, ◌&&◌, ◌||◌, not, ltb, leb, ◌==◌, if◌then◌else◌,
}

abbrev pub Num : Type 0
Num = ℕ

-- The pattern without its sign bit.
magnitude : Num → ℕ
magnitude b = b % 2 ^ 63

abbrev sign_clear : Num → Bool
sign_clear b = ltb (b % 2 ^ 64) (2 ^ 63)

-- The place of a pattern in the order of the numbers: both zeros have the same.
unfoldable pub rank : Num → ℕ
unfolding magnitude
rank b = if sign_clear b then 2 ^ 63 + magnitude b else 2 ^ 63 - magnitude b

abbrev inf_bits : ℕ
inf_bits = 0x7ff0000000000000

unfoldable pub is_nan : Num → Bool
unfolding magnitude
is_nan b = ltb inf_bits (magnitude b)

-- `math.isfinite`
unfoldable pub isfinite : Num → Bool
unfolding magnitude
isfinite b = ltb (magnitude b) inf_bits

-- The comparisons, which are all false at a NaN.
unfoldable pub lt : Num → Num → Bool
lt a b = not (is_nan a) && (not (is_nan b) && ltb (rank a) (rank b))

unfoldable pub le : Num → Num → Bool
le a b = not (is_nan a) && (not (is_nan b) && leb (rank a) (rank b))

unfoldable pub feq : Num → Num → Bool
feq a b = not (is_nan a) && (not (is_nan b) && (rank a == rank b))

-- `-x` and `abs(x)`
unfoldable pub neg : Num → Num
neg b = if sign_clear b then b % 2 ^ 63 + 2 ^ 63 else b % 2 ^ 63

unfoldable pub fabs : Num → Num
unfolding magnitude
fabs b = magnitude b

-- `min` and `max` of two arguments keep the first unless the second is strictly better.
unfoldable pub fmin : Num → Num → Num
fmin a b = if lt b a then b else a

unfoldable pub fmax : Num → Num → Num
fmax a b = if lt a b then b else a

abbrev pub nought : Num
nought = 0

-- 1.0
abbrev pub one : Num
one = 0x3ff0000000000000
