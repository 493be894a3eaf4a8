-- ===== src/Float/Order.antt =====
-- What the comparisons say of the ranks.
use lekiwi.Prelude.{◌+◌, ◌^◌, ◌≤◌, ◌≡◌, refl, true, false, arith}
use lekiwi.Float.{Num, rank, is_nan, isfinite, lt, le, neg, fabs, nought}

-- `x` is a number of the range from `lo` to `hi`.
pub record IsWithin (lo hi x : Num) : Type 0 where
  pub number : is_nan x ≡ false
  pub above : rank lo ≤ rank x
  pub below : rank x ≤ rank hi

-- A finite value is a number.
pub isfinite-number : (x : Num) → isfinite x ≡ true → is_nan x ≡ false
unfolding is_nan isfinite
isfinite-number x h = ground arith

pub le_lem : (a b : Num) → le a b ≡ true → rank a ≤ rank b
unfolding le
le_lem a b h = ground arith

pub not-lt_lem :
    (a b : Num) → is_nan a ≡ false → is_nan b ≡ false → lt a b ≡ false → rank b ≤ rank a
unfolding lt
not-lt_lem a b p q h = ground arith

-- Negation mirrors the order at zero.
pub rank-neg : (x : Num) → rank (neg x) + rank x ≡ 2 ^ 64
unfolding rank neg
rank-neg x = ground arith

pub is_nan-neg : (x : Num) → is_nan (neg x) ≡ is_nan x
unfolding is_nan neg
is_nan-neg x = ground arith

pub is_nan-fabs : (x : Num) → is_nan (fabs x) ≡ is_nan x
unfolding is_nan fabs
is_nan-fabs x = ground arith

-- The magnitude of a number within `bound` puts the number between `-bound` and `bound`.
pub fabs_bounds :
    (x bound : Num)
    → rank (fabs x) ≤ rank bound
    → (rank (neg bound) ≤ rank x) × (rank x ≤ rank bound)
unfolding rank neg fabs
fabs_bounds x bound h = ground arith

pub rank-nought : rank nought ≡ 2 ^ 63
unfolding rank
rank-nought = refl
