-- ===== src/GuardedTeleop/Limits.antt =====
-- Bounds and standstill, and that the ramp and scaling keep them.
use lekiwi.Prelude.{◌≤◌, ◌≡◌, true, false, arith}
use lekiwi.Float.{Num, rank, is_nan, isfinite, neg, nought, one, lt}
use lekiwi.Float.Order.{IsWithin, rank-neg, rank-nought}
use lekiwi.Float.Fpu.{Fpu}
use lekiwi.MotorSession.{Motion, stop}
use lekiwi.GuardedTeleop.Ramp.{make_simple_profile, ramp_up, ramp_down}

-- `x` lies between `-limit` and `limit`.
abbrev pub IsBounded : Num → Num → Type 0
IsBounded limit x = IsWithin (neg limit) limit x

-- `x` is 0.0 or -0.0.
pub record IsZero (x : Num) : Type 0 where
  pub number : is_nan x ≡ false
  pub level : rank x ≡ rank nought

pub record IsStill (m : Motion) : Type 0 where
  pub x : IsZero m.linear_x
  pub y : IsZero m.linear_y
  pub turn : IsZero m.angular_z

pub stop-IsStill : IsStill stop
unfolding is_nan
stop-IsStill = ground arith

-- What a finite limit leaves is finite.
pub IsBounded-isfinite :
    (limit x : Num) → isfinite limit ≡ true → IsBounded limit x → isfinite x ≡ true
unfolding isfinite rank neg is_nan
IsBounded-isfinite limit x f h = ground arith

module _ ⦃u : Fpu⦄ where
  -- Slowing a bounded value down keeps it bounded.
  pub scale-IsBounded :
      (limit x s : Num)
      → isfinite limit ≡ true
      → IsWithin nought one s
      → IsBounded limit x
      → IsBounded limit (u.mul x s)
  scale-IsBounded limit x s f unit h =
      let fx = IsBounded-isfinite limit x f h in
      ground (arith, u.mul_up x s fx unit, u.mul_down x s fx unit, rank-neg limit, rank-nought)

  pub ramp-IsBounded :
      (limit output target step : Num)
      → isfinite limit ≡ true
      → isfinite step ≡ true
      → rank nought ≤ rank step
      → IsBounded limit output
      → IsBounded limit target
      → IsBounded limit (make_simple_profile output target step)
  ramp-IsBounded limit output target step fl fs p ho ht =
      let fo = IsBounded-isfinite limit output fl ho in
      let ft = IsBounded-isfinite limit target fl ht in
      ground (arith, ramp_up output target step fo ft fs p, ramp_down output target step fo ft fs p)

  pub ramp-IsZero :
      (output target step : Num)
      → IsZero output
      → IsZero target
      → IsZero (make_simple_profile output target step)
  unfolding make_simple_profile lt
  ramp-IsZero output target step ho ht = ground arith
