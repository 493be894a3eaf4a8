-- ===== src/SafeCmdVel/Request.antt =====
-- What an accepted request asks for.
use lekiwi.Prelude.{
  ◌⊎◌, inl, inr, zero, suc, ◌∙◌, ℕ, ◌≤◌, ◌<◌, ◌≡◌, refl, Bool, true, false, ◌&&◌, ◌||◌, not, Option,
  none, some, List, arith, All, All-replicate, length-replicate, length, replicate,
}
use lekiwi.Float.{Num, rank, is_nan, isfinite, nought, le, lt, fabs}
use lekiwi.Float.Order.{isfinite-number, not-lt_lem, is_nan-fabs, fabs_bounds}
use lekiwi.Float.Fpu.{Fpu}
use lekiwi.GuardedTeleop.Limits.{IsBounded}
use lekiwi.MotorSession.{Motion}
use lekiwi.SafeCmdVel.{
  MotionCommand, MotionLimits, has_motion_command, validate_motion_request, twist_of, at_least_one,
  build_publish_plan,
}

-- `finite_float` and `positive_float` let only finite numbers through.
pub record IsParsed (c : MotionCommand) (l : MotionLimits) : Type 0 where
  pub x : isfinite c.linear_x ≡ true
  pub y : isfinite c.linear_y ≡ true
  pub turn : isfinite c.angular_z ≡ true
  pub duration : isfinite c.duration ≡ true
  pub rate : isfinite c.rate ≡ true
  pub max_linear : isfinite l.max_linear ≡ true
  pub max_angular : isfinite l.max_angular ≡ true
  pub max_duration : isfinite l.max_duration ≡ true
  pub max_rate : isfinite l.max_rate ≡ true

-- `math.hypot` of two finite numbers is a number (or infinity), and no less than either magnitude.
pub record IsHypot (hypot : Num → Num → Num) : Type 0 where
  pub number : (x y : Num) → isfinite x ≡ true → isfinite y ≡ true → is_nan (hypot x y) ≡ false
  pub first : (x y : Num) → isfinite x ≡ true → isfinite y ≡ true → rank (fabs x) ≤ rank (hypot x y)
  pub second :
      (x y : Num) → isfinite x ≡ true → isfinite y ≡ true → rank (fabs y) ≤ rank (hypot x y)

-- What is promised of an accepted request.
pub record IsAccepted (c : MotionCommand) (confirmed arm_motors : Bool) (l : MotionLimits)
    : Type 0 where
  pub x : IsBounded l.max_linear c.linear_x
  pub y : IsBounded l.max_linear c.linear_y
  pub turn : IsBounded l.max_angular c.angular_z
  pub long : rank nought < rank c.duration
  pub short : rank c.duration ≤ rank l.max_duration
  pub slow : rank nought < rank c.rate
  pub fast : rank c.rate ≤ rank l.max_rate
  pub agreed : has_motion_command c || arm_motors ≡ true → confirmed ≡ true

IsBounded-lt :
    (x m l : Num)
    → isfinite x ≡ true
    → is_nan m ≡ false
    → isfinite l ≡ true
    → rank (fabs x) ≤ rank m
    → lt l m ≡ false
    → IsBounded l x
IsBounded-lt x m l fx nm fl below not_over =
    let over = not-lt_lem l m (isfinite-number l fl) nm not_over in
    let (above, under) = fabs_bounds x l (omega (arith, below, over)) in
    record { number = isfinite-number x fx; above = above; below = under }

positive : (x : Num) → isfinite x ≡ true → le x nought ≡ false → rank nought < rank x
unfolding le is_nan
positive x f n = ground (arith, isfinite-number x f)

-- What each test of an accepted request found.
record Passed (hypot : Num → Num → Num) (c : MotionCommand) (confirmed arm_motors : Bool)
    (l : MotionLimits) : Type 0 where
  long : le c.duration nought ≡ false
  slow : le c.rate nought ≡ false
  linear : lt l.max_linear (hypot c.linear_x c.linear_y) ≡ false
  turn : lt l.max_angular (fabs c.angular_z) ≡ false
  short : lt l.max_duration c.duration ≡ false
  fast : lt l.max_rate c.rate ≡ false
  agreed : (has_motion_command c || arm_motors) && not confirmed ≡ false

passed :
    (hypot : Num → Num → Num) (c : MotionCommand) (confirmed arm_motors : Bool) (l : MotionLimits)
    → validate_motion_request hypot c confirmed arm_motors l ≡ none
    → Passed hypot c confirmed arm_motors l
unfolding validate_motion_request
passed hypot c confirmed arm_motors l h = ground arith

agreement :
    (wanted confirmed : Bool) → wanted && not confirmed ≡ false → wanted ≡ true → confirmed ≡ true
agreement wanted confirmed h e = ground arith

-- A request with parsed numbers that is accepted keeps each axis within the linear limit and the turn
-- within the angular one, lasts and repeats as its limits say, both more than 0, and was confirmed if it
-- moves the base or arms the motors.
pub validate_motion_request-IsAccepted :
    (hypot : Num → Num → Num) (c : MotionCommand) (confirmed arm_motors : Bool) (l : MotionLimits)
    → IsHypot hypot
    → IsParsed c l
    → validate_motion_request hypot c confirmed arm_motors l ≡ none
    → IsAccepted c confirmed arm_motors l
validate_motion_request-IsAccepted hypot c confirmed arm_motors l hy p h =
    let t = passed hypot c confirmed arm_motors l h in
    let m = hypot c.linear_x c.linear_y in
    let nm = hy.number c.linear_x c.linear_y p.x p.y in
    record {
      x =
          IsBounded-lt c.linear_x m l.max_linear p.x nm p.max_linear
            (hy.first c.linear_x c.linear_y p.x p.y) t.linear;
      y =
          IsBounded-lt c.linear_y m l.max_linear p.y nm p.max_linear
            (hy.second c.linear_x c.linear_y p.x p.y) t.linear;
      turn =
          IsBounded-lt c.angular_z (fabs c.angular_z) l.max_angular p.turn
            (is_nan-fabs c.angular_z ∙ isfinite-number c.angular_z p.turn) p.max_angular
            (omega arith) t.turn;
      long = positive c.duration p.duration t.long;
      short =
          not-lt_lem l.max_duration c.duration (isfinite-number _ p.max_duration)
            (isfinite-number _ p.duration) t.short;
      slow = positive c.rate p.rate t.slow;
      fast =
          not-lt_lem l.max_rate c.rate (isfinite-number _ p.max_rate) (isfinite-number _ p.rate)
            t.fast;
      agreed = agreement (has_motion_command c || arm_motors) confirmed t.agreed;
    }

-- The plan of a command holds only motions with the command's own speeds, each along its own axis: as
-- many as the duration times the rate, rounded up, says, and exactly one if that is 0 or less.
pub build_publish_plan_lem :
    ⦃u : Fpu⦄ (ceil : Num → Option ℕ) (c : MotionCommand) (n : ℕ)
    → ceil (u.mul c.duration c.rate) ≡ some n
    → (plan : List Motion) × (build_publish_plan ceil c ≡ some plan)
      × (((1 ≤ n) × (length plan ≡ n)) ⊎ ((n ≡ 0) × (length plan ≡ 1)))
      × All
          (λ m. (m.linear_x ≡ c.linear_x) × (m.linear_y ≡ c.linear_y) × (m.angular_z ≡ c.angular_z))
          plan
unfolding build_publish_plan
build_publish_plan_lem ceil c n e =
    let long = length-replicate (at_least_one n) (twist_of c) in
    (
      replicate (at_least_one n) (twist_of c),
      rw (e, build_publish_plan) refl,
      counted n long,
      All-replicate _ (at_least_one n) (twist_of c) (refl, refl, refl),
    )
  where
    counted : {l : ℕ} (n : ℕ) → l ≡ at_least_one n → ((1 ≤ n) × (l ≡ n)) ⊎ ((n ≡ 0) × (l ≡ 1))
    counted zero h = inr (refl, h)
    counted (suc n) h = inl (omega arith, ground (arith, h))
