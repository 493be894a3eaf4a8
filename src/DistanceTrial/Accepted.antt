-- ===== src/DistanceTrial/Accepted.antt =====
-- What an accepted trial, an accepted base and an accepted report are.
use lekiwi.Prelude.{
  ◌≡◌, refl, Bool, true, false, ◌&&◌, not, ◌⊎◌, inl, inr, Option, none, some, String, List, [], ◌∷◌,
  arith, if◌then◌else◌,
}
use lekiwi.Float.{Num, one, neg, nought, isfinite, lt, le, feq, fmin}
use lekiwi.Float.Fpu.{Fpu}
use lekiwi.DistanceTrial.{
  Direction, forward, backward, left, right, axis, Trial, three_tenths, top_speed, thirty, half,
  max_gap, direction_of, duration_s, velocity, Value, text, Parameters, equals, number_of,
  is_positive, number_at, require, expected, numeric, check_expected, check_numeric, check_limits,
  validate_parameters,
}
use lekiwi.DistanceTrial.Values.{IsFlag, Positive, text_at, equals-IsFlag, positive_at}

module _ ⦃u : Fpu⦄ where
  abbrev pub IsTrial : Num → Num → String → Trial → Type 0
  IsTrial distance speed name t =
      (direction_of name ≡ some t.direction)
      × (t.distance_m ≡ distance)
      × (t.speed_mps ≡ speed)
      × (isfinite distance ≡ true)
      × (lt nought distance && le distance three_tenths ≡ true)
      × (isfinite speed ≡ true)
      × (lt nought speed && le speed top_speed ≡ true)
      × (le half (duration_s t) && le (duration_s t) thirty ≡ true)

  -- What `validate_parameters` asks of each key
  abbrev AllEqual : Parameters → List (String × Value) → Type 0
  AllEqual p [] = Unit
  AllEqual p ((key, v) ∷ more) = (equals (p key) v ≡ true) × AllEqual p more

  abbrev AllPositive : Parameters → List String → Type 0
  AllPositive p [] = Unit
  AllPositive p (key ∷ keys) = (is_positive (number_of (p key)) ≡ true) × AllPositive p keys

  -- The backend, its writes, its torque, its odometry and its clock are those of the mode.
  pub record IsMode (p : Parameters) (mock : Bool) : Type 0 where
    pub backend : p "motor_backend" ≡ some (text (if mock then "mock" else "feetech"))
    pub writes : IsFlag (not mock) (p "enable_motor_write")
    pub torque : IsFlag false (p "torque_enable")
    pub odometry : p "odom_source" ≡ some (text (if mock then "command" else "encoder"))
    pub real_time : IsFlag false (p "use_sim_time")
    pub feedback : (mock ≡ true) ⊎ (p "encoder_feedback_source" ≡ some (text "position"))

  -- How much of a direction is ahead
  abbrev pub ahead : Direction → Num
  ahead forward = one
  ahead backward = neg one
  ahead left = nought
  ahead right = nought

  axis-ahead : (d : Direction) → (axis d).0 ≡ ahead d
  axis-ahead forward = refl
  axis-ahead backward = refl
  axis-ahead left = refl
  axis-ahead right = refl

  -- The eight numeric parameters are finite and positive, and the base does not clamp the trial's speed,
  -- neither of the body nor of a wheel, and stops by itself within half a second, but later than the
  -- longest gap between two commands.
  pub record IsUnclamped (p : Parameters) (t : Trial) : Type 0 where
    pub timeout : Positive (p "cmd_vel_timeout")
    pub max_x : Positive (p "max_linear_x")
    pub max_y : Positive (p "max_linear_y")
    pub max_speed : Positive (p "max_linear_speed")
    pub radius : Positive (p "wheel_radius")
    pub wheel_speed : Positive (p "max_wheel_speed")
    pub ticks : Positive (p "speed_tick_limit")
    pub scale : Positive (p "speed_tick_scale")
    pub later : lt 0x3fc3333333333333 timeout.0 ≡ true
    pub soon : le timeout.0 0x3fe0000000000000 ≡ true
    pub body :
        le t.speed_mps (
          fmin
            (if feq (u.mul (ahead t.direction) t.speed_mps) nought then max_y.0 else max_x.0)
            max_speed.0)
        ≡ true
    pub wheel : le (u.div t.speed_mps radius.0) (fmin wheel_speed.0 (u.div ticks.0 scale.0)) ≡ true

  require-some :
      (b : Bool) (m : String) (rest : Option String)
      → require b m rest ≡ none
      → (b ≡ true) × (rest ≡ none)
  unfolding require
  require-some true m rest e = (refl, e)
  require-some false m rest e = absurd (cc e)

  expected-AllEqual :
      (p : Parameters) (pairs : List (String × Value)) (rest : Option String)
      → check_expected p pairs rest ≡ none
      → AllEqual p pairs × (rest ≡ none)
  unfolding check_expected
  expected-AllEqual p [] rest e = (tt, e)
  expected-AllEqual p ((key, v) ∷ more) rest e =
      let (a, b) = require-some (equals (p key) v) _ (check_expected p more rest) e in
      let (c, d) = expected-AllEqual p more rest b in ((a, c), d)

  numeric-AllPositive :
      (p : Parameters) (keys : List String) (rest : Option String)
      → check_numeric p keys rest ≡ none
      → AllPositive p keys × (rest ≡ none)
  unfolding check_numeric
  numeric-AllPositive p [] rest e = (tt, e)
  numeric-AllPositive p (key ∷ keys) rest e =
      let (a, b) = require-some (is_positive (number_of (p key))) _ (check_numeric p keys rest) e in
      let (c, d) = numeric-AllPositive p keys rest b in ((a, c), d)

  expected-IsMode : (p : Parameters) (mock : Bool) → AllEqual p (expected mock) → IsMode p mock
  unfolding expected
  expected-IsMode p true all = record {
    backend = text_at (p "motor_backend") "mock" all.0;
    writes = equals-IsFlag false (p "enable_motor_write") all.1.0;
    torque = equals-IsFlag false (p "torque_enable") all.1.1.0;
    odometry = text_at (p "odom_source") "command" all.1.1.1.0;
    real_time = equals-IsFlag false (p "use_sim_time") all.1.1.1.1.0;
    feedback = inl refl;
  }
  expected-IsMode p false all = record {
    backend = text_at (p "motor_backend") "feetech" all.0;
    writes = equals-IsFlag true (p "enable_motor_write") all.1.0;
    torque = equals-IsFlag false (p "torque_enable") all.1.1.0;
    odometry = text_at (p "odom_source") "encoder" all.1.1.1.0;
    real_time = equals-IsFlag false (p "use_sim_time") all.1.1.1.1.0;
    feedback = inr (text_at (p "encoder_feedback_source") "position" all.1.1.1.1.1.0);
  }

  limited :
      (p : Parameters) (t : Trial) {timeout x y top radius wheel ticks scale : Num}
      → number_at p "cmd_vel_timeout" ≡ timeout
      → number_at p "max_linear_x" ≡ x
      → number_at p "max_linear_y" ≡ y
      → number_at p "max_linear_speed" ≡ top
      → number_at p "wheel_radius" ≡ radius
      → number_at p "max_wheel_speed" ≡ wheel
      → number_at p "speed_tick_limit" ≡ ticks
      → number_at p "speed_tick_scale" ≡ scale
      → check_limits p t ≡ none
      → (lt max_gap timeout ≡ true)
        × (le timeout half ≡ true)
        × (le t.speed_mps
              (fmin (if feq (u.mul (ahead t.direction) t.speed_mps) nought then y else x) top)
            ≡ true)
        × (le (u.div t.speed_mps radius) (fmin wheel (u.div ticks scale)) ≡ true)
  unfolding check_limits require velocity
  limited p t a b c d e f g h none_left = ground (arith, axis-ahead t.direction)

  limits-IsUnclamped :
      (p : Parameters) (t : Trial)
      → AllPositive p numeric
      → check_limits p t ≡ none
      → IsUnclamped p t
  unfolding number_at
  limits-IsUnclamped p t all e =
      let (timeout, a) = positive_at (p "cmd_vel_timeout") all.0 in
      let (x, b) = positive_at (p "max_linear_x") all.1.0 in
      let (y, c) = positive_at (p "max_linear_y") all.1.1.0 in
      let (top, d) = positive_at (p "max_linear_speed") all.1.1.1.0 in
      let (radius, f) = positive_at (p "wheel_radius") all.1.1.1.1.0 in
      let (wheel, g) = positive_at (p "max_wheel_speed") all.1.1.1.1.1.0 in
      let (ticks, h) = positive_at (p "speed_tick_limit") all.1.1.1.1.1.1.0 in
      let (scale, i) = positive_at (p "speed_tick_scale") all.1.1.1.1.1.1.1.0 in
      let (later, soon, body, turn) = limited p t a b c d f g h i e in
      record {
        timeout = timeout;
        max_x = x;
        max_y = y;
        max_speed = top;
        radius = radius;
        wheel_speed = wheel;
        ticks = ticks;
        scale = scale;
        later = later;
        soon = soon;
        body = body;
        wheel = turn;
      }

  -- A base passes `validate_parameters` only if its backend ("feetech", or "mock" for a mock), its writes
  -- (on, or off for a mock), its torque (off), its odometry (from encoders that read positions, or from
  -- the commands for a mock) and its clock (the real one) are those of the mode; if its eight numeric
  -- parameters are finite and positive; and if it clamps neither the trial's body speed nor its wheel
  -- speed and its timeout is more than 0.15 s, the longest command gap, and at most 0.5 s.
  pub validate_parameters-IsUnclamped :
      (p : Parameters) (t : Trial) (mock : Bool)
      → validate_parameters p t mock ≡ none
      → IsMode p mock × IsUnclamped p t
  unfolding validate_parameters
  validate_parameters-IsUnclamped p t mock e =
      let (a, b) = expected-AllEqual p (expected mock) _ e in
      let (c, d) = numeric-AllPositive p numeric _ b in
      (expected-IsMode p mock a, limits-IsUnclamped p t c d)
