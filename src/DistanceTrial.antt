-- ===== src/DistanceTrial.antt =====
-- lekiwi_teleop/lekiwi_teleop/distance_trial.py: one timed translation, and its comparison with a
-- measurement on the floor.
pub mod Endpoint
pub mod Run
pub mod Motion
pub mod Keeps
pub mod Settling
pub mod Moves
pub mod Lifecycle
pub mod Completed
pub mod Waits
pub mod Termination
pub mod Values
pub mod Accepted
pub mod Compare
pub mod Samples
pub mod Steady
mod Tests
use lekiwi.Prelude.{
  ◌≡◌, ℕ, Bool, true, false, not, ◌&&◌, ◌||◌, Option, none, some, String, str_eq, append_text, List,
  [], ◌∷◌, ◌⊎◌, inl, inr, if◌then◌else◌,
}
use lekiwi.Float.{Num, nought, one, isfinite, lt, le, feq, neg, fabs, fmin}
use lekiwi.Float.Fpu.{Fpu}

-- 0.3, 0.03, 0.5 and 30.0
abbrev pub three_tenths : Num
three_tenths = 0x3fd3333333333333

abbrev pub top_speed : Num
top_speed = 0x3f9eb851eb851eb8

abbrev pub half : Num
half = 0x3fe0000000000000

abbrev pub thirty : Num
thirty = 0x403e000000000000

-- `MAX_GAP` and `PERIOD`: 0.15 and 0.05
abbrev pub max_gap : Num
max_gap = 0x3fc3333333333333

abbrev pub period : Num
period = 0x3fa999999999999a

-- 0.02, -0.02, 0.01, 0.05 and 0.2
abbrev minus_fiftieth : Num
minus_fiftieth = 0xbf947ae147ae147b

abbrev fifth : Num
fifth = 0x3fc999999999999a

-- A key of `DIRECTIONS`, which `__post_init__` asks for
pub data Direction : Type 0 where
  forward backward left right : Direction

unfoldable pub direction_of : String → Option Direction
direction_of name =
    if str_eq name "forward"
    then some forward
    else if str_eq name "backward"
    then some backward
    else if str_eq name "left"
    then some left
    else if str_eq name "right"
    then some right
    else none

-- `DIRECTIONS`
abbrev pub axis : Direction → Num × Num
axis forward = (one, nought)
axis backward = (neg one, nought)
axis left = (nought, one)
axis right = (nought, neg one)

pub record Trial : Type 0 where
  pub distance_m : Num
  pub speed_mps : Num
  pub direction : Direction

module _ ⦃u : Fpu⦄ where
  unfoldable pub duration_s : Trial → Num
  duration_s t = u.div t.distance_m t.speed_mps

  unfoldable pub velocity : Trial → Num × Num
  velocity t = (u.mul (axis t.direction).0 t.speed_mps, u.mul (axis t.direction).1 t.speed_mps)

  -- `__post_init__` of a trial whose direction is known, as the message of the ValueError if there is one
  unfoldable pub post_init : Trial → Option String
  post_init t =
      if not (isfinite t.distance_m) || not (lt nought t.distance_m && le t.distance_m three_tenths)
      then some "distance must be in (0, 0.3] m"
      else if not (isfinite t.speed_mps) || not (lt nought t.speed_mps && le t.speed_mps top_speed)
      then some "speed must be in (0, 0.03] m/s"
      else if not (le half (duration_s t) && le (duration_s t) thirty)
      then some "distance / speed must be in [0.5, 30] seconds"
      else none

  abbrev checked : Trial → Option String → String ⊎ Trial
  checked t none = inr t
  checked t (some message) = inl message

  abbrev pub made : Num → Num → Option Direction → String ⊎ Trial
  made distance speed none = inl "Unknown translation direction"
  made distance speed (some d) =
      let t : Trial = record { distance_m = distance; speed_mps = speed; direction = d } in
      checked t (post_init t)

  -- `Trial(distance, speed, direction)`
  unfoldable pub new_trial : Num → Num → String → String ⊎ Trial
  new_trial distance speed name = made distance speed (direction_of name)

-- A message of `on_odom` that was accepted
pub record Sample : Type 0 where
  pub received_s : Num
  pub stamp_ns : ℕ
  pub frame : String
  pub child : String
  pub x : Num
  pub y : Num
  pub yaw : Num
  pub vx : Num
  pub vy : Num
  pub wz : Num

pub record Displacement : Type 0 where
  pub along_m : Num
  pub cross_m : Num
  pub net_distance_m : Num
  pub yaw_rad : Num

-- The functions of `math`
pub record Trig : Type 0 where
  pub cos : Num → Num
  pub sin : Num → Num
  pub hypot : Num → Num → Num
  pub atan2 : Num → Num → Num

module _ (g : Trig) ⦃u : Fpu⦄ where
  unfoldable pub displacement : Sample → Sample → Direction → Displacement
  displacement start end_ direction =
      let dx = u.sub end_.x start.x in
      let dy = u.sub end_.y start.y in
      let c = g.cos start.yaw in
      let s = g.sin start.yaw in
      let x = u.add (u.mul c dx) (u.mul s dy) in
      let y = u.add (u.mul (neg s) dx) (u.mul c dy) in
      let ux = (axis direction).0 in
      let uy = (axis direction).1 in
      let yaw = u.sub end_.yaw start.yaw in
      record {
        along_m = u.add (u.mul ux x) (u.mul uy y);
        cross_m = u.add (u.mul (neg uy) x) (u.mul ux y);
        net_distance_m = g.hypot dx dy;
        yaw_rad = g.atan2 (g.sin yaw) (g.cos yaw);
      }

-- The two tests of the travel guard
module _ ⦃u : Fpu⦄ where
  unfoldable pub within_travel : Trial → Displacement → Bool
  within_travel t d = le minus_fiftieth d.along_m && le d.along_m (u.add t.distance_m period)

unfoldable pub within_drift : Displacement → Bool
within_drift d = le (fabs d.cross_m) top_speed && le (fabs d.yaw_rad) fifth

-- The value of a parameter. Whole numbers stand as floats.
pub data Value : Type 0 where
  text : String → Value
  boolean : Bool → Value
  number : Num → Value
  other : Value

abbrev pub Parameters : Type 0
Parameters = String → Option Value

-- `isinstance(value, (int, float))`, with the number: a bool is an int.
abbrev pub number_of : Option Value → Option Num
number_of (some (number n)) = some n
number_of (some (boolean true)) = some one
number_of (some (boolean false)) = some nought
number_of _ = none

-- `p.get(key) == value`, where `value` is a text or a bool
abbrev equals_number : Option Num → Num → Bool
equals_number none b = false
equals_number (some a) b = feq a b

abbrev pub equals : Option Value → Value → Bool
equals (some (text a)) (text b) = str_eq a b
equals _ (text b) = false
equals v (boolean true) = equals_number (number_of v) one
equals v (boolean false) = equals_number (number_of v) nought
equals v (number b) = equals_number (number_of v) b
equals v other = false

-- The first requirement that fails, as its message
unfoldable pub require : Bool → String → Option String → Option String
require condition message rest = if condition then rest else some message

-- `expected`
unfoldable pub expected : Bool → List (String × Value)
expected mock =
    ("motor_backend", text (if mock then "mock" else "feetech"))
    ∷ ("enable_motor_write", boolean (not mock))
    ∷ ("torque_enable", boolean false)
    ∷ ("odom_source", text (if mock then "command" else "encoder"))
    ∷ ("use_sim_time", boolean false)
    ∷ (if mock then [] else ("encoder_feedback_source", text "position") ∷ [])

abbrev pub numeric : List String
numeric =
    "cmd_vel_timeout" ∷ "max_linear_x" ∷ "max_linear_y" ∷ "max_linear_speed" ∷ "wheel_radius"
    ∷ "max_wheel_speed" ∷ "speed_tick_limit" ∷ "speed_tick_scale" ∷ []

abbrev pub is_positive : Option Num → Bool
is_positive none = false
is_positive (some n) = isfinite n && lt nought n

abbrev pub num_or : Num → Option Num → Num
num_or d none = d
num_or d (some n) = n

-- `p[key]`, of a key that was found to have a number
unfoldable pub number_at : Parameters → String → Num
number_at p key = num_or nought (number_of (p key))

unfoldable pub check_expected : Parameters → List (String × Value) → Option String → Option String
check_expected p [] rest = rest
check_expected p ((key, value) ∷ more) rest =
    require (equals (p key) value) (append_text "Unexpected " key) (check_expected p more rest)

unfoldable pub check_numeric : Parameters → List String → Option String → Option String
check_numeric p [] rest = rest
check_numeric p (key ∷ keys) rest =
    require (is_positive (number_of (p key))) (append_text "Invalid numeric parameter: " key)
      (check_numeric p keys rest)

module _ ⦃u : Fpu⦄ where
  -- The requirements on the numbers
  unfoldable pub check_limits : Parameters → Trial → Option String
  check_limits p t =
      let at = number_at p in
      let axis_limit = if feq (velocity t).0 nought then at "max_linear_y" else at "max_linear_x" in
      let wheel_limit =
        fmin (at "max_wheel_speed") (u.div (at "speed_tick_limit") (at "speed_tick_scale")) in
      require (lt max_gap (at "cmd_vel_timeout") && le (at "cmd_vel_timeout") half)
        "Unsuitable cmd_vel_timeout"
        (require (le t.speed_mps (fmin axis_limit (at "max_linear_speed")))
          "Controller would clamp requested body speed"
          (require (lt nought (at "wheel_radius") && lt nought (at "speed_tick_scale"))
            "Invalid wheel radius or speed scale"
            (require (le (u.div t.speed_mps (at "wheel_radius")) wheel_limit)
              "Controller would clamp requested wheel speed" none)))

  -- `validate_parameters`
  unfoldable pub validate_parameters : Parameters → Trial → Bool → Option String
  validate_parameters p t mock =
      check_expected p (expected mock) (check_numeric p numeric (check_limits p t))
