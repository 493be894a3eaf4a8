-- ===== src/SafeCmdVel.antt =====
-- lekiwi_teleop/lekiwi_teleop/safe_cmd_vel.py: one checked motion for a limited time.
pub mod Run
pub mod Request
pub mod Ending
mod Tests
use lekiwi.Prelude.{
  ℕ, Bool, true, false, not, ◌&&◌, ◌||◌, Option, none, some, String, List, replicate, ltb,
  if◌then◌else◌,
}
use lekiwi.Float.{Num, nought, le, lt, fabs}
use lekiwi.Float.Fpu.{Fpu}
use lekiwi.MotorSession.{Motion}

pub record MotionCommand : Type 0 where
  pub linear_x : Num
  pub linear_y : Num
  pub angular_z : Num
  pub duration : Num
  pub rate : Num

pub record MotionLimits : Type 0 where
  pub max_linear : Num
  pub max_angular : Num
  pub max_duration : Num
  pub max_rate : Num

-- the dataclass defaults 0.05, 0.3, 2.0 and 50.0
abbrev pub default_limits : MotionLimits
default_limits = record {
  max_linear = 0x3fa999999999999a;
  max_angular = 0x3fd3333333333333;
  max_duration = 0x4000000000000000;
  max_rate = 0x4049000000000000;
}

-- `has_motion_command`
unfoldable pub has_motion_command : MotionCommand → Bool
has_motion_command c =
    lt nought (fabs c.linear_x) || (lt nought (fabs c.linear_y) || lt nought (fabs c.angular_z))

-- `make_twist(command.linear_x, command.linear_y, command.angular_z)`
abbrev pub twist_of : MotionCommand → Motion
twist_of c = record { linear_x = c.linear_x; linear_y = c.linear_y; angular_z = c.angular_z }

-- `validate_motion_request`, with the speed that `math.hypot` gives, as the message of the ValueError if
-- there is one
unfoldable pub validate_motion_request :
    (Num → Num → Num) → MotionCommand → Bool → Bool → MotionLimits → Option String
validate_motion_request hypot c confirmed arm_motors limits =
    if le c.duration nought
    then some "duration"
    else if le c.rate nought
    then some "rate"
    else if lt limits.max_linear (hypot c.linear_x c.linear_y)
    then some "linear"
    else if lt limits.max_angular (fabs c.angular_z)
    then some "angular"
    else if lt limits.max_duration c.duration
    then some "max duration"
    else if lt limits.max_rate c.rate
    then some "max rate"
    else if (has_motion_command c || arm_motors) && not confirmed
    then some "--yes-i-confirm-motion"
    else none

-- `max(1, n)`
abbrev pub at_least_one : ℕ → ℕ
at_least_one n = if ltb 1 n then n else 1

-- `build_publish_plan`: `ceil` is `math.ceil`, 0 where that is negative, and `none` where it raises
unfoldable pub build_publish_plan :
    ⦃u : Fpu⦄ → (Num → Option ℕ) → MotionCommand → Option (List Motion)
build_publish_plan ⦃u⦄ ceil c = elim (ceil (u.mul c.duration c.rate)) [
  | none ↦ none
  | some n ↦ some (replicate (at_least_one n) (twist_of c))
]
