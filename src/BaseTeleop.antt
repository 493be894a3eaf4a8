-- ===== src/BaseTeleop.antt =====
-- lekiwi_teleop/lekiwi_teleop/base_teleop.py: driving the base without supervision.
pub mod Limits
pub mod Main
pub mod Ending
mod Tests
use lekiwi.Prelude.{
  ℕ, zero, suc, Bool, true, false, ◌||◌, Option, none, some, String, str_eq, List, ◌∷◌,
  if◌then◌else◌,
}
use lekiwi.Float.{Num, nought, one, le, lt, neg, fmin, fmax}
use lekiwi.Float.Fpu.{Fpu}
use lekiwi.MotorSession.{Motion, stop}

-- `BaseTeleopMapper`
pub record Mapper : Type 0 where
  pub linear_speed : Num
  pub angular_speed : Num
  pub speed_scale_step : Num
  pub min_linear_speed : Num
  pub max_linear_speed : Num
  pub min_angular_speed : Num
  pub max_angular_speed : Num

-- the dataclass defaults 0.05, 0.3, 1.2, 0.02, 0.10, 0.2 and 0.3
abbrev pub default_mapper : Mapper
default_mapper = record {
  linear_speed = 0x3fa999999999999a;
  angular_speed = 0x3fd3333333333333;
  speed_scale_step = 0x3ff3333333333333;
  min_linear_speed = 0x3f947ae147ae147b;
  max_linear_speed = 0x3fb999999999999a;
  min_angular_speed = 0x3fc999999999999a;
  max_angular_speed = 0x3fd3333333333333;
}

-- `_clamp`
unfoldable pub clamp : Num → Num → Num → Num
clamp value minimum maximum = fmin (fmax value minimum) maximum

-- `__post_init__`: `none` is a ValueError
unfoldable pub post_init : Mapper → Option Mapper
post_init m =
    if le m.speed_scale_step one
    then none
    else if le m.min_linear_speed nought || lt m.max_linear_speed m.min_linear_speed
    then none
    else if le m.min_angular_speed nought || lt m.max_angular_speed m.min_angular_speed
    then none
    else some (record m {
      linear_speed = clamp m.linear_speed m.min_linear_speed m.max_linear_speed;
      angular_speed = clamp m.angular_speed m.min_angular_speed m.max_angular_speed;
    })

-- `twist_for_key`
unfoldable pub twist_for_key : Mapper → String → Option Motion
twist_for_key m key =
    if str_eq key "w"
    then some (record stop { linear_x = m.linear_speed })
    else if str_eq key "s"
    then some (record stop { linear_x = neg m.linear_speed })
    else if str_eq key "a"
    then some (record stop { linear_y = m.linear_speed })
    else if str_eq key "d"
    then some (record stop { linear_y = neg m.linear_speed })
    else if str_eq key "q"
    then some (record stop { angular_z = m.angular_speed })
    else if str_eq key "e"
    then some (record stop { angular_z = neg m.angular_speed })
    else if str_eq key " "
    then some stop
    else none

-- `is_exit_key`
unfoldable pub is_exit_key : String → Bool
is_exit_key key = str_eq key "x" || (str_eq key "\u{3}" || str_eq key "\u{1b}")

-- What `publish_for_key` does: it ends the loop, it changes the mapper, it publishes, or it raises the
-- ValueError of a new mapper.
pub data Effect : Type 0 where
  exits : Effect
  adjusts : Mapper → Effect
  publishes : Motion → Effect
  ignores : Effect
  refuses : Effect

module _ ⦃u : Fpu⦄ where
  -- the factor of `adjust_speed_for_key`
  unfoldable pub factor_for_key : Mapper → String → Option Num
  factor_for_key m key =
      if str_eq key "+" || str_eq key "="
      then some m.speed_scale_step
      else if str_eq key "-" || str_eq key "_"
      then some (u.div one m.speed_scale_step)
      else none

  -- the mapper that `adjust_speed_for_key` makes
  unfoldable pub adjusted : Mapper → Num → Option Mapper
  adjusted m factor = post_init (record m {
    linear_speed = u.mul m.linear_speed factor;
    angular_speed = u.mul m.angular_speed factor;
  })

  abbrev adjustment : Option Mapper → Effect
  adjustment none = refuses
  adjustment (some m) = adjusts m

  abbrev publication : Option Motion → Effect
  publication none = ignores
  publication (some motion) = publishes motion

  -- `publish_for_key`
  unfoldable pub publish_for_key : Mapper → String → Effect
  publish_for_key m key = if is_exit_key key then exits else elim (factor_for_key m key) [
    | some factor ↦ adjustment (adjusted m factor)
    | none ↦ publication (twist_for_key m key)
  ]
