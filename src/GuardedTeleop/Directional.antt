-- ===== src/GuardedTeleop/Directional.antt =====
-- `DirectionalSpeedProfile`: a key sets a direction and a speed stage, and the control ramps to it.
pub mod Envelope
pub mod Stops
use Prim.Native.Nat.{min}
use lekiwi.Prelude.{
  ℕ, ◌+◌, ◌-◌, Bool, true, false, ◌&&◌, not, Option, none, some, String, str_eq, ◌==◌,
  if◌then◌else◌,
}
use lekiwi.Float.{Num, neg, nought}
use lekiwi.Float.Fpu.{Fpu}
use lekiwi.MotorSession.{Motion, stop, same_motion}
use lekiwi.GuardedTeleop.Ramp.{linear_step, angular_step, make_simple_profile}

-- 0.10 and 0.30
abbrev pub linear_speed : Num
linear_speed = 0x3fb999999999999a

abbrev pub angular_speed : Num
angular_speed = 0x3fd3333333333333

abbrev pub max_speed_stage : ℕ
max_speed_stage = 3

-- `DIRECTIONS.get(key)`
unfoldable pub directions : String → Option Motion
directions key =
    if str_eq key "w"
    then some (record stop { linear_x = linear_speed })
    else if str_eq key "s"
    then some (record stop { linear_x = neg linear_speed })
    else if str_eq key "a"
    then some (record stop { linear_y = linear_speed })
    else if str_eq key "d"
    then some (record stop { linear_y = neg linear_speed })
    else if str_eq key "q"
    then some (record stop { angular_z = angular_speed })
    else if str_eq key "e"
    then some (record stop { angular_z = neg angular_speed })
    else none

pub record Directional : Type 0 where
  pub speed_stage : ℕ
  pub direction : Motion
  pub target : Motion
  pub control : Motion
  pub pending_direction_change_zero : Bool

-- `__init__`
unfoldable pub initial : Directional
initial = record {
  speed_stage = 1;
  direction = stop;
  target = stop;
  control = stop;
  pending_direction_change_zero = false;
}

module _ ⦃u : Fpu⦄ where
  unfoldable pub scaled : Motion → Num → Motion
  scaled d scale = record {
    linear_x = u.mul d.linear_x scale;
    linear_y = u.mul d.linear_y scale;
    angular_z = u.mul d.angular_z scale;
  }

  unfoldable pub update_target : Directional → Directional
  update_target p = record p { target = scaled p.direction (u.ratio p.speed_stage max_speed_stage) }

  -- the branch of `handle_key` for a key in `DIRECTIONS`
  unfoldable pub turn_to : Motion → Directional → Directional
  turn_to next_direction p =
      let direction_changed =
        not (same_motion p.target stop) && not (same_motion next_direction p.direction) in
      let q = update_target (record p { direction = next_direction }) in
      if direction_changed
      then record q { control = stop; pending_direction_change_zero = true }
      else q

  unfoldable pub faster : Directional → Directional
  faster p = update_target (record p { speed_stage = min max_speed_stage (p.speed_stage + 1) })

  -- `max(0, stage - 1)` is the truncated difference
  unfoldable pub slower : Directional → Directional
  slower p =
      let q = update_target (record p { speed_stage = p.speed_stage - 1 }) in
      if q.speed_stage == 0
      then record q { control = stop; pending_direction_change_zero = false }
      else q

  unfoldable pub halt : Directional → Directional
  halt p = record (update_target (record p { speed_stage = 0 })) {
    control = stop;
    pending_direction_change_zero = false;
  }

  -- the keys that are no direction
  unfoldable pub other_key : String → Directional → Directional × Bool
  other_key key p =
      if str_eq key "r"
      then (faster p, true)
      else if str_eq key "f"
      then (slower p, true)
      else if str_eq key " "
      then (halt p, true)
      else (p, false)

  unfoldable pub handle_key : String → Directional → Directional × Bool
  handle_key key p = elim (directions key) [ some d ↦ (turn_to d p, true) | none ↦ other_key key p ]

  unfoldable pub ramped : Motion → Motion → Motion
  ramped c t = record {
    linear_x = make_simple_profile c.linear_x t.linear_x linear_step;
    linear_y = make_simple_profile c.linear_y t.linear_y linear_step;
    angular_z = make_simple_profile c.angular_z t.angular_z angular_step;
  }

  -- The profile afterwards, and the motion that is sent.
  unfoldable pub next_motion : Directional → Directional × Motion
  next_motion p =
      if p.pending_direction_change_zero
      then (record p { pending_direction_change_zero = false }, p.control)
      else let c = ramped p.control p.target in (record p { control = c }, c)
