-- ===== src/GuardedTeleop/HeldKeys.antt =====
-- `HeldKeySpeedProfile`: motion along one axis, and only while a direction key stays pressed.
pub mod Keys
pub mod Invariant
pub mod Drive
pub mod Stops
pub mod Abstract
mod Tests
use lekiwi.Prelude.{
  ℕ, zero, suc, Bool, true, false, ◌&&◌, ◌||◌, not, Option, none, some, String, str_eq, List, [],
  ◌∷◌, ◌++◌, if◌then◌else◌,
}
use lekiwi.Float.{Num, neg, nought, one}
use lekiwi.Float.Fpu.{Fpu}
use lekiwi.MotorSession.{Motion, stop}
use lekiwi.GuardedTeleop.Ramp.{linear_step, angular_step, make_simple_profile}

-- `SPEEDS`: linear and angular, with `none` for a missing key
unfoldable pub speeds : ℕ → Option (Num × Num)
speeds (suc zero) = some (0x3fa47ae147ae147b, 0x3fcd70a3d70a3d71)
speeds (suc (suc zero)) = some (0x3fa999999999999a, 0x3fd28f5c28f5c28f)
speeds (suc (suc (suc zero))) = some (0x3faeb851eb851eb8, 0x3fd6666666666666)
speeds _ = none

-- `DIRECTIONS.get(key)`
unfoldable pub directions : String → Option Motion
directions key =
    if str_eq key "w"
    then some (record stop { linear_x = one })
    else if str_eq key "s"
    then some (record stop { linear_x = neg one })
    else if str_eq key "a"
    then some (record stop { linear_y = one })
    else if str_eq key "d"
    then some (record stop { linear_y = neg one })
    else if str_eq key "q"
    then some (record stop { angular_z = one })
    else if str_eq key "e"
    then some (record stop { angular_z = neg one })
    else none

abbrev is_some : {A : Type 0} → Option A → Bool
is_some none = false
is_some (some _) = true

unfoldable pub is_direction : String → Bool
unfolding directions
is_direction key = is_some (directions key)

pub record HeldKeys : Type 0 where
  pub speed_stage : ℕ
  pub held_keys : List String
  pub control : Motion
  pub pending_zero : Bool

-- `__init__`
unfoldable pub initial : HeldKeys
initial = record { speed_stage = 1; held_keys = []; control = stop; pending_zero = false }

-- `key in keys`
unfoldable pub contains : String → List String → Bool
contains key [] = false
contains key (k ∷ keys) = str_eq k key || contains key keys

-- `keys.remove(key)`: the first occurrence goes
unfoldable pub remove : String → List String → List String
remove key [] = []
remove key (k ∷ keys) = if str_eq k key then keys else k ∷ remove key keys

-- `keys[-1] if keys else None`
unfoldable pub last : List String → Option String
last [] = none
last (k ∷ []) = some k
last (k ∷ j ∷ keys) = last (j ∷ keys)

unfoldable pub active_key : HeldKeys → Option String
active_key p = last p.held_keys

-- `a == b` of two optional keys
unfoldable pub same_key : Option String → Option String → Bool
same_key none none = true
same_key (some a) (some b) = str_eq a b
same_key _ _ = false

-- `int(key)` for one of the three stage keys
unfoldable pub stage_of : String → Option ℕ
stage_of key =
    if str_eq key "1"
    then some 1
    else if str_eq key "2"
    then some 2
    else if str_eq key "3"
    then some 3
    else none

-- `stop`
unfoldable pub clear : HeldKeys → HeldKeys
clear p = record p { held_keys = []; control = stop; pending_zero = false }

-- `press` for a key that is no stage and not `space`
unfoldable pub hold : String → HeldKeys → HeldKeys × Bool
hold key p =
    if not (is_direction key)
    then (p, false)
    else if contains key p.held_keys
    then (p, false)
    else let q = record p { held_keys = p.held_keys ++ key ∷ [] } in
      if same_key (active_key p) none || same_key (active_key p) (some key)
      then (q, true)
      else (record q { control = stop; pending_zero = true }, true)

unfoldable pub press : String → HeldKeys → HeldKeys × Bool
press key p = elim (stage_of key) [
  | some n ↦ (record p { speed_stage = n }, true)
  | none ↦ if str_eq key "space" then (clear p, true) else hold key p
]

unfoldable pub release : String → HeldKeys → HeldKeys × Bool
release key p =
    if not (contains key p.held_keys)
    then (p, false)
    else let q = record p { held_keys = remove key p.held_keys } in
      if same_key (active_key q) (active_key p)
      then (q, false)
      else (record q { control = stop; pending_zero = not (same_key (active_key q) none) }, true)

module _ ⦃u : Fpu⦄ where
  unfoldable pub target : Motion → Num × Num → Motion
  target d (linear_speed, angular_speed) = record {
    linear_x = u.mul d.linear_x linear_speed;
    linear_y = u.mul d.linear_y linear_speed;
    angular_z = u.mul d.angular_z angular_speed;
  }

  unfoldable pub ramped : Motion → Motion → Motion
  ramped c t = record {
    linear_x = make_simple_profile c.linear_x t.linear_x linear_step;
    linear_y = make_simple_profile c.linear_y t.linear_y linear_step;
    angular_z = make_simple_profile c.angular_z t.angular_z angular_step;
  }

  -- One tick with a held key whose speeds and direction were looked up; `none` is a KeyError.
  unfoldable pub drive : HeldKeys → Option (Num × Num) → Option Motion → Option (HeldKeys × Motion)
  drive p (some s) (some d) =
      let c = ramped p.control (target d s) in some (record p { control = c }, c)
  drive p _ _ = none

  -- The profile afterwards and the motion that is sent.
  unfoldable pub next_motion : HeldKeys → Option (HeldKeys × Motion)
  next_motion p = elim (active_key p) [
    | none ↦ some (record p { control = stop }, stop)
    | some key ↦
        if p.pending_zero
        then some (record p { pending_zero = false }, stop)
        else drive p (speeds p.speed_stage) (directions key)
  ]
