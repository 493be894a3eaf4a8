-- ===== src/NavGuard.antt =====
-- lekiwi_teleop/lekiwi_teleop/nav2_motor_guard.py: wheel power only during a supervised navigation.
pub mod Checks
pub mod Session
pub mod Main
pub mod Keeps
pub mod Guarded
pub mod Watch
pub mod Armed
pub mod Ending
mod Tests
use lekiwi.Prelude.{
  ℕ, Bool, true, false, not, ◌&&◌, ◌||◌, Option, none, some, String, str_eq, append_text, List, [],
  ◌∷◌, ◌==◌, length, if◌then◌else◌,
}
use lekiwi.Float.{Num, le}
use lekiwi.Float.Fpu.{Fpu}

-- An endpoint of a topic: the namespace of its node, and the node's name.
pub record EndpointInfo : Type 0 where
  pub node_namespace : String
  pub node_name : String

-- An entry of `names`; `strip` is `rstrip('/')`.
unfoldable pub full_name : (String → String) → EndpointInfo → String
full_name strip info = append_text (strip info.node_namespace) (append_text "/" info.node_name)

-- `names(infos) == {expected}`: the set is that singleton if there is an entry and all are `expected`
unfoldable pub all_named : (String → String) → String → List EndpointInfo → Bool
all_named strip expected [] = true
all_named strip expected (info ∷ infos) =
    str_eq (full_name strip info) expected && all_named strip expected infos

unfoldable pub names_only : (String → String) → String → List EndpointInfo → Bool
names_only strip expected [] = false
names_only strip expected (info ∷ infos) = all_named strip expected (info ∷ infos)

-- `check_command_graph`, as the message of the RuntimeError if there is one
unfoldable pub check_command_graph :
    (String → String) → List EndpointInfo → List EndpointInfo → Option String
check_command_graph strip publishers subscribers =
    if not (length publishers == 1) || not (names_only strip "/collision_monitor" publishers)
    then some "expected only /collision_monitor on /cmd_vel"
    else if not (length subscribers == 1) || not (names_only strip "/lekiwi_node" subscribers)
    then some "expected only /lekiwi_node on /cmd_vel"
    else none

-- The values of the four parameters that `check_hardware_parameters` looks at.
pub record Hardware : Type 0 where
  pub backend : String
  pub writes : Bool
  pub odom : String
  pub initial_torque : Bool

-- `check_hardware_parameters`
unfoldable pub check_hardware_parameters : Hardware → Option String
check_hardware_parameters h =
    if not (str_eq h.backend "feetech") || not h.writes
    then some "base is not using a writable Feetech motor backend"
    else if not (str_eq h.odom "encoder")
    then some "Nav2 requires encoder odometry on the physical base"
    else if h.initial_torque
    then some "base started with torque enabled; start it with torque_enable:=false"
    else none

-- `SensorObserver`: when each sensor was heard last
pub record Observer : Type 0 where
  pub scan_time : Option Num
  pub odom_time : Option Num

-- `_on_scan` and `_on_odom`
unfoldable pub on_scan : Num → Observer → Observer
on_scan now o = record o { scan_time = some now }

unfoldable pub on_odom : Num → Observer → Observer
on_odom now o = record o { odom_time = some now }

module _ ⦃u : Fpu⦄ where
  abbrev pub is_recent : Num → Num → Option Num → Bool
  is_recent now max_age none = false
  is_recent now max_age (some time) = le (u.sub now time) max_age

  -- `fresh`
  unfoldable pub fresh : Num → Num → Observer → Bool
  fresh now max_age o = is_recent now max_age o.scan_time && is_recent now max_age o.odom_time
