-- ===== src/NavGuard/Checks.antt =====
-- What the checks before power on let through.
use lekiwi.Prelude.{
  ◌≡◌, refl, Bool, true, false, not, ◌&&◌, ◌||◌, Option, none, some, String, eq_iff, List, [], ◌∷◌,
  ◌==◌, ◌↔◌, arith, false≢true, length,
}
use lekiwi.Float.{Num, le}
use lekiwi.Float.Fpu.{Fpu}
use lekiwi.NavGuard.{
  EndpointInfo, full_name, all_named, names_only, check_command_graph, Hardware,
  check_hardware_parameters, Observer, is_recent, fresh,
}

-- The endpoints of a topic are one, of the node that is expected.
pub data IsOnly (strip : String → String) (expected : String) : List EndpointInfo → Type 0 where
  only : (info : EndpointInfo) → full_name strip info ≡ expected → IsOnly strip expected (info ∷ [])

single :
    (strip : String → String) (expected : String) (infos : List EndpointInfo)
    → not (length infos == 1) || not (names_only strip expected infos) ≡ false
    → IsOnly strip expected infos
unfolding names_only all_named
single strip expected [] h = ground arith
single strip expected (info ∷ []) h =
    only info (ground (arith, eq_iff (full_name strip info) expected))
single strip expected (info ∷ other ∷ infos) h = ground arith

-- The command graph is accepted only with exactly one publisher on /cmd_vel, the collision monitor, and
-- exactly one subscriber, the base's own node.
pub check_command_graph-IsOnly :
    (strip : String → String) (publishers subscribers : List EndpointInfo)
    → check_command_graph strip publishers subscribers ≡ none
    → IsOnly strip "/collision_monitor" publishers × IsOnly strip "/lekiwi_node" subscribers
unfolding check_command_graph
check_command_graph-IsOnly strip publishers subscribers h =
    ground
      (arith, single strip "/collision_monitor" publishers, single strip "/lekiwi_node" subscribers)

-- The base is accepted exactly if it writes to Feetech motors, has encoder odometry and started without
-- torque.
pub check_hardware_parameters_lem :
    (h : Hardware)
    → (check_hardware_parameters h ≡ none) ↔ (
        (h.backend ≡ "feetech")
        × (h.writes ≡ true)
        × (h.odom ≡ "encoder")
        × (h.initial_torque ≡ false))
unfolding check_hardware_parameters
check_hardware_parameters_lem h =
    let (backend, backend') = eq_iff h.backend "feetech" in
    let (odom, odom') = eq_iff h.odom "encoder" in
    (λ a. ground (arith, backend, odom), λ a. ground (arith, backend', odom'))

both : (a b : Bool) → a && b ≡ true → (a ≡ true) × (b ≡ true)
both a b h = ground arith

module _ ⦃u : Fpu⦄ (now max_age : Num) where
  abbrev pub IsRecent : Option Num → Type 0
  IsRecent time = (t : Num) × (time ≡ some t) × (le (u.sub now t) max_age ≡ true)

  recent : (time : Option Num) → is_recent now max_age time ≡ true → IsRecent time
  recent none h = absurd (false≢true h)
  recent (some t) h = (t, refl, h)

  -- The sensors are fresh only if each of them was heard, and each within the limit: a reading of one
  -- does not stand in for the other.
  pub fresh-IsRecent :
      (o : Observer) → fresh now max_age o ≡ true → IsRecent o.scan_time × IsRecent o.odom_time
  unfolding fresh
  fresh-IsRecent o h =
      let (scan, odom) =
        both (is_recent now max_age o.scan_time) (is_recent now max_age o.odom_time) h in
      (recent o.scan_time scan, recent o.odom_time odom)
