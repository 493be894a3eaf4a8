-- ===== src/NavGuard/Tests.antt =====
-- A graph with the expected nodes, a base that is accepted, and fresh sensors.
use lekiwi.Prelude.{
  ◌≢◌, sym, ◌∙◌, ℕ, suc, ltb, Bool, List, ◌≡◌, ◌↔◌, refl, true, false, none, some, [], ◌∷◌, String,
}
use lekiwi.Float.{nought, one, le, is_nan, rank}
use lekiwi.Float.Fixed.{fixed, fixed_sub}
use lekiwi.NavGuard.{
  EndpointInfo, full_name, all_named, names_only, check_command_graph, Hardware,
  check_hardware_parameters, fresh,
}
use lekiwi.Effect.{Reply, answer, value, running, repeat, finally_with}
use lekiwi.Effect.State.{modify, reads, request}
use lekiwi.NavGuard.{on_scan, on_odom}
use lekiwi.Float.{lt}
use lekiwi.Float.Fixed.{fixed_add}
use lekiwi.NavGuard.Session.{
  Call, is_ok, spin, power, Message, scan, odom, motor_ready, World, State, call, read_clock,
  check_graph, read_hardware_parameters, publish_zero, is_fresh, deliver, await_start,
  recheck_graph,
}
use lekiwi.NavGuard.Main.{attempt_session, initialize, supervise, arm, watch, main, at_start}
use lekiwi.NavGuard.Armed.{main-IsGuarded}
use lekiwi.NavGuard.Guarded.{IsGuarded}
use lekiwi.NavGuard.Ending.{IsOff, main-IsOff}
use lekiwi.NavGuard.Checks.{IsOnly, check_command_graph-IsOnly, check_hardware_parameters_lem}

-- both nodes are in the root namespace, which is stripped to nothing
abbrev stripped : String → String
stripped _ = ""

abbrev monitor : EndpointInfo
monitor = record { node_namespace = "/"; node_name = "collision_monitor" }

abbrev base : EndpointInfo
base = record { node_namespace = "/"; node_name = "lekiwi_node" }

accepted : check_command_graph stripped (monitor ∷ []) (base ∷ []) ≡ none
unfolding check_command_graph names_only all_named full_name
accepted = refl

check_command_graph_example :
    IsOnly stripped "/collision_monitor" (monitor ∷ []) × IsOnly stripped "/lekiwi_node" (base ∷ [])
check_command_graph_example =
    check_command_graph-IsOnly stripped (monitor ∷ []) (base ∷ []) accepted

abbrev torqued : Hardware
torqued = record { backend = "feetech"; writes = true; odom = "encoder"; initial_torque = true }

check_hardware_parameters_example : (check_hardware_parameters torqued ≡ none) ↔ (
    (torqued.backend ≡ "feetech")
    × (torqued.writes ≡ true)
    × (torqued.odom ≡ "encoder")
    × (torqued.initial_torque ≡ false))
check_hardware_parameters_example = check_hardware_parameters_lem torqued

-- A session in which all goes well: the sensors and the readiness are heard at every spin, and the third
-- `rclpy.ok()` ends it.
abbrev is_armed : List Call → Bool
is_armed [] = false
is_armed (power b ∷ h) = b
is_armed (c ∷ h) = is_armed h

abbrev count_ok : List Call → ℕ
count_ok [] = 0
count_ok (is_ok ∷ h) = suc (count_ok h)
count_ok (c ∷ h) = count_ok h

abbrev at_spin : List Call → List Message
at_spin (spin t ∷ h) = scan nought ∷ odom nought ∷ motor_ready (is_armed h) ∷ []
at_spin _ = []

abbrev done : List Call → Reply (Unit {0})
done _ = answer tt

abbrev untorqued : Hardware
untorqued = record { backend = "feetech"; writes = true; odom = "encoder"; initial_torque = false }

abbrev in_order : World
in_order = record {
  strip = stripped;
  on_create = done;
  now = λ _. nought;
  on_ok = λ h. answer (ltb (count_ok h) 3);
  on_spin = done;
  on_graph = λ _. answer (monitor ∷ [], base ∷ []);
  on_services = λ _. answer true;
  on_result = λ _. answer (some untorqued);
  on_publish = done;
  on_power = done;
  on_wait_ready = λ _. answer true;
  on_end = done;
  heard = at_spin;
}

attempt-ended : (attempt_session in_order 4 one one at_start).0 ≡ value tt
unfolding attempt_session initialize supervise arm watch await_start recheck_graph call read_clock
    check_graph read_hardware_parameters publish_zero is_fresh deliver request modify reads repeat
    finally_with check_command_graph names_only all_named full_name check_hardware_parameters fresh
    on_scan on_odom le lt is_nan rank fixed_sub fixed_add
attempt-ended = refl

abbrev session : State
session = (main in_order 4 one one at_start).1

main-IsGuarded_example : IsGuarded in_order session.calls
main-IsGuarded_example = main-IsGuarded in_order 4 one one

main-IsOff_example : ((main in_order 4 one one at_start).0 ≢ running) × IsOff session.calls
main-IsOff_example = main-IsOff in_order 4 one one (λ e. cc (sym attempt-ended ∙ e))
