-- ===== src/MotorSession/Power/Tests.antt =====
-- A service that acknowledges, with a concrete arithmetic.
use lekiwi.Prelude.{◌≡◌, refl, true, false, some, ◌⊎◌, [], ◌∷◌}
use lekiwi.Float.{nought, one, le, is_nan, isfinite, rank, fmin, lt}
use lekiwi.Float.Fixed.{fixed, fixed_add, fixed_sub}
use lekiwi.Effect.{value, answer}
use lekiwi.MotorSession.Power.{
  Service, History, clock, wait_for_service, call_async, spin_until_complete, future_result,
  exchange, request_motor_power, spin_once, spin_slice, is_ok, is_true, await_ready,
  wait_for_motor_ready,
}
use lekiwi.MotorSession.Power.Acknowledged.{
  IsSeen, wait_for_motor_ready-IsSeen, IsAcknowledged, request_motor_power-IsAcknowledged,
}

abbrev willing : Service
willing = record {
  on_clock = λ _. answer nought;
  on_wait = λ _. answer true;
  on_call = λ _. answer tt;
  on_spin_until = λ _. answer tt;
  on_result = λ _. answer (some (some (true, "armed")));
  on_ok = λ _. answer true;
  on_spin_once = λ _. answer (some true);
}

abbrev answered : History
answered =
    future_result
    ∷ spin_until_complete one
    ∷ clock
    ∷ call_async true
    ∷ wait_for_service one
    ∷ clock
    ∷ []

granted : request_motor_power willing true (some one) [] ≡ (value tt, answered)
unfolding request_motor_power exchange isfinite le lt is_nan rank fmin fixed_add fixed_sub
granted = refl

request_motor_power_example : IsAcknowledged willing true answered
request_motor_power_example =
    request_motor_power-IsAcknowledged willing true (some one) [] answered granted

abbrev seen : History
seen = spin_once spin_slice ∷ clock ∷ is_ok ∷ clock ∷ []

waited_once : wait_for_motor_ready willing 1 (some false) one [] ≡ (value true, seen)
unfolding wait_for_motor_ready await_ready le lt is_nan rank fmin fixed_add fixed_sub
waited_once = refl

wait_for_motor_ready_example :
    ((is_true (some false) ≡ true) × (seen ≡ [])) ⊎ IsSeen willing true seen
wait_for_motor_ready_example =
    wait_for_motor_ready-IsSeen willing 1 (some false) one [] seen waited_once
