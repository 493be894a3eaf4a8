-- ===== src/SafeCmdVel/Tests.antt =====
-- A request that is accepted, and a run in which every publish fails, with a concrete arithmetic.
use lekiwi.Prelude.{
  ℕ, ◌⊎◌, ltb, if◌then◌else◌, ◌≤◌, ◌≡◌, ◌≢◌, refl, true, false, some, List, [], ◌∷◌, arith, length,
  All,
}
use lekiwi.Float.{Num, nought, one, rank, is_nan, isfinite, le, lt, fabs}
use lekiwi.Float.Fixed.{fixed}
use lekiwi.Effect.{running, answer, failure, runtime_error, repeat}
use lekiwi.MotorSession.{Motion}
use lekiwi.SafeCmdVel.{
  MotionCommand, default_limits, has_motion_command, validate_motion_request, twist_of,
  build_publish_plan,
}
use lekiwi.SafeCmdVel.Run.{
  World, Arguments, body, run, publish_plan, publish_zero, wait_for_subscribers, await_subscribers,
}
use lekiwi.SafeCmdVel.Request.{
  IsParsed, IsHypot, IsAccepted, validate_motion_request-IsAccepted, build_publish_plan_lem,
}
use lekiwi.SafeCmdVel.Ending.{IsStopped, IsDisarmed, publish_plan-IsStopped, run-IsDisarmed}

-- 0.04 m/s ahead for a second
abbrev ahead : MotionCommand
ahead = record {
  linear_x = 0x3fa47ae147ae147b;
  linear_y = nought;
  angular_z = nought;
  duration = one;
  rate = one;
}

-- a norm that stands in for the Euclidean one
abbrev larger_size : Num → Num → Num
larger_size x y = if ltb (fabs x) (fabs y) then fabs y else fabs x

larger-IsHypot : IsHypot larger_size
unfolding is_nan isfinite rank fabs
larger-IsHypot = record {
  number = λ x y fx fy. ground arith;
  first = λ x y fx fy. ground arith;
  second = λ x y fx fy. ground arith;
}

ahead-IsParsed : IsParsed ahead default_limits
unfolding isfinite
ahead-IsParsed = record {
  x = refl;
  y = refl;
  turn = refl;
  duration = refl;
  rate = refl;
  max_linear = refl;
  max_angular = refl;
  max_duration = refl;
  max_rate = refl;
}

validate_motion_request_example : IsAccepted ahead true false default_limits
unfolding validate_motion_request le lt is_nan rank fabs has_motion_command
validate_motion_request_example =
    validate_motion_request-IsAccepted larger_size ahead true false default_limits larger-IsHypot
      ahead-IsParsed refl

build_publish_plan_example :
    (plan : List Motion) × (build_publish_plan (λ _. some 20) ahead ≡ some plan)
    × (((1 ≤ 20) × (length plan ≡ 20)) ⊎ ((◌≡◌ {A = ℕ} 20 0) × (length plan ≡ 1)))
    × All
        (λ m.
          (m.linear_x ≡ ahead.linear_x)
          × (m.linear_y ≡ ahead.linear_y)
          × (m.angular_z ≡ ahead.angular_z))
        plan
build_publish_plan_example = build_publish_plan_lem (λ _. some 20) ahead 20 refl

abbrev broken : World
broken = record {
  on_publish = λ _. failure (runtime_error "publisher is gone");
  on_subscription_count = λ _. answer 1;
  on_clock = λ _. answer nought;
  on_sleep = λ _. answer tt;
  on_spin = λ _. answer (some true);
  on_power = λ _. answer tt;
  on_print_line = λ _. answer tt;
  on_destroy_node = λ _. answer tt;
  on_shutdown = λ _. answer tt;
}

abbrev args : Arguments
args = record { zero_cycles = 2; min_subscribers = 1; discovery_timeout = one; arm_motors = true }

publish_plan-IsStopped_example :
    ((publish_plan broken (twist_of ahead ∷ []) 2 one []).0 ≢ running)
    × IsStopped (publish_plan broken (twist_of ahead ∷ []) 2 one []).1
publish_plan-IsStopped_example = publish_plan-IsStopped broken (twist_of ahead ∷ []) 1 one []

body_ends : (body broken 1 args (twist_of ahead ∷ []) one []).0 ≢ running
unfolding body wait_for_subscribers await_subscribers publish_zero repeat
body_ends e = cc e

run-IsDisarmed_example :
    let (r, t) = run broken 1 args (twist_of ahead ∷ []) one [] in (r ≢ running) × IsDisarmed t
run-IsDisarmed_example = run-IsDisarmed broken 1 args (twist_of ahead ∷ []) one [] refl body_ends
