-- ===== src/DistanceTrial/Tests.antt =====
-- A mock trial whose base sends the same sample again and again, so that it never counts as at rest.
use lekiwi.DistanceTrial.Samples.{
  Event, arrived, answered, Message, receive, on_odom, check_message, check_step, sample_of,
  all_finite,
}
use lekiwi.DistanceTrial.Steady.{IsSteady, receive-IsSteady}
use lekiwi.Prelude.{
  ◌≡◌, ◌≢◌, refl, ◌⊎◌, ℕ, ◌≤◌, arith, Bool, true, false, none, some, str_eq, List, [], ◌∷◌, ◌++◌,
  ltb, length, if◌then◌else◌,
}
use lekiwi.Float.{neg, Num, nought, one, isfinite, is_nan, rank, le, lt, fabs, feq, fmin}
use lekiwi.Float.Fixed.{fixed_sub, fixed, fixed_add, fixed_mul, fixed_div}
use lekiwi.Effect.{value, finally_with, running, answer}
use lekiwi.DistanceTrial.{
  Trial, forward, text, boolean, number, Parameters, Sample, Displacement, Trig, duration_s,
  velocity, expected, check_expected, check_numeric, check_limits, number_at, require,
  validate_parameters, displacement,
}
use lekiwi.Effect.State.{request, modify, reads}
use lekiwi.DistanceTrial.Completed.{IsGuarded, run_trial-IsConfirmed}
use lekiwi.DistanceTrial.Endpoint.{call, write, demand, read_clock, check_sample, Call, World}
use lekiwi.DistanceTrial.Run.{stationary, watch, is_stationary, slide, stop_timeout}
use lekiwi.DistanceTrial.Motion.{body, cleanup, run_trial, initial}
use lekiwi.DistanceTrial.Lifecycle.{AllAllowed, IsDisarmed}
use lekiwi.DistanceTrial.Termination.{run_trial-disarms}
use lekiwi.DistanceTrial.Waits.{Passes}
use lekiwi.DistanceTrial.Accepted.{IsMode, IsUnclamped, validate_parameters-IsUnclamped}
use lekiwi.DistanceTrial.Compare.{Stored, Comparison, compared}

-- 0.2 m at 0.02 m/s, ahead
abbrev trial : Trial
trial = record {
  distance_m = 0x3fc999999999999a;
  speed_mps = 0x3f947ae147ae147b;
  direction = forward;
}

abbrev base : Parameters
base key =
    if str_eq key "motor_backend"
    then some (text "mock")
    else if str_eq key "odom_source"
    then some (text "command")
    else if str_eq key "enable_motor_write"
    then some (boolean false)
    else if str_eq key "torque_enable"
    then some (boolean false)
    else if str_eq key "use_sim_time"
    then some (boolean false)
    else if str_eq key "cmd_vel_timeout"
    then some (number 0x3fd3333333333333)
    else some (number one)

abbrev sample : Sample
sample = record {
  received_s = nought;
  stamp_ns = 1;
  frame = "odom";
  child = "base_footprint";
  x = nought;
  y = nought;
  yaw = nought;
  vx = nought;
  vy = nought;
  wz = nought;
}

abbrev flat : Trig
flat = record { cos = λ _. one; sin = λ _. nought; hypot = λ _ y. y; atan2 = λ y _. y }

-- The clock stands still for forty calls and then shows the end of time.
abbrev time_at : Bool → Num
time_at true = nought
time_at false = 0x7fefffffffffffff

abbrev world : World
world = record {
  on_parameters = λ _. answer base;
  on_spin = λ _. answer tt;
  on_publish = λ _. answer tt;
  on_arm = λ _. answer tt;
  on_graph = λ _. answer tt;
  on_stop = λ _. answer tt;
  now = λ h. time_at (ltb (length h) 40);
  error = λ _. none;
  latest = λ _. some sample;
  ready = λ _. some false;
  samples = λ _. [];
}

long : (h more : List Call) → 40 ≤ length more → 40 ≤ length (more ++ h)
long h more m = omega (arith, m, longer more)
  where
    longer : (more : List Call) → length more ≤ length (more ++ h)
    longer [] = omega arith
    longer (c ∷ more) = omega (arith, longer more)

late : (n : ℕ) → 40 ≤ n → ltb n 40 ≡ false
late n m = ground arith

stop_timeout-Passes : Passes world 40 stop_timeout
unfolding fixed_add rank le is_nan
stop_timeout-Passes h more m =
    rw (late (length (more ++ h)) (long h more m)) (go (ltb (length h) 40))
  where
    go : (b : Bool) → le (fixed_add (time_at b) stop_timeout) (time_at false) ≡ true
    go true = refl
    go false = refl

duration_s-Passes : Passes world 40 (duration_s trial)
unfolding fixed_add rank le is_nan duration_s fixed_div
duration_s-Passes h more m = rw (late (length (more ++ h)) (long h more m)) (go (ltb (length h) 40))
  where
    go : (b : Bool) → le (fixed_add (time_at b) (duration_s trial)) (time_at false) ≡ true
    go true = refl
    go false = refl

run_trial-disarms_example :
    let (outcome, s) = run_trial flat world trial true 41 initial in
    (outcome ≢ running) × (IsDisarmed s.calls) × (AllAllowed trial s.calls)
run_trial-disarms_example =
    run_trial-disarms world flat stop_timeout-Passes trial true duration_s-Passes 39 (omega arith)

validate_parameters-IsUnclamped_example : IsMode base true × IsUnclamped base trial
unfolding validate_parameters expected check_expected check_numeric check_limits require number_at
    isfinite lt le feq fmin is_nan rank velocity fixed_mul fixed_div
validate_parameters-IsUnclamped_example = validate_parameters-IsUnclamped base trial true refl

abbrev still_here : Displacement
still_here = record { along_m = one; cross_m = nought; net_distance_m = one; yaw_rad = nought }

abbrev stored : Stored
stored = record {
  schema = some 1;
  completed = true;
  mode = some "hardware";
  distance_m = one;
  odom = still_here;
}

abbrev comparison : Comparison
comparison = compared stored one one

run_ends : (run_trial flat world trial true 12 initial).0 ≡ value tt
unfolding run_trial initial body call request write demand read_clock check_sample modify reads
    finally_with stationary watch is_stationary slide cleanup validate_parameters expected
    check_expected check_numeric check_limits require number_at isfinite lt le feq fmin is_nan rank
    velocity fixed_mul fixed_div fixed_add fixed_sub displacement
run_ends = refl

run_trial-IsConfirmed_example :
    let report = (run_trial flat world trial true 12 initial).1.report in
    (report.completed ≡ false)
    ⊎ ((report.torque_off ≡ some true) × IsGuarded flat world trial true report)
run_trial-IsConfirmed_example = run_trial-IsConfirmed flat world trial true 12 run_ends

-- Two messages of a robot at rest, a fraction of a second apart.
abbrev odometry : ℕ → Message
odometry nanosec = record {
  px = nought;
  py = nought;
  pz = nought;
  qx = nought;
  qy = nought;
  qz = nought;
  qw = one;
  vx = nought;
  vy = nought;
  wz = nought;
  sec = 1;
  nanosec = nanosec;
  frame_id = "odom";
  child_frame_id = "base_link";
}

abbrev events : List Event
events =
    arrived 1000000200 nought (odometry 200)
    ∷ answered ("odom", "base_link")
    ∷ arrived 1000000100 nought (odometry 100)
    ∷ []

both-kept : length (receive flat events).samples ≡ 2
unfolding receive on_odom check_message check_step sample_of all_finite require displacement
    isfinite lt le is_nan rank fabs neg fixed_add fixed_sub fixed_mul
both-kept = refl

receive-IsSteady_example : IsSteady flat (receive flat events).samples
receive-IsSteady_example = receive-IsSteady flat events
