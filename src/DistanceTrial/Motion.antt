-- ===== src/DistanceTrial/Motion.antt =====
-- The publishing loop of `run_trial`, and the whole of it.
use lekiwi.Prelude.{
  ℕ, zero, suc, Bool, true, false, not, ◌&&◌, Option, none, some, [], ◌∷◌, ◌++◌, if◌then◌else◌,
}
use lekiwi.Float.{Num, nought, one, le, lt, fabs, fmin, fmax}
use lekiwi.Float.Fpu.{Fpu}
use lekiwi.Effect.{
  Exn, Kind, keyboard_interrupt, is_exception, M, pure, ◌>>=◌, ◌>>◌, out_of_fuel, finally_with,
  catch_kind,
}
use lekiwi.Effect.State.{modify, reads}
use lekiwi.DistanceTrial.{
  Parameters, Trial, Sample, Displacement, Trig, duration_s, velocity, displacement, within_travel,
  within_drift, validate_parameters, period, max_gap, half,
}
use lekiwi.DistanceTrial.Endpoint.{
  Report, get_parameters, spin, publish, arm, stop_and_disarm, World, State, call, write, demand,
  none_or_raise, read_clock, check_sample,
}
use lekiwi.DistanceTrial.Run.{stationary, Timing, two}

abbrev tenth : Num
tenth = 0x3fb999999999999a

-- `except (Exception, KeyboardInterrupt)`
abbrev pub is_reported : Kind → Bool
is_reported keyboard_interrupt = true
is_reported k = is_exception k

module _ ⦃u : Fpu⦄ (g : Trig) (w : World) (t : Trial) (mock : Bool) where
  -- The guard of the publishing loop
  abbrev pub guard : Displacement → M State (Unit {0})
  guard d = do
    demand (within_travel t d) "Odometry exceeded the travel guard"
    demand (within_drift d) "Excessive sideways or angular odometry drift"

  -- The gap since the last command
  unfoldable pub check_gap : Num → Option Timing → M State (Unit {0})
  check_gap now none = pure tt
  check_gap now (some timing) = do
    write
        (λ r. record r { max_publish_gap = fmax r.max_publish_gap (u.sub now timing.last_publish) })
    demand (le (u.sub now timing.last_publish) max_gap) "Command publishing stalled"

  -- The command was sent at the time.
  abbrev pub timed : Num → Option Timing → Timing
  timed sent none = record {
    started = sent;
    deadline = u.add sent (duration_s t);
    last_publish = sent;
  }
  timed sent (some timing) = record timing { last_publish = sent }

  abbrev pub note_start : Num → Option Timing → M State (Unit {0})
  note_start sent none = write (λ r. record r { command_started = some sent })
  note_start sent (some timing) = pure tt

  abbrev pub slice : Timing → Num → M State (Unit {0})
  slice timing now = call w.on_spin (spin (fmin period (fmax nought (u.sub timing.deadline now))))

  abbrev pub send_at : (Option Timing → M State Timing) → Option Timing → Num → M State Timing
  send_at rest timing sent = do
    call w.on_publish (publish (velocity t))
    note_start sent timing
    read_clock w >>= slice (timed sent timing)
    rest (some (timed sent timing))

  abbrev pub send : (Option Timing → M State Timing) → Option Timing → M State Timing
  send rest timing = read_clock w >>= send_at rest timing

  -- A command is not sent late, after slow checks.
  abbrev pub unless_late : M State Timing → Timing → Num → M State Timing
  unless_late go timing now = if le timing.deadline now then pure timing else go

  abbrev pub send_in_time : (Option Timing → M State Timing) → Option Timing → M State Timing
  send_in_time rest none = send rest none
  send_in_time rest (some timing) = read_clock w >>= unless_late (send rest (some timing)) timing

  abbrev pub guarded :
      (Option Timing → M State Timing) → Sample → Option Timing → Sample → M State Timing
  guarded rest start timing current = do
    guard (displacement g start current t.direction)
    send_in_time rest timing

  abbrev pub round_at :
      (Option Timing → M State Timing) → Sample → Option Timing → Num → M State Timing
  round_at rest start timing now = do
    check_gap now timing
    check_sample w now (not mock) >>= guarded rest start timing

  abbrev pub round : (Option Timing → M State Timing) → Sample → Option Timing → M State Timing
  round rest start timing = read_clock w >>= round_at rest start timing

  abbrev pub unless_over : M State Timing → Timing → Num → M State Timing
  unless_over go timing now = if lt now timing.deadline then go else pure timing

  -- `while deadline is None or clock() < deadline`
  abbrev pub round_if : (Option Timing → M State Timing) → Sample → Option Timing → M State Timing
  round_if rest start none = round rest start none
  round_if rest start (some timing) =
      read_clock w >>= unless_over (round rest start (some timing)) timing

  -- The publishing loop, on fuel
  unfoldable pub drive : ℕ → Sample → Option Timing → M State Timing
  drive zero start timing = out_of_fuel
  drive (suc fuel) start timing = round_if (drive fuel start) start timing

  -- The report's entries of a trial that passed its guards
  abbrev pub completing : Displacement → Report → Report
  completing d r = record r {
    odom_minus_requested = some (u.sub d.along_m t.distance_m);
    stop_window_passed = true;
    completed = true;
  }

  abbrev pub note_odom : Sample → Displacement → M State (Unit {0})
  note_odom end_ d = do
    write (λ r. record r { end_ = some end_; odom = some d })
    demand (within_travel t d && within_drift d) "Stopping tail exceeded the travel guard"
    write (completing d)

  abbrev pub conclude : Sample → Sample → M State (Unit {0})
  conclude start end_ = note_odom end_ (displacement g start end_ t.direction)

  abbrev pub halt_at : ℕ → Sample → Timing → Num → M State (Unit {0})
  halt_at fuel start timing ended = do
    call w.on_publish (publish (nought, nought))
    write (λ r. record r {
      command_ended = some ended;
      command_duration = some (u.sub ended timing.started);
      command_integral = some (u.mul t.speed_mps (u.sub ended timing.started));
    })
    demand (le (fabs (u.sub ended timing.deadline)) tenth)
        "Motion duration exceeded timing tolerance"
    stationary g w fuel two (not mock) >>= conclude start

  abbrev pub halt : ℕ → Sample → Timing → M State (Unit {0})
  halt fuel start timing = read_clock w >>= halt_at fuel start timing

  abbrev pub translate : ℕ → Sample → M State (Unit {0})
  translate fuel start = do
    write (λ r. record r { start = some start; max_publish_gap = nought })
    drive fuel start none >>= halt fuel start

  abbrev pub arm_unless : Bool → M State (Unit {0})
  arm_unless true = pure tt
  arm_unless false = call w.on_arm arm

  -- What a run does once it owns the motion
  abbrev pub move : ℕ → M State (Unit {0})
  move fuel = do
    stationary g w fuel one false
    arm_unless mock
    stationary g w fuel one (not mock) >>= translate fuel

  abbrev pub take_over : ℕ → Sample → M State (Unit {0})
  take_over fuel sample = do modify (λ s. record s { owns_motion = true }); move fuel

  abbrev pub discover : ℕ → Num → M State (Unit {0})
  discover fuel now = check_sample w now false >>= take_over fuel

  abbrev pub with_parameters : ℕ → Parameters → M State (Unit {0})
  with_parameters fuel p = do
    write (λ r. record r { parameters = some p })
    none_or_raise (validate_parameters p t mock)
    call w.on_spin (spin half)
    read_clock w >>= discover fuel

  -- The `try` block of `run_trial`
  unfoldable pub body : ℕ → M State (Unit {0})
  body fuel = call w.on_parameters get_parameters >>= with_parameters fuel

  abbrev pub failed : Exn → M State (Unit {0})
  failed e = write (λ r. record r { completed = false; errors = r.errors ++ e ∷ [] })

  abbrev pub stop_failed : Exn → M State (Unit {0})
  stop_failed e =
      write
        (λ r. record r { completed = false; torque_off = some false; errors = r.errors ++ e ∷ [] })

  abbrev pub stop_if : Bool → M State (Unit {0})
  stop_if false = pure tt
  stop_if true =
      catch_kind is_reported
        (do call w.on_stop stop_and_disarm; write (λ r. record r { torque_off = some true }))
        (stop_failed)

  -- The `finally` block
  unfoldable pub cleanup : Option Exn → M State (Option Exn)
  cleanup e = do
    reads λ s. stop_if s.owns_motion
    reads λ s. write (λ r. record r { samples = w.samples s.calls })
    pure e

  unfoldable pub run_trial : ℕ → M State (Unit {0})
  run_trial fuel = finally_with (catch_kind is_reported (body fuel) (failed)) cleanup

-- The report as `run_trial` begins it, before any call
unfoldable pub initial : State
initial = record {
  owns_motion = false;
  report = record {
    parameters = none;
    start = none;
    max_publish_gap = nought;
    command_started = none;
    command_ended = none;
    command_duration = none;
    command_integral = none;
    end_ = none;
    odom = none;
    odom_minus_requested = none;
    stop_window_passed = false;
    completed = false;
    torque_off = none;
    errors = [];
    samples = [];
  };
  calls = [];
}
