-- ===== src/SensorCheck/Outcomes.antt =====
-- What an outcome of a sensor says of its probe.
use lekiwi.Prelude.{◌≡◌, refl, Bool, ◌||◌, String, ◌⊎◌, inl, inr, arith, false≢true}
use lekiwi.Float.{Num}
use lekiwi.Float.Fpu.{Fpu}
use lekiwi.Effect.{is_keyboard_interrupt, Exn, Kind}
use lekiwi.Effect.Triple.{
  Triple, Triple-bind, Triple-pure, Triple-raise, Triple-if, Triple-any, Triple-given,
  Triple-weaken,
}
use lekiwi.Effect.State.{Triple-catch}
use lekiwi.SensorCheck.{Status, passed, failed, Outcome, result, all_true}
use lekiwi.SensorCheck.Record.{Statistics}
use lekiwi.SensorCheck.Device.{Sensor, imu, lidar, History, World, preflight}
use lekiwi.SensorCheck.Probe.{Measured}
use lekiwi.SensorCheck.Clean.{IsRead, IsComplete, IsSpoiled, run_probe-Read}
use lekiwi.SensorCheck.Passed.{IsClean}
use lekiwi.SensorCheck.Verdict.{evaluate_imu-IsGood, evaluate_lidar-IsGood}
use lekiwi.SensorCheck.Main.{
  Arguments, margin, command_of, is_expected, handle, evaluate, device_of, measure_on, measure,
  settle, try_measure, check_sensor,
}

abbrev pub Anything : History → Type 0
Anything _ = Unit

-- A handled exception leaves a failed outcome.
handle-failed :
    (aborted : Bool) (e : Exn) (k : Kind)
    → Triple Anything (handle aborted e k) (λ r _. r.0.status ≡ failed) Anything
unfolding result all_true
handle-failed aborted e k =
    Triple-if (is_keyboard_interrupt k) (λ _. Triple-pure (λ s p. refl))
      λ _. Triple-if (is_expected k) (λ _. Triple-pure (λ s p. refl)) (λ _. Triple-raise (λ s p. p))

pub Status-cases : (s : Status) → (s ≡ passed) ⊎ (s ≡ failed)
Status-cases passed = inl refl
Status-cases failed = inr refl

spoiled-clean : (m : Measured) → IsSpoiled m → IsClean m.records m.returncode → ⊥
spoiled-clean m spoiled clean = false≢true (ground (arith, spoiled.marked, clean.no_error))

module _ (st : Statistics) ⦃u : Fpu⦄ (w : World) (args : Arguments) where
  abbrev timeout : Num
  timeout = u.add args.duration margin

  -- The outcome is the passed evaluation of a probe that ran with the sensor's command on the device: its output
  -- came before the time limit, no call was interrupted, every line was read, the process exited with
  -- status 0, and it reported its cleanup and no error.
  pub record IsConfirmed (sensor : Sensor) (o : Outcome) : Type 0 where
    pub device : String
    pub m : Measured
    pub evaluated : o ≡ evaluate st sensor device args.duration m
    pub good : o.status ≡ passed
    pub complete : IsComplete w timeout sensor (command_of args sensor device) m
    pub clean : IsClean m.records m.returncode

  abbrev pub IsJudged : Sensor → Outcome → Type 0
  IsJudged sensor o = (o.status ≡ failed) ⊎ IsConfirmed sensor o

  confirmed :
      (sensor : Sensor) (device : String) (m : Measured)
      → IsRead w timeout sensor (command_of args sensor device) m
      → IsClean m.records m.returncode
      → (evaluate st sensor device args.duration m).status ≡ passed
      → IsConfirmed sensor (evaluate st sensor device args.duration m)
  confirmed sensor device m (inl complete) clean good = record {
    device = device;
    m = m;
    evaluated = refl;
    good = good;
    complete = complete;
    clean = clean;
  }
  confirmed sensor device m (inr spoiled) clean good = absurd (spoiled-clean m spoiled clean)

  evaluate-IsClean :
      (sensor : Sensor) (device : String) (m : Measured)
      → (evaluate st sensor device args.duration m).status ≡ passed
      → IsClean m.records m.returncode
  unfolding evaluate
  evaluate-IsClean imu device m h =
      (evaluate_imu-IsGood st m.records m.returncode args.duration h).0.clean
  evaluate-IsClean lidar device m h =
      (evaluate_lidar-IsGood st m.records m.returncode args.duration h).0.clean

  evaluate-IsJudged :
      (sensor : Sensor) (device : String) (m : Measured)
      → IsRead w timeout sensor (command_of args sensor device) m
      → IsJudged sensor (evaluate st sensor device args.duration m)
  evaluate-IsJudged sensor device m read =
      elim (Status-cases (evaluate st sensor device args.duration m).status) [
        | inl h ↦ inr (confirmed sensor device m read (evaluate-IsClean sensor device m h) h)
        | inr h ↦ inl h
      ]

  abbrev Judged : Sensor → Outcome × Bool → History → Type 0
  Judged sensor r _ = IsJudged sensor r.0

  abbrev Tried : Sensor → (Outcome × Bool) ⊎ (String × Measured) → History → Type 0
  Tried sensor (inl handled) _ = handled.0.status ≡ failed
  Tried sensor (inr (device, m)) _ = IsRead w timeout sensor (command_of args sensor device) m

  measure_on-Read :
      (sensor : Sensor) (device : String)
      → Triple Anything
          (measure_on st w args sensor device)
          (λ x _. IsRead w timeout sensor (command_of args sensor x.0) x.1)
          Anything
  measure_on-Read sensor device = Triple-bind (Triple-any (preflight w device)) λ _.
      Triple-bind (run_probe-Read w timeout sensor (command_of args sensor device))
        λ m. Triple-pure (λ s p. p)

  measure-Read :
      (aborted : Bool) (sensor : Sensor)
      → Triple Anything
          (measure st w args aborted sensor)
          (λ x _. IsRead w timeout sensor (command_of args sensor x.0) x.1)
          Anything
  measure-Read aborted sensor =
      Triple-if aborted (λ _. Triple-raise (λ s p. p))
        λ _.
          Triple-bind (Triple-any (device_of st w args sensor))
            λ device. measure_on-Read sensor device

  try_measure-Tried :
      (aborted : Bool) (sensor : Sensor)
      → Triple Anything (try_measure st w args aborted sensor) (Tried sensor) Anything
  try_measure-Tried aborted sensor =
      Triple-catch {I = Anything}
        (Triple-bind (measure-Read aborted sensor) (λ x. Triple-pure (λ s p. p)))
        (λ e. Triple-bind (handle-failed aborted e e.kind) (λ r. Triple-pure (λ s p. p))) (λ s p. p)

  settle-Judged :
      (aborted : Bool) (sensor : Sensor) (r : (Outcome × Bool) ⊎ (String × Measured))
      → Triple (Tried sensor r) (settle st w args aborted sensor r) (Judged sensor) Anything
  settle-Judged aborted sensor (inl handled) = Triple-pure (λ s p. inl p)
  settle-Judged aborted sensor (inr (device, m)) = Triple-given λ read.
      Triple-catch {I = Anything}
        (Triple-bind
          (Triple-bind (Triple-any _) λ _.
            Triple-pure {Q = λ o _. IsJudged sensor o}
              (λ s p. evaluate-IsJudged sensor device m read))
          (λ o. Triple-pure (λ s p. p)))
        (λ e.
          Triple-weaken (handle-failed (aborted || m.interrupted) e e.kind) (λ s p. p)
            (λ r s q. inl q) (λ s p. p))
        (λ s p. p)

  -- Whatever happens, the outcome of a sensor failed or is that of a probe that ran as it should.
  pub check_sensor-Judged :
      (aborted : Bool) (sensor : Sensor)
      → Triple Anything (check_sensor st w args aborted sensor) (Judged sensor) Anything
  unfolding check_sensor
  check_sensor-Judged aborted sensor =
      Triple-bind (try_measure-Tried aborted sensor) (settle-Judged aborted sensor)
