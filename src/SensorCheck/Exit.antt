-- ===== src/SensorCheck/Exit.antt =====
-- The exit status of the whole program, with the report that it wrote.
use lekiwi.Prelude.{Option, none, some, ◌⊎◌, ◌≡◌, ℕ, Bool, true, false, List, [], ◌∷◌, All, map}
use lekiwi.Float.Fpu.{Fpu}
use lekiwi.Effect
use lekiwi.Effect.{is_os}
use lekiwi.Effect.Triple.{Triple}
use lekiwi.SensorCheck.{Outcome, failed}
use lekiwi.SensorCheck.Record.{Statistics}
use lekiwi.SensorCheck.Device.{imu, lidar, Call, Sensor, History, World, make_report_dir}
use lekiwi.SensorCheck.Device
use lekiwi.SensorCheck.Main.{Arguments, write_report}
use lekiwi.SensorCheck.Unreported.{IsLast}
use lekiwi.SensorCheck.Outcomes.{IsConfirmed, IsJudged}

-- `report["sensors"]`'s keys
abbrev pub names : List (Sensor × Outcome) → List Sensor
names outcomes = map (λ x. x.0) outcomes

-- The sensor that was asked for, or both
abbrev pub requested : Option Sensor → List Sensor
requested none = imu ∷ lidar ∷ []
requested (some sensor) = sensor ∷ []

-- A sensor failed.
abbrev pub AnyFailed : List (Sensor × Outcome) → Type 0
AnyFailed [] = ⊥
AnyFailed ((sensor, o) ∷ outcomes) = (o.status ≡ failed) ⊎ AnyFailed outcomes

module _ (st : Statistics) ⦃u : Fpu⦄ (w : World) (args : Arguments) where
  -- An exit status with the calls at the end of which the program has it: 0 comes with a report in which
  -- every requested sensor is confirmed, 1 with one in which a requested sensor failed, and 130 with one
  -- that says that the check was aborted. 2 is for an error of the files or of the preparation.
  pub data IsExit : ℕ → History → Type 0 where
    good :
        (outcomes : List (Sensor × Outcome)) (h : History)
        → All (λ x. IsConfirmed st w args x.0 x.1) outcomes
        → names outcomes ≡ requested args.only
        → IsExit 0 (Device.write_report false true outcomes ∷ h)
    bad :
        (outcomes : List (Sensor × Outcome)) (h : History)
        → AnyFailed outcomes
        → names outcomes ≡ requested args.only
        → IsExit 1 (Device.write_report false false outcomes ∷ h)
    stopped :
        (outcomes : List (Sensor × Outcome)) (h : History)
        → IsExit 130 (Device.write_report true false outcomes ∷ h)
    unchecked : (h : History) → IsExit 2 h

  abbrev JudgedAll : List (Sensor × Outcome) → Type 0
  JudgedAll outcomes = All (λ x. IsJudged st w args x.0 x.1) outcomes

  abbrev Checked : List Sensor → List (Sensor × Outcome) × Bool → History → Type 0
  Checked sensors r _ = JudgedAll r.0 × (names r.0 ≡ sensors)

  -- How the program ends: with an exit status, or with an exception that is no OSError. No call but the
  -- last wrote the report.
  abbrev pub IsEnd : Effect.Outcome ℕ × History → Type 0
  IsEnd (Effect.value status, h) = IsExit status h × IsLast h
  IsEnd (Effect.raised e, h) = (is_os e.kind ≡ false) × IsLast h
  IsEnd (Effect.running, h) = ⊥
