-- ===== src/SensorCheck/Main.antt =====
-- `main`: the sensors one after the other, the report and the exit code.
use lekiwi.Prelude.{
  ℕ, Bool, true, false, not, ◌&&◌, ◌||◌, Option, none, some, String, List, [], ◌∷◌, ◌++◌, ◌⊎◌, inl,
  inr, if◌then◌else◌,
}
use lekiwi.Float.{Num, isfinite, le}
use lekiwi.Float.Fpu.{Fpu}
use lekiwi.Effect.{
  Exn, Kind, runtime_failure, timeout_expired, other_base_exception, is_os, is_runtime,
  is_keyboard_interrupt, M, pure, raise, ◌>>=◌, ◌>>◌, catch, catch_kind, when, runtime_error, ask,
  blocking_io_error,
}
use lekiwi.SensorCheck.{Status, passed, failed, Outcome, result}
use lekiwi.SensorCheck.Record.{text, Statistics, all_valid}
use lekiwi.SensorCheck.Device.{
  Call, open_lock, flock, make_report_dir, Sensor, imu, lidar, History, World, select_lidar_port,
  preflight,
}
use lekiwi.SensorCheck.Device
use lekiwi.SensorCheck.Probe.{Measured, run_probe}
use lekiwi.SensorCheck.Imu.{evaluate_imu, sample_valid, samples_of}
use lekiwi.SensorCheck.Lidar.{evaluate_lidar, scan_valid, scans_of}

-- The arguments that `main` uses, and the texts of `--duration`'s value and of `--imu-address`.
pub record Arguments : Type 0 where
  pub duration : Num
  pub duration_text : String
  pub imu_device : String
  pub imu_address : String
  pub lidar_port : Option String
  pub only : Option Sensor

-- 3.0, 60.0 and 25.0
abbrev min_duration : Num
min_duration = 0x4008000000000000

abbrev max_duration : Num
max_duration = 0x404e000000000000

abbrev pub margin : Num
margin = 0x4039000000000000

abbrev pub duration_valid : Num → Bool
duration_valid d = isfinite d && (le min_duration d && le d max_duration)

-- `sensors`
abbrev pub sensors_of : Option Sensor → List Sensor
sensors_of (some sensor) = sensor ∷ []
sensors_of none = imu ∷ lidar ∷ []

-- `command`
abbrev pub command_of : Arguments → Sensor → String → List String
command_of args imu device =
    "imu_probe" ∷ "--device" ∷ device ∷ "--address" ∷ args.imu_address ∷ "--duration"
    ∷ args.duration_text ∷ []
command_of args lidar device =
    "lidar_probe" ∷ "--port" ∷ device ∷ "--duration" ∷ args.duration_text ∷ []

-- `except (OSError, RuntimeError, subprocess.TimeoutExpired)`
abbrev pub is_expected : Kind → Bool
is_expected runtime_failure = true
is_expected timeout_expired = true
is_expected k = is_os k

-- The outcome of a sensor that was not measured, and of one that was interrupted
abbrev pub not_executed : String → Outcome
not_executed message = result (("preflight_or_execution", false) ∷ []) [] (text message ∷ [])

abbrev pub interrupted_outcome : Outcome
interrupted_outcome = result (("not_interrupted", false) ∷ []) [] (text "사용자가 검사를 중단했습니다" ∷ [])

-- The handlers of a sensor: its outcome, and `aborted` after it
abbrev pub handle : Bool → Exn → Kind → M History (Outcome × Bool)
handle aborted e k =
    if is_keyboard_interrupt k
    then pure (interrupted_outcome, true)
    else if is_expected k
    then pure (not_executed e.message, aborted)
    else raise e

-- `all(r["status"] == "PASS" for r in report["sensors"].values())`
abbrev pub is_passed : Status → Bool
is_passed passed = true
is_passed failed = false

unfoldable pub all_passed : List (Sensor × Outcome) → Bool
all_passed [] = true
all_passed ((sensor, outcome) ∷ rest) = is_passed outcome.status && all_passed rest

-- `130 if aborted else (0 if report["status"] == "PASS" else 1)`
abbrev pub exit_code : Bool → Bool → ℕ
exit_code aborted ok = if aborted then 130 else (if ok then 0 else 1)

-- `except BlockingIOError`
abbrev pub is_blocking : Kind → Bool
is_blocking blocking_io_error = true
is_blocking _ = false

module _ (st : Statistics) ⦃u : Fpu⦄ where
  -- `evaluate(records, code, args.duration)` with the device added
  unfoldable pub evaluate : Sensor → String → Num → Measured → Outcome
  evaluate imu device duration m = record (evaluate_imu st m.records m.returncode duration) {
    device = some device;
  }
  evaluate lidar device duration m = record (evaluate_lidar st m.records m.returncode duration) {
    device = some device;
  }

  -- `sample_format` or `scan_format` of the outcome's checks
  abbrev pub format_valid : Sensor → Num → Measured → Bool
  format_valid imu duration m = all_valid (sample_valid st duration) (samples_of m.records)
  format_valid lidar duration m = all_valid (scan_valid st duration) (scans_of m.records)

  module _ (w : World) (args : Arguments) where
    abbrev pub device_of : Sensor → M History String
    device_of imu = pure args.imu_device
    device_of lidar = select_lidar_port w args.lidar_port

    abbrev pub measure_on : Sensor → String → M History (String × Measured)
    measure_on sensor device = do
      preflight w device
      m ← run_probe w sensor (command_of args sensor device) (u.add args.duration margin)
      pure (device, m)

    -- The `try` block up to the end of the measurement
    abbrev pub measure : Bool → Sensor → M History (String × Measured)
    measure aborted sensor =
        if aborted
        then raise (runtime_error "중단되어 실행하지 않았습니다")
        else do device ← device_of sensor; measure_on sensor device

    -- The rest of the `try` block
    abbrev pub record_samples : Sensor → String → Measured → M History Outcome
    record_samples sensor device m = do
      when (format_valid sensor args.duration m) (ask w.on_write (Device.write_samples sensor))
      pure (evaluate sensor device args.duration m)

    -- After the measurement `aborted` is what the handlers of the rest see.
    abbrev pub settle :
        Bool → Sensor → (Outcome × Bool) ⊎ (String × Measured) → M History (Outcome × Bool)
    settle aborted sensor (inl handled) = pure handled
    settle aborted sensor (inr (device, m)) =
        catch
          (do outcome ← record_samples sensor device m; pure (outcome, aborted || m.interrupted))
          (λ e. handle (aborted || m.interrupted) e e.kind)

    abbrev pub try_measure : Bool → Sensor → M History ((Outcome × Bool) ⊎ (String × Measured))
    try_measure aborted sensor =
        catch (do x ← measure aborted sensor; pure (inr x))
          (λ e. do handled ← handle aborted e e.kind; pure (inl handled))

    unfoldable pub check_sensor : Bool → Sensor → M History (Outcome × Bool)
    check_sensor aborted sensor = do r ← try_measure aborted sensor; settle aborted sensor r

    -- The loop over the sensors, with the outcomes so far
    unfoldable pub check_all :
        List Sensor → Bool → List (Sensor × Outcome) → M History (List (Sensor × Outcome) × Bool)
    check_all [] aborted outcomes = pure (outcomes, aborted)
    check_all (sensor ∷ sensors) aborted outcomes = do
      r ← check_sensor aborted sensor
      check_all sensors r.1 (outcomes ++ (sensor, r.0) ∷ [])

    abbrev pub write_report : List (Sensor × Outcome) × Bool → M History ℕ
    write_report (outcomes, aborted) = do
      ask w.on_write (Device.write_report aborted (not aborted && all_passed outcomes) outcomes)
      pure (exit_code aborted (not aborted && all_passed outcomes))

    -- `main` from the two locks on
    abbrev pub run : M History ℕ
    run = do
      ask w.on_make_dir make_report_dir
      r ← check_all (sensors_of args.only) false []
      write_report r

    abbrev pub unless_locked : Bool → M History ℕ → M History ℕ
    unless_locked true m = m
    unless_locked false m = pure 2

    abbrev pub validated : M History Bool
    validated =
        catch_kind is_runtime
          (do ask w.on_validate (Device.validate_probes (sensors_of args.only)); pure true)
          (λ _. pure false)

    abbrev pub locked : M History Bool
    locked = catch_kind is_blocking (do ask w.on_flock flock; pure true) (λ _. pure false)

    abbrev pub run_valid : M History ℕ
    run_valid = do ok ← validated; unless_locked ok run

    abbrev pub usage_error : Exn
    usage_error = record { kind = other_base_exception; message = "--duration"; notes = [] }

    unfoldable pub main : M History ℕ
    main =
        if not (duration_valid args.duration)
        then raise usage_error
        else do ask w.on_write open_lock; ok ← locked; unless_locked ok run_valid

    -- The program: `except OSError` around `main`
    unfoldable pub program : M History ℕ
    program = catch_kind is_os main (λ _. pure 2)
