-- ===== src/SensorCheck/Unreported.antt =====
-- The check itself ends, and writes no report before the last call of a run.
use lekiwi.Prelude.{
  zero, suc, str_eq, ◌≡◌, ℕ, refl, Bool, true, false, not, ◌||◌, Option, none, some, String, List,
  [], ◌∷◌, ◌++◌, ◌⊎◌, inl, inr,
}
use lekiwi.Float.{Num}
use lekiwi.Float.Fpu.{Fpu}
use lekiwi.Effect.{
  Exn, Kind, keyboard_interrupt, exception, runtime_failure, process_lookup_error,
  file_not_found_error, blocking_io_error, timeout_expired, os_error, value_error,
  other_base_exception, is_keyboard_interrupt, is_runtime, M, Reply, ask, pure, raise, ◌>>=◌,
  catch_kind, when,
}
use lekiwi.Effect.Sure.{
  Sure, Sure-ask, Sure-pure, Sure-raise, Sure-if, Sure-bind, Sure-catch, Sure-catch_kind,
}
use lekiwi.SensorCheck.{Outcome}
use lekiwi.SensorCheck.Record.{pos, ℤ, negsuc, Statistics}
use lekiwi.SensorCheck.Device.{
  Call, open_lock, flock, make_report_dir, write_report, History, World, Sensor, imu, lidar,
  read_identity, usb_identity, add_port, find_ports, or_tty, only_port, select_lidar_port,
  judge_fuser, check_free, preflight, is_not_found, is_given,
}
use lekiwi.SensorCheck.Probe.{Measured, stop_probe, stop_after, code_of, run_probe, is_timeout}
use lekiwi.SensorCheck.Main
use lekiwi.SensorCheck.Main.{
  Arguments, margin, command_of, is_expected, handle, evaluate, device_of, measure_on, measure,
  record_samples, settle, try_measure, check_sensor, check_all, is_blocking, unless_locked, main,
  duration_valid, sensors_of,
}

-- A call that writes the report
abbrev writes_report : Call → Bool
writes_report (write_report aborted ok outcomes) = true
writes_report _ = false

-- No call wrote the report.
abbrev pub IsUnreported : History → Type 0
IsUnreported [] = Unit
IsUnreported (c ∷ h) = (writes_report c ≡ false) × IsUnreported h

-- No call but the last wrote the report.
abbrev pub IsLast : History → Type 0
IsLast [] = Unit
IsLast (c ∷ h) = IsUnreported h

Unreported-IsLast : (h : History) → IsUnreported h → IsLast h
Unreported-IsLast [] p = tt
Unreported-IsLast (c ∷ h) p = p.1

-- It ends, and writes no report.
abbrev pub Silent : {A : Type 0} → M History A → Type 0
Silent m = Sure IsUnreported m IsUnreported

asks :
    {A : Type 0} (reply : History → Reply A) (c : Call)
    → writes_report c ≡ false
    → Silent (ask reply c)
asks reply c e = Sure-ask reply c (λ h p. (e, p))

gives : {A : Type 0} {a : A} → Silent (pure a)
gives = Sure-pure (λ h p. p)

raises : {A : Type 0} {e : Exn} → Silent {A = A} (raise e)
raises = Sure-raise (λ h p. p)

chain :
    {A B : Type 0} {m : M History A} {f : A → M History B}
    → Silent m
    → ((a : A) → Silent (f a))
    → Silent (m >>= f)
chain h k = Sure-bind h k (λ s p. p)

handles :
    {A : Type 0} (takes : Kind → Bool) {m : M History A} {handler : Exn → M History A}
    → Silent m
    → ((e : Exn) → Silent (handler e))
    → Silent (catch_kind takes m handler)
handles takes h k = Sure-catch_kind takes h k (λ s p. p)

when-Silent : (b : Bool) {m : M History (Unit {0})} → Silent m → Silent (when b m)
when-Silent true h = h
when-Silent false h = gives

module _ (w : World) where
  read_identity-Silent : (nodes : List String) → Silent (read_identity w nodes)
  unfolding read_identity
  read_identity-Silent [] = gives
  read_identity-Silent (node ∷ nodes) =
      handles is_not_found
        (chain (asks w.on_read_text _ refl)
          (λ vendor. chain (asks w.on_read_text _ refl) (λ product. gives)))
        (λ _. read_identity-Silent nodes)

  add_port-Silent :
      (path : String) (found : List (String × String)) (o : Option (String × String))
      → Silent (add_port w path found o)
  unfolding usb_identity
  add_port-Silent path found none = gives
  add_port-Silent path found (some (resolved, name)) =
      Sure-if _ (chain (chain (asks w.on_nodes _ refl) read_identity-Silent) (λ identity. gives))
        gives

  find_ports-Silent :
      (paths : List String) (found : List (String × String)) → Silent (find_ports w paths found)
  unfolding find_ports
  find_ports-Silent [] found = gives
  find_ports-Silent (path ∷ paths) found =
      chain (handles is_not_found (chain (asks w.on_resolve _ refl) (λ r. gives)) (λ _. gives))
        (λ o. chain (add_port-Silent path found o) (find_ports-Silent paths))

  or_tty-Silent : (paths : List String) → Silent (or_tty w paths)
  or_tty-Silent [] = asks w.on_glob _ refl
  or_tty-Silent (path ∷ paths) = gives

  only_port-Silent : (found : List (String × String)) → Silent (only_port found)
  only_port-Silent [] = raises
  only_port-Silent ((key, path) ∷ []) = gives
  only_port-Silent (a ∷ b ∷ found) = raises

  select_lidar_port-Silent : (requested : Option String) → Silent (select_lidar_port w requested)
  unfolding select_lidar_port
  select_lidar_port-Silent requested =
      chain (Sure-if (is_given requested) gives (chain (asks w.on_glob _ refl) or_tty-Silent))
        (λ paths. chain (find_ports-Silent paths []) only_port-Silent)

  judge_fuser-Silent : (r : ℤ × String) → Silent (judge_fuser w r)
  judge_fuser-Silent (pos zero, stderr) = raises
  judge_fuser-Silent (pos (suc zero), stderr) = Sure-if (str_eq stderr "") gives raises
  judge_fuser-Silent (pos (suc (suc n)), stderr) = raises
  judge_fuser-Silent (negsuc n, stderr) = raises

  check_free-Silent : (device : String) (o : Option String) → Silent (check_free w device o)
  check_free-Silent device none = raises
  check_free-Silent device (some fuser) =
      chain (asks w.on_resolve _ refl) (λ r. chain (asks w.on_fuser _ refl) judge_fuser-Silent)

  preflight-Silent : (device : String) → Silent (preflight w device)
  unfolding preflight
  preflight-Silent device = chain (asks w.on_exists _ refl) λ found. Sure-if (not found) raises (
      chain (asks w.on_is_char_device _ refl) λ is_device. Sure-if (not is_device) raises (
        chain (asks w.on_access _ refl) λ allowed.
          Sure-if (not allowed) raises (chain (asks w.on_which _ refl) (check_free-Silent device))))

  stop_probe-Silent : Silent (stop_probe w)
  unfolding stop_probe
  stop_probe-Silent = chain (asks w.on_poll _ refl) λ ended.
      chain (when-Silent (not ended) (handles _ (asks w.on_signal _ refl) (λ _. gives))) λ _.
        handles is_timeout (asks w.on_communicate _ refl)
          (λ _. chain (asks w.on_signal _ refl) (λ _. asks w.on_communicate _ refl))

  stop_after-Silent : (e : Exn) (k : Kind) → Silent (stop_after w e k)
  stop_after-Silent e timeout_expired = chain stop_probe-Silent (λ _. gives)
  stop_after-Silent e keyboard_interrupt = chain stop_probe-Silent (λ _. gives)
  stop_after-Silent e exception = raises
  stop_after-Silent e runtime_failure = raises
  stop_after-Silent e process_lookup_error = raises
  stop_after-Silent e file_not_found_error = raises
  stop_after-Silent e blocking_io_error = raises
  stop_after-Silent e os_error = raises
  stop_after-Silent e value_error = raises
  stop_after-Silent e other_base_exception = raises

  code_of-Silent : (o : Option String) → Silent (code_of w o)
  code_of-Silent none = asks w.on_return_code _ refl
  code_of-Silent (some message) = gives

  run_probe-Silent :
      (sensor : Sensor) (command : List String) (timeout : Num)
      → Silent (run_probe w sensor command timeout)
  unfolding run_probe
  run_probe-Silent sensor command timeout = chain (asks w.on_spawn _ refl) λ _.
      chain
        (Sure-catch (chain (asks w.on_communicate _ refl) (λ output. gives))
          (λ e. stop_after-Silent e e.kind) (λ s p. p))
        λ waited. chain (asks w.on_write _ refl) λ _. chain (code_of-Silent _) (λ code. gives)

handle-Silent : (aborted : Bool) (e : Exn) (k : Kind) → Silent (handle aborted e k)
handle-Silent aborted e k =
    Sure-if (is_keyboard_interrupt k) gives (Sure-if (is_expected k) gives raises)

module _ (st : Statistics) ⦃u : Fpu⦄ (w : World) (args : Arguments) where
  device_of-Silent : (sensor : Sensor) → Silent (device_of st w args sensor)
  device_of-Silent imu = gives
  device_of-Silent lidar = select_lidar_port-Silent w args.lidar_port

  measure-Silent : (aborted : Bool) (sensor : Sensor) → Silent (measure st w args aborted sensor)
  measure-Silent aborted sensor = Sure-if aborted raises (
      chain (device_of-Silent sensor) λ device.
        chain (preflight-Silent w device)
          λ _. chain (run_probe-Silent w sensor (command_of args sensor device) _) (λ m. gives))

  settle-Silent :
      (aborted : Bool) (sensor : Sensor) (r : (Outcome × Bool) ⊎ (String × Measured))
      → Silent (settle st w args aborted sensor r)
  settle-Silent aborted sensor (inl handled) = gives
  settle-Silent aborted sensor (inr (device, m)) =
      Sure-catch
        (chain (chain (when-Silent _ (asks w.on_write _ refl)) (λ _. gives)) (λ outcome. gives))
        (λ e. handle-Silent (aborted || m.interrupted) e e.kind) (λ s p. p)

  check_sensor-Silent :
      (aborted : Bool) (sensor : Sensor) → Silent (check_sensor st w args aborted sensor)
  unfolding check_sensor
  check_sensor-Silent aborted sensor =
      chain
        (Sure-catch (chain (measure-Silent aborted sensor) (λ x. gives))
          (λ e. chain (handle-Silent aborted e e.kind) (λ handled. gives)) (λ s p. p))
        (settle-Silent aborted sensor)

  -- The checks of the sensors end, and write no report.
  pub check_all-Silent :
      (sensors : List Sensor) (aborted : Bool) (outcomes : List (Sensor × Outcome))
      → Silent (check_all st w args sensors aborted outcomes)
  unfolding check_all
  check_all-Silent [] aborted outcomes = gives
  check_all-Silent (sensor ∷ sensors) aborted outcomes =
      chain (check_sensor-Silent aborted sensor)
        (λ r. check_all-Silent sensors r.1 (outcomes ++ (sensor, r.0) ∷ []))

  preparing :
      {A : Type 0} {m : M History A}
      → Silent m
      → {B : Type 0} {f : A → M History B} → ((a : A) → Sure IsUnreported (f a) IsLast)
      → Sure IsUnreported (m >>= f) IsLast
  preparing h k = Sure-bind h k Unreported-IsLast

  unless_locked-IsLast :
      (b : Bool) {m : M History ℕ}
      → Sure IsUnreported m IsLast
      → Sure IsUnreported (unless_locked st w args b m) IsLast
  unless_locked-IsLast true h = h
  unless_locked-IsLast false h = Sure-pure Unreported-IsLast

  write_report-IsLast :
      (r : List (Sensor × Outcome) × Bool)
      → Sure IsUnreported (Main.write_report st w args r) IsLast
  write_report-IsLast (outcomes, aborted) =
      Sure-bind {Q = IsLast} (Sure-ask w.on_write _ (λ h p. p)) (λ _. Sure-pure (λ h p. p))
        (λ h p. p)

  -- `main` ends, and only its last call writes the report.
  pub main-IsLast : Sure IsUnreported (main st w args) IsLast
  unfolding main
  main-IsLast = Sure-if (not (duration_valid args.duration)) (Sure-raise Unreported-IsLast) (
      preparing (asks w.on_write open_lock refl) λ _.
        preparing
          (handles is_blocking (chain (asks w.on_flock flock refl) (λ _. gives)) (λ _. gives))
          λ ok. unless_locked-IsLast ok (
            preparing
              (handles is_runtime (chain (asks w.on_validate _ refl) (λ _. gives)) (λ _. gives))
              λ valid. unless_locked-IsLast valid (
                preparing (asks w.on_make_dir make_report_dir refl) λ _.
                  preparing (check_all-Silent (sensors_of args.only) false [])
                    write_report-IsLast)))
