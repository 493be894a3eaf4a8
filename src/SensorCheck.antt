-- ===== src/SensorCheck.antt =====
-- lekiwi-sensor-check/check_sensors.py: the check of the IMU and the lidar of a robot without ROS.
pub mod Record
mod Tests
pub mod Imu
pub mod Lidar
pub mod Device
pub mod Probe
pub mod Preflight
pub mod Main
pub mod Clean
pub mod Passed
pub mod Verdict
pub mod Outcomes
pub mod Unreported
pub mod Exit
use lekiwi.Prelude.{
  ℕ, zero, Bool, true, false, not, ◌&&◌, Option, none, some, String, List, [], ◌∷◌, map,
  if◌then◌else◌,
}
use lekiwi.Float.{Num}
use lekiwi.SensorCheck.Record.{
  ℤ, pos, Json, text, Fields, get, is_true, has_type, filter, some_of, last, there_with,
}

pub data Status : Type 0 where
  passed failed : Status

-- A value of the dictionary `metrics`.
pub data Metric : Type 0 where
  count : ℕ → Metric
  scalar : Num → Metric
  vector : List Num → Metric
  identity : Option Fields → Metric

-- The dictionary that `result` returns, with the entry `device` that `main` adds.
pub record Outcome : Type 0 where
  pub status : Status
  pub checks : List (String × Bool)
  pub metrics : List (String × Metric)
  pub errors : List Json
  pub device : Option String

-- `all(checks.values())`
unfoldable pub all_true : List (String × Bool) → Bool
all_true [] = true
all_true ((name, ok) ∷ checks) = ok && all_true checks

unfoldable pub result : List (String × Bool) → List (String × Metric) → List Json → Outcome
result checks metrics errors = record {
  status = if all_true checks then passed else failed;
  checks = checks;
  metrics = metrics;
  errors = errors;
  device = none;
}

-- `returncode == 0`
abbrev pub is_zero : ℤ → Bool
is_zero (pos zero) = true
is_zero _ = false

unfoldable pub native_checks : List Fields → ℤ → List (String × Bool)
native_checks records returncode =
    ("native_exit_ok", is_zero returncode)
    ∷ (
      "cleanup_completed",
      there_with (λ r. is_true (get "ok" r)) (last (filter (has_type "cleanup") records)),
    )
    ∷ ("no_native_errors", not (some_of (has_type "error") records))
    ∷ []

-- `r.get("message", text)`
abbrev pub or_text : String → Option Json → Json
or_text t none = text t
or_text t (some v) = v

-- `[r.get("message", t) for r in records if r.get("type") == "error"]`
unfoldable pub error_messages : String → List Fields → List Json
error_messages t records =
    map (λ r. or_text t (get "message" r)) (filter (has_type "error") records)
