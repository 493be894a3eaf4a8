-- ===== src/SensorCheck/Tests.antt =====
-- An IMU and a lidar that pass, and a whole check of the IMU.
use lekiwi.Prelude.{◌≡◌, refl, ℕ, zero, suc, true, none, some, List, [], ◌∷◌, map}
use lekiwi.Float.{Num, nought, one, isfinite, le, lt, feq, is_nan, rank, fabs, fmin, fmax}
use lekiwi.Float.Fixed.{fixed, fixed_add, fixed_sub, fixed_mul, fixed_div, fixed_ratio}
use lekiwi.Effect.{Reply, answer}
use lekiwi.Effect.Triple.{Post}
use lekiwi.SensorCheck.{passed, all_true, result, native_checks, error_messages}
use lekiwi.SensorCheck.Record.{
  pos, negsuc, Json, text, whole, real, boolean, array, object, Elements, element, no_element,
  Fields, field, no_field, Statistics, get, has_type, natural_at, every, number, vector, number_at,
  axis_at, filter, some_of, last, distinct, every_next, same_list,
}
use lekiwi.SensorCheck.Imu.{
  evaluate_imu, least, greatest, sample_valid, sample_rate, gaps_of, measured_checks,
  measured_metrics, imu_checks,
}
use lekiwi.SensorCheck.Lidar.{
  evaluate_lidar, sum, scan_valid, scan_checks, scan_metrics, lidar_checks,
}
use lekiwi.SensorCheck.Verdict.{IsGoodImu, IsGoodLidar, evaluate_imu-IsGood, evaluate_lidar-IsGood}
use lekiwi.SensorCheck.Device.{parsed, imu, History, World}
use lekiwi.SensorCheck.Preflight.{IsFree, preflight-IsFree}
use lekiwi.SensorCheck.Device.{preflight}
use lekiwi.SensorCheck.Main.{Arguments}

-- the first of some values, which is the mean where all are the same
abbrev first : List Num → Num
first [] = nought
first (x ∷ xs) = x

-- an arithmetic of still values, in which whole numbers have one place
abbrev still : Num → Statistics
still place = record { to_float = λ _. place; mean = first; pstdev = λ _. nought; hypot = first }

-- 9.5 and 0.0625
abbrev weight : Num
weight = 0x4023000000000000

abbrev sixteenth : Num
sixteenth = 0x3fb0000000000000

abbrev cleanup_record : Fields
cleanup_record = field "type" (text "cleanup") (field "ok" (boolean true) no_field)

abbrev imu_info : Fields
imu_info =
    field "type" (text "imu_info")
      (field "chip_id" (whole (pos 0xd1)) (field "address" (whole (pos 0x69)) no_field))

abbrev triple_of : Num → Json
triple_of x = array (element (real x) (element (real nought) (element (real nought) no_element)))

abbrev raw_of : ℕ → Json
raw_of n = array (
    element (whole (pos n)) (
      element (whole (negsuc 7)) (
        element (whole (pos 0)) (
          element (whole (pos 0)) (element (whole (pos 0)) (element (whole (pos 0)) no_element))))))

abbrev imu_sample : Num → ℕ → ℕ → Fields
imu_sample t n raw = field "type" (text "imu_sample") (
    field "t" (real t) (
      field "acc" (triple_of weight) (
        field "gyro" (triple_of nought)
          (field "sensor_time" (whole (pos n)) (field "raw" (raw_of raw) no_field)))))

abbrev imu_records : List Fields
imu_records =
    imu_info ∷ imu_sample nought 16777215 1 ∷ imu_sample sixteenth 3 2 ∷ cleanup_record ∷ []

-- the place that makes a rate within the limits
abbrev imu_place : Num
imu_place = 0x401797e5f97e5f98

imu-passed : (evaluate_imu (still imu_place) imu_records (pos 0) nought).status ≡ passed
unfolding evaluate_imu least greatest sample_valid sample_rate gaps_of measured_checks
    measured_metrics imu_checks get has_type natural_at every number vector number_at axis_at filter
    some_of last distinct every_next same_list all_true result native_checks error_messages isfinite
    le lt is_nan rank fabs fmin fmax feq fixed_add fixed_sub fixed_mul fixed_div
imu-passed = refl

evaluate_imu_example :
    IsGoodImu (still imu_place) imu_records (pos 0) nought
    × ((evaluate_imu (still imu_place) imu_records (pos 0) nought).errors ≡ [])
evaluate_imu_example = evaluate_imu-IsGood (still imu_place) imu_records (pos 0) nought imu-passed

abbrev lidar_info : Fields
lidar_info = field "type" (text "lidar_info") (field "model_code" (whole (pos 151)) no_field)

-- `n` points straight ahead
abbrev points : ℕ → Num → Elements
points zero distance = no_element
points (suc n) distance =
    element (array (element (real nought) (element (real distance) no_element))) (points n distance)

abbrev lidar_scan : Num → ℕ → Num → Fields
lidar_scan t stamp distance = field "type" (text "lidar_scan") (
    field "t" (real t) (
      field "stamp_ns" (whole (pos stamp)) (
        field "points" (whole (pos 30))
          (field "valid" (whole (pos 30)) (field "ranges" (array (points 30 distance)) no_field)))))

abbrev lidar_records : List Fields
lidar_records =
    lidar_info ∷ lidar_scan nought 7 one ∷ lidar_scan sixteenth 8 weight ∷ cleanup_record ∷ []

abbrev lidar_place : Num
lidar_place = 0x3fe3cbf2fcbf2fcc

lidar-passed : (evaluate_lidar (still lidar_place) lidar_records (pos 0) nought).status ≡ passed
unfolding evaluate_lidar sum scan_valid scan_checks scan_metrics lidar_checks sample_rate get
    has_type natural_at every number number_at axis_at filter some_of last distinct every_next
    same_list all_true result native_checks error_messages isfinite le lt is_nan rank fabs fmin fmax
    feq fixed_add fixed_sub fixed_mul fixed_div fixed_ratio
lidar-passed = refl

evaluate_lidar_example :
    IsGoodLidar (still lidar_place) lidar_records (pos 0) nought
    × ((evaluate_lidar (still lidar_place) lidar_records (pos 0) nought).errors ≡ [])
evaluate_lidar_example =
    evaluate_lidar-IsGood (still lidar_place) lidar_records (pos 0) nought lidar-passed

-- A world in which every call succeeds: the IMU's device is free and its probe prints good records.
abbrev done : History → Reply (Unit {0})
done _ = answer tt

abbrev in_order : World
in_order = record {
  on_resolve = λ _. answer ("/dev/i2c-1", "i2c-1");
  on_nodes = λ _. answer [];
  on_read_text = λ _. answer "";
  on_glob = λ _. answer [];
  on_exists = λ _. answer true;
  on_is_char_device = λ _. answer true;
  on_access = λ _. answer true;
  on_which = λ _. answer (some "/usr/bin/fuser");
  on_fuser = λ _. answer (pos 1, "");
  on_spawn = done;
  on_communicate = λ _. answer (map (λ r. parsed (object r)) imu_records);
  on_poll = λ _. answer true;
  on_signal = done;
  on_return_code = λ _. answer (pos 0);
  on_write = done;
  on_flock = done;
  on_validate = done;
  on_make_dir = done;
}

abbrev imu_only : Arguments
imu_only = record {
  duration = 0x4008000000000000;
  duration_text = "3.0";
  imu_device = "/dev/i2c-1";
  imu_address = "auto";
  lidar_port = none;
  only = some imu;
}

preflight_example :
    Post {S = History}
      (λ (_ : Unit {0}). IsFree in_order "/dev/i2c-1" [])
      (λ _. Unit {0})
      (preflight in_order "/dev/i2c-1" [])
preflight_example = preflight-IsFree in_order "/dev/i2c-1" []
