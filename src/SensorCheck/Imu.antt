-- ===== src/SensorCheck/Imu.antt =====
-- `evaluate_imu`: what is asked of the IMU's records.
use lekiwi.Prelude.{
  ℕ, ◌+◌, ◌-◌, ◌%◌, ◌^◌, Bool, true, false, ◌&&◌, Option, none, some, String, List, [], ◌∷◌, ◌++◌,
  map, ltb, ◌==◌, length, if◌then◌else◌,
}
use lekiwi.Float.{Num, nought, le, lt, fabs, fmin, fmax}
use lekiwi.Float.Fpu.{Fpu}
use lekiwi.SensorCheck.{
  Metric, count, scalar, vector, identity, Outcome, result, native_checks, error_messages,
}
use lekiwi.SensorCheck.Record.{
  ℤ, pos, Json, text, Fields, get, has_type, filter, last, there_with, Statistics, number_of,
  number_with, number_at, axis_at, natural, natural_at, natural_with, all_valid, list_of, list_with,
  items_of, is_int16, every, every_next, distinct, same_list, whole, same_int, equals_int,
}
use lekiwi.SensorCheck.Record

-- `LIMITS`
abbrev pub min_imu_rate : Num
min_imu_rate = 0x4057c00000000000

abbrev pub max_imu_rate : Num
max_imu_rate = 0x405a400000000000

abbrev pub min_gravity : Num
min_gravity = 0x4022000000000000

abbrev pub max_gravity : Num
max_gravity = 0x4025333333333333

abbrev pub max_gyro_mean : Num
max_gyro_mean = 0x3fa999999999999a

abbrev pub max_gyro_std : Num
max_gyro_std = 0x3f8eb851eb851eb8

abbrev pub max_accel_std : Num
max_accel_std = 0x3fc999999999999a

abbrev pub max_imu_gap : Num
max_imu_gap = 0x3fb999999999999a

-- 5.0, 90.0 and 0.90
abbrev pub five : Num
five = 0x4014000000000000

abbrev ninety : Num
ninety = 0x4056800000000000

abbrev nine_tenths : Num
nine_tenths = 0x3feccccccccccccd

-- `min(values)` and `max(values)` from a first value on
unfoldable pub least : Num → List Num → Num
least x [] = x
least x (y ∷ ys) = least (fmin x y) ys

unfoldable pub greatest : Num → List Num → Num
greatest x [] = x
greatest x (y ∷ ys) = greatest (fmax x y) ys

-- `bool(gaps) and min(gaps) > 0`, `bool(gaps) and max(gaps) <= bound` and `max(gaps, default=0)`
abbrev pub all_forward : List Num → Bool
all_forward [] = false
all_forward (g ∷ gs) = lt nought (least g gs)

abbrev pub all_short : Num → List Num → Bool
all_short bound [] = false
all_short bound (g ∷ gs) = le (greatest g gs) bound

abbrev pub longest : List Num → Num
longest [] = nought
longest (g ∷ gs) = greatest g gs

-- `max(v for v in values) <= bound`, of values that are some
abbrev pub is_between : Num → Num → Num → Bool
is_between lo hi x = le lo x && le x hi

-- `(b["sensor_time"] - a["sensor_time"]) % 2**24 > 0`, of times below `2**24`
abbrev pub has_ticked : Fields → Fields → Bool
has_ticked a b = ltb 0 ((natural_at "sensor_time" b + 2 ^ 24 - natural_at "sensor_time" a) % 2 ^ 24)

-- `s["raw"]`, of a value that was found to be a list of ints
abbrev pub int_of : Json → ℤ
int_of (whole i) = i
int_of _ = pos 0

abbrev pub raw_of : Fields → List ℤ
raw_of s = map int_of (Record.items_of (list_of (get "raw" s)))

abbrev pub samples_of : List Fields → List Fields
samples_of records = filter (has_type "imu_sample") records

module _ (st : Statistics) where
  -- `[s[key][axis] for s in samples]`
  abbrev pub axis_values : String → List Fields → ℕ → List Num
  axis_values key samples axis = map (λ s. axis_at st key axis s) samples

  -- `[f(s[key][axis] for s in samples) for axis in range(3)]`
  abbrev pub by_axis : (List Num → Num) → String → List Fields → List Num
  by_axis f key samples =
      f (axis_values key samples 0)
      ∷ f (axis_values key samples 1)
      ∷ f (axis_values key samples 2)
      ∷ []

  -- `statistics.mean(math.hypot(*s["acc"]) for s in samples)`
  abbrev pub gravity_of : List Fields → Num
  gravity_of samples = st.mean (
      map (λ s. st.hypot (axis_at st "acc" 0 s ∷ axis_at st "acc" 1 s ∷ axis_at st "acc" 2 s ∷ []))
        samples)

  -- `info[-1].get("chip_id") == 0xd1 and info[-1].get("address") in (0x68, 0x69)`
  abbrev pub is_bmi160 : Fields → Bool
  is_bmi160 info =
      equals_int st 0xd1 (get "chip_id" info)
      && (if equals_int st 0x68 (get "address" info)
          then true
          else equals_int st 0x69 (get "address" info))

  module _ ⦃u : Fpu⦄ where
    -- `number(s.get("t")) and 0 <= s["t"] <= duration + 5`
    abbrev pub in_time : Num → Fields → Bool
    in_time duration s =
        number_with st (is_between nought (u.add duration five)) (number_of st (get "t" s))

    -- The test of a sample in `sample_format`
    unfoldable pub sample_valid : Num → Fields → Bool
    sample_valid duration s =
        in_time duration s
        && (Record.vector st (get "acc" s)
            && (Record.vector st (get "gyro" s)
                && (natural_with (λ n. ltb n (2 ^ 24)) (natural (get "sensor_time" s))
                    && list_with (λ vs. (length vs == 6) && every is_int16 vs)
                        (list_of (get "raw" s)))))

    -- `sample_rate` of samples that begin with the first of two
    abbrev pub rate_between : ℕ → Num → Num → Num
    rate_between n start end_ =
        if le end_ start then nought else u.div (st.to_float (pos n)) (u.sub end_ start)

    abbrev pub time_of : Option Fields → Num
    time_of none = nought
    time_of (some s) = number_at st "t" s

    unfoldable pub sample_rate : List Fields → Num
    sample_rate [] = nought
    sample_rate (s ∷ []) = nought
    sample_rate (s ∷ r ∷ rs) =
        rate_between (length (r ∷ rs)) (number_at st "t" s) (time_of (last (r ∷ rs)))

    -- `times[-1] - times[0]`
    abbrev pub time_span : List Fields → Num
    time_span [] = nought
    time_span (s ∷ ss) = u.sub (time_of (last (s ∷ ss))) (number_at st "t" s)

    -- `[b - a for a, b in zip(times, times[1:])]`
    unfoldable pub gaps_of : List Fields → List Num
    gaps_of [] = []
    gaps_of (a ∷ []) = []
    gaps_of (a ∷ b ∷ rs) = u.sub (number_at st "t" b) (number_at st "t" a) ∷ gaps_of (b ∷ rs)

    -- The checks that `sample_format` opens
    unfoldable pub measured_checks : Num → List Fields → List (String × Bool)
    measured_checks duration samples =
        let gaps = gaps_of samples in
        ("sample_count", le (u.mul duration ninety) (st.to_float (pos (length samples))))
        ∷ ("measurement_duration", le (u.mul duration nine_tenths) (time_span samples))
        ∷ ("rate_hz", is_between min_imu_rate max_imu_rate (sample_rate samples))
        ∷ ("fresh_samples", all_forward gaps && every_next has_ticked samples)
        ∷ ("no_long_gap", all_short max_imu_gap gaps)
        ∷ ("gravity", is_between min_gravity max_gravity (gravity_of samples))
        ∷ ("gyro_raw_bias", all_short max_gyro_mean (map fabs (by_axis st.mean "gyro" samples)))
        ∷ ("stationary_acceleration", all_short max_accel_std (by_axis st.pstdev "acc" samples))
        ∷ ("stationary_gyro", all_short max_gyro_std (by_axis st.pstdev "gyro" samples))
        ∷ ("raw_data_changes", ltb 1 (distinct (same_list same_int) (map raw_of samples)))
        ∷ []

    unfoldable pub measured_metrics : List Fields → List (String × Metric)
    measured_metrics samples =
        ("rate_hz", scalar (sample_rate samples))
        ∷ ("gravity_m_s2", scalar (gravity_of samples))
        ∷ ("acceleration_mean_m_s2", vector (by_axis st.mean "acc" samples))
        ∷ ("gyro_mean_rad_s", vector (by_axis st.mean "gyro" samples))
        ∷ ("acceleration_std_m_s2", vector (by_axis st.pstdev "acc" samples))
        ∷ ("gyro_std_rad_s", vector (by_axis st.pstdev "gyro" samples))
        ∷ ("max_gap_s", scalar (longest (gaps_of samples)))
        ∷ ("distinct_raw_frames", count (distinct (same_list same_int) (map raw_of samples)))
        ∷ []

    -- The checks that come before the measured ones
    unfoldable pub imu_checks : List Fields → ℤ → Num → List (String × Bool)
    imu_checks records returncode duration =
        native_checks records returncode
        ++ ("bmi160_identified", there_with is_bmi160 (last (filter (has_type "imu_info") records)))
          ∷ ("sample_format", all_valid (sample_valid duration) (samples_of records))
          ∷ []

    unfoldable pub evaluate_imu : List Fields → ℤ → Num → Outcome
    evaluate_imu records returncode duration =
        let samples = samples_of records in
        let checks = imu_checks records returncode duration in
        let metrics =
          ("samples", count (length samples))
          ∷ ("identity", identity (last (filter (has_type "imu_info") records)))
          ∷ [] in
        let errors = error_messages "IMU 오류" records in
        if all_valid (sample_valid duration) samples
        then result (checks ++ measured_checks duration samples)
            (metrics ++ measured_metrics samples) errors
        else result checks metrics errors
