-- ===== src/SensorCheck/Lidar.antt =====
-- `evaluate_lidar`: what is asked of the lidar's records.
use lekiwi.Prelude.{
  ℕ, ◌+◌, Bool, true, ◌&&◌, some, String, List, [], ◌∷◌, ◌++◌, map, ltb, leb, ◌==◌, length,
  if◌then◌else◌,
}
use lekiwi.Float.{Num, nought, le, lt, feq, fabs}
use lekiwi.Float.Fpu.{Fpu}
use lekiwi.SensorCheck.{
  Metric, count, scalar, identity, Outcome, result, native_checks, error_messages,
}
use lekiwi.SensorCheck.Record.{
  ℤ, pos, Json, Fields, get, filter, last, there_with, Statistics, number_of, number_with,
  number_at, natural, natural_at, natural_with, all_valid, list_of, list_with, items_of, every,
  every_next, distinct, same_list, equals_int, item_at, array, items, num_or, has_type,
}
use lekiwi.SensorCheck.Imu.{is_between, in_time, sample_rate, time_span}

-- `LIMITS`
abbrev pub min_lidar_rate : Num
min_lidar_rate = 0x4020000000000000

abbrev pub max_lidar_rate : Num
max_lidar_rate = 0x4028000000000000

abbrev pub min_valid_points : ℕ
min_valid_points = 30

abbrev pub min_valid_fraction : Num
min_valid_fraction = 0x3fb999999999999a

abbrev pub min_good_fraction : Num
min_good_fraction = 0x3feccccccccccccd

-- 8, as a float, 0.80, 0.10, 0.05, 12.0 and 2 * math.pi
abbrev eight : Num
eight = 0x4020000000000000

abbrev four_fifths : Num
four_fifths = 0x3fe999999999999a

abbrev tenth : Num
tenth = 0x3fb999999999999a

abbrev min_range : Num
min_range = 0x3fa999999999999a

abbrev max_range : Num
max_range = 0x4028000000000000

abbrev full_turn : Num
full_turn = 0x401921fb54442d18

-- `max(1, n)`
abbrev pub at_least_one : ℕ → ℕ
at_least_one n = if ltb n 1 then 1 else n

unfoldable pub sum : List ℕ → ℕ
sum [] = 0
sum (n ∷ ns) = n + sum ns

abbrev pub points_of : Fields → ℕ
points_of s = natural_at "points" s

abbrev pub valid_of : Fields → ℕ
valid_of s = natural_at "valid" s

abbrev pub stamp_of : Fields → ℕ
stamp_of s = natural_at "stamp_ns" s

-- The list that a value is, empty for others
abbrev pub point_of : Json → List Json
point_of (array vs) = items vs
point_of _ = []

-- `s["ranges"]`, of a value that was found to be a list of points
abbrev pub ranges_of : Fields → List (List Json)
ranges_of s = map point_of (items_of (list_of (get "ranges" s)))

-- `b["stamp_ns"] > a["stamp_ns"]`
abbrev pub is_later : Fields → Fields → Bool
is_later a b = ltb (stamp_of a) (stamp_of b)

-- `sum(r.get("type") == "scan_error" for r in records)`
abbrev pub failures_of : List Fields → ℕ
failures_of records = length (filter (has_type "scan_error") records)

-- `len(scans) > 1`, `sum(s["valid"] >= 30 for s in scans)`
abbrev pub good_scans : List Fields → ℕ
good_scans scans = length (filter (λ s. leb min_valid_points (valid_of s)) scans)

abbrev pub scans_of : List Fields → List Fields
scans_of records = filter (has_type "lidar_scan") records

module _ (st : Statistics) where
  -- A point of `ranges`: an angle and a distance.
  abbrev pub point_valid : List Json → Bool
  point_valid p =
      (length p == 2)
      && (number_with st (λ x. le (fabs x) full_turn) (number_of st (item_at 0 p))
          && number_with st (is_between min_range max_range) (number_of st (item_at 1 p)))

  abbrev pub same_number : Json → Json → Bool
  same_number a b =
      feq (num_or st nought (number_of st (some a))) (num_or st nought (number_of st (some b)))

  -- `len({tuple(tuple(p) for p in s["ranges"]) for s in scans})`
  abbrev pub distinct_ranges : List Fields → ℕ
  distinct_ranges scans = distinct (same_list (same_list same_number)) (map ranges_of scans)

  -- `info[-1].get("model_code") in (151, 152)`
  abbrev pub is_tmini_plus : Fields → Bool
  is_tmini_plus info =
      if equals_int st 151 (get "model_code" info)
      then true
      else equals_int st 152 (get "model_code" info)

  module _ ⦃u : Fpu⦄ where
    -- The test of a scan in `scan_format`
    unfoldable pub scan_valid : Num → Fields → Bool
    scan_valid duration s =
        in_time st duration s
        && (natural_with (λ n. ltb 0 n) (natural (get "stamp_ns" s))
            && (natural_with (λ n. leb n 100000) (natural (get "points" s))
                && (natural_with (λ n. leb n (points_of s)) (natural (get "valid" s))
                    && list_with
                        (λ ps.
                          (length ps == valid_of s) && every (λ p. point_valid (point_of p)) ps)
                        (list_of (get "ranges" s)))))

    -- `b["stamp_ns"] > a["stamp_ns"] and b["t"] > a["t"]`
    abbrev pub is_fresher : Fields → Fields → Bool
    is_fresher a b = is_later a b && lt (number_at st "t" a) (number_at st "t" b)

    abbrev pub valid_fraction : List Fields → Num
    valid_fraction scans =
        u.ratio (sum (map valid_of scans)) (at_least_one (sum (map points_of scans)))

    abbrev pub good_fraction : List Fields → Num
    good_fraction scans = u.ratio (good_scans scans) (length scans)

    -- The checks that `scan_format` opens
    unfoldable pub scan_checks : Num → List Fields → ℕ → List (String × Bool)
    scan_checks duration scans failures =
        ("scan_count", le (u.mul duration eight) (st.to_float (pos (length scans))))
        ∷ ("measurement_duration", le (u.mul duration four_fifths) (time_span st scans))
        ∷ ("rate_hz", is_between min_lidar_rate max_lidar_rate (sample_rate st scans))
        ∷ ("fresh_scans", ltb 1 (length scans) && every_next is_fresher scans)
        ∷ ("valid_ranges", le min_valid_fraction (valid_fraction scans))
        ∷ ("enough_points", le min_good_fraction (good_fraction scans))
        ∷ ("scan_errors", le (u.ratio failures (at_least_one (length scans + failures))) tenth)
        ∷ ("range_data_changes", ltb 1 (distinct_ranges scans))
        ∷ []

    unfoldable pub scan_metrics : List Fields → ℕ → List (String × Metric)
    scan_metrics scans failures =
        ("rate_hz", scalar (sample_rate st scans))
        ∷ ("valid_fraction", scalar (valid_fraction scans))
        ∷ ("good_scan_fraction", scalar (good_fraction scans))
        ∷ ("mean_valid_points", scalar (st.mean (map (λ s. st.to_float (pos (valid_of s))) scans)))
        ∷ ("scan_errors", count failures)
        ∷ []

    -- The checks that come before those
    unfoldable pub lidar_checks : List Fields → ℤ → Num → List (String × Bool)
    lidar_checks records returncode duration =
        native_checks records returncode
        ++ (
          "tmini_plus_identified",
          there_with is_tmini_plus (last (filter (has_type "lidar_info") records)),
        )
          ∷ ("scan_format", all_valid (scan_valid duration) (scans_of records))
          ∷ []

    unfoldable pub evaluate_lidar : List Fields → ℤ → Num → Outcome
    evaluate_lidar records returncode duration =
        let scans = scans_of records in
        let failures = failures_of records in
        let checks = lidar_checks records returncode duration in
        let metrics =
          ("scans", count (length scans))
          ∷ ("identity", identity (last (filter (has_type "lidar_info") records)))
          ∷ [] in
        let errors = error_messages "라이다 오류" records in
        if all_valid (scan_valid duration) scans
        then result (checks ++ scan_checks duration scans failures)
            (metrics ++ scan_metrics scans failures) errors
        else result checks metrics errors
