-- ===== src/SensorCheck/Verdict.antt =====
-- What a passed evaluation says of the records.
use lekiwi.Prelude.{◌≡◌, ◌∙◌, ◌<◌, ℕ, true, List, [], ◌∷◌, length, arith}
use lekiwi.Float.{Num}
use lekiwi.Float.Fpu.{Fpu}
use lekiwi.SensorCheck.{passed, native_checks, error_messages}
use lekiwi.SensorCheck.Record.{
  ℤ, Fields, has_type, filter, every_next, last, there_with, Statistics, all_valid,
}
use lekiwi.SensorCheck.Imu.{
  evaluate_imu, imu_checks, measured_checks, samples_of, sample_valid, sample_rate, is_bmi160,
  gravity_of, is_between, min_imu_rate, max_imu_rate, min_gravity, max_gravity,
}
use lekiwi.SensorCheck.Lidar.{
  evaluate_lidar, lidar_checks, scan_checks, scans_of, scan_valid, is_fresher, stamp_of,
  is_tmini_plus, failures_of,
}
use lekiwi.SensorCheck.Passed.{
  AllHold, append-left, append-right, IsClean, native-IsClean, no-errors, Ticking, Increasing,
  evaluation, same-errors, every_next-Ticking, before-All,
}

module _ (st : Statistics) ⦃u : Fpu⦄ where
  every_next-Increasing : (rs : List Fields) → every_next (is_fresher st) rs ≡ true → Increasing rs
  unfolding every_next Increasing
  every_next-Increasing [] h = tt
  every_next-Increasing (a ∷ []) h = (tt, tt)
  every_next-Increasing (a ∷ b ∷ rs) h =
      let rest : Increasing (b ∷ rs) = every_next-Increasing (b ∷ rs) (ground arith) in
      let first : stamp_of a < stamp_of b = ground arith in
      ((first, before-All a b rs first rest.0), rest)

  -- What a passed IMU has shown.
  pub record IsGoodImu (records : List Fields) (code : ℤ) (duration : Num) : Type 0 where
    pub clean : IsClean records code
    pub identified : there_with (is_bmi160 st) (last (filter (has_type "imu_info") records)) ≡ true
    pub well_formed : all_valid (sample_valid st duration) (samples_of records) ≡ true
    pub rate : is_between min_imu_rate max_imu_rate (sample_rate st (samples_of records)) ≡ true
    pub gravity : is_between min_gravity max_gravity (gravity_of st (samples_of records)) ≡ true
    pub ticking : Ticking (samples_of records)
    pub measured : AllHold (measured_checks st duration (samples_of records))

  -- What a passed lidar has shown.
  pub record IsGoodLidar (records : List Fields) (code : ℤ) (duration : Num) : Type 0 where
    pub clean : IsClean records code
    pub identified :
        there_with (is_tmini_plus st) (last (filter (has_type "lidar_info") records)) ≡ true
    pub well_formed : all_valid (scan_valid st duration) (scans_of records) ≡ true
    pub several : 1 < length (scans_of records)
    pub increasing : Increasing (scans_of records)
    pub measured : AllHold (scan_checks st duration (scans_of records) (failures_of records))

  measured_checks-Ticking :
      (duration : Num) (samples : List Fields)
      → AllHold (measured_checks st duration samples)
      → Ticking samples
  unfolding measured_checks
  measured_checks-Ticking duration samples h =
      every_next-Ticking samples (ground (arith, h.1.1.1.0))

  bounds-measured :
      (duration : Num) (samples : List Fields)
      → AllHold (measured_checks st duration samples)
      → (is_between min_imu_rate max_imu_rate (sample_rate st samples) ≡ true)
        × (is_between min_gravity max_gravity (gravity_of st samples) ≡ true)
  unfolding measured_checks
  bounds-measured duration samples h = (h.1.1.0, h.1.1.1.1.1.0)

  fresh-scans :
      (duration : Num) (scans : List Fields) (failures : ℕ)
      → AllHold (scan_checks st duration scans failures)
      → (1 < length scans) × Increasing scans
  unfolding scan_checks
  fresh-scans duration scans failures h =
      let several : 1 < length scans = ground (arith, h.1.1.1.0) in
      let next : every_next (is_fresher st) scans ≡ true = ground (arith, h.1.1.1.0) in
      (several, every_next-Increasing scans next)

  -- The first checks, which both ends of the evaluation have
  imu-first :
      (records : List Fields) (code : ℤ) (duration : Num)
      → AllHold (imu_checks st records code duration)
      → IsClean records code
        × (there_with (is_bmi160 st) (last (filter (has_type "imu_info") records)) ≡ true)
        × (all_valid (sample_valid st duration) (samples_of records) ≡ true)
  unfolding imu_checks
  imu-first records code duration h =
      let native = native_checks records code in
      let rest = append-right native _ h in
      (native-IsClean records code (append-left native _ h), rest.0, rest.1.0)

  imu-good :
      (records : List Fields) (code : ℤ) (duration : Num)
      → AllHold (imu_checks st records code duration)
      → AllHold (measured_checks st duration (samples_of records))
      → IsGoodImu records code duration
  imu-good records code duration first h =
      let (clean, identified, well_formed) = imu-first records code duration first in
      let (rate, gravity) = bounds-measured duration (samples_of records) h in
      record {
        clean = clean;
        identified = identified;
        well_formed = well_formed;
        rate = rate;
        gravity = gravity;
        ticking = measured_checks-Ticking duration (samples_of records) h;
        measured = h;
      }

  lidar-first :
      (records : List Fields) (code : ℤ) (duration : Num)
      → AllHold (lidar_checks st records code duration)
      → IsClean records code
        × (there_with (is_tmini_plus st) (last (filter (has_type "lidar_info") records)) ≡ true)
        × (all_valid (scan_valid st duration) (scans_of records) ≡ true)
  unfolding lidar_checks
  lidar-first records code duration h =
      let native = native_checks records code in
      let rest = append-right native _ h in
      (native-IsClean records code (append-left native _ h), rest.0, rest.1.0)

  lidar-good :
      (records : List Fields) (code : ℤ) (duration : Num)
      → AllHold (lidar_checks st records code duration)
      → AllHold (scan_checks st duration (scans_of records) (failures_of records))
      → IsGoodLidar records code duration
  lidar-good records code duration first h =
      let (clean, identified, well_formed) = lidar-first records code duration first in
      let (several, increasing) = fresh-scans duration (scans_of records) (failures_of records) h in
      record {
        clean = clean;
        identified = identified;
        well_formed = well_formed;
        several = several;
        increasing = increasing;
        measured = h;
      }

module _ (st : Statistics) ⦃u : Fpu⦄ (records : List Fields) (code : ℤ) (duration : Num) where
  -- An IMU passes only if its probe exited with status 0, reported its cleanup and no error; if the chip is
  -- a BMI160 and every sample well-formed; if the rate, the gravity and all other measured checks are
  -- within their limits; and if no two samples in a row have the same sensor time. Then no error is listed.
  pub evaluate_imu-IsGood :
      (evaluate_imu st records code duration).status ≡ passed
      → IsGoodImu st records code duration × ((evaluate_imu st records code duration).errors ≡ [])
  unfolding evaluate_imu
  evaluate_imu-IsGood h =
      let first = imu_checks st records code duration in
      let more = measured_checks st duration (samples_of records) in
      let ok = all_valid (sample_valid st duration) (samples_of records) in
      let errors = error_messages "IMU 오류" records in
      let (f, m) =
        evaluation ok first more _ _ errors (λ a. (imu-first st records code duration a).2) h in
      (
        imu-good st records code duration f m,
        same-errors ok first more _ _ errors
            ∙ no-errors "IMU 오류" records (imu-first st records code duration f).0.no_error,
      )

  -- A lidar passes only if its probe exited with status 0, reported its cleanup and no error; if it is a
  -- Tmini Plus and every scan well-formed; if there are at least two scans and each has a smaller time
  -- stamp than all later ones; and if the other checks of the scans hold. Then no error is listed.
  pub evaluate_lidar-IsGood :
      (evaluate_lidar st records code duration).status ≡ passed
      → IsGoodLidar st records code duration
        × ((evaluate_lidar st records code duration).errors ≡ [])
  unfolding evaluate_lidar
  evaluate_lidar-IsGood h =
      let first = lidar_checks st records code duration in
      let more = scan_checks st duration (scans_of records) (failures_of records) in
      let ok = all_valid (scan_valid st duration) (scans_of records) in
      let errors = error_messages "라이다 오류" records in
      let (f, m) =
        evaluation ok first more _ _ errors (λ a. (lidar-first st records code duration a).2) h in
      (
        lidar-good st records code duration f m,
        same-errors ok first more _ _ errors
            ∙ no-errors "라이다 오류" records (lidar-first st records code duration f).0.no_error,
      )
