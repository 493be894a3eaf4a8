-- ===== src/DistanceTrial/Compare.antt =====
-- `compare`: a completed trial and the displacement that was measured on the floor.
use lekiwi.Prelude.{
  ◌≡◌, ℕ, Bool, true, false, not, ◌&&◌, ◌⊎◌, inl, inr, Option, none, some, String, str_eq, ◌==◌,
  if◌then◌else◌,
}
use lekiwi.Float.{Num, nought, isfinite, lt, le, fabs}
use lekiwi.Float.Fpu.{Fpu}
use lekiwi.DistanceTrial.{Displacement}

-- The entries of a report that `compare` reads. `completed` is whether the entry is True.
pub record Stored : Type 0 where
  pub schema : Option ℕ
  pub completed : Bool
  pub mode : Option String
  pub distance_m : Num
  pub odom : Displacement

pub record Comparison : Type 0 where
  pub requested_m : Num
  pub measured_along_m : Num
  pub odom_along_m : Num
  pub tolerance_m : Num
  pub actual_minus_requested_m : Num
  pub odom_minus_actual_m : Num
  pub actual_within_tolerance : Bool
  pub odom_within_tolerance : Bool
  pub odom_cross_m : Num
  pub odom_yaw_rad : Num

abbrev is_schema : Option ℕ → Bool
is_schema none = false
is_schema (some n) = n == 1

abbrev pub is_hardware : Option String → Bool
is_hardware none = false
is_hardware (some mode) = str_eq mode "hardware"

module _ ⦃u : Fpu⦄ where
  abbrev pub compared : Stored → Num → Num → Comparison
  compared report measured_m tolerance_m = record {
    requested_m = report.distance_m;
    measured_along_m = measured_m;
    odom_along_m = report.odom.along_m;
    tolerance_m = tolerance_m;
    actual_minus_requested_m = u.sub measured_m report.distance_m;
    odom_minus_actual_m = u.sub report.odom.along_m measured_m;
    actual_within_tolerance = le (fabs (u.sub measured_m report.distance_m)) tolerance_m;
    odom_within_tolerance = le (fabs (u.sub report.odom.along_m measured_m)) tolerance_m;
    odom_cross_m = report.odom.cross_m;
    odom_yaw_rad = report.odom.yaw_rad;
  }

  unfoldable pub compare : Stored → Num → Num → String ⊎ Comparison
  compare report measured_m tolerance_m =
      if not (is_schema report.schema && report.completed)
      then inl "Only a completed distance trial can be compared"
      else if not (is_hardware report.mode)
      then inl "Mock odometry is not a physical measurement"
      else if not (isfinite measured_m)
      then inl "Measured displacement must be finite"
      else if not (isfinite tolerance_m && lt nought tolerance_m)
      then inl "Tolerance must be positive"
      else inr (compared report measured_m tolerance_m)

  -- What may be compared
  pub record IsPhysical (report : Stored) (measured_m tolerance_m : Num) : Type 0 where
    pub schema : report.schema ≡ some 1
    pub completed : report.completed ≡ true
    pub mode : report.mode ≡ some "hardware"
    pub finite : isfinite measured_m ≡ true
    pub finite_tolerance : isfinite tolerance_m ≡ true
    pub positive : lt nought tolerance_m ≡ true

  -- A comparison that fits its inputs
  pub record IsComparison (report : Stored) (measured_m tolerance_m : Num) (c : Comparison)
      : Type 0 where
    pub requested : c.requested_m ≡ report.distance_m
    pub measured : c.measured_along_m ≡ measured_m
    pub odometry : c.odom_along_m ≡ report.odom.along_m
    pub tolerance : c.tolerance_m ≡ tolerance_m
    pub actual_error : c.actual_minus_requested_m ≡ u.sub measured_m report.distance_m
    pub odom_error : c.odom_minus_actual_m ≡ u.sub report.odom.along_m measured_m
    pub actual_within :
        c.actual_within_tolerance ≡ le (fabs (u.sub measured_m report.distance_m)) tolerance_m
    pub odom_within :
        c.odom_within_tolerance ≡ le (fabs (u.sub report.odom.along_m measured_m)) tolerance_m
    pub cross : c.odom_cross_m ≡ report.odom.cross_m
    pub yaw : c.odom_yaw_rad ≡ report.odom.yaw_rad
