-- ===== src/OdomCalibration.antt =====
-- lekiwi_teleop/lekiwi_teleop/odom_calibration.py: the scale of the odometry from a measured distance.

mod Tests
use lekiwi.Prelude.{
  ◌≡◌, refl, Bool, true, false, not, ◌&&◌, ◌||◌, ◌↔◌, ◌⊎◌, inl, inr, String, arith, Option, none,
  some, if◌then◌else◌,
}
use lekiwi.Float.{Num, nought, isfinite, le, lt, feq, fabs}
use lekiwi.Float.Fpu.{Fpu}

-- `CalibrationSample`
pub record Sample : Type 0 where
  pub current_scale : Num
  pub odom_delta : Num
  pub measured_delta : Num

-- `CalibrationRecommendation`
pub record Recommendation : Type 0 where
  pub recommended_scale : Num
  pub odom_to_measured_ratio : Num

-- `not math.isfinite(value) or value <= 0.0`
abbrev pub is_unfit : Num → Bool
is_unfit value = not (isfinite value) || le value nought

-- `finite_positive_float` and `finite_non_zero_float` of a text that is read as a float; `none` is the
-- error of the argument
unfoldable pub finite_positive_float : Num → Option Num
finite_positive_float parsed = if is_unfit parsed then none else some parsed

unfoldable pub finite_non_zero_float : Num → Option Num
finite_non_zero_float parsed =
    if not (isfinite parsed) || feq parsed nought then none else some parsed

module _ ⦃u : Fpu⦄ where
  -- `calculate_scale_recommendation`, with the message of its ValueError on the left
  unfoldable pub calculate_scale_recommendation : Sample → String ⊎ Recommendation
  calculate_scale_recommendation s =
      if is_unfit s.current_scale
      then inl "current_scale은 0보다 큰 유한한 값이어야 합니다."
      else if not (isfinite s.odom_delta) || feq s.odom_delta nought
      then inl "odom_delta는 0이 아닌 유한한 값이어야 합니다."
      else if is_unfit s.measured_delta
      then inl "measured_delta는 0보다 큰 유한한 값이어야 합니다."
      else inr (record {
        recommended_scale = u.div (u.mul s.current_scale s.measured_delta) (fabs s.odom_delta);
        odom_to_measured_ratio = u.div (fabs s.odom_delta) s.measured_delta;
      })

  -- How `main` ends: with an error of an argument, with the three printed lines, or with the ValueError.
  pub data Exit : Type 0 where
    usage_error : Exit
    printed : Recommendation → Exit
    crashed : String → Exit

  -- `from_args` of three arguments, where each is there
  abbrev pub from_args : Option Num → Option Num → Option Num → Option Sample
  from_args (some scale) (some odom) (some measured) =
      some (record { current_scale = scale; odom_delta = odom; measured_delta = measured })
  from_args _ _ _ = none

  abbrev pub print_result : String ⊎ Recommendation → Exit
  print_result (inl message) = crashed message
  print_result (inr r) = printed r

  abbrev pub run : Option Sample → Exit
  run none = usage_error
  run (some s) = print_result (calculate_scale_recommendation s)

  -- `main`, of the floats that the three texts of its arguments are read as
  unfoldable pub main : Num → Num → Num → Exit
  main current_scale odom_delta measured_delta = run (
      from_args (finite_positive_float current_scale) (finite_non_zero_float odom_delta)
        (finite_positive_float measured_delta))

  -- A sample whose parts were let through
  fit-printed :
      (scale odom measured : Num)
      → is_unfit scale ≡ false
      → not (isfinite odom) || feq odom nought ≡ false
      → is_unfit measured ≡ false
      → (r : Recommendation) × (run
            (some (record { current_scale = scale; odom_delta = odom; measured_delta = measured }))
          ≡ printed r)
  unfolding calculate_scale_recommendation
  fit-printed scale odom measured a b c = (
    record {
      recommended_scale = u.div (u.mul scale measured) (fabs odom);
      odom_to_measured_ratio = u.div (fabs odom) measured;
    },
    rw a (rw b (rw c refl)),
  )

  -- Whatever numbers the arguments are read as, `main` ends with an argument error or with a
  -- recommendation: the ValueErrors of `calculate_scale_recommendation` do not reach it.
  pub main-IsHandled :
      (current_scale odom_delta measured_delta : Num)
      → (main current_scale odom_delta measured_delta ≡ usage_error)
        ⊎ ((r : Recommendation) × (main current_scale odom_delta measured_delta ≡ printed r))
  unfolding main finite_positive_float finite_non_zero_float
  main-IsHandled current_scale odom_delta measured_delta =
      go (is_unfit current_scale) (not (isfinite odom_delta) || feq odom_delta nought)
        (is_unfit measured_delta) refl refl refl
    where
      go :
          (a b c : Bool)
          → is_unfit current_scale ≡ a
          → not (isfinite odom_delta) || feq odom_delta nought ≡ b
          → is_unfit measured_delta ≡ c
          → (run (
                from_args
                  (if a then none else some current_scale)
                  (if b then none else some odom_delta)
                  (if c then none else some measured_delta))
              ≡ usage_error)
            ⊎ ((r : Recommendation) × (run (
                    from_args
                      (if a then none else some current_scale)
                      (if b then none else some odom_delta)
                      (if c then none else some measured_delta))
                  ≡ printed r))
      go true b c _ _ _ = inl refl
      go false true c _ _ _ = inl refl
      go false false true _ _ _ = inl refl
      go false false false a b c = inr (fit-printed current_scale odom_delta measured_delta a b c)
