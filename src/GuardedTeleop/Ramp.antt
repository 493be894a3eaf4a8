-- ===== src/GuardedTeleop/Ramp.antt =====
-- `_make_simple_profile`, one step of the ramp that both speed profiles use.
use lekiwi.Prelude.{◌≤◌, ◌≡◌, true, arith, if◌then◌else◌}
use lekiwi.Float.{Num, rank, isfinite, lt, fmin, fmax, nought}
use lekiwi.Float.Order.{IsWithin, isfinite-number}
use lekiwi.Float.Fpu.{Fpu}

-- LINEAR_PROFILE_STEP = 0.005 and ANGULAR_PROFILE_STEP = 0.05
abbrev pub linear_step : Num
linear_step = 0x3f747ae147ae147b

abbrev pub angular_step : Num
angular_step = 0x3fa999999999999a

module _ ⦃u : Fpu⦄ where
  unfoldable pub make_simple_profile : Num → Num → Num → Num
  make_simple_profile output target step =
      if lt output target
      then fmin target (u.add output step)
      else if lt target output
      then fmax target (u.sub output step)
      else target

  module _ (output target step : Num) (fo : isfinite output ≡ true) (ft : isfinite target ≡ true)
      (fs : isfinite step ≡ true) (forward : rank nought ≤ rank step) where
    -- A step towards a higher target goes up, neither past the target nor by more than one step.
    pub ramp_up :
        rank output ≤ rank target
        → IsWithin output target (make_simple_profile output target step)
          × (rank (make_simple_profile output target step) ≤ rank (u.add output step))
    unfolding make_simple_profile fmin fmax lt
    ramp_up h = ground (
      arith,
      u.add_up output step fo fs forward,
      isfinite-number output fo,
      isfinite-number target ft,
    )

    -- A step towards a lower target goes down in the same way.
    pub ramp_down :
        rank target ≤ rank output
        → IsWithin target output (make_simple_profile output target step)
          × (rank (u.sub output step) ≤ rank (make_simple_profile output target step))
    unfolding make_simple_profile fmin fmax lt
    ramp_down h = ground (
      arith,
      u.sub_down output step fo fs forward,
      isfinite-number output fo,
      isfinite-number target ft,
    )
