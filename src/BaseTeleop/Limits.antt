-- ===== src/BaseTeleop/Limits.antt =====
-- The speeds of a mapper stay within its limits.
use mathlib.Core.Path.{subst, sym, ap}
use lekiwi.Prelude.{
  ◌≤◌, ◌≡◌, refl, true, false, some, String, arith, inl, inr, Bool-cases, Option-cases,
}
use lekiwi.Float.{Num, rank, is_nan, isfinite, nought, one, le, lt, neg, fmin, fmax}
use lekiwi.Float.Order.{IsWithin, isfinite-number, not-lt_lem}
use lekiwi.Float.Fpu.{Fpu}
use lekiwi.GuardedTeleop.Limits.{IsBounded}
use lekiwi.BaseTeleop.{
  Mapper, clamp, post_init, twist_for_key, is_exit_key, Effect, exits, adjusts, publishes, ignores,
  refuses, factor_for_key, adjusted, adjustment, publication, publish_for_key,
}

-- Parameters that are numbers: the step and the limits.
pub record IsNumeric (m : Mapper) : Type 0 where
  pub step : isfinite m.speed_scale_step ≡ true
  pub min_linear : isfinite m.min_linear_speed ≡ true
  pub max_linear : isfinite m.max_linear_speed ≡ true
  pub min_angular : isfinite m.min_angular_speed ≡ true
  pub max_angular : isfinite m.max_angular_speed ≡ true

-- The speeds lie within limits that are not negative, and the step is more than 1.
pub record IsValid (m : Mapper) : Type 0 where
  pub numeric : IsNumeric m
  pub linear : IsWithin m.min_linear_speed m.max_linear_speed m.linear_speed
  pub angular : IsWithin m.min_angular_speed m.max_angular_speed m.angular_speed
  pub linear_forward : rank nought ≤ rank m.min_linear_speed
  pub angular_forward : rank nought ≤ rank m.min_angular_speed
  pub growing : rank one ≤ rank m.speed_scale_step

-- Clamping a number puts it between limits in order.
clamp-IsWithin :
    (x lo hi : Num)
    → is_nan x ≡ false
    → is_nan lo ≡ false
    → is_nan hi ≡ false
    → rank lo ≤ rank hi
    → IsWithin lo hi (clamp x lo hi)
unfolding clamp fmin fmax lt
clamp-IsWithin x lo hi n fl fh order = ground arith

within-isfinite :
    (lo hi x : Num) → isfinite lo ≡ true → isfinite hi ≡ true → IsWithin lo hi x → isfinite x ≡ true
unfolding isfinite rank is_nan
within-isfinite lo hi x fl fh w = ground arith

-- A speed between limits that are not negative, its opposite and a standstill are within the upper one.
forward-IsBounded :
    (lo hi x : Num)
    → IsWithin lo hi x
    → rank nought ≤ rank lo
    → IsBounded hi x × IsBounded hi (neg x) × IsBounded hi nought
unfolding rank neg is_nan
forward-IsBounded lo hi x w h = ground arith

above :
    (x bound : Num)
    → is_nan x ≡ false
    → is_nan bound ≡ false
    → le x bound ≡ false
    → rank bound ≤ rank x
unfolding le
above x bound n nb h = ground arith

-- What the tests of `__post_init__` found in a mapper that they let through.
record Passed (m q : Mapper) : Type 0 where
  step : le m.speed_scale_step one ≡ false
  linear : le m.min_linear_speed nought ≡ false
  linear_order : lt m.max_linear_speed m.min_linear_speed ≡ false
  angular : le m.min_angular_speed nought ≡ false
  angular_order : lt m.max_angular_speed m.min_angular_speed ≡ false
  made : q ≡ record m {
    linear_speed = clamp m.linear_speed m.min_linear_speed m.max_linear_speed;
    angular_speed = clamp m.angular_speed m.min_angular_speed m.max_angular_speed;
  }

passed : (m q : Mapper) → post_init m ≡ some q → Passed m q
unfolding post_init
passed m q h = ground arith

-- A mapper whose parameters are numbers and whose tests pass has its speeds within its limits.
pub post_init-IsValid :
    (m q : Mapper)
    → IsNumeric m
    → is_nan m.linear_speed ≡ false
    → is_nan m.angular_speed ≡ false
    → post_init m ≡ some q
    → IsValid q
unfolding is_nan
post_init-IsValid m q n linear angular h =
    let t = passed m q h in
    subst IsValid (sym t.made) (record {
      numeric = record {
        step = n.step;
        min_linear = n.min_linear;
        max_linear = n.max_linear;
        min_angular = n.min_angular;
        max_angular = n.max_angular;
      };
      linear =
          clamp-IsWithin m.linear_speed m.min_linear_speed m.max_linear_speed linear
            (isfinite-number _ n.min_linear) (isfinite-number _ n.max_linear)
            (not-lt_lem m.max_linear_speed m.min_linear_speed (isfinite-number _ n.max_linear)
              (isfinite-number _ n.min_linear) t.linear_order);
      angular =
          clamp-IsWithin m.angular_speed m.min_angular_speed m.max_angular_speed angular
            (isfinite-number _ n.min_angular) (isfinite-number _ n.max_angular)
            (not-lt_lem m.max_angular_speed m.min_angular_speed (isfinite-number _ n.max_angular)
              (isfinite-number _ n.min_angular) t.angular_order);
      linear_forward =
          above m.min_linear_speed nought (isfinite-number _ n.min_linear) refl t.linear;
      angular_forward =
          above m.min_angular_speed nought (isfinite-number _ n.min_angular) refl t.angular;
      growing = above m.speed_scale_step one (isfinite-number _ n.step) refl t.step;
    })

module _ ⦃u : Fpu⦄ where
  -- What a key may do to a valid mapper.
  abbrev pub IsSafe : Mapper → Effect → Type 0
  IsSafe m exits = Unit
  IsSafe m (adjusts q) =
      IsValid q
      × (q.min_linear_speed ≡ m.min_linear_speed)
      × (q.max_linear_speed ≡ m.max_linear_speed)
      × (q.min_angular_speed ≡ m.min_angular_speed)
      × (q.max_angular_speed ≡ m.max_angular_speed)
      × (q.speed_scale_step ≡ m.speed_scale_step)
  IsSafe m (publishes c) =
      IsBounded m.max_linear_speed c.linear_x
      × IsBounded m.max_linear_speed c.linear_y
      × IsBounded m.max_angular_speed c.angular_z
  IsSafe m ignores = Unit
  IsSafe m refuses = Unit

  inverse_finite : (s : Num) → isfinite s ≡ true → rank one ≤ rank s → isfinite (u.div one s) ≡ true
  unfolding isfinite
  inverse_finite s f h = within-isfinite nought one (u.div one s) refl refl (u.div_unit s f h)

  factor_finite :
      (m : Mapper) (key : String) (f : Num)
      → IsValid m
      → factor_for_key m key ≡ some f
      → isfinite f ≡ true
  unfolding factor_for_key
  factor_finite m key f v h =
      ground (arith, inverse_finite m.speed_scale_step v.numeric.step v.growing)

  rescaled : Mapper → Num → Mapper
  rescaled m f = record m {
    linear_speed = u.mul m.linear_speed f;
    angular_speed = u.mul m.angular_speed f;
  }

  made-IsSafe :
      (m : Mapper) (f : Num) (q : Mapper)
      → IsValid m
      → isfinite f ≡ true
      → post_init (rescaled m f) ≡ some q
      → IsSafe m (adjusts q)
  unfolding rescaled
  made-IsSafe m f q v ff e =
      let n = v.numeric in
      let made = (passed (rescaled m f) q e).made in
      let same : IsNumeric (rescaled m f) = record {
        step = n.step;
        min_linear = n.min_linear;
        max_linear = n.max_linear;
        min_angular = n.min_angular;
        max_angular = n.max_angular;
      } in
      (
        post_init-IsValid (rescaled m f) q same
            (u.mul_finite m.linear_speed f
              (within-isfinite _ _ _ n.min_linear n.max_linear v.linear) ff)
            (u.mul_finite m.angular_speed f
              (within-isfinite _ _ _ n.min_angular n.max_angular v.angular) ff)
            e,
        ap (λ r. r.min_linear_speed) made,
        ap (λ r. r.max_linear_speed) made,
        ap (λ r. r.min_angular_speed) made,
        ap (λ r. r.max_angular_speed) made,
        ap (λ r. r.speed_scale_step) made,
      )

  adjusted-IsSafe :
      (m : Mapper) (f : Num) → IsValid m → isfinite f ≡ true → IsSafe m (adjustment (adjusted m f))
  unfolding adjusted rescaled
  adjusted-IsSafe m f v ff = elim (Option-cases (post_init (rescaled m f))) [
    | inl e ↦ rw (e, adjusted) tt
    | inr (q, e) ↦ rw (e, adjusted) (made-IsSafe m f q v ff e)
  ]

  twist-IsSafe :
      (m : Mapper) (key : String) → IsValid m → IsSafe m (publication (twist_for_key m key))
  unfolding twist_for_key
  twist-IsSafe m key v =
      let (l, l', l0) =
        forward-IsBounded m.min_linear_speed m.max_linear_speed m.linear_speed v.linear
          v.linear_forward in
      let (a, a', a0) =
        forward-IsBounded m.min_angular_speed m.max_angular_speed m.angular_speed v.angular
          v.angular_forward in
      ground (arith, l, l', l0, a, a', a0)

  -- Whatever key is pressed, a valid mapper publishes only motions within its limits, and a changed
  -- mapper is valid and keeps all four limits and the step.
  pub publish_for_key-IsSafe :
      (m : Mapper) (key : String) → IsValid m → IsSafe m (publish_for_key m key)
  unfolding publish_for_key
  publish_for_key-IsSafe m key v = elim (Bool-cases (is_exit_key key)) [
    | inl x ↦ rw (x, publish_for_key) tt
    | inr x ↦ elim (Option-cases (factor_for_key m key)) [
      | inl e ↦ rw (x, e, publish_for_key) (twist-IsSafe m key v)
      | inr (f, e) ↦ rw (x, e, publish_for_key) (adjusted-IsSafe m f v (factor_finite m key f v e))
    ]
  ]
