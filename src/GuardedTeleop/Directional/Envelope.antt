-- ===== src/GuardedTeleop/Directional/Envelope.antt =====
-- No sequence of keys and ticks commands more than 0.10 m/s along an axis or 0.30 rad/s.
use Prim.Native.Nat.{min}
use lekiwi.Prelude.{ℕ, ◌+◌, ◌-◌, ◌≤◌, ◌≡◌, refl, some, String, arith, inl, inr, Option-cases}
use lekiwi.Float.{Num, rank, is_nan, isfinite, neg, nought, one}
use lekiwi.Float.Order.{IsWithin}
use lekiwi.Float.Fpu.{Fpu}
use lekiwi.MotorSession.{Motion, stop}
use lekiwi.GuardedTeleop.Ramp.{linear_step, angular_step}
use lekiwi.GuardedTeleop.Limits.{IsBounded, scale-IsBounded, ramp-IsBounded}
use lekiwi.GuardedTeleop.Directional.{
  linear_speed, angular_speed, max_speed_stage, directions, Directional, initial, scaled,
  update_target, turn_to, faster, slower, halt, other_key, handle_key, ramped, next_motion,
}

pub record IsSlow (m : Motion) : Type 0 where
  pub x : IsBounded linear_speed m.linear_x
  pub y : IsBounded linear_speed m.linear_y
  pub turn : IsBounded angular_speed m.angular_z

pub stop-IsSlow : IsSlow stop
unfolding rank neg is_nan
stop-IsSlow = ground arith

directions-IsSlow : (key : String) {d : Motion} → directions key ≡ some d → IsSlow d
unfolding directions rank neg is_nan
directions-IsSlow key h = ground arith

-- The stage is one of 0 to 3, and the direction, the target and the control are slow.
pub record IsValid (p : Directional) : Type 0 where
  pub stage : p.speed_stage ≤ max_speed_stage
  pub direction : IsSlow p.direction
  pub target : IsSlow p.target
  pub control : IsSlow p.control

pub initial-IsValid : IsValid initial
unfolding initial
initial-IsValid = record {
  stage = omega arith;
  direction = stop-IsSlow;
  target = stop-IsSlow;
  control = stop-IsSlow;
}

module _ ⦃u : Fpu⦄ where
  scaled-IsSlow : (d : Motion) (s : Num) → IsWithin nought one s → IsSlow d → IsSlow (scaled d s)
  unfolding scaled isfinite
  scaled-IsSlow d s unit h = record {
    x = scale-IsBounded linear_speed d.linear_x s refl unit h.x;
    y = scale-IsBounded linear_speed d.linear_y s refl unit h.y;
    turn = scale-IsBounded angular_speed d.angular_z s refl unit h.turn;
  }

  ramped-IsSlow : (c t : Motion) → IsSlow c → IsSlow t → IsSlow (ramped c t)
  unfolding ramped isfinite rank
  ramped-IsSlow c t hc ht = record {
    x =
        ramp-IsBounded linear_speed c.linear_x t.linear_x linear_step refl refl (omega arith) hc.x
          ht.x;
    y =
        ramp-IsBounded linear_speed c.linear_y t.linear_y linear_step refl refl (omega arith) hc.y
          ht.y;
    turn =
        ramp-IsBounded angular_speed c.angular_z t.angular_z angular_step refl refl (omega arith)
          hc.turn ht.turn;
  }

  update_target-IsValid : (p : Directional) → IsValid p → IsValid (update_target p)
  unfolding update_target
  update_target-IsValid p h = record {
    stage = h.stage;
    direction = h.direction;
    target =
        scaled-IsSlow p.direction (u.ratio p.speed_stage max_speed_stage)
          (u.ratio_unit p.speed_stage max_speed_stage h.stage (omega arith)) h.direction;
    control = h.control;
  }

  turn_to-IsValid : (d : Motion) (p : Directional) → IsSlow d → IsValid p → IsValid (turn_to d p)
  unfolding turn_to
  turn_to-IsValid d p hd h =
      let q = record p { direction = d } in
      let hq : IsValid q = record {
        stage = h.stage;
        direction = hd;
        target = h.target;
        control = h.control;
      } in
      ground (arith, update_target-IsValid q hq, stop-IsSlow)

  -- A stage of at most 3 and the target for it make a valid profile.
  staged :
      (p : Directional) (n : ℕ)
      → IsValid p
      → n ≤ max_speed_stage
      → IsValid (update_target (record p { speed_stage = n }))
  staged p n h le =
      update_target-IsValid (record p { speed_stage = n })
        (record { stage = le; direction = h.direction; target = h.target; control = h.control })

  other_key-IsValid : (key : String) (p : Directional) → IsValid p → IsValid (other_key key p).0
  unfolding other_key faster slower halt
  other_key-IsValid key p h = ground (
    arith,
    staged p (min max_speed_stage (p.speed_stage + 1)) h (omega arith),
    staged p (p.speed_stage - 1) h (omega (arith, h.stage)),
    staged p 0 h (omega arith),
    stop-IsSlow,
  )

  -- Every key leaves a valid profile.
  pub handle_key-IsValid :
      (key : String) (p : Directional) → IsValid p → IsValid (handle_key key p).0
  unfolding handle_key
  handle_key-IsValid key p h = elim (Option-cases (directions key)) [
    | inl e ↦ rw (e, handle_key) (other_key-IsValid key p h)
    | inr (d, e) ↦ rw (e, handle_key) (turn_to-IsValid d p (directions-IsSlow key e) h)
  ]

  -- A tick leaves a valid profile, and the motion that it sends is within the limits.
  pub next_motion-IsValid :
      (p : Directional) → IsValid p → IsValid (next_motion p).0 × IsSlow (next_motion p).1
  unfolding next_motion
  next_motion-IsValid p h = ground (arith, ramped-IsSlow p.control p.target h.control h.target)
