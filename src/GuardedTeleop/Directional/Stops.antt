-- ===== src/GuardedTeleop/Directional/Stops.antt =====
-- When the profile commands no motion: after a turn, and at speed stage 0.
use lekiwi.Prelude.{◌≡◌, refl, true, false, some, String, arith, inl, inr, Option-cases, str_eq}
use lekiwi.Float.{Num, isfinite, neg, nought}
use lekiwi.Float.Fpu.{Fpu}
use lekiwi.MotorSession.{Motion, stop, same_motion}
use lekiwi.GuardedTeleop.Ramp.{linear_step, angular_step}
use lekiwi.GuardedTeleop.Limits.{IsZero, IsStill, stop-IsStill, ramp-IsZero}
use lekiwi.GuardedTeleop.Directional.{
  max_speed_stage, directions, Directional, scaled, update_target, turn_to, slower, halt, other_key,
  handle_key, ramped, next_motion,
}

-- Stage 0 with nothing left to ramp down.
pub record IsHalted (p : Directional) : Type 0 where
  pub stage : p.speed_stage ≡ 0
  pub target : IsStill p.target
  pub control : IsStill p.control

-- The components of a direction that can be scaled.
pub record IsFinite (m : Motion) : Type 0 where
  pub x : isfinite m.linear_x ≡ true
  pub y : isfinite m.linear_y ≡ true
  pub turn : isfinite m.angular_z ≡ true

directions-IsFinite : (key : String) {d : Motion} → directions key ≡ some d → IsFinite d
unfolding directions isfinite neg
directions-IsFinite key h = ground arith

module _ ⦃u : Fpu⦄ where
  -- A direction key that changes the direction of a moving profile makes the next motion a stop, and
  -- the ramp in the new direction then starts from a standstill.
  pub turn_stops :
      (key : String) {d : Motion} (p : Directional)
      → directions key ≡ some d
      → same_motion p.target stop ≡ false
      → same_motion d p.direction ≡ false
      → let (q, sent) = next_motion (handle_key key p).0 in
        (sent ≡ stop)
        × (q.control ≡ stop)
        × (q.direction ≡ d)
        × (q.pending_direction_change_zero ≡ false)
  unfolding handle_key turn_to next_motion update_target
  turn_stops key p e moving changed = ground arith

  scale-IsZero : (x : Num) → isfinite x ≡ true → IsZero (u.mul x nought)
  unfolding isfinite
  scale-IsZero x f = record {
    number = u.mul_finite x nought f refl;
    level = u.mul_nought x nought f refl refl;
  }

  -- At stage 0 the target is a standstill in every direction.
  target_at_zero : (d : Motion) → IsFinite d → IsStill (scaled d (u.ratio 0 max_speed_stage))
  unfolding scaled
  target_at_zero d f = rw (u.ratio_zero max_speed_stage (omega arith)) (record {
    x = scale-IsZero d.linear_x f.x;
    y = scale-IsZero d.linear_y f.y;
    turn = scale-IsZero d.angular_z f.turn;
  })

  ramped-IsStill : (c t : Motion) → IsStill c → IsStill t → IsStill (ramped c t)
  unfolding ramped
  ramped-IsStill c t hc ht = record {
    x = ramp-IsZero c.linear_x t.linear_x linear_step hc.x ht.x;
    y = ramp-IsZero c.linear_y t.linear_y linear_step hc.y ht.y;
    turn = ramp-IsZero c.angular_z t.angular_z angular_step hc.turn ht.turn;
  }

  -- A space halts the profile, whatever it was doing.
  pub space-IsHalted : (p : Directional) → IsFinite p.direction → IsHalted (handle_key " " p).0
  unfolding handle_key directions other_key halt update_target
  space-IsHalted p f = record {
    stage = refl;
    target = target_at_zero p.direction f;
    control = stop-IsStill;
  }

  -- A halted profile sends standstill only, and stays halted.
  pub next_motion-IsHalted :
      (p : Directional) → IsHalted p → IsHalted (next_motion p).0 × IsStill (next_motion p).1
  unfolding next_motion
  next_motion-IsHalted p h = ground (arith, ramped-IsStill p.control p.target h.control h.target)

  turn_to-IsHalted :
      (d : Motion) (p : Directional) → IsFinite d → IsHalted p → IsHalted (turn_to d p)
  unfolding turn_to update_target
  turn_to-IsHalted d p f h = ground (arith, target_at_zero d f, stop-IsStill)

  other_key-IsHalted :
      (key : String) (p : Directional)
      → IsFinite p.direction
      → str_eq key "r" ≡ false
      → IsHalted p
      → IsHalted (other_key key p).0
  unfolding other_key slower halt update_target
  other_key-IsHalted key p f e h = ground (arith, target_at_zero p.direction f, stop-IsStill)

  -- Only the key `r` ends the halt: no other key, a direction key included, starts a motion at stage 0.
  pub handle_key-IsHalted :
      (key : String) (p : Directional)
      → IsFinite p.direction
      → str_eq key "r" ≡ false
      → IsHalted p
      → IsHalted (handle_key key p).0
  unfolding handle_key
  handle_key-IsHalted key p f not_r h = elim (Option-cases (directions key)) [
    | inl e ↦ rw (e, handle_key) (other_key-IsHalted key p f not_r h)
    | inr (d, e) ↦ rw (e, handle_key) (turn_to-IsHalted d p (directions-IsFinite key e) h)
  ]
