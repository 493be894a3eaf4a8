-- ===== src/GuardedTeleop/HeldKeys/Drive.antt =====
-- A tick of the held keys: it always succeeds, along the active key's axis and within the limits.
use mathlib.Core.Path.{subst}
use lekiwi.Prelude.{
  sym, ◌∙◌, ℕ, zero, suc, ◌≤◌, ◌≡◌, ◌⊎◌, refl, true, false, some, String, arith, inl, inr,
  Bool-cases, Option-cases,
}
use lekiwi.Float.{Num, rank, is_nan, isfinite, neg, nought, one}
use lekiwi.Float.Order.{IsWithin, rank-neg, rank-nought}
use lekiwi.Float.Fpu.{Fpu}
use lekiwi.MotorSession.{Motion, stop}
use lekiwi.GuardedTeleop.Ramp.{linear_step, angular_step}
use lekiwi.GuardedTeleop.Limits.{IsBounded, IsZero, ramp-IsBounded, ramp-IsZero}
use lekiwi.GuardedTeleop.HeldKeys.{
  speeds, directions, is_direction, HeldKeys, active_key, target, ramped, drive, next_motion,
}
use lekiwi.GuardedTeleop.HeldKeys.Keys.{All-last}
use lekiwi.GuardedTeleop.HeldKeys.Invariant.{
  max_linear, max_angular, IsSlow, IsAlong, MovesAlong, Serves, IsValid, stop-IsSlow, stop-Serves,
  standing-IsValid,
}

abbrev IsUnit : Num → Type 0
IsUnit c = (c ≡ nought) ⊎ (c ≡ one) ⊎ (c ≡ neg one)

record IsUnitMotion (d : Motion) : Type 0 where
  x : IsUnit d.linear_x
  y : IsUnit d.linear_y
  turn : IsUnit d.angular_z

directions-IsUnitMotion : (key : String) {d : Motion} → directions key ≡ some d → IsUnitMotion d
unfolding directions
directions-IsUnitMotion key h = ground arith

record IsSpeeds (s : Num × Num) : Type 0 where
  linear : IsWithin nought max_linear s.0
  angular : IsWithin nought max_angular s.1
  linear_finite : isfinite s.0 ≡ true
  angular_finite : isfinite s.1 ≡ true

-- Each of the three stages has speeds, and they are in range.
speeds_total : (n : ℕ) → 1 ≤ n → n ≤ 3 → (s : Num × Num) × (speeds n ≡ some s) × IsSpeeds s
unfolding speeds rank is_nan isfinite
speeds_total zero a b = absurd (omega arith)
speeds_total (suc zero) a b = (_, refl, ground arith)
speeds_total (suc (suc zero)) a b = (_, refl, ground arith)
speeds_total (suc (suc (suc zero))) a b = (_, refl, ground arith)
speeds_total (suc (suc (suc (suc n)))) a b = absurd (omega arith)

is_direction_lem :
    (key : String) → is_direction key ≡ true → (d : Motion) × (directions key ≡ some d)
unfolding is_direction
is_direction_lem key h = elim (Option-cases (directions key)) [
  | inl e ↦ absurd (ground arith)
  | inr found ↦ found
]

module _ ⦃u : Fpu⦄ where
  -- A unit times a speed is bounded by the speed's limit.
  unit-IsBounded :
      (limit c s : Num)
      → isfinite s ≡ true
      → IsWithin nought limit s
      → IsUnit c
      → IsBounded limit (u.mul c s)
  unfolding isfinite
  unit-IsBounded limit c s f w (inl e) =
      rw (e, u.mul_comm nought s refl f)
        (ground (
          arith,
          u.mul_finite s nought f refl,
          u.mul_nought s nought f refl refl,
          rank-neg limit,
          rank-nought,
        ))
  unit-IsBounded limit c s f w (inr (inl e)) =
      rw e (ground (arith, u.mul_finite one s refl f, u.mul_one s f, rank-neg limit, rank-nought))
  unit-IsBounded limit c s f w (inr (inr e)) =
      let fn : isfinite (neg one) ≡ true = unfold neg in refl in
      rw e (
        ground (
          arith,
          u.mul_finite (neg one) s fn f,
          u.mul_one s f,
          u.mul_neg one s refl f,
          rank-neg (u.mul one s),
          rank-neg limit,
          rank-nought,
        ))

  nought-IsZero : (c s : Num) → isfinite s ≡ true → c ≡ nought → IsZero (u.mul c s)
  unfolding isfinite
  nought-IsZero c s f e =
      rw (e, u.mul_comm nought s refl f)
        (record {
          number = u.mul_finite s nought f refl;
          level = u.mul_nought s nought f refl refl;
        })

  target-IsSlow : (d : Motion) (s : Num × Num) → IsUnitMotion d → IsSpeeds s → IsSlow (target d s)
  unfolding target
  target-IsSlow d s h w = record {
    x = unit-IsBounded max_linear d.linear_x s.0 w.linear_finite w.linear h.x;
    y = unit-IsBounded max_linear d.linear_y s.0 w.linear_finite w.linear h.y;
    turn = unit-IsBounded max_angular d.angular_z s.1 w.angular_finite w.angular h.turn;
  }

  ramped-IsSlow : (c t : Motion) → IsSlow c → IsSlow t → IsSlow (ramped c t)
  unfolding ramped isfinite rank
  ramped-IsSlow c t hc ht = record {
    x =
        ramp-IsBounded max_linear c.linear_x t.linear_x linear_step refl refl (omega arith) hc.x
          ht.x;
    y =
        ramp-IsBounded max_linear c.linear_y t.linear_y linear_step refl refl (omega arith) hc.y
          ht.y;
    turn =
        ramp-IsBounded max_angular c.angular_z t.angular_z angular_step refl refl (omega arith)
          hc.turn ht.turn;
  }

  -- Ramping towards a target in a direction keeps a motion on the direction's axis.
  ramped-IsAlong :
      (d c : Motion) (s : Num × Num) → IsSpeeds s → IsAlong d c → IsAlong d (ramped c (target d s))
  unfolding ramped target
  ramped-IsAlong d c s w h = record {
    x = λ e.
        ramp-IsZero c.linear_x (u.mul d.linear_x s.0) linear_step (h.x e)
          (nought-IsZero d.linear_x s.0 w.linear_finite e);
    y = λ e.
        ramp-IsZero c.linear_y (u.mul d.linear_y s.0) linear_step (h.y e)
          (nought-IsZero d.linear_y s.0 w.linear_finite e);
    turn = λ e.
        ramp-IsZero c.angular_z (u.mul d.angular_z s.1) angular_step (h.turn e)
          (nought-IsZero d.angular_z s.1 w.angular_finite e);
  }

  -- What a tick of a valid profile hands over.
  pub record IsTick (p : HeldKeys) (q : HeldKeys) (sent : Motion) : Type 0 where
    pub valid : IsValid q
    pub slow : IsSlow sent
    pub serves : Serves (active_key p) sent
    pub keys : q.held_keys ≡ p.held_keys

  driven :
      (p : HeldKeys) (key : String) (d : Motion) (s : Num × Num)
      → IsValid p
      → active_key p ≡ some key
      → directions key ≡ some d
      → IsSpeeds s
      → let c = ramped p.control (target d s) in IsTick p (record p { control = c }) c
  unfolding active_key
  driven p key d s h a e w =
      let c : Motion = ramped p.control (target d s) in
      let along : IsAlong d p.control =
        subst (λ o. MovesAlong o p.control) e (subst (λ k. Serves k p.control) a h.serves) in
      let served : Serves (active_key p) c =
        subst (λ k. Serves k c) (sym a)
          (subst (λ o. MovesAlong o c) (sym e) (ramped-IsAlong d p.control s w along)) in
      let slow : IsSlow c =
        ramped-IsSlow p.control (target d s) h.slow
          (target-IsSlow d s (directions-IsUnitMotion key e) w) in
      record {
        valid = record {
          first_stage = h.first_stage;
          last_stage = h.last_stage;
          known = h.known;
          distinct = h.distinct;
          slow = slow;
          serves = served;
        };
        slow = slow;
        serves = served;
        keys = refl;
      }

  moving :
      (p : HeldKeys) (key : String)
      → IsValid p
      → active_key p ≡ some key
      → (q : HeldKeys) × (sent : Motion) × (drive p (speeds p.speed_stage) (directions key)
          ≡ some (q, sent))
        × IsTick p q sent
  unfolding drive
  moving p key h a =
      let (s, es, w) = speeds_total p.speed_stage h.first_stage h.last_stage in
      let (d, ed) = is_direction_lem key (unfold active_key in All-last _ p.held_keys h.known a) in
      (_, _, rw (es, ed), driven p key d s h a ed w)

  next_moving :
      (p : HeldKeys) (key : String)
      → active_key p ≡ some key
      → p.pending_zero ≡ false
      → next_motion p ≡ drive p (speeds p.speed_stage) (directions key)
  unfolding next_motion
  next_moving p key a e = ground arith

  -- A tick of a valid profile never fails on a missing key. It sends a stop if no key is held, and
  -- otherwise a motion along the axis of the active key, at most 0.06 m/s or 0.35 rad/s.
  pub next_motion-IsTick :
      (p : HeldKeys)
      → IsValid p
      → (q : HeldKeys) × (sent : Motion) × (next_motion p ≡ some (q, sent)) × IsTick p q sent
  unfolding next_motion
  next_motion-IsTick p h = elim (Option-cases (active_key p)) [
    | inl a ↦ (
      record p { control = stop },
      stop,
      rw (a, next_motion),
      record {
        valid =
            unfold active_key in standing-IsValid p p.held_keys p.pending_zero h h.known h.distinct;
        slow = stop-IsSlow;
        serves = stop-Serves (active_key p);
        keys = refl;
      },
    )
    | inr (key, a) ↦ elim (Bool-cases p.pending_zero) [
      | inl e ↦ (
        record p { pending_zero = false },
        stop,
        rw (a, e, next_motion),
        record {
          valid =
              unfold active_key in
              record {
                first_stage = h.first_stage;
                last_stage = h.last_stage;
                known = h.known;
                distinct = h.distinct;
                slow = h.slow;
                serves = h.serves;
              };
          slow = stop-IsSlow;
          serves = stop-Serves (active_key p);
          keys = refl;
        },
      )
      | inr e ↦
          let (q, sent, step, tick) = moving p key h a in
          (q, sent, next_moving p key a e ∙ step, tick)
    ]
  ]
