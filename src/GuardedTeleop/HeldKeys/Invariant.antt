-- ===== src/GuardedTeleop/HeldKeys/Invariant.antt =====
-- What holds of the held keys and the control between two events.
use lekiwi.Prelude.{
  ℕ, ◌≤◌, ◌≡◌, refl, sym, Bool, true, false, Option, none, some, String, str_eq, eq_iff, List, [],
  ◌∷◌, ◌++◌, arith, All, All-append, inl, inr, Bool-cases, Option-cases,
}
use mathlib.Core.Path.{subst}
use lekiwi.Float.{Num, rank, is_nan, neg, nought}
use lekiwi.MotorSession.{Motion, stop}
use lekiwi.GuardedTeleop.Limits.{IsBounded, IsZero, stop-IsStill}
use lekiwi.GuardedTeleop.HeldKeys.{
  directions, is_direction, HeldKeys, initial, contains, remove, last, active_key, same_key,
  stage_of, clear, hold, press, release,
}
use lekiwi.GuardedTeleop.HeldKeys.Keys.{
  Distinct, same_key_iff, Distinct-append, contains-last, Distinct-remove, All-remove,
}

-- The largest entries of SPEEDS: 0.06 and 0.35
abbrev pub max_linear : Num
max_linear = 0x3faeb851eb851eb8

abbrev pub max_angular : Num
max_angular = 0x3fd6666666666666

pub record IsSlow (m : Motion) : Type 0 where
  pub x : IsBounded max_linear m.linear_x
  pub y : IsBounded max_linear m.linear_y
  pub turn : IsBounded max_angular m.angular_z

-- `m` moves along no axis but that of the direction `d`.
pub record IsAlong (d m : Motion) : Type 0 where
  pub x : d.linear_x ≡ nought → IsZero m.linear_x
  pub y : d.linear_y ≡ nought → IsZero m.linear_y
  pub turn : d.angular_z ≡ nought → IsZero m.angular_z

abbrev pub MovesAlong : Option Motion → Motion → Type 0
MovesAlong none m = Unit
MovesAlong (some d) m = IsAlong d m

-- `m` is a motion of the active key; with no key it is a stop.
abbrev pub Serves : Option String → Motion → Type 0
Serves none m = m ≡ stop
Serves (some key) m = MovesAlong (directions key) m

pub record IsValid (p : HeldKeys) : Type 0 where
  pub first_stage : 1 ≤ p.speed_stage
  pub last_stage : p.speed_stage ≤ 3
  pub known : All (λ k. is_direction k ≡ true) p.held_keys
  pub distinct : Distinct p.held_keys
  pub slow : IsSlow p.control
  pub serves : Serves (active_key p) p.control

pub stop-IsSlow : IsSlow stop
unfolding rank neg is_nan
stop-IsSlow = ground arith

stop-MovesAlong : (d : Option Motion) → MovesAlong d stop
stop-MovesAlong none = tt
stop-MovesAlong (some d) = record {
  x = λ _. stop-IsStill.x;
  y = λ _. stop-IsStill.y;
  turn = λ _. stop-IsStill.turn;
}

pub stop-Serves : (key : Option String) → Serves key stop
stop-Serves none = refl
stop-Serves (some key) = stop-MovesAlong (directions key)

pub initial-IsValid : IsValid initial
unfolding initial active_key last
initial-IsValid = record {
  first_stage = omega arith;
  last_stage = omega arith;
  known = tt;
  distinct = tt;
  slow = stop-IsSlow;
  serves = refl;
}

-- A profile that stands still is valid, whatever keys it holds.
pub standing-IsValid :
    (p : HeldKeys) (keys : List String) (pending : Bool)
    → IsValid p
    → All (λ k. is_direction k ≡ true) keys
    → Distinct keys
    → IsValid (record p { held_keys = keys; control = stop; pending_zero = pending })
unfolding active_key
standing-IsValid p keys pending h known distinct = record {
  first_stage = h.first_stage;
  last_stage = h.last_stage;
  known = known;
  distinct = distinct;
  slow = stop-IsSlow;
  serves = stop-Serves (last keys);
}

stage_of_bounds : (key : String) {n : ℕ} → stage_of key ≡ some n → (1 ≤ n) × (n ≤ 3)
unfolding stage_of
stage_of_bounds key h = ground arith

staged-IsValid :
    (p : HeldKeys) (n : ℕ) → IsValid p → 1 ≤ n → n ≤ 3 → IsValid (record p { speed_stage = n })
unfolding active_key
staged-IsValid p n h a b = record {
  first_stage = a;
  last_stage = b;
  known = h.known;
  distinct = h.distinct;
  slow = h.slow;
  serves = h.serves;
}

-- The first key that is held may start from the standstill that was there.
extended-IsValid :
    (key : String) (p : HeldKeys)
    → IsValid p
    → is_direction key ≡ true
    → contains key p.held_keys ≡ false
    → active_key p ≡ none
    → IsValid (record p { held_keys = p.held_keys ++ key ∷ [] })
unfolding active_key
extended-IsValid key p h e c a = record {
  first_stage = h.first_stage;
  last_stage = h.last_stage;
  known = All-append _ p.held_keys (key ∷ []) h.known (e, tt);
  distinct = Distinct-append key p.held_keys h.distinct c;
  slow = h.slow;
  serves =
      subst (Serves (last (p.held_keys ++ key ∷ [])))
        (sym (subst (λ k. Serves k p.control) a h.serves))
        (stop-Serves (last (p.held_keys ++ key ∷ [])));
}

-- The active key is held.
other_active :
    (key : String) (p : HeldKeys)
    → contains key p.held_keys ≡ false
    → (k : String) → active_key p ≡ some k
    → str_eq k key ≡ true
    → ⊥
unfolding active_key
other_active key p c k a same = ground (arith, contains-last p.held_keys a, eq_iff k key)

hold-IsValid : (key : String) (p : HeldKeys) → IsValid p → IsValid (hold key p).0
unfolding hold same_key
hold-IsValid key p h = elim (Bool-cases (is_direction key)) [
  | inr e ↦ rw (e, hold) h
  | inl e ↦ elim (Bool-cases (contains key p.held_keys)) [
    | inl c ↦ rw (e, c, hold) h
    | inr c ↦
        rw (e, c, hold)
          elim (Option-cases (active_key p)) [
            | inl a ↦ rw (a, same_key) (extended-IsValid key p h e c a)
            | inr (k, a) ↦
                rw (a, same_key)
                  (elim (Bool-cases (str_eq k key)) [
                    | inl same ↦ absurd (other_active key p c k a same)
                    | inr other ↦ rw other (
                        standing-IsValid p _ true h
                          (All-append _ p.held_keys (key ∷ []) h.known (e, tt))
                          (Distinct-append key p.held_keys h.distinct c))
                  ])
          ]
  ]
]

-- Every press leaves a valid profile.
pub press-IsValid : (key : String) (p : HeldKeys) → IsValid p → IsValid (press key p).0
unfolding press
press-IsValid key p h = elim (Option-cases (stage_of key)) [
  | inl e ↦
      rw (e, press)
        (elim (Bool-cases (str_eq key "space")) [
          | inl c ↦ rw c (unfold clear in standing-IsValid p [] false h tt tt)
          | inr c ↦ rw c (hold-IsValid key p h)
        ])
  | inr (n, e) ↦
      rw (e, press) (staged-IsValid p n h (stage_of_bounds key e).0 (stage_of_bounds key e).1)
]

-- Releasing a key that is not the active one leaves the motion as it was.
removed-IsValid :
    (key : String) (p : HeldKeys)
    → IsValid p
    → same_key (last (remove key p.held_keys)) (last p.held_keys) ≡ true
    → IsValid (record p { held_keys = remove key p.held_keys })
unfolding active_key
removed-IsValid key p h same = record {
  first_stage = h.first_stage;
  last_stage = h.last_stage;
  known = All-remove _ key p.held_keys h.known;
  distinct = Distinct-remove key p.held_keys h.distinct;
  slow = h.slow;
  serves = subst (λ k. Serves k p.control) (sym ((same_key_iff _ _).0 same)) h.serves;
}

-- Every release leaves a valid profile.
pub release-IsValid : (key : String) (p : HeldKeys) → IsValid p → IsValid (release key p).0
unfolding release active_key
release-IsValid key p h = elim (Bool-cases (contains key p.held_keys)) [
  | inr c ↦ rw (c, release) h
  | inl c ↦
      rw (c, release)
        (elim (Bool-cases (same_key (last (remove key p.held_keys)) (last p.held_keys))) [
          | inl same ↦ rw (same, active_key) (removed-IsValid key p h same)
          | inr changed ↦
              rw (changed, active_key)
                (standing-IsValid p _ _ h (All-remove _ key p.held_keys h.known)
                  (Distinct-remove key p.held_keys h.distinct))
        ])
]
