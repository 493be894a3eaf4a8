-- ===== src/GuardedTeleop/HeldKeys/Stops.antt =====
-- Letting go stops the base at once.
use lekiwi.Prelude.{
  ◌≡◌, ◌∙◌, true, false, Option, none, some, String, str_eq, eq_iff, List, arith, inl, inr,
  Bool-cases, Option-cases,
}
use lekiwi.Float.Fpu.{Fpu}
use lekiwi.MotorSession.{Motion, stop}
use lekiwi.GuardedTeleop.HeldKeys.{
  is_direction, HeldKeys, contains, remove, last, active_key, same_key, stage_of, hold, press,
  release, next_motion,
}
use lekiwi.GuardedTeleop.HeldKeys.Keys.{
  Distinct, contains-remove_self, contains-last, same_key_iff, last-append,
}
use lekiwi.GuardedTeleop.HeldKeys.Invariant.{IsValid}

-- What the next tick sends, if it does not fail.
abbrev pub sent_of : Option (HeldKeys × Motion) → Option Motion
sent_of none = none
sent_of (some (q, m)) = some m

-- Removing the last key makes another key the last one, or none.
active_changes :
    (key : String) (keys : List String)
    → Distinct keys
    → last keys ≡ some key
    → same_key (last (remove key keys)) (last keys) ≡ false
active_changes key keys h a = elim (Bool-cases (same_key (last (remove key keys)) (last keys))) [
  | inr e ↦ e
  | inl e ↦ absurd (
      cc (
        contains-last (remove key keys) ((same_key_iff _ _).0 e ∙ a),
        contains-remove_self key keys h,
      ))
]

-- A key that is not held is not the active one.
other_active :
    (key : String) (keys : List String)
    → contains key keys ≡ false
    → (k : String) → last keys ≡ some k
    → str_eq k key ≡ false
other_active key keys c k a = ground (arith, contains-last keys a, eq_iff k key)

module _ ⦃u : Fpu⦄ where
  -- With no key held the next tick sends a stop.
  idle_stops : (p : HeldKeys) → active_key p ≡ none → sent_of (next_motion p) ≡ some stop
  unfolding next_motion
  idle_stops p a = ground arith

  paused_stops : (p : HeldKeys) → p.pending_zero ≡ true → sent_of (next_motion p) ≡ some stop
  unfolding next_motion
  paused_stops p a = ground arith

  -- Releasing the active key of a valid profile is noticed, whatever other keys are held; the key is
  -- then held no more, the control is a stop, and so is the motion of the next tick.
  pub release_stops :
      (key : String) (p : HeldKeys)
      → IsValid p
      → active_key p ≡ some key
      → let (q, changed) = release key p in
        (changed ≡ true)
        × (contains key q.held_keys ≡ false)
        × (q.control ≡ stop)
        × (sent_of (next_motion q) ≡ some stop)
  unfolding release active_key same_key next_motion
  release_stops key p h a = elim (Option-cases (last (remove key p.held_keys))) [
    | inl e ↦ ground (arith, gone, held, noticed)
    | inr (k, e) ↦ ground (arith, gone, held, noticed)
  ]
    where
      held : contains key p.held_keys ≡ true
      held = contains-last p.held_keys a

      gone : contains key (remove key p.held_keys) ≡ false
      gone = contains-remove_self key p.held_keys h.distinct

      noticed : same_key (last (remove key p.held_keys)) (last p.held_keys) ≡ false
      noticed = active_changes key p.held_keys h.distinct a

  -- Pressing another direction key makes that key the active one, and the next tick sends a stop
  -- before the base moves in the new direction.
  pub press_stops :
      (key : String) {k : String} (p : HeldKeys)
      → stage_of key ≡ none
      → str_eq key "space" ≡ false
      → is_direction key ≡ true
      → contains key p.held_keys ≡ false
      → active_key p ≡ some k
      → let (q, changed) = press key p in
        (changed ≡ true) × (active_key q ≡ some key) × (sent_of (next_motion q) ≡ some stop)
  unfolding press hold active_key same_key next_motion
  press_stops key {k} p n sp d c a =
      ground (arith, last-append key p.held_keys, other_active key p.held_keys c k a)
