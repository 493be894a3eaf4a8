-- ===== src/GuardedTeleop/HeldKeys/Abstract.antt =====
-- The held keys as a set: a key is held if the last that was heard of it is that it was pressed.
use lekiwi.Prelude.{
  ◌≡◌, refl, sym, ap, ◌∙◌, ℕ, Bool, true, false, not, ◌&&◌, ◌||◌, Option, none, some, String,
  str_eq, eq_iff, List, [], ◌∷◌, ◌++◌, ◌⊎◌, inl, inr, arith, if◌then◌else◌, Bool-cases,
}
use lekiwi.GuardedTeleop.HeldKeys.{
  directions, is_direction, HeldKeys, initial, contains, remove, stage_of, clear, hold, press,
  release,
}
use lekiwi.GuardedTeleop.HeldKeys.Keys.{Distinct, contains-remove_self}
use lekiwi.GuardedTeleop.HeldKeys.Invariant.{
  IsValid, initial-IsValid, press-IsValid, release-IsValid,
}

-- What the window hears of the keyboard.
pub data Input : Type 0 where
  pressed : String → Input
  released : String → Input

-- The profile after some inputs, latest first
unfoldable pub profile_after : List Input → HeldKeys
profile_after [] = initial
profile_after (pressed key ∷ inputs) = (press key (profile_after inputs)).0
profile_after (released key ∷ inputs) = (release key (profile_after inputs)).0

-- Whether a key is held after some inputs: `space` lets go of all keys.
unfoldable pub is_held : String → List Input → Bool
is_held key [] = false
is_held key (pressed k ∷ inputs) =
    if str_eq k "space" then false else (str_eq k key && is_direction key) || is_held key inputs
is_held key (released k ∷ inputs) = not (str_eq k key) && is_held key inputs

pub profile_after-IsValid : (inputs : List Input) → IsValid (profile_after inputs)
unfolding profile_after
profile_after-IsValid [] = initial-IsValid
profile_after-IsValid (pressed key ∷ inputs) =
    press-IsValid key (profile_after inputs) (profile_after-IsValid inputs)
profile_after-IsValid (released key ∷ inputs) =
    release-IsValid key (profile_after inputs) (profile_after-IsValid inputs)

contains-append_eq :
    (key k : String) (keys : List String)
    → contains key (keys ++ k ∷ []) ≡ str_eq k key || contains key keys
unfolding contains
contains-append_eq key k [] = ground arith
contains-append_eq key k (j ∷ keys) = ground (arith, contains-append_eq key k keys)

contains-remove_other :
    (key k : String) (keys : List String)
    → str_eq k key ≡ false
    → contains key (remove k keys) ≡ contains key keys
unfolding contains remove
contains-remove_other key k [] h = refl
contains-remove_other key k (j ∷ keys) h = elim (Bool-cases (str_eq j k)) [
  | inl e ↦
      let f : str_eq j key ≡ false = ap (λ x. str_eq x key) ((eq_iff j k).0 e) ∙ h in ground arith
  | inr e ↦ ground (arith, contains-remove_other key k keys h)
]

-- The keys that a press leaves held
hold-held :
    (key k : String) (p : HeldKeys)
    → contains key (hold k p).0.held_keys
      ≡ (str_eq k key && is_direction key) || contains key p.held_keys
unfolding hold
hold-held key k p = elim (Bool-cases (str_eq k key)) [
  | inl e ↦
      let same : k ≡ key = (eq_iff k key).0 e in
      let d : is_direction k ≡ is_direction key = ap is_direction same in
      let c : contains k p.held_keys ≡ contains key p.held_keys =
        ap (λ x. contains x p.held_keys) same in
      ground (arith, contains-append_eq key k p.held_keys)
  | inr e ↦ ground (arith, contains-append_eq key k p.held_keys)
]

-- The keys that a release leaves held
release-held :
    (key k : String) (p : HeldKeys)
    → Distinct p.held_keys
    → contains key (release k p).0.held_keys ≡ not (str_eq k key) && contains key p.held_keys
unfolding release
release-held key k p d = elim (Bool-cases (str_eq k key)) [
  | inl e ↦
      let same : k ≡ key = (eq_iff k key).0 e in
      let c : contains k p.held_keys ≡ contains key p.held_keys =
        ap (λ x. contains x p.held_keys) same in
      let gone : contains key (remove k p.held_keys) ≡ false =
        ap (λ x. contains x (remove k p.held_keys)) (sym same)
        ∙ contains-remove_self k p.held_keys d in
      ground arith
  | inr e ↦ ground (arith, contains-remove_other key k p.held_keys e)
]

-- A stage key is no direction, and not `space`.
stage_keys : (k : String) (n : ℕ) → stage_of k ≡ some n → (k ≡ "1") ⊎ ((k ≡ "2") ⊎ (k ≡ "3"))
unfolding stage_of
stage_keys k n h = elim (Bool-cases (str_eq k "1")) [
  | inl e ↦ inl ((eq_iff k "1").0 e)
  | inr e ↦ elim (Bool-cases (str_eq k "2")) [
    | inl f ↦ inr (inl ((eq_iff k "2").0 f))
    | inr f ↦ inr (inr ((eq_iff k "3").0 (ground arith)))
  ]
]

abbrev is_plain : String → Bool
is_plain k = not (is_direction k) && not (str_eq k "space")

stage-plain : (k : String) (n : ℕ) → stage_of k ≡ some n → is_plain k ≡ true
unfolding is_direction directions
stage-plain k n h = elim (stage_keys k n h) [
  | inl e ↦ ap is_plain e
  | inr (inl e) ↦ ap is_plain e
  | inr (inr e) ↦ ap is_plain e
]

press-held :
    (key k : String) (p : HeldKeys)
    → contains key (press k p).0.held_keys ≡ (
        if str_eq k "space"
        then false
        else (str_eq k key && is_direction key) || contains key p.held_keys)
unfolding press clear contains
press-held key k p = staged (stage_of k) refl
  where
    other :
        (b : Bool)
        → contains key (if b then (clear p, true) else hold k p).0.held_keys
          ≡ (if b then false else (str_eq k key && is_direction key) || contains key p.held_keys)
    other true = refl
    other false = hold-held key k p

    plain :
        is_plain k ≡ true
        → contains key p.held_keys ≡ (
            if str_eq k "space"
            then false
            else (str_eq k key && is_direction key) || contains key p.held_keys)
    plain h = elim (Bool-cases (str_eq k key)) [
      | inl e ↦
          let d : is_direction k ≡ is_direction key = ap is_direction ((eq_iff k key).0 e) in
          ground arith
      | inr e ↦ ground arith
    ]

    -- the two ends of `press`
    staged :
        (o : Option ℕ)
        → stage_of k ≡ o
        → contains key
            (elim o as (λ _. HeldKeys × Bool) [
              | some n ↦ (record p { speed_stage = n }, true)
              | none ↦ if str_eq k "space" then (clear p, true) else hold k p
            ]).0.held_keys
          ≡ (if str_eq k "space"
              then false
              else (str_eq k key && is_direction key) || contains key p.held_keys)
    staged none e = other (str_eq k "space")
    staged (some n) e = plain (stage-plain k n e)

-- After any presses and releases from the start on, the profile holds exactly the keys that the inputs
-- leave held: a direction key from its press to its release or to `space`.
pub profile_after-is_held :
    (inputs : List Input) (key : String)
    → contains key (profile_after inputs).held_keys ≡ is_held key inputs
unfolding profile_after is_held contains initial
profile_after-is_held [] key = refl
profile_after-is_held (pressed k ∷ inputs) key =
    press-held key k (profile_after inputs)
    ∙ ap (λ b. if str_eq k "space" then false else (str_eq k key && is_direction key) || b)
        (profile_after-is_held inputs key)
profile_after-is_held (released k ∷ inputs) key =
    release-held key k (profile_after inputs) (profile_after-IsValid inputs).distinct
    ∙ ap (λ b. not (str_eq k key) && b) (profile_after-is_held inputs key)
