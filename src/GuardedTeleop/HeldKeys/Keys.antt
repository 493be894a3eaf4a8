-- ===== src/GuardedTeleop/HeldKeys/Keys.antt =====
-- Facts about the list of held keys.
use mathlib.Core.Option.{some-injective}
use mathlib.Core.Path.{subst}
use lekiwi.Prelude.{
  ◌≡◌, ◌↔◌, refl, true, false, Option, none, some, String, str_eq, eq_iff, List, [], ◌∷◌, ◌++◌,
  arith, All, inl, inr, Bool-cases,
}
use lekiwi.GuardedTeleop.HeldKeys.{contains, remove, last, same_key}

-- No key is held twice.
abbrev pub Distinct : List String → Type 0
Distinct [] = Unit
Distinct (k ∷ keys) = (contains k keys ≡ false) × Distinct keys

pub same_key_iff : (a b : Option String) → (same_key a b ≡ true) ↔ (a ≡ b)
unfolding same_key
same_key_iff none none = (λ _. refl, λ _. refl)
same_key_iff none (some b) = (λ h. cc, λ h. cc)
same_key_iff (some a) none = (λ h. cc, λ h. cc)
same_key_iff (some a) (some b) = ground (arith, eq_iff a b)

pub last-append : (key : String) (keys : List String) → last (keys ++ key ∷ []) ≡ some key
unfolding last
last-append key [] = refl
last-append key (k ∷ []) = refl
last-append key (k ∷ j ∷ keys) = last-append key (j ∷ keys)

pub contains-append :
    (a key : String) (keys : List String)
    → contains a keys ≡ false
    → str_eq key a ≡ false
    → contains a (keys ++ key ∷ []) ≡ false
unfolding contains
contains-append a key [] h e = ground arith
contains-append a key (k ∷ keys) h e = ground (arith, contains-append a key keys)

pub Distinct-append :
    (key : String) (keys : List String)
    → Distinct keys
    → contains key keys ≡ false
    → Distinct (keys ++ key ∷ [])
unfolding contains
Distinct-append key [] h e = (refl, tt)
Distinct-append key (k ∷ keys) (fresh, h) e =
    ground (arith, contains-append k key keys, Distinct-append key keys, eq_iff k key, eq_iff key k)

pub contains-last :
    (keys : List String) {key : String} → last keys ≡ some key → contains key keys ≡ true
unfolding last contains
contains-last [] h = cc
contains-last (k ∷ []) {key} h = ground (arith, eq_iff k key)
contains-last (k ∷ j ∷ keys) {key} h = ground (arith, contains-last (j ∷ keys) h)

pub contains-remove_ne :
    (a key : String) (keys : List String)
    → contains a keys ≡ false
    → contains a (remove key keys) ≡ false
unfolding contains remove
contains-remove_ne a key [] h = refl
contains-remove_ne a key (k ∷ keys) h = ground (arith, contains-remove_ne a key keys)

pub Distinct-remove :
    (key : String) (keys : List String) → Distinct keys → Distinct (remove key keys)
unfolding remove
Distinct-remove key [] h = tt
Distinct-remove key (k ∷ keys) h =
    ground (arith, contains-remove_ne k key keys, Distinct-remove key keys)

-- Once released a key is not held, for no key was held twice.
pub contains-remove_self :
    (key : String) (keys : List String) → Distinct keys → contains key (remove key keys) ≡ false
unfolding contains remove
contains-remove_self key [] h = refl
contains-remove_self key (k ∷ keys) h = ground (arith, contains-remove_self key keys, eq_iff k key)

pub All-remove :
    (P : String → Type 0) (key : String) (keys : List String) → All P keys → All P (remove key keys)
unfolding remove
All-remove P key [] h = tt
All-remove P key (k ∷ keys) h = elim (Bool-cases (str_eq k key)) [
  | inl e ↦ rw e h.1
  | inr e ↦ rw e (h.0, All-remove P key keys h.1)
]

pub All-last :
    (P : String → Type 0) (keys : List String) {key : String}
    → All P keys
    → last keys ≡ some key
    → P key
unfolding last
All-last P [] h e = cc
All-last P (k ∷ []) h e = subst P (some-injective k _ e) h.0
All-last P (k ∷ j ∷ keys) h e = All-last P (j ∷ keys) h.1 e
