-- ===== src/DistanceTrial/Values.antt =====
-- What a parameter of the base's controller must be, for the tests of `validate_parameters` to pass.
use lekiwi.Prelude.{
  ◌≡◌, refl, Bool, true, false, ap, ◌⊎◌, inl, inr, eq_iff, Option, none, some, String, arith,
  if◌then◌else◌,
}
use lekiwi.Float.{Num, one, nought, is_nan, rank, isfinite, lt, feq}
use lekiwi.DistanceTrial.{
  Value, text, boolean, number, other, num_or, equals, number_of, is_positive,
}

-- A parameter that equals a bool: that bool, or 0 or 1 as a number.
abbrev pub IsFlag : Bool → Option Value → Type 0
IsFlag b v =
    (v ≡ some (boolean b))
    ⊎ ((n : Num) × (v ≡ some (number n)) × (feq n (if b then one else nought) ≡ true))

-- A parameter that is a finite positive number, with the number: True counts as 1.
abbrev pub Positive : Option Value → Type 0
Positive v =
    (n : Num) × ((v ≡ some (number n)) ⊎ ((v ≡ some (boolean true)) × (n ≡ one)))
    × (isfinite n ≡ true)
    × (lt nought n ≡ true)

pub text_at : (v : Option Value) (t : String) → equals v (text t) ≡ true → v ≡ some (text t)
text_at none t e = cc e
text_at (some (text a)) t e = ap (λ x. some (text x)) ((eq_iff a t).0 e)
text_at (some (boolean b)) t e = cc e
text_at (some (number n)) t e = cc e
text_at (some other) t e = cc e

pub equals-IsFlag : (b : Bool) (v : Option Value) → equals v (boolean b) ≡ true → IsFlag b v
unfolding feq is_nan rank
equals-IsFlag true none e = cc e
equals-IsFlag false none e = cc e
equals-IsFlag true (some (text a)) e = cc e
equals-IsFlag false (some (text a)) e = cc e
equals-IsFlag true (some (boolean true)) e = inl refl
equals-IsFlag false (some (boolean true)) e = cc e
equals-IsFlag true (some (boolean false)) e = cc e
equals-IsFlag false (some (boolean false)) e = inl refl
equals-IsFlag true (some (number n)) e = inr (n, refl, e)
equals-IsFlag false (some (number n)) e = inr (n, refl, e)
equals-IsFlag true (some other) e = cc e
equals-IsFlag false (some other) e = cc e

-- A number that passed, with how the code reads it.
pub positive_at :
    (v : Option Value)
    → is_positive (number_of v) ≡ true
    → (q : Positive v) × (num_or nought (number_of v) ≡ q.0)
unfolding isfinite lt is_nan rank
positive_at none e = cc e
positive_at (some (text a)) e = cc e
positive_at (some (boolean true)) e = ((one, inr (refl, refl), refl, refl), refl)
positive_at (some (boolean false)) e = cc e
positive_at (some (number n)) e = ((n, inl refl, ground arith, ground arith), refl)
positive_at (some other) e = cc e
