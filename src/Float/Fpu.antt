-- ===== src/Float/Fpu.antt =====
-- The machine's arithmetic on floats, as the documented behaviour of IEEE 754 that the code relies on:
-- each result is the exact one rounded, so it keeps the order and the sign.
use lekiwi.Prelude.{ℕ, ◌≤◌, ◌<◌, ◌≡◌, true, false}
use lekiwi.Float.{Num, rank, is_nan, isfinite, neg, nought, one}
use lekiwi.Float.Order.{IsWithin}

pub record Fpu : Type 0 where
  -- `+`, `-`, `*` and `/` on floats, and `/` on two ints
  pub add : Num → Num → Num
  pub sub : Num → Num → Num
  pub mul : Num → Num → Num
  pub div : Num → Num → Num
  pub ratio : ℕ → ℕ → Num
  -- adding what is not negative does not go down, and subtracting it does not go up
  pub add_up :
      (a s : Num)
      → isfinite a ≡ true
      → isfinite s ≡ true
      → rank nought ≤ rank s
      → (is_nan (add a s) ≡ false) × (rank a ≤ rank (add a s))
  pub sub_down :
      (a s : Num)
      → isfinite a ≡ true
      → isfinite s ≡ true
      → rank nought ≤ rank s
      → (is_nan (sub a s) ≡ false) × (rank (sub a s) ≤ rank a)
  -- a quotient of two ints in order lies between 0 and 1
  pub ratio_unit : (m n : ℕ) → m ≤ n → 0 < n → IsWithin nought one (ratio m n)
  pub ratio_zero : (n : ℕ) → 0 < n → ratio 0 n ≡ nought
  -- the inverse of a number that is at least 1 lies between 0 and 1
  pub div_unit : (s : Num) → isfinite s ≡ true → rank one ≤ rank s → IsWithin nought one (div one s)
  -- a factor between 0 and 1 brings a number nearer to 0
  pub mul_up :
      (a s : Num)
      → isfinite a ≡ true
      → IsWithin nought one s
      → rank nought ≤ rank a
      → IsWithin nought a (mul a s)
  pub mul_down :
      (a s : Num)
      → isfinite a ≡ true
      → IsWithin nought one s
      → rank a ≤ rank nought
      → IsWithin a nought (mul a s)
  pub mul_finite : (a b : Num) → isfinite a ≡ true → isfinite b ≡ true → is_nan (mul a b) ≡ false
  pub mul_one : (a : Num) → isfinite a ≡ true → rank (mul one a) ≡ rank a
  pub mul_nought :
      (a b : Num)
      → isfinite a ≡ true
      → isfinite b ≡ true
      → rank b ≡ rank nought
      → rank (mul a b) ≡ rank nought
  pub mul_comm : (a b : Num) → isfinite a ≡ true → isfinite b ≡ true → mul a b ≡ mul b a
  pub mul_neg :
      (a b : Num)
      → isfinite a ≡ true
      → isfinite b ≡ true
      → rank (mul (neg a) b) ≡ rank (neg (mul a b))
