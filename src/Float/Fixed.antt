-- ===== src/Float/Fixed.antt =====
-- An arithmetic that meets the laws, for runs at concrete inputs: a pattern stands for its magnitude
-- in fixed point, and results saturate at the largest finite pattern.
use lekiwi.Prelude.{
  ℕ, ◌+◌, ◌-◌, ◌*◌, ◌/◌, ◌%◌, ◌^◌, ◌≤◌, ◌<◌, ◌≡◌, Bool, true, false, arith, leb, if◌then◌else◌,
}
use native.Mathlib.Nat.{div-le_of_le-mul, mul_comm, mul-div_cancel_left, zero-div}
use lekiwi.Float.{Num, rank, is_nan, isfinite, neg, nought, one}
use lekiwi.Float.Order.{IsWithin}
use lekiwi.Float.Fpu.{Fpu}

abbrev largest : ℕ
largest = 0x7fefffffffffffff

saturate : ℕ → ℕ
saturate m = if leb m largest then m else largest

of_rank : ℕ → Num
unfolding saturate
of_rank r = if leb (2 ^ 63) r then saturate (r - 2 ^ 63) else 2 ^ 63 + saturate (2 ^ 63 - r)

is_minus : Num → Bool
is_minus b = leb (2 ^ 63) (b % 2 ^ 64)

signed : Bool → ℕ → Num
signed s m = if s then 2 ^ 63 + m else m

differ : Bool → Bool → Bool
differ true b = if b then false else true
differ false b = b

unfoldable pub fixed_add : Num → Num → Num
unfolding of_rank
fixed_add a b = of_rank (rank a + rank b - 2 ^ 63)

unfoldable pub fixed_sub : Num → Num → Num
unfolding of_rank
fixed_sub a b = of_rank (rank a + 2 ^ 63 - rank b)

product : ℕ → ℕ → ℕ
unfolding saturate
product m n = saturate (m * n / one)

unfoldable pub fixed_mul : Num → Num → Num
unfolding signed product differ is_minus
fixed_mul a b = signed (differ (is_minus a) (is_minus b)) (product (a % 2 ^ 63) (b % 2 ^ 63))

unfoldable pub fixed_div : Num → Num → Num
unfolding signed saturate differ is_minus
fixed_div a b =
    signed (differ (is_minus a) (is_minus b)) (saturate (a % 2 ^ 63 * one / (b % 2 ^ 63)))

unfoldable pub fixed_ratio : ℕ → ℕ → Num
unfolding saturate
fixed_ratio m n = saturate (m * one / n)

pub add_up :
    (a s : Num)
    → isfinite a ≡ true
    → isfinite s ≡ true
    → rank nought ≤ rank s
    → (is_nan (fixed_add a s) ≡ false) × (rank a ≤ rank (fixed_add a s))
unfolding fixed_add rank is_nan isfinite
add_up a s fa fs h = ground arith

pub sub_down :
    (a s : Num)
    → isfinite a ≡ true
    → isfinite s ≡ true
    → rank nought ≤ rank s
    → (is_nan (fixed_sub a s) ≡ false) × (rank (fixed_sub a s) ≤ rank a)
unfolding fixed_sub rank is_nan isfinite
sub_down a s fa fs h = ground arith

-- A product with a factor below one is no larger.
product-le : (m n : ℕ) → n ≤ one → product m n ≤ m
unfolding product
product-le m n h = ground (arith, div-le_of_le-mul one {m = m * n} {n = m} (grind arith))

ratio-le : (m n : ℕ) → m ≤ n → 0 < n → m * one / n ≤ one
ratio-le m n h p = div-le_of_le-mul n (grind arith)

product_comm : (m n : ℕ) → product m n ≡ product n m
unfolding product
product_comm m n = rw (mul_comm m n)

product-nought : (m : ℕ) → product m 0 ≡ 0
unfolding product
product-nought m = ground arith

product-one : (m : ℕ) → m ≤ largest → product one m ≡ m
unfolding product
product-one m h = ground (arith, mul-div_cancel_left m {n = one} (omega arith))

pub ratio_unit : (m n : ℕ) → m ≤ n → 0 < n → IsWithin nought one (fixed_ratio m n)
unfolding fixed_ratio rank is_nan
ratio_unit m n h p = ground (arith, ratio-le m n h p)

pub ratio_zero : (n : ℕ) → 0 < n → fixed_ratio 0 n ≡ nought
unfolding fixed_ratio
ratio_zero n p = ground (arith, zero-div n)

product-saturated : (m n : ℕ) → product m n ≤ largest
unfolding product
product-saturated m n = ground arith

module _ (a s : Num) (fa : isfinite a ≡ true) (unit : IsWithin nought one s) where
  pub mul_up : rank nought ≤ rank a → IsWithin nought a (fixed_mul a s)
  unfolding fixed_mul rank is_nan isfinite
  mul_up h =
      ground
        (arith, product-le (a % 2 ^ 63) (s % 2 ^ 63), product-saturated (a % 2 ^ 63) (s % 2 ^ 63))

  pub mul_down : rank a ≤ rank nought → IsWithin a nought (fixed_mul a s)
  unfolding fixed_mul rank is_nan isfinite
  mul_down h =
      ground
        (arith, product-le (a % 2 ^ 63) (s % 2 ^ 63), product-saturated (a % 2 ^ 63) (s % 2 ^ 63))

module _ (a b : Num) (fa : isfinite a ≡ true) (fb : isfinite b ≡ true) where
  pub mul_finite : is_nan (fixed_mul a b) ≡ false
  unfolding fixed_mul is_nan
  mul_finite = ground (arith, product-saturated (a % 2 ^ 63) (b % 2 ^ 63))

  pub mul_comm' : fixed_mul a b ≡ fixed_mul b a
  unfolding fixed_mul
  mul_comm' = ground (arith, product_comm (a % 2 ^ 63) (b % 2 ^ 63))

  pub mul_nought : rank b ≡ rank nought → rank (fixed_mul a b) ≡ rank nought
  unfolding fixed_mul rank
  mul_nought h = ground (arith, product-nought (a % 2 ^ 63))

  pub mul_neg : rank (fixed_mul (neg a) b) ≡ rank (neg (fixed_mul a b))
  unfolding fixed_mul rank neg
  mul_neg = ground (arith)

pub mul_one : (a : Num) → isfinite a ≡ true → rank (fixed_mul one a) ≡ rank a
unfolding fixed_mul rank isfinite
mul_one a fa = ground (arith, product-one (a % 2 ^ 63))

inverse-le : (n : ℕ) → one ≤ n → one * one / n ≤ one
inverse-le n h = div-le_of_le-mul n {m = one * one} {n = one} (omega (arith, h))

pub div_unit :
    (s : Num) → isfinite s ≡ true → rank one ≤ rank s → IsWithin nought one (fixed_div one s)
unfolding fixed_div rank is_nan isfinite
div_unit s f h = ground (arith, inverse-le (s % 2 ^ 63))

-- The laws can be met.
instance abbrev pub fixed : Fpu
fixed = record {
  add = fixed_add;
  sub = fixed_sub;
  mul = fixed_mul;
  div = fixed_div;
  ratio = fixed_ratio;
  add_up = add_up;
  sub_down = sub_down;
  ratio_unit = ratio_unit;
  ratio_zero = ratio_zero;
  div_unit = div_unit;
  mul_up = mul_up;
  mul_down = mul_down;
  mul_finite = mul_finite;
  mul_one = mul_one;
  mul_nought = mul_nought;
  mul_comm = mul_comm';
  mul_neg = mul_neg;
}
