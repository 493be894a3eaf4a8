-- ===== src/SensorCheck/Record.antt =====
-- The records that a probe prints, one JSON dictionary per line, and the tests of their values.
use lekiwi.Prelude.{
  ℕ, Bool, true, false, ◌&&◌, Option, none, some, String, str_eq, List, [], ◌∷◌, leb, ◌==◌, length,
  zero, suc, if◌then◌else◌,
}
use lekiwi.Float.{Num, isfinite, nought, le, feq, fabs}

-- An int of Python: `negsuc n` is -(n + 1).
pub data ℤ : Type 0 where
  pos : ℕ → ℤ
  negsuc : ℕ → ℤ

-- What `json.loads` returns: an int is not a float, and a bool is neither. A dictionary of a parsed text
-- has each key once.
mutual
  pub data Json : Type 0 where
    null : Json
    boolean : Bool → Json
    whole : ℤ → Json
    real : Num → Json
    text : String → Json
    array : Elements → Json
    object : Fields → Json

  pub data Elements : Type 0 where
    no_element : Elements
    element : Json → Elements → Elements

  pub data Fields : Type 0 where
    no_field : Fields
    field : String → Json → Fields → Fields

-- `fields.get(key)`
unfoldable pub get : String → Fields → Option Json
get key no_field = none
get key (field k v fields) = if str_eq k key then some v else get key fields

abbrev pub items : Elements → List Json
items no_element = []
items (element v vs) = v ∷ items vs

-- The list that a value is, if it is one.
abbrev pub list_of : Option Json → Option (List Json)
list_of (some (array vs)) = some (items vs)
list_of _ = none

-- `value is True`
abbrev pub is_true : Option Json → Bool
is_true (some (boolean true)) = true
is_true _ = false

-- `record.get("type") == name`
abbrev pub is_text : String → Option Json → Bool
is_text name (some (text t)) = str_eq t name
is_text name _ = false

unfoldable pub has_type : String → Fields → Bool
has_type name r = is_text name (get "type" r)

-- `type(v) is int and 0 <= v`, with the number
abbrev pub natural : Option Json → Option ℕ
natural (some (whole (pos n))) = some n
natural _ = none

abbrev pub nat_or : ℕ → Option ℕ → ℕ
nat_or d none = d
nat_or d (some n) = n

-- `record[key]`, of a key that was found to hold an int that is not negative
unfoldable pub natural_at : String → Fields → ℕ
natural_at key r = nat_or 0 (natural (get key r))

-- `type(v) is int and 0 <= v` and what is asked of the number more
abbrev pub natural_with : (ℕ → Bool) → Option ℕ → Bool
natural_with test none = false
natural_with test (some n) = test n

-- `type(v) is int and -32768 <= v <= 32767`
abbrev pub is_int16 : Json → Bool
is_int16 (whole (pos n)) = leb n 32767
is_int16 (whole (negsuc n)) = leb n 32767
is_int16 _ = false

abbrev pub same_int : ℤ → ℤ → Bool
same_int (pos m) (pos n) = m == n
same_int (negsuc m) (negsuc n) = m == n
same_int _ _ = false

-- `all(test(v) for v in values)`
unfoldable pub every {ℓ} : {A : Type ℓ} → (A → Bool) → List A → Bool
every test [] = true
every test (v ∷ vs) = test v && every test vs

abbrev pub list_with : (List Json → Bool) → Option (List Json) → Bool
list_with test none = false
list_with test (some vs) = test vs

abbrev pub items_of : Option (List Json) → List Json
items_of none = []
items_of (some vs) = vs

-- `values[n]`, if there is one
abbrev pub item_at : ℕ → List Json → Option Json
item_at n [] = none
item_at zero (v ∷ vs) = some v
item_at (suc n) (v ∷ vs) = item_at n vs

-- `float` of an int, and the functions of `statistics` and `math` that the code calls. An int that is
-- too large for a float, at which `math.isfinite` raises, is left out.
pub record Statistics : Type 0 where
  pub to_float : ℤ → Num
  pub mean : List Num → Num
  pub pstdev : List Num → Num
  pub hypot : List Num → Num

-- 1000.0
abbrev thousand : Num
thousand = 0x408f400000000000

module _ (st : Statistics) where
  -- The number that a value is. Every whole number that the code compares with a float has the same
  -- place as its float.
  abbrev pub number_of : Option Json → Option Num
  number_of (some (whole i)) = some (st.to_float i)
  number_of (some (real x)) = some x
  number_of _ = none

  abbrev pub number_with : (Num → Bool) → Option Num → Bool
  number_with test none = false
  number_with test (some x) = isfinite x && test x

  -- `number`
  unfoldable pub number : Option Json → Bool
  number v = number_with (λ _. true) (number_of v)

  abbrev pub is_small : Json → Bool
  is_small v = number_with (λ x. le (fabs x) thousand) (number_of (some v))

  -- `vector`
  unfoldable pub vector : Option Json → Bool
  vector v = list_with (λ vs. (length vs == 3) && every is_small vs) (list_of v)

  abbrev pub num_or : Num → Option Num → Num
  num_or d none = d
  num_or d (some x) = x

  -- `record[key]`, of a key that was found to hold a number
  unfoldable pub number_at : String → Fields → Num
  number_at key r = num_or nought (number_of (get key r))

  -- `record[key][axis]`, of a key that was found to hold a vector
  unfoldable pub axis_at : String → ℕ → Fields → Num
  axis_at key axis r = num_or nought (number_of (item_at axis (items_of (list_of (get key r)))))

  -- `v == n`, for a value and an int that is at least 2
  abbrev pub equals_int : ℕ → Option Json → Bool
  equals_int n (some (whole (pos m))) = m == n
  equals_int n (some (real x)) = feq x (st.to_float (pos n))
  equals_int n _ = false

-- `[r for r in records if test(r)]`
unfoldable pub filter {ℓ} : {A : Type ℓ} → (A → Bool) → List A → List A
filter test [] = []
filter test (r ∷ rs) = let rest = filter test rs in if test r then r ∷ rest else rest

-- `any(test(r) for r in records)`
unfoldable pub some_of {ℓ} : {A : Type ℓ} → (A → Bool) → List A → Bool
some_of test [] = false
some_of test (r ∷ rs) = if test r then true else some_of test rs

-- `records[-1]`, if there is one
unfoldable pub last {ℓ} : {A : Type ℓ} → List A → Option A
last [] = none
last (r ∷ []) = some r
last (r ∷ s ∷ rs) = last (s ∷ rs)

-- What holds of a record that may be missing
abbrev pub there_with {ℓ} : {A : Type ℓ} → (A → Bool) → Option A → Bool
there_with test none = false
there_with test (some r) = test r

-- `len({key(r) for r in records})`: a record counts if none after it is the same
unfoldable pub distinct {ℓ} : {A : Type ℓ} → (A → A → Bool) → List A → ℕ
distinct same [] = 0
distinct same (r ∷ rs) =
    let rest = distinct same rs in if some_of (same r) rs then rest else suc rest

-- `all(test(a, b) for a, b in zip(records, records[1:]))`
unfoldable pub every_next {ℓ} : {A : Type ℓ} → (A → A → Bool) → List A → Bool
every_next test [] = true
every_next test (a ∷ []) = true
every_next test (a ∷ b ∷ rs) = test a b && every_next test (b ∷ rs)

-- `a == b` of two lists, item by item
unfoldable pub same_list {ℓ} : {A : Type ℓ} → (A → A → Bool) → List A → List A → Bool
same_list same [] [] = true
same_list same (a ∷ xs) (b ∷ ys) = same a b && same_list same xs ys
same_list same _ _ = false

-- `bool(samples) and all(test(s) for s in samples)`
abbrev pub all_valid {ℓ} : {A : Type ℓ} → (A → Bool) → List A → Bool
all_valid test [] = false
all_valid test (s ∷ ss) = every test (s ∷ ss)
