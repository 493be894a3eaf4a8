-- ===== src/SensorCheck/Passed.antt =====
-- Dictionaries of checks that all hold, and the order of records in which each comes after the last.
use lekiwi.Prelude.{
  ◌≡◌, ◌≢◌, refl, ap, ◌<◌, ℕ, ◌+◌, ◌-◌, ◌%◌, ◌^◌, zero, suc, Bool, true, false, not, String, List,
  [], ◌∷◌, ◌++◌, All, map, ltb, arith, if◌then◌else◌,
}
use lekiwi.SensorCheck.{
  passed, failed, Metric, all_true, result, is_zero, native_checks, error_messages,
}
use lekiwi.SensorCheck.Record.{
  ℤ, pos, negsuc, Json, Fields, get, has_type, filter, some_of, every_next, last, there_with,
  natural_at, is_true,
}
use lekiwi.SensorCheck.Imu.{has_ticked}
use lekiwi.SensorCheck.Lidar.{stamp_of}

-- A check of the dictionary that holds.
abbrev pub Holds : String × Bool → Type 0
Holds c = c.1 ≡ true

abbrev pub AllHold : List (String × Bool) → Type 0
AllHold checks = All Holds checks

pub all_true-AllHold : (checks : List (String × Bool)) → all_true checks ≡ true → AllHold checks
unfolding all_true
all_true-AllHold [] h = tt
all_true-AllHold ((name, ok) ∷ checks) h = (ground arith, all_true-AllHold checks (ground arith))

pub append-left : (xs ys : List (String × Bool)) → AllHold (xs ++ ys) → AllHold xs
append-left [] ys h = tt
append-left (x ∷ xs) ys h = (h.0, append-left xs ys h.1)

pub append-right : (xs ys : List (String × Bool)) → AllHold (xs ++ ys) → AllHold ys
append-right [] ys h = h
append-right (x ∷ xs) ys h = append-right xs ys h.1

-- Only a dictionary whose checks all hold passes.
pub result-passed :
    (checks : List (String × Bool)) (metrics : List (String × Metric)) (errors : List Json)
    → (result checks metrics errors).status ≡ passed
    → AllHold checks
unfolding result
result-passed checks metrics errors h = all_true-AllHold checks (is_all (all_true checks) h)
  where
    is_all : (b : Bool) → (if b then passed else failed) ≡ passed → b ≡ true
    is_all true h = refl
    is_all false h = cc h

is_zero_lem : (code : ℤ) → is_zero code ≡ true → code ≡ pos 0
is_zero_lem (pos zero) h = refl
is_zero_lem (pos (suc n)) h = cc h
is_zero_lem (negsuc n) h = cc h

-- What no item meets, no item is kept for.
filter-none :
    {A : Type 0} (test : A → Bool) (rs : List A) → some_of test rs ≡ false → filter test rs ≡ []
unfolding some_of filter
filter-none test [] h = refl
filter-none test (r ∷ rs) h = skip (test r) (some_of test rs) h (filter-none test rs)
  where
    skip :
        (b k : Bool)
        → (if b then true else k) ≡ false
        → (k ≡ false → filter test rs ≡ [])
        → (if b then r ∷ filter test rs else filter test rs) ≡ []
    skip true k h rest = cc h
    skip false k h rest = rest h

-- Without an error record there is no message.
pub no-errors :
    (t : String) (records : List Fields)
    → not (some_of (has_type "error") records) ≡ true
    → error_messages t records ≡ []
unfolding error_messages
no-errors t records h = ap (map _) (filter-none (has_type "error") records (ground arith))

-- What `native_checks` asks of a probe.
pub record IsClean (records : List Fields) (code : ℤ) : Type 0 where
  pub exited : code ≡ pos 0
  pub ended :
      there_with (λ r. is_true (get "ok" r)) (last (filter (has_type "cleanup") records)) ≡ true
  pub no_error : not (some_of (has_type "error") records) ≡ true

pub native-IsClean :
    (records : List Fields) (code : ℤ) → AllHold (native_checks records code) → IsClean records code
unfolding native_checks
native-IsClean records code h = record {
  exited = is_zero_lem code h.0;
  ended = h.1.0;
  no_error = h.1.1.0;
}

-- Consecutive samples have different times of the sensor's counter.
unfoldable pub Ticking : List Fields → Type 0
Ticking [] = Unit
Ticking (a ∷ []) = Unit
Ticking (a ∷ b ∷ rs) = (natural_at "sensor_time" a ≢ natural_at "sensor_time" b) × Ticking (b ∷ rs)

-- A scan has a smaller time stamp than every later one.
unfoldable pub Increasing : List Fields → Type 0
Increasing [] = Unit
Increasing (a ∷ rs) = All (λ b. stamp_of a < stamp_of b) rs × Increasing rs

ticked : (a b : ℕ) → ltb 0 ((b + 2 ^ 24 - a) % 2 ^ 24) ≡ true → a ≢ b
ticked a b h e = ground arith

pub every_next-Ticking : (rs : List Fields) → every_next has_ticked rs ≡ true → Ticking rs
unfolding every_next Ticking
every_next-Ticking [] h = tt
every_next-Ticking (a ∷ []) h = tt
every_next-Ticking (a ∷ b ∷ rs) h = (
  ticked (natural_at "sensor_time" a) (natural_at "sensor_time" b) (ground arith),
  every_next-Ticking (b ∷ rs) (ground arith),
)

pub before-All :
    (a b : Fields) (rs : List Fields)
    → stamp_of a < stamp_of b
    → All (λ c. stamp_of b < stamp_of c) rs
    → All (λ c. stamp_of a < stamp_of c) rs
before-All a b [] h hs = tt
before-All a b (c ∷ rs) h hs = (omega arith, before-All a b rs h hs.1)

-- Of the two ends of an evaluation, only the one with all the checks passes, and its errors are `errors`.
pub evaluation :
    (b : Bool) (first more : List (String × Bool)) (metrics longer : List (String × Metric))
    (errors : List Json)
    → (AllHold first → b ≡ true)
    → (if b then result (first ++ more) longer errors else result first metrics errors).status
      ≡ passed
    → AllHold first × AllHold more
evaluation true first more metrics longer errors need h =
    let all = result-passed (first ++ more) longer errors h in
    (append-left first more all, append-right first more all)
evaluation false first more metrics longer errors need h =
    cc (need (result-passed first metrics errors h))

pub same-errors :
    (b : Bool) (first more : List (String × Bool)) (metrics longer : List (String × Metric))
    (errors : List Json)
    → (if b then result (first ++ more) longer errors else result first metrics errors).errors
      ≡ errors
unfolding result
same-errors true first more metrics longer errors = refl
same-errors false first more metrics longer errors = refl
