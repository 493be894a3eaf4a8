-- ===== src/Effect.antt =====
-- Python calls that read the outside world, raise exceptions and clean up: a function from the state
-- to an outcome and the state reached. What was done before a raise stays done.
pub mod Triple
pub mod Ends
pub mod Sure
pub mod State
use lekiwi.Prelude.{
  ◌≡◌, ◌≢◌, refl, ap, ◌⊎◌, inl, inr, ℕ, zero, suc, Bool, true, false, String, List, [], ◌∷◌, ◌++◌,
  Option, none, some, if◌then◌else◌,
}

-- The classes of exceptions that the `except` clauses tell apart. `exception` is any `Exception` but
-- those named. A `ProcessLookupError`, a `FileNotFoundError` and a `BlockingIOError` are `OSError`s too;
-- `runtime_failure` is a `RuntimeError`, and `timeout_expired` the one of `subprocess`.
pub data Kind : Type 0 where
  keyboard_interrupt exception runtime_failure process_lookup_error file_not_found_error : Kind
  blocking_io_error timeout_expired os_error value_error other_base_exception : Kind

-- `except Exception`, `except ProcessLookupError`, `except RuntimeError`,
-- `except KeyboardInterrupt`, `except OSError` and `except (OSError, ValueError)`
abbrev pub is_exception : Kind → Bool
is_exception keyboard_interrupt = false
is_exception other_base_exception = false
is_exception _ = true

abbrev pub is_process_lookup : Kind → Bool
is_process_lookup process_lookup_error = true
is_process_lookup _ = false

abbrev pub is_runtime : Kind → Bool
is_runtime runtime_failure = true
is_runtime _ = false

abbrev pub is_keyboard_interrupt : Kind → Bool
is_keyboard_interrupt keyboard_interrupt = true
is_keyboard_interrupt _ = false

abbrev pub is_os : Kind → Bool
is_os process_lookup_error = true
is_os file_not_found_error = true
is_os blocking_io_error = true
is_os os_error = true
is_os _ = false

abbrev pub is_os_or_value : Kind → Bool
is_os_or_value value_error = true
is_os_or_value k = is_os k

pub record Exn : Type 0 where
  pub kind : Kind
  pub message : String
  pub notes : List String

-- `error.add_note(text)`
abbrev pub add_note : String → Exn → Exn
add_note text e = record e { notes = e.notes ++ text ∷ [] }

-- `RuntimeError(text)` and `KeyboardInterrupt`
abbrev pub runtime_error : String → Exn
runtime_error text = record { kind = runtime_failure; message = text; notes = [] }

abbrev pub interrupt : Exn
interrupt = record { kind = keyboard_interrupt; message = ""; notes = [] }

-- `running` means that the loop's fuel was used up.
pub data Outcome (A : Type 0) : Type 0 where
  value : A → Outcome A
  raised : Exn → Outcome A
  running : Outcome A

abbrev pub M : Type 0 → Type 0 → Type 0
M S A = S → Outcome A × S

module _ {S A : Type 0} where
  abbrev pub pure : A → M S A
  pure a s = (value a, s)

  abbrev pub raise : Exn → M S A
  raise e s = (raised e, s)

  abbrev pub out_of_fuel : M S A
  out_of_fuel s = (running, s)

infixl 5 ◌>>=◌ ◌>>◌
abbrev pub ◌>>=◌ : {S A B : Type 0} → M S A → (A → M S B) → M S B
◌>>=◌ m f s =
    let (r, t) = m s in
    elim r [ value a ↦ f a t | raised e ↦ (raised e, t) | running ↦ (running, t) ]

abbrev pub ◌>>◌ : {S A B : Type 0} → M S A → M S B → M S B
m >> k = m >>= λ _. k

abbrev pub when : {S : Type 0} → Bool → M S (Unit {0}) → M S (Unit {0})
when true m = m
when false m = pure tt

-- The body of a `for _ in range(n)` loop.
unfoldable pub repeat : {S : Type 0} → ℕ → M S (Unit {0}) → M S (Unit {0})
repeat zero m = pure tt
repeat (suc n) m = do m; repeat n m

-- What a `finally` block leaves of an outcome: an exception of its own replaces it, and it may have
-- added notes to the exception that was raised before.
abbrev pub after_value : {A : Type 0} → A → Outcome (Option Exn) → Outcome A
after_value a (value _) = value a
after_value a (raised e) = raised e
after_value a running = running

abbrev pub after_raise : {A : Type 0} → Exn → Outcome (Option Exn) → Outcome A
after_raise e (value none) = raised e
after_raise e (value (some noted)) = raised noted
after_raise e (raised x) = raised x
after_raise e running = running

-- `try: m except BaseException as e: primary = e; raise finally: last(primary)`. The last part hands
-- over the primary exception with its notes.
unfoldable pub finally_with : {S A : Type 0} → M S A → (Option Exn → M S (Option Exn)) → M S A
finally_with m last s =
    let (r, t) = m s in
    elim r [
      | value a ↦ let (q, v) = last none t in (after_value a q, v)
      | raised e ↦ let (q, v) = last (some e) t in (after_raise e q, v)
      | running ↦ (running, t)
    ]

-- `try: m except BaseException as e: handler(e)`
abbrev pub catch : {S A : Type 0} → M S A → (Exn → M S A) → M S A
catch m handler s =
    let (r, t) = m s in
    elim r [ value a ↦ (value a, t) | raised e ↦ handler e t | running ↦ (running, t) ]

-- `try: m except SomeClass as e: handler(e)`
abbrev pub catch_kind : {S A : Type 0} → (Kind → Bool) → M S A → (Exn → M S A) → M S A
catch_kind takes m handler = catch m (λ e. if takes e.kind then handler e else raise e)

-- What a call into the world answers.
pub data Reply (A : Type 0) : Type 0 where
  answer : A → Reply A
  failure : Exn → Reply A

pub Reply-cases :
    {A : Type 0} (r : Reply A) → ((a : A) × (r ≡ answer a)) ⊎ ((e : Exn) × (r ≡ failure e))
Reply-cases (answer a) = inl (a, refl)
Reply-cases (failure e) = inr (e, refl)

abbrev pub outcome : {A : Type 0} → Reply A → Outcome A
outcome (answer a) = value a
outcome (failure e) = raised e

-- A call is added to the history of calls, latest first, and the world's answer may depend on all of it.
abbrev pub ask : {C A : Type 0} → (List C → Reply A) → C → M (List C) A
ask reply c h = (outcome (reply (c ∷ h)), c ∷ h)

-- `try: m except BaseException as e: errors.append(e)`, as the list of what is appended
unfoldable pub attempt : {S : Type 0} → M S (Unit {0}) → M S (List Exn)
attempt m = catch (m >> pure []) (λ e. pure (e ∷ []))

-- The exception of an answer, if it is one.
abbrev pub errors_of : Reply (Unit {0}) → List Exn
errors_of (answer _) = []
errors_of (failure e) = e ∷ []

-- An attempted call never raises, and hands over what the call raised.
pub attempt-ask :
    {C : Type 0} (reply : List C → Reply (Unit {0})) (c : C) (h : List C)
    → attempt (ask reply c) h ≡ (value (errors_of (reply (c ∷ h))), c ∷ h)
unfolding attempt
attempt-ask reply c h =
    elim (reply (c ∷ h)) as (λ r. attempt (ask (λ _. r) c) h ≡ (value (errors_of r), c ∷ h)) [
      | answer _ ↦ refl
      | failure e ↦ refl
    ]

module _ {S A B : Type 0} (m : M S A) (f : A → M S B) {s t : S} where
  -- A call that returns hands its value and state on; one that raises ends the chain.
  pub bind-value : {a : A} → m s ≡ (value a, t) → (m >>= f) s ≡ f a t
  bind-value e = ap (λ r. ◌>>=◌ (λ _. r) f s) e

  pub bind-raised : {e : Exn} → m s ≡ (raised e, t) → (m >>= f) s ≡ (raised e, t)
  bind-raised e = ap (λ r. ◌>>=◌ (λ _. r) f s) e

-- What follows an attempted call runs whether it raised or not.
pub attempt-then :
    {C A : Type 0} (reply : List C → Reply (Unit {0})) (c : C) (k : List Exn → M (List C) A)
    (h : List C)
    → (attempt (ask reply c) >>= k) h ≡ k (errors_of (reply (c ∷ h))) (c ∷ h)
attempt-then reply c k h = bind-value (attempt (ask reply c)) k {s = h} (attempt-ask reply c h)
