-- ===== src/MotorSession/Cleanup.antt =====
-- What `cleanup_session` does, whatever fails.
use mathlib.Core.Path.{subst, sym, ap}
use mathlib.Core.List.{append_assoc, append-nil}
use lekiwi.Prelude.{
  ℕ, zero, suc, ◌≡◌, refl, ◌∙◌, false, List, [], ◌∷◌, ◌++◌, map, Option, none, some, String,
  append_text, arith, ◌↔◌, replicate, replicate-cons,
}
use lekiwi.Effect.{
  runtime_failure, runtime_error, Exn, M, value, pure, ◌>>=◌, attempt, bind-value, attempt-ask,
  errors_of,
}
use lekiwi.MotorSession.{
  World, History, publish, power, stop, publish_motion, set_motor_power, default_timeout,
  attempt_zeros, join_messages, combine_errors, cleanup_session,
}

-- What the world answers to `n` zero commands in a row, as the errors among the answers.
pub zero_failures : World → ℕ → History → List Exn
zero_failures w zero h = []
zero_failures w (suc n) h =
    errors_of (w.on_publish (publish stop ∷ h)) ++ zero_failures w n (publish stop ∷ h)

abbrev pub zeros : ℕ → History
zeros n = replicate n (publish stop)

-- The history that a cleanup leaves: all zero commands, and then the request to cut the power.
abbrev pub cleaned : World → ℕ → History → History
cleaned w n h = power false (default_timeout w) ∷ (zeros n ++ h)

abbrev pub failures : World → ℕ → History → List Exn
failures w n h = zero_failures w n h ++ errors_of (w.on_power (cleaned w n h))

attempt_zeros_lem :
    (w : World) (n : ℕ) (errors : List Exn) (h : History)
    → attempt_zeros w n errors h ≡ (value (errors ++ zero_failures w n h), zeros n ++ h)
unfolding attempt_zeros zero_failures
attempt_zeros_lem w zero errors h = ground (arith, append-nil errors)
attempt_zeros_lem w (suc n) errors h =
    let failed = errors_of (w.on_publish (publish stop ∷ h)) in
    bind-value (attempt (publish_motion w stop)) (λ more. attempt_zeros w n (errors ++ more))
      {s = h} (attempt-ask w.on_publish (publish stop) h)
    ∙ attempt_zeros_lem w n (errors ++ failed) (publish stop ∷ h)
    ∙ simp (append_assoc, replicate-cons)

abbrev cut : World → M History (Unit {0})
cut w = set_motor_power w false (default_timeout w)

-- A cleanup leaves its history, and the combined errors of the calls.
pub cleanup_session-cleaned :
    (w : World) (n : ℕ) (h : History)
    → cleanup_session w n h ≡ (value (combine_errors (failures w n h)), cleaned w n h)
unfolding cleanup_session
cleanup_session-cleaned w n h =
    let first = zero_failures w n h in
    bind-value (attempt_zeros w n [])
      (λ errors. attempt (cut w) >>= (λ failed. pure (combine_errors (errors ++ failed)))) {s = h}
      (attempt_zeros_lem w n [] h)
    ∙ bind-value (attempt (cut w)) (λ failed. pure (combine_errors (first ++ failed)))
        {s = zeros n ++ h} (attempt-ask w.on_power (power false (default_timeout w)) (zeros n ++ h))

-- The texts one after another, with "; " between two
abbrev pub separated : List String → String
separated [] = ""
separated (text ∷ []) = text
separated (text ∷ more) = append_text text (append_text "; " (separated more))

-- What is to be reported of the errors of a cleanup.
pub data IsReport : List Exn → Option Exn → Type 0 where
  nothing : IsReport [] none
  single : (e : Exn) → IsReport (e ∷ []) (some e)
  several :
      (e f : Exn) (errors : List Exn)
      → IsReport (e ∷ f ∷ errors) (
          some (record {
            kind = runtime_failure;
            notes = [];
            message =
                append_text "cleanup failures: "
                  (separated (map (λ x. x.message) (e ∷ f ∷ errors)));
          }))

join_messages-separated :
    (errors : List Exn) → join_messages errors ≡ separated (map (λ x. x.message) errors)
unfolding join_messages
join_messages-separated [] = refl
join_messages-separated (e ∷ []) = refl
join_messages-separated (e ∷ f ∷ errors) =
    ap (λ t. append_text e.message (append_text "; " t)) (join_messages-separated (f ∷ errors))

combine_errors-IsReport : (errors : List Exn) → IsReport errors (combine_errors errors)
unfolding combine_errors
combine_errors-IsReport [] = nothing
combine_errors-IsReport (e ∷ []) = single e
combine_errors-IsReport (e ∷ f ∷ errors) =
    subst
      (λ t. IsReport (e ∷ f ∷ errors) (some (runtime_error (append_text "cleanup failures: " t))))
      (sym (join_messages-separated (e ∷ f ∷ errors))) (several e f errors)

-- `cleanup_session` never raises. Whatever fails, it sends all zero commands and then one request to
-- cut the motor power, in this order and nothing else. It reports nothing if no call failed, a single
-- error as it is, and several as one RuntimeError whose message is "cleanup failures: " with their
-- messages in the order they came, "; " between two.
pub cleanup_session_lem :
    (w : World) (n : ℕ) (h : History)
    → (o : Option Exn) × (cleanup_session w n h ≡ (value o, cleaned w n h))
      × IsReport (failures w n h) o
cleanup_session_lem w n h = (
  combine_errors (failures w n h),
  cleanup_session-cleaned w n h,
  combine_errors-IsReport (failures w n h),
)

-- The answer of `cleanup_session` is `None` exactly if no call failed.
pub combine_errors-eq-none : (errors : List Exn) → (combine_errors errors ≡ none) ↔ (errors ≡ [])
unfolding combine_errors
combine_errors-eq-none [] = (λ _. refl, λ _. refl)
combine_errors-eq-none (e ∷ []) = (λ h. cc, λ h. cc)
combine_errors-eq-none (e ∷ f ∷ errors) = (λ h. cc, λ h. cc)
