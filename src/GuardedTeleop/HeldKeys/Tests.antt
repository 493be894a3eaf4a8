-- ===== src/GuardedTeleop/HeldKeys/Tests.antt =====
-- Held keys pressed and released, with a concrete arithmetic.
use lekiwi.Prelude.{◌≡◌, refl, false, true, some}
use lekiwi.Float.Fixed.{fixed}
use lekiwi.MotorSession.{Motion, stop}
use lekiwi.GuardedTeleop.HeldKeys.Abstract.{
  Input, pressed, released, profile_after, is_held, profile_after-is_held,
}
use lekiwi.Prelude.{List, [], ◌∷◌}
use lekiwi.GuardedTeleop.HeldKeys.{
  HeldKeys, initial, press, release, hold, next_motion, active_key, last, contains, is_direction,
  directions, same_key, stage_of,
}
use lekiwi.GuardedTeleop.HeldKeys.Invariant.{IsValid, initial-IsValid, press-IsValid}
use lekiwi.GuardedTeleop.HeldKeys.Drive.{IsTick, next_motion-IsTick}
use lekiwi.GuardedTeleop.HeldKeys.Stops.{sent_of, release_stops, press_stops}

abbrev forward : HeldKeys
forward = (press "w" initial).0

forward-IsValid : IsValid forward
forward-IsValid = press-IsValid "w" initial initial-IsValid

next_motion-IsTick_example :
    (q : HeldKeys) × (sent : Motion) × (next_motion forward ≡ some (q, sent))
    × IsTick forward q sent
next_motion-IsTick_example = next_motion-IsTick forward forward-IsValid

release_stops_example :
    let (q, changed) = release "w" forward in
    (changed ≡ true)
    × (contains "w" q.held_keys ≡ false)
    × (q.control ≡ stop)
    × (sent_of (next_motion q) ≡ some stop)
unfolding press hold stage_of initial active_key last contains is_direction directions same_key
release_stops_example = release_stops "w" forward forward-IsValid refl

press_stops_example :
    let (q, changed) = press "a" forward in
    (changed ≡ true) × (active_key q ≡ some "a") × (sent_of (next_motion q) ≡ some stop)
unfolding press hold stage_of initial active_key last contains is_direction directions same_key
press_stops_example = press_stops "a" {k = "w"} forward refl refl refl refl refl

-- "a" was pressed last and is still down.
abbrev inputs : List Input
inputs = released "w" ∷ pressed "a" ∷ pressed "w" ∷ []

profile_after-is_held_example : contains "a" (profile_after inputs).held_keys ≡ is_held "a" inputs
profile_after-is_held_example = profile_after-is_held inputs "a"
