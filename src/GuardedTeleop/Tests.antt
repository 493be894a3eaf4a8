-- ===== src/GuardedTeleop/Tests.antt =====
-- The speed profiles and their ramp at concrete keys, with a concrete arithmetic.
use lekiwi.Prelude.{◌≡◌, refl, false}
use lekiwi.Float.{feq, is_nan, rank, isfinite}
use lekiwi.Float.Fixed.{fixed, fixed_mul, fixed_ratio}
use lekiwi.MotorSession.{Motion, stop, same_motion}
use lekiwi.GuardedTeleop.Directional
use lekiwi.GuardedTeleop.Directional.{linear_speed}
use lekiwi.GuardedTeleop.Directional.Envelope
use lekiwi.GuardedTeleop.Directional.Stops

abbrev forward : Directional.Directional
forward = (Directional.handle_key "w" Directional.initial).0

forward-IsValid : Envelope.IsValid forward
forward-IsValid = Envelope.handle_key-IsValid "w" Directional.initial Envelope.initial-IsValid

abbrev sideways : Motion
sideways = record stop { linear_y = linear_speed }

turn_stops_example :
    let (q, sent) = Directional.next_motion (Directional.handle_key "a" forward).0 in
    (sent ≡ stop)
    × (q.control ≡ stop)
    × (q.direction ≡ sideways)
    × (q.pending_direction_change_zero ≡ false)
unfolding Directional.directions Directional.handle_key Directional.turn_to
    Directional.update_target Directional.scaled same_motion feq rank is_nan fixed_mul fixed_ratio
    Directional.initial
turn_stops_example = Stops.turn_stops "a" {d = sideways} forward refl refl refl

abbrev still : Directional.Directional
still = (Directional.handle_key " " Directional.initial).0

initial-IsFinite : Stops.IsFinite Directional.initial.direction
unfolding Directional.initial isfinite
initial-IsFinite = record { x = refl; y = refl; turn = refl }

still-IsHalted : Stops.IsHalted still
still-IsHalted = Stops.space-IsHalted Directional.initial initial-IsFinite

still-IsFinite : Stops.IsFinite still.direction
unfolding Directional.initial Directional.handle_key Directional.directions Directional.other_key
    Directional.halt Directional.update_target isfinite
still-IsFinite = record { x = refl; y = refl; turn = refl }

handle_key-IsHalted_example : Stops.IsHalted (Directional.handle_key "w" still).0
handle_key-IsHalted_example = Stops.handle_key-IsHalted "w" still still-IsFinite refl still-IsHalted
