-- ===== src/GuardedTeleop/Window/Tests.antt =====
-- A window in which w is pressed and the readiness is lost, with a concrete arithmetic.
use lekiwi.Prelude.{◌≡◌, refl, true, false, some, [], ◌∷◌}
use lekiwi.Float.{nought, one}
use lekiwi.Float.Fixed.{fixed}
use lekiwi.Effect.{answer, failure, runtime_error}
use lekiwi.GuardedTeleop.Window.{Desktop, Window, opened}
use lekiwi.GuardedTeleop.Window.Handlers.{
  handle_all, handle, pressed, closing, tick_timer, focus_out, tick,
}
use lekiwi.GuardedTeleop.Window.Still.{moves, closed_stays_still}
use lekiwi.GuardedTeleop.Window.Envelope.{IsSafe, events-IsSafe}
use lekiwi.GuardedTeleop.Window.Closing.{on_close-closes, tick_fails_closed, unready_fails}

abbrev unready : Desktop
unready = record {
  on_publish = λ _. failure (runtime_error "publisher is gone");
  on_cancel = λ _. answer tt;
  on_after = λ _. answer 1;
  on_status = λ _. answer tt;
  on_quit = λ _. answer tt;
  on_spin = λ _. answer (some false);
  on_clock = λ _. answer nought;
}

abbrev shut : Window
shut = handle_all unready one (pressed "w" ∷ closing ∷ []) opened

shut-closed : shut.closed ≡ true
unfolding handle_all handle
shut-closed = on_close-closes unready (handle_all unready one (pressed "w" ∷ []) opened)

closed_stays_still_example :
    let t = handle_all unready one (pressed "w" ∷ tick_timer ∷ focus_out ∷ []) shut in
    (t.closed ≡ true) × (moves t.calls ≡ moves shut.calls)
closed_stays_still_example =
    closed_stays_still unready one (pressed "w" ∷ tick_timer ∷ focus_out ∷ []) shut shut-closed

events-IsSafe_example :
    IsSafe (handle_all unready one (pressed "w" ∷ tick_timer ∷ focus_out ∷ []) opened)
events-IsSafe_example = events-IsSafe unready one (pressed "w" ∷ tick_timer ∷ focus_out ∷ [])

tick_fails_closed_example :
    let r = (tick unready one opened).1 in
    (r.closed ≡ true) × (r.error ≡ some (runtime_error "/motor_ready became false during teleop"))
unfolding opened
tick_fails_closed_example =
    tick_fails_closed unready one opened refl (unready_fails unready one opened refl)
