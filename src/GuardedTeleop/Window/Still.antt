-- ===== src/GuardedTeleop/Window/Still.antt =====
-- A closed window starts no motion.
use lekiwi.Prelude.{true, ◌≡◌, refl, sym, ◌∙◌, List, [], ◌∷◌, if◌then◌else◌, false≢true}
use lekiwi.Float.{Num, feq, is_nan, rank}
use lekiwi.Float.Fpu.{Fpu}
use lekiwi.MotorSession.{Motion, stop, same_motion}
use lekiwi.GuardedTeleop.Window.{Call, publish, Desktop, Window}
use lekiwi.GuardedTeleop.Window.Handlers.{Event, handle_all}
use lekiwi.GuardedTeleop.Window.Keeps.{IsKept, handle_all-keeps}

-- The motions other than a stop that were sent, latest first.
abbrev pub moves : List Call → List Motion
moves [] = []
moves (publish m ∷ calls) = if same_motion m stop then moves calls else m ∷ moves calls
moves (_ ∷ calls) = moves calls

-- A closed window that has sent no more motions than `sent`.
abbrev pub IsDone : List Motion → Window → Type 0
IsDone sent s = (s.closed ≡ true) × (moves s.calls ≡ sent)

module _ ⦃u : Fpu⦄ where
  IsDone-IsKept : (sent : List Motion) → IsKept (IsDone sent)
  unfolding same_motion feq is_nan rank
  IsDone-IsKept sent = record {
    by_stop = λ s p. p;
    by_cancel = λ timer s p. p;
    by_after_release = λ key s p. p;
    by_after_tick = λ s p. p;
    by_status = λ n key s p. p;
    by_quit = λ s p. p;
    by_spin = λ s p. p;
    by_clock = λ s p. p;
    by_pending = λ pending s p. p;
    by_blocked = λ keys s p. p;
    by_error = λ e s p. p;
    by_close = λ s p. (refl, p.1);
    by_clear = λ s p. p;
    by_press = λ key s o p. absurd (false≢true (sym o ∙ p.0));
    by_release = λ key s o p. absurd (false≢true (sym o ∙ p.0));
    by_advance = λ q m s o e p. absurd (false≢true (sym o ∙ p.0));
  }

  -- Once the window is closed, no key, release timer, focus change or tick opens it again or sends a
  -- motion other than a stop, whatever the calls answer.
  pub closed_stays_still :
      (d : Desktop) (deadline : Num) (events : List Event) (s : Window)
      → s.closed ≡ true
      → let t = handle_all d deadline events s in
        (t.closed ≡ true) × (moves t.calls ≡ moves s.calls)
  closed_stays_still d deadline events s c =
      handle_all-keeps d (IsDone-IsKept (moves s.calls)) deadline events s (c, refl)
