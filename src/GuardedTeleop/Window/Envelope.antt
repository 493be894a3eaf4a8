-- ===== src/GuardedTeleop/Window/Envelope.antt =====
-- Every motion that the window sends is slow, and moves along the axis of the key that is held.
use lekiwi.Prelude.{◌≡◌, sym, ◌∙◌, some, List, [], ◌∷◌, false}
use mathlib.Core.Path.{subst}
use lekiwi.Float.{Num}
use lekiwi.Float.Fpu.{Fpu}
use lekiwi.MotorSession.{Motion}
use lekiwi.GuardedTeleop.HeldKeys.{HeldKeys, clear, next_motion}
use lekiwi.GuardedTeleop.HeldKeys.Invariant.{
  IsSlow, stop-IsSlow, IsValid, initial-IsValid, press-IsValid, release-IsValid, standing-IsValid,
}
use lekiwi.GuardedTeleop.HeldKeys.Drive.{next_motion-IsTick}
use lekiwi.GuardedTeleop.Window.{Call, publish, Desktop, Window, opened}
use lekiwi.GuardedTeleop.Window.Handlers.{Event, handle_all}
use lekiwi.GuardedTeleop.Window.Keeps.{IsKept, handle_all-keeps}

-- All motions sent so far are slow.
abbrev pub AllSlow : List Call → Type 0
AllSlow [] = Unit
AllSlow (publish m ∷ calls) = IsSlow m × AllSlow calls
AllSlow (_ ∷ calls) = AllSlow calls

abbrev pub IsSafe : Window → Type 0
IsSafe s = IsValid s.profile × AllSlow s.calls

clear-IsValid : (p : HeldKeys) → IsValid p → IsValid (clear p)
unfolding clear
clear-IsValid p h = standing-IsValid p [] false h tt tt

module _ ⦃u : Fpu⦄ where
  advanced :
      (p q : HeldKeys) (m : Motion) → next_motion p ≡ some (q, m) → IsValid p → IsValid q × IsSlow m
  advanced p q m e h =
      let (q', m', e', t) = next_motion-IsTick p h in
      let r : HeldKeys × Motion = (q', m') in
      let r' : HeldKeys × Motion = (q, m) in
      let same : r ≡ r' = cc (sym e' ∙ e) in
      subst (λ r. IsValid r.0 × IsSlow r.1) same (t.valid, t.slow)

  IsSafe-IsKept : IsKept IsSafe
  IsSafe-IsKept = record {
    by_stop = λ s p. (p.0, (stop-IsSlow, p.1));
    by_cancel = λ timer s p. p;
    by_after_release = λ key s p. p;
    by_after_tick = λ s p. p;
    by_status = λ n key s p. p;
    by_quit = λ s p. p;
    by_spin = λ s p. p;
    by_clock = λ s p. p;
    by_pending = λ pending s p. p;
    by_blocked = λ keys s p. p;
    by_error = λ e s p. p;
    by_close = λ s p. p;
    by_clear = λ s p. (clear-IsValid s.profile p.0, p.1);
    by_press = λ key s o p. (press-IsValid key s.profile p.0, p.1);
    by_release = λ key s o p. (release-IsValid key s.profile p.0, p.1);
    by_advance = λ q m s o e p. let (v, slow) = advanced s.profile q m e p.0 in (v, (slow, p.1));
  }

  -- From the opened window on, every sequence of key presses, releases, release timers, focus changes
  -- and ticks leaves a valid profile, and every motion that it sends is at most 0.06 m/s along each
  -- axis and 0.35 rad/s, whatever the calls answer.
  pub events-IsSafe :
      (d : Desktop) (deadline : Num) (events : List Event)
      → IsSafe (handle_all d deadline events opened)
  unfolding opened
  events-IsSafe d deadline events =
      handle_all-keeps d IsSafe-IsKept deadline events opened (initial-IsValid, tt)
