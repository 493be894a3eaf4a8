-- ===== src/GuardedTeleop/Session/Tests.antt =====
-- A session in a world where the operator presses Control-C at once.
use mathlib.Core.Path.{subst}
use lekiwi.Prelude.{◌≡◌, ◌≢◌, refl, false, true, some, [], ◌∷◌, ◌++◌, arith}
use lekiwi.Float.{nought, one, rank, is_nan, le}
use lekiwi.Float.Fixed.{fixed, fixed_sub, fixed_add}
use lekiwi.Effect.{running, answer, repeat}
use lekiwi.Effect.Ends.{Ends}
use lekiwi.MotorSession.{World, clock, power, default_timeout}
use lekiwi.MotorSession.Cleanup.{failures, zeros}
use lekiwi.MotorSession.{combine_errors}
use lekiwi.GuardedTeleop.Directional.{initial}
use lekiwi.GuardedTeleop.Session.{Config, prepare, control_loop, session_body, run_guarded_session}
use lekiwi.GuardedTeleop.Session.Cleanup.{commands, Verdict, run_guarded_session-closes}
use lekiwi.GuardedTeleop.Session.Armed.{IsGuarded, session_body-IsGuarded}
use lekiwi.GuardedTeleop.Session.Termination.{Expires, control_loop-Ends}

abbrev config : Config
config = record {
  max_session_duration = one;
  ready_timeout = one;
  key_poll_timeout = one;
  zero_cycles = 2;
}

abbrev interrupted : World
interrupted = record {
  on_publish = λ _. answer tt;
  on_power = λ _. answer tt;
  on_begin_ready = λ _. answer tt;
  on_wait_ready = λ _. answer true;
  on_clock = λ _. answer nought;
  on_read_key = λ _. answer (some "\u{3}");
  on_report = λ _. answer tt;
  on_print_error = λ _. answer tt;
}

body_ends : (session_body interrupted 2 config (fixed.add nought one) (clock ∷ [])).0 ≢ running
unfolding session_body prepare control_loop repeat le rank is_nan fixed_sub fixed_add
body_ends e = cc e

run_guarded_session_example :
    let (r, t) = session_body interrupted 2 config (fixed.add nought one) (clock ∷ []) in
    let (r', h') = run_guarded_session interrupted 2 config [] in
    Verdict r (combine_errors (failures interrupted 2 t)) r'
    × (commands h' ≡ power false (default_timeout interrupted) ∷ (zeros 2 ++ commands t))
run_guarded_session_example =
    run_guarded_session-closes interrupted 2 config [] nought refl body_ends

session_body-IsGuarded_example : IsGuarded interrupted (session_body interrupted 2 config one []).1
session_body-IsGuarded_example = session_body-IsGuarded interrupted 2 config one [] tt

late : Expires interrupted nought 0
unfolding le rank is_nan fixed_sub
late h now m e =
    let same : nought ≡ now = cc e in subst (λ n. le (fixed.sub nought n) nought ≡ true) same refl

control_loop_example : Ends (control_loop interrupted 1 config nought initial) []
control_loop_example = control_loop-Ends interrupted nought 0 0 config initial [] late (omega arith)
