-- ===== src/GuardedTeleop/Session/Cleanup.antt =====
-- However a session ends, the base is stopped and its power request is withdrawn.
use mathlib.Core.Path.{subst}
use lekiwi.Prelude.{
  ℕ, zero, suc, ◌≡◌, ◌≢◌, refl, sym, ap, ◌∙◌, false, Option, none, some, String, append_text, List,
  [], ◌∷◌, ◌++◌,
}
use lekiwi.Float.{Num}
use lekiwi.Float.Fpu.{Fpu}
use lekiwi.Effect.{
  Exn, Outcome, value, raised, running, ◌>>=◌, finally_with, attempt-then, errors_of, bind-value,
  answer, after_value, after_raise, add_note,
}
use lekiwi.MotorSession.{
  World, History, publish, power, clock, report, print_error, cleanup_session, combine_errors, stop,
  default_timeout,
}
use lekiwi.MotorSession.Cleanup.{failures, cleaned, zeros, cleanup_session-cleaned}
use lekiwi.GuardedTeleop.Session.{
  Config, settle, note_primary, note_cleanup, after_cleanup, after_report, handle_cleanup_failure,
  close_session, session_body, run_guarded_session,
}

-- The calls that reach the base: velocity commands and power requests, latest first.
abbrev pub commands : History → History
commands [] = []
commands (publish m ∷ h) = publish m ∷ commands h
commands (power b t ∷ h) = power b t ∷ commands h
commands (_ ∷ h) = commands h

-- The same exception, but for its notes.
abbrev pub SameError : Exn → Exn → Type 0
SameError e x = (e.kind ≡ x.kind) × (e.message ≡ x.message)

-- What a cleanup leaves of the primary exception.
abbrev Settled : Option Exn → Option Exn → Outcome (Option Exn) → Type 0
Settled primary none q = q ≡ value primary
Settled none (some c) q = (x : Exn) × (q ≡ raised x) × SameError c x
Settled (some e) (some c) q = (x : Exn) × (q ≡ value (some x)) × SameError e x

-- A call of the cleanup handler settles the exceptions and sends no command.
abbrev Handled : Option Exn → Exn → History → Outcome (Option Exn) × History → Type 0
Handled primary c h (q, t) = Settled primary (some c) q × (commands t ≡ commands h)

settle-Handled :
    (text : String) (c : Exn) (primary : Option Exn) (h : History)
    → Handled primary c h (settle (note_primary text primary) (note_cleanup text primary c) h)
settle-Handled text c none h = ((add_note text c, refl, (refl, refl)), refl)
settle-Handled text c (some e) h = ((add_note text e, refl, (refl, refl)), refl)

after_report-Handled :
    (w : World) (message : String) (c : Exn) (primary : Option Exn) (failed : List Exn)
    (h : History)
    → Handled primary c h (after_report w message c primary failed h)
unfolding after_report
after_report-Handled w message c none [] h = ((c, refl, (refl, refl)), refl)
after_report-Handled w message c (some e) [] h = ((e, refl, (refl, refl)), refl)
after_report-Handled w message c primary (x ∷ xs) h =
    let text = append_text "cleanup failure reporting also failed: " x.message in
    let line = print_error (append_text message (append_text "; " text)) in
    subst (Handled primary c h)
      (sym (
        attempt-then w.on_print_error line
          (λ _. settle (note_primary text primary) (note_cleanup text primary c)) h))
      (settle-Handled text c primary (line ∷ h))

noted-Handled :
    (text : String) (c : Exn) (primary : Option Exn) (h : History)
    (r : Outcome (Option Exn) × History)
    → Handled (note_primary text primary) c h r
    → Handled primary c h r
noted-Handled text c none h r p = p
noted-Handled text c (some e) h r p = p

handle-Handled :
    (w : World) (c : Exn) (primary : Option Exn) (h : History)
    → Handled primary c h (handle_cleanup_failure w c primary h)
unfolding handle_cleanup_failure
handle-Handled w c primary h =
    let message = append_text "guarded teleop cleanup failed: " c.message in
    let failed = errors_of (w.on_report (report message ∷ h)) in
    subst (Handled primary c h)
      (sym (
        attempt-then w.on_report (report message)
          (after_report w message c (note_primary message primary)) h))
      (noted-Handled message c primary h
        (after_report w message c (note_primary message primary) failed (report message ∷ h))
        (after_report-Handled w message c (note_primary message primary) failed
          (report message ∷ h)))

-- What closing a session leaves, from the history `h` that the body left.
record Closed (w : World) (config : Config) (primary : Option Exn) (h : History)
    (r : Outcome (Option Exn) × History) : Type 0 where
  settled : Settled primary (combine_errors (failures w config.zero_cycles h)) r.0
  sent : commands r.1 ≡ commands (cleaned w config.zero_cycles h)

close_session-Closed :
    (w : World) (config : Config) (primary : Option Exn) (h : History)
    → Closed w config primary h (close_session w config primary h)
unfolding close_session
close_session-Closed w config primary h =
    subst (Closed w config primary h)
      (sym (
        bind-value (cleanup_session w config.zero_cycles) (after_cleanup w primary) {s = h}
          (cleanup_session-cleaned w config.zero_cycles h)))
      (go (combine_errors (failures w config.zero_cycles h)) refl)
  where
    left : History
    left = cleaned w config.zero_cycles h

    go :
        (failed : Option Exn)
        → combine_errors (failures w config.zero_cycles h) ≡ failed
        → Closed w config primary h (after_cleanup w primary failed left)
    go none e = record {
      settled = subst (λ f. Settled primary f (value primary)) (sym e) refl;
      sent = refl;
    }
    go (some c) e =
        let handled = handle-Handled w c primary left in
        record {
          settled =
              subst (λ f. Settled primary f (handle_cleanup_failure w c primary left).0) (sym e)
                handled.0;
          sent = handled.1;
        }

-- How a session ends, from how its body ended and what failed in the cleanup.
abbrev pub Verdict : Outcome (Unit {0}) → Option Exn → Outcome (Unit {0}) → Type 0
Verdict (value _) none r = r ≡ value tt
Verdict (value _) (some c) r = (x : Exn) × (r ≡ raised x) × SameError c x
Verdict (raised e) _ r = (x : Exn) × (r ≡ raised x) × SameError e x
Verdict running _ r = ⊥

commands-zeros : (n : ℕ) (h : History) → commands (zeros n ++ h) ≡ zeros n ++ commands h
commands-zeros zero h = refl
commands-zeros (suc n) h = ap (λ t. publish stop ∷ t) (commands-zeros n h)

-- The end of a session: the verdict, and the zero commands and the power request that came last.
abbrev Ends : World → Config → Outcome (Unit {0}) × History → Outcome (Unit {0}) × History → Type 0
Ends w config (r, t) (r', h') =
    Verdict r (combine_errors (failures w config.zero_cycles t)) r'
    × (commands h' ≡ power false (default_timeout w) ∷ (zeros config.zero_cycles ++ commands t))

Verdict-of_value :
    (failed : Option Exn) (q : Outcome (Option Exn))
    → Settled none failed q
    → Verdict (value tt) failed (after_value tt q)
Verdict-of_value none q e = rw e refl
Verdict-of_value (some c) q (x, e, same) = (x, rw e refl, same)

Verdict-of_raise :
    (e : Exn) (failed : Option Exn) (q : Outcome (Option Exn))
    → Settled (some e) failed q
    → Verdict (raised e) failed (after_raise e q)
Verdict-of_raise e none q s = (e, rw s refl, (refl, refl))
Verdict-of_raise e (some c) q (x, s, same) = (x, rw s refl, same)

finally-Ends :
    (w : World) (config : Config) (p : Outcome (Unit {0}) × History) (h : History)
    → p.0 ≢ running
    → Ends w config p (finally_with (λ _. p) (close_session w config) h)
unfolding finally_with
finally-Ends w config (value tt, t) h go_on =
    let closed = close_session-Closed w config none t in
    (
      Verdict-of_value _ _ closed.settled,
      closed.sent
          ∙ ap (λ c. power false (default_timeout w) ∷ c) (commands-zeros config.zero_cycles t),
    )
finally-Ends w config (raised e, t) h go_on =
    let closed = close_session-Closed w config (some e) t in
    (
      Verdict-of_raise e _ _ closed.settled,
      closed.sent
          ∙ ap (λ c. power false (default_timeout w) ∷ c) (commands-zeros config.zero_cycles t),
    )
finally-Ends w config (running, t) h go_on = absurd (go_on refl)

module _ ⦃u : Fpu⦄ where
  -- Once the clock has been read, a session that ends in any way, by time, key, signal or a failing
  -- call, ends with all its zero commands and a request to cut the power, as the last commands that
  -- reach the base. Its outcome is that of the body: an exception of the body comes through with its
  -- kind and message even if the cleanup fails too, and a failing cleanup alone raises its own error.
  pub run_guarded_session-closes :
      (w : World) (fuel : ℕ) (config : Config) (h : History) (now : Num)
      → w.on_clock (clock ∷ h) ≡ answer now
      → (session_body w fuel config (u.add now config.max_session_duration) (clock ∷ h)).0 ≢ running
      → let (r, t) =
          session_body w fuel config (u.add now config.max_session_duration) (clock ∷ h) in
        let (r', h') = run_guarded_session w fuel config h in
        Verdict r (combine_errors (failures w config.zero_cycles t)) r'
        × (commands h' ≡ power false (default_timeout w) ∷ (zeros config.zero_cycles ++ commands t))
  unfolding run_guarded_session finally_with
  run_guarded_session-closes w fuel config h now e go_on =
      let p = session_body w fuel config (u.add now config.max_session_duration) (clock ∷ h) in
      rw (e, ◌>>=◌) (finally-Ends w config p (clock ∷ h) go_on)
