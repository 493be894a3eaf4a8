-- ===== src/DistanceTrial/Lifecycle.antt =====
-- What a run sends, and how it ends.
use mathlib.Core.Path.{subst}
use lekiwi.Prelude.{
  ◌≡◌, ◌≢◌, refl, sym, ◌∙◌, ◌⊎◌, inl, inr, ℕ, Bool, true, false, false≢true, Option, List, [], ◌∷◌,
}
use lekiwi.Float.{Num}
use lekiwi.Float.Fpu.{Fpu}
use lekiwi.Effect.{Exn, M, running, answer, catch_kind}
use lekiwi.Effect.State.{Keeps, Keeps-modify, Keeps-request, Triple-modify, Triple-catch}
use lekiwi.Effect.Triple.{Post-same, Triple, Triple-bind, Triple-raise, Triple-if, Triple-weaken}
use lekiwi.Effect.Sure.{
  Sure, Sure-bind, Sure-pure, Sure-reads, Sure-modify, Sure-request, Sure-weaken, Sure-catch_kind,
  finally-ends,
}
use lekiwi.DistanceTrial.{Parameters, Trial, Sample, Trig, validate_parameters, half}
use lekiwi.DistanceTrial.Endpoint.{
  Call, get_parameters, spin, publish, arm, stop_and_disarm, clock, World, Report, State, call,
  write, read_clock,
}
use lekiwi.DistanceTrial.Motion.{
  take_over, discover, with_parameters, body, is_reported, failed, stop_if, cleanup, run_trial,
  initial,
}
use lekiwi.DistanceTrial.Keeps.{noted, Allowed, IsKept, check-Keeps, none-Keeps}
use lekiwi.DistanceTrial.Moves.{move-Triple}

-- No command was sent, and the motors were not armed.
abbrev pub IsQuiet : List Call → Type 0
IsQuiet [] = Unit
IsQuiet (publish _ ∷ calls) = ⊥
IsQuiet (arm ∷ calls) = ⊥
IsQuiet (_ ∷ calls) = IsQuiet calls

-- Each command was a stop or the trial's motion.
abbrev pub AllAllowed : ⦃u : Fpu⦄ → Trial → List Call → Type 0
AllAllowed t [] = Unit
AllAllowed t (c ∷ calls) = Allowed t c × AllAllowed t calls

-- Nothing was sent, or the last call is the one that stops the base and disarms it.
abbrev pub IsDisarmed : List Call → Type 0
IsDisarmed calls = IsQuiet calls ⊎ ((before : List Call) × (calls ≡ stop_and_disarm ∷ before))

module _ ⦃u : Fpu⦄ (g : Trig) (w : World) (t : Trial) (mock : Bool) where
  abbrev IsOwned : State → Type 0
  IsOwned s = (s.owns_motion ≡ true) × AllAllowed t s.calls

  abbrev IsUnowned : State → Type 0
  IsUnowned s = IsQuiet s.calls × AllAllowed t s.calls

  abbrev IsSafe : State → Type 0
  IsSafe s = (s.owns_motion ≡ false → IsQuiet s.calls) × AllAllowed t s.calls

  IsOwned-IsKept : IsKept t IsOwned
  IsOwned-IsKept = record { by_call = λ c a s p. (p.0, (a, p.1)); by_write = λ f m n s p. p }

  Owned-Safe : (s : State) → IsOwned s → IsSafe s
  Owned-Safe s p = ((λ e. absurd (false≢true (sym e ∙ p.0))), p.1)

  Unowned-raises :
      {A : Type 0} {m : M State A} → Keeps IsUnowned m → Triple IsUnowned m (λ _. IsUnowned) IsSafe
  Unowned-raises h = Triple-weaken h (λ s p. p) (λ _ s p. p) (λ s p. ((λ _. p.0), p.1))

  clock-Unowned : Keeps IsUnowned (read_clock w)
  unfolding read_clock call
  clock-Unowned =
      Keeps-request (λ s. answer (w.now s.calls)) (noted clock) (λ s p. (p.0, (tt, p.1)))

  taking :
      (fuel : ℕ) (sample : Sample)
      → Triple IsUnowned (take_over g w t mock fuel sample) (λ _. IsSafe) IsSafe
  taking fuel sample = Triple-bind {Q = λ _. IsOwned} (Triple-modify _ (λ s p. (refl, p.1))) (λ _.
      Triple-weaken
        (move-Triple g w t mock IsOwned-IsKept (λ start s p. p) {J = IsOwned}
          (λ start end_ seen b s p _ _ _. p) fuel)
        (λ s p. p) (λ _. Owned-Safe) Owned-Safe)

  discovering :
      (fuel : ℕ) (now : Num) → Triple IsUnowned (discover g w t mock fuel now) (λ _. IsSafe) IsSafe
  discovering fuel now =
      Triple-bind (Unowned-raises (check-Keeps w (λ s p. (p.0, (tt, p.1))) now false)) (taking fuel)

  preparing :
      (fuel : ℕ) (p : Parameters)
      → Triple IsUnowned (with_parameters g w t mock fuel p) (λ _. IsSafe) IsSafe
  unfolding write call
  preparing fuel p = Triple-bind (Unowned-raises (Keeps-modify _ (λ s q. q))) (λ _.
      Triple-bind
        (Unowned-raises (none-Keeps w (λ s p. (p.0, (tt, p.1))) (validate_parameters p t mock)))
        (λ _.
          Triple-bind
            (Unowned-raises (
              Keeps-request (λ s. w.on_spin s.calls) (noted (spin half)) (λ s p. (p.0, (tt, p.1)))))
            (λ _. Triple-bind (Unowned-raises clock-Unowned) (discovering fuel))))

  body-Safe : (fuel : ℕ) → Triple IsUnowned (body g w t mock fuel) (λ _. IsSafe) IsSafe
  unfolding body call
  body-Safe fuel =
      Triple-bind
        (Unowned-raises (
          Keeps-request (λ s. w.on_parameters s.calls) (noted get_parameters)
            (λ s p. (p.0, (tt, p.1)))))
        (preparing fuel)

  abbrev IsOver : State → Type 0
  IsOver s = IsDisarmed s.calls × AllAllowed t s.calls

  write-Sure : (f : Report → Report) → Sure IsOver (write f) IsOver
  unfolding write
  write-Sure f = Sure-modify _ (λ s p. p)

  stop-Over : Sure IsOwned (call w.on_stop stop_and_disarm) IsOver
  unfolding call
  stop-Over =
      Sure-request (λ s. w.on_stop s.calls) (noted stop_and_disarm)
        (λ s p. (inr (s.calls, refl), (tt, p.1)))

  stopping :
      (b : Bool) (s : State)
      → s.owns_motion ≡ b
      → IsSafe s
      → Sure (λ r. r ≡ s) (stop_if g w t mock b) IsOver
  stopping false s e p = Sure-pure (λ r q. subst IsOver (sym q) (inl (p.0 e), p.1))
  stopping true s e p =
      Sure-weaken
        (Sure-catch_kind is_reported (Sure-bind stop-Over (λ _. write-Sure _) (λ r q. q))
          (λ x. write-Sure _) (λ r q. q))
        (λ r q. subst IsOwned (sym q) (e, p.1)) (λ r q. q)

  -- Its clean-up ends, and stops and disarms the base if the run owned the motion.
  cleanup-Sure : (e : Option Exn) → Sure IsSafe (cleanup g w t mock e) IsOver
  unfolding cleanup
  cleanup-Sure e =
      Sure-bind (Sure-reads (λ s p. stopping s.owns_motion s refl p))
        (λ _.
          Sure-bind
            (Sure-reads {P = IsOver} {Q = IsOver}
              (λ s p. Sure-weaken (write-Sure _) (λ r q. subst IsOver (sym q) p) (λ r q. q)))
            (λ _. Sure-pure (λ s p. p)) (λ s p. p))
        (λ s p. p)

  -- The `try` block with its handler
  abbrev pub attempted : ℕ → M State (Unit {0})
  attempted fuel = catch_kind is_reported (body g w t mock fuel) (failed g w t mock)

  attempted-Safe : (fuel : ℕ) → IsSafe (attempted fuel initial).1
  unfolding write initial
  attempted-Safe fuel = Post-same IsSafe (attempted fuel initial) (
      (Triple-catch {I = IsSafe} {Q = λ _. IsSafe} {E = IsSafe} (body-Safe fuel)
          (λ e.
            Triple-if (is_reported e.kind) (λ _. Triple-modify _ (λ s p. p))
              (λ _. Triple-raise (λ s p. p)))
          (λ s p. p)).holds
        initial (tt, tt))

  -- If the `try` block ends, then so does the run; it leaves no command behind without stopping and
  -- disarming the base after it.
  pub run_trial-Over :
      (fuel : ℕ)
      → (attempted fuel initial).0 ≢ running
      → ((run_trial g w t mock fuel initial).0 ≢ running)
        × IsOver (run_trial g w t mock fuel initial).1
  unfolding run_trial
  run_trial-Over fuel n =
      finally-ends (attempted fuel) (cleanup g w t mock) initial (n, attempted-Safe fuel)
        cleanup-Sure
