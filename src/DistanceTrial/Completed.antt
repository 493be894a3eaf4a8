-- ===== src/DistanceTrial/Completed.antt =====
-- What a completed report shows.
use mathlib.Core.Path.{subst}
use lekiwi.Prelude.{
  arith, ◌≡◌, ◌≢◌, refl, sym, ◌∙◌, ℕ, ◌⊎◌, inl, inr, Bool, true, false, false≢true, ◌&&◌, Option,
  none, some, List,
}
use lekiwi.Float.{Num, le, fabs}
use lekiwi.Float.Fpu.{Fpu}
use lekiwi.Effect.{
  Exn, Outcome, after_value, after_raise, value, raised, running, Reply, answer, finally_with,
}
use lekiwi.Effect.State.{Keeps, Keeps-request, Triple-modify, Triple-reads, Triple-catch}
use lekiwi.Effect.Triple.{
  Post, Triple, Triple-bind, Triple-pure, Triple-raise, Triple-if, Triple-weaken,
}
use lekiwi.DistanceTrial.{
  Displacement, Parameters, Trial, Sample, displacement, Trig, within_travel, within_drift,
  validate_parameters, half,
}
use lekiwi.DistanceTrial.Endpoint.{
  Call, get_parameters, spin, stop_and_disarm, clock, World, Report, State, call, read_clock,
}
use lekiwi.DistanceTrial.Motion.{
  completing, move, take_over, discover, with_parameters, body, is_reported, stop_if, cleanup,
  run_trial, initial,
}
use lekiwi.DistanceTrial.Keeps.{noted, IsKept, check-Keeps, none-Keeps, write-Triple}
use lekiwi.DistanceTrial.Lifecycle.{attempted}
use lekiwi.DistanceTrial.Settling.{IsSeen}
use lekiwi.DistanceTrial.Moves.{move-Triple}

module _ ⦃u : Fpu⦄ (g : Trig) (w : World) (t : Trial) (mock : Bool) where
  abbrev IsOpen : State → Type 0
  IsOpen s = s.report.completed ≡ false

  abbrev IsMoving : State → Type 0
  IsMoving s = (s.owns_motion ≡ true) × (s.report.completed ≡ false)

  -- The base went at most 2 cm back and at most 5 cm too far, at most 3 cm sideways, and turned by at most
  -- 0.2 rad.
  abbrev pub IsWithinGuards : Displacement → Type 0
  IsWithinGuards d =
      (le 0xbf947ae147ae147b d.along_m ≡ true)
      × (le d.along_m (u.add t.distance_m 0x3fa999999999999a) ≡ true)
      × (le (fabs d.cross_m) 0x3f9eb851eb851eb8 ≡ true)
      × (le (fabs d.yaw_rad) 0x3fc999999999999a ≡ true)

  guarded : (d : Displacement) → within_travel t d && within_drift d ≡ true → IsWithinGuards d
  unfolding within_travel within_drift
  guarded d e = ground arith

  -- A completed report has the odometry's displacement from its start sample to its end sample, which
  -- was the latest after the trial's last command and a stop, and this passed the guards.
  abbrev pub IsGuarded : Report → Type 0
  IsGuarded r =
      (start : Sample) × (end_ : Sample) × (r.start ≡ some start)
      × (r.end_ ≡ some end_)
      × (r.odom ≡ some (displacement g start end_ t.direction))
      × IsSeen t g w end_
      × IsWithinGuards (displacement g start end_ t.direction)

  abbrev IsChecked : State → Type 0
  IsChecked s = s.report.completed ≡ true → (s.owns_motion ≡ true) × IsGuarded s.report

  Moving-Checked : (s : State) → IsOpen s → IsChecked s
  Moving-Checked s p e = absurd (false≢true (sym p ∙ e))

  IsMoving-IsKept : IsKept t IsMoving
  IsMoving-IsKept = record {
    by_call = λ c a s p. p;
    by_write = λ f m n s p. (p.0, m s.report ∙ p.1);
  }

  finished :
      (start end_ : Sample)
      → IsSeen t g w end_
      → let d = displacement g start end_ t.direction in
        within_travel t d && within_drift d ≡ true
        → (s : State) → IsMoving s
        → s.report.start ≡ some start
        → s.report.end_ ≡ some end_
        → s.report.odom ≡ some d
        → IsChecked (record s { report = completing g w t mock d s.report })
  finished start end_ seen guards s p from_start to_end odom e = (
    p.0,
    (
      start,
      end_,
      from_start,
      to_end,
      odom,
      seen,
      guarded (displacement g start end_ t.direction) guards,
    ),
  )

  moving : (fuel : ℕ) → Triple IsMoving (move g w t mock fuel) (λ _. IsChecked) IsOpen
  moving fuel =
      Triple-weaken
        (move-Triple g w t mock IsMoving-IsKept (λ start s p. p) {J = IsChecked} finished fuel)
        (λ s p. p) (λ _ s p. p) (λ s p. p.1)

  Open-call : {A : Type 0} (reply : List Call → Reply A) (c : Call) → Keeps IsOpen (call reply c)
  unfolding call
  Open-call reply c = Keeps-request (λ s. reply s.calls) (noted c) (λ s p. p)

  Open-clock : Keeps IsOpen (read_clock w)
  unfolding read_clock
  Open-clock = Open-call (λ h. answer (w.now h)) clock

  taking :
      (fuel : ℕ) (sample : Sample)
      → Triple IsOpen (take_over g w t mock fuel sample) (λ _. IsChecked) IsOpen
  taking fuel sample =
      Triple-bind {Q = λ _. IsMoving} (Triple-modify _ (λ s p. (refl, p))) (λ _. moving fuel)

  discovering :
      (fuel : ℕ) (now : Num) → Triple IsOpen (discover g w t mock fuel now) (λ _. IsChecked) IsOpen
  discovering fuel now = Triple-bind (check-Keeps w (λ s p. p) now false) (taking fuel)

  preparing :
      (fuel : ℕ) (p : Parameters)
      → Triple IsOpen (with_parameters g w t mock fuel p) (λ _. IsChecked) IsOpen
  preparing fuel p = Triple-bind (write-Triple _ (λ s q. q)) (λ _.
      Triple-bind (none-Keeps w (λ s p. p) (validate_parameters p t mock)) (λ _.
        Triple-bind (Open-call w.on_spin (spin half))
          (λ _. Triple-bind Open-clock (discovering fuel))))

  body-Checked : (fuel : ℕ) → Triple IsOpen (body g w t mock fuel) (λ _. IsChecked) IsOpen
  unfolding body
  body-Checked fuel = Triple-bind (Open-call w.on_parameters get_parameters) (preparing fuel)

  attempted-Checked : (fuel : ℕ) → Triple IsOpen (attempted g w t mock fuel) (λ _. IsChecked) IsOpen
  attempted-Checked fuel =
      Triple-catch (body-Checked fuel)
        (λ e.
          Triple-if (is_reported e.kind) (λ _. write-Triple _ (λ s p e. absurd (false≢true e)))
            (λ _. Triple-raise (λ s p. p)))
        (λ s p. p)

  -- A completed report has its guards and the acknowledgement of the power cut.
  abbrev IsConfirmed : Report → Type 0
  IsConfirmed r = r.completed ≡ true → (r.torque_off ≡ some true) × IsGuarded r

  abbrev Confirmed : State → Type 0
  Confirmed s = IsConfirmed s.report

  abbrev Anything : State → Type 0
  Anything s = Unit

  Checked-call : Keeps IsChecked (call w.on_stop stop_and_disarm)
  unfolding call
  Checked-call = Keeps-request (λ s. w.on_stop s.calls) (noted stop_and_disarm) (λ s p. p)

  stopping :
      (b : Bool) (s : State)
      → s.owns_motion ≡ b
      → IsChecked s
      → Triple (λ r. r ≡ s) (stop_if g w t mock b) (λ _. Confirmed) Anything
  stopping false s e p =
      Triple-pure (λ r q. subst Confirmed (sym q) (λ c. absurd (false≢true (sym e ∙ (p c).0))))
  stopping true s e p =
      Triple-weaken {P = IsChecked} {Q = λ _. Confirmed} {E = Anything}
        (Triple-catch {I = IsChecked}
          (Triple-bind Checked-call (λ _. write-Triple _ (λ r q c. (refl, (q c).1))))
          (λ x.
            Triple-if (is_reported x.kind) (λ _. write-Triple _ (λ r q c. absurd (false≢true c)))
              (λ _. Triple-raise (λ r q. tt)))
          (λ r q. tt))
        (λ r q. subst IsChecked (sym q) p) (λ _ r q. q) (λ r q. q)

  cleanup-Confirmed :
      (e : Option Exn) → Triple IsChecked (cleanup g w t mock e) (λ _. Confirmed) Anything
  unfolding cleanup
  cleanup-Confirmed e =
      Triple-bind {Q = λ _. Confirmed} (Triple-reads (λ s p. stopping s.owns_motion s refl p)) (λ _.
        Triple-bind {Q = λ _. Confirmed}
          (Triple-reads (λ s p. write-Triple _ (λ r q. subst Confirmed (sym q) p)))
          (λ _. Triple-pure (λ s p. p)))

  confirmed :
      (fuel : ℕ)
      → (run_trial g w t mock fuel initial).0 ≡ value tt
      → IsConfirmed (run_trial g w t mock fuel initial).1.report
  unfolding run_trial finally_with initial
  confirmed fuel e =
      go (attempted g w t mock fuel initial) ((attempted-Checked fuel).holds initial refl) e
    where
      after :
          (a : Unit {0}) (r : Outcome (Option Exn) × State)
          → Post {S = State} (λ _. Confirmed) Anything r
          → after_value a r.0 ≡ value tt
          → Confirmed r.1
      after a (value o, s) p q = p
      after a (raised x, s) p q = absurd (cc q)
      after a (running, s) p q = absurd (cc q)

      never : (x : Exn) (o : Outcome (Option Exn)) → after_raise {A = Unit {0}} x o ≢ value tt
      never x (value none) q = cc q
      never x (value (some n)) q = cc q
      never x (raised y) q = cc q
      never x running q = cc q

      go :
          (r : Outcome (Unit {0}) × State)
          → Post {S = State} (λ _. IsChecked) IsOpen r
          → (finally_with (λ (_ : State). r) (cleanup g w t mock) initial).0 ≡ value tt
          → IsConfirmed (finally_with (λ (_ : State). r) (cleanup g w t mock) initial).1.report
      go (value a, s) p q =
          after a (cleanup g w t mock none s) ((cleanup-Confirmed none).holds s p) q
      go (raised x, s) p q = absurd (never x (cleanup g w t mock (some x) s).0 q)
      go (running, s) p q = absurd (cc q)

  -- A run that returns either leaves a report that is not completed, or one that says that the power cut
  -- was acknowledged, and whose odometry entry is the `displacement` from its start sample to its end
  -- sample for the trial's direction: at most 2 cm back, at most 5 cm more than the trial's distance, at
  -- most 3 cm sideways and turned by at most 0.2 rad. The end sample is one that was the latest of the
  -- odometry when a command of the trial had been sent and the last motion was a stop.
  pub run_trial-IsConfirmed :
      (fuel : ℕ)
      → (run_trial g w t mock fuel initial).0 ≡ value tt
      → let report = (run_trial g w t mock fuel initial).1.report in
        (report.completed ≡ false) ⊎ ((report.torque_off ≡ some true) × IsGuarded report)
  run_trial-IsConfirmed fuel e = fork (run_trial g w t mock fuel initial).1.report.completed refl
    where
      fork :
          (b : Bool)
          → (run_trial g w t mock fuel initial).1.report.completed ≡ b
          → let report = (run_trial g w t mock fuel initial).1.report in
            (report.completed ≡ false) ⊎ ((report.torque_off ≡ some true) × IsGuarded report)
      fork true c = inr (confirmed fuel e c)
      fork false c = inl c
