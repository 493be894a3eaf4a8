-- ===== src/DistanceTrial/Termination.antt =====
-- A run ends when the clock runs.
use mathlib.Core.Path.{subst}
use lekiwi.Prelude.{
  ◌≡◌, ◌≢◌, refl, sym, ◌∙◌, ap, ℕ, zero, suc, ◌+◌, ◌≤◌, arith, Bool, true, false, false≢true, not,
  ◌&&◌, Option, none, some, List, [], ◌∷◌,
}
use lekiwi.Float.{Num, nought, one, le, lt}
use lekiwi.Float.Fpu.{Fpu}
use lekiwi.Effect.{M, running}
use lekiwi.Effect.Sure.{
  Sure, Sure-bind, Sure-pure, Sure-if, Sure-modify, Sure-weaken, Sure-catch_kind,
}
use lekiwi.DistanceTrial.{
  Parameters, Trial, Sample, Displacement, Trig, duration_s, velocity, displacement, within_travel,
  within_drift, validate_parameters, half,
}
use lekiwi.DistanceTrial.Endpoint.{Call, get_parameters, spin, publish, arm, clock, World, State}
use lekiwi.DistanceTrial.Run.{stop_timeout, Timing, two}
use lekiwi.DistanceTrial.Motion.{
  guard, check_gap, timed, note_start, slice, send_at, send, unless_late, send_in_time, round_at,
  round, unless_over, drive, halt_at, halt, conclude, translate, arm_unless, move, discover,
  with_parameters, body, is_reported, run_trial, initial,
}
use lekiwi.DistanceTrial.Lifecycle.{AllAllowed, IsDisarmed, attempted, run_trial-Over}
use lekiwi.DistanceTrial.Waits.{
  Passed, Any, IsClosed, Any-IsClosed, Passed-IsClosed, counted, Sure-split, Sure-clock, Passes,
  expired, call-Sure, write-Sure, demand-Sure, none-Sure, sample-Sure, clock-Sure, stationary-Sure,
}

module _ ⦃u : Fpu⦄ (w : World) (g : Trig) {n : ℕ} (passes : Passes w n stop_timeout) where
  module _ (t : Trial) (mock : Bool) where
    module _ {P : State → Type 0} (c : IsClosed P) where
      gap-Sure : (now : Num) (timing : Option Timing) → Sure P (check_gap g w t mock now timing) P
      unfolding check_gap
      gap-Sure now none = Sure-pure (λ s p. p)
      gap-Sure now (some timing) =
          Sure-bind (write-Sure w c _) (λ _. demand-Sure w c _ "Command publishing stalled")
            (λ s p. p)

      guard-Sure : (d : Displacement) → Sure P (guard g w t mock d) P
      guard-Sure d =
          Sure-bind (demand-Sure w c (within_travel t d) _)
            (λ _. demand-Sure w c (within_drift d) _) (λ s p. p)

      start-Sure :
          (sent : Num) (timing : Option Timing) → Sure P (note_start g w t mock sent timing) P
      start-Sure sent none = write-Sure w c _
      start-Sure sent (some timing) = Sure-pure (λ s p. p)

      -- A command, and the loop after it
      send_at-Sure :
          (rest : Option Timing → M State Timing) (timing : Option Timing) (sent : Num)
          → Sure P (rest (some (timed g w t mock sent timing))) Any
          → Sure P (send_at g w t mock rest timing sent) Any
      send_at-Sure rest timing sent h =
          Sure-bind (call-Sure w c w.on_publish (publish (velocity t)))
            (λ _.
              Sure-bind (start-Sure sent timing)
                (λ _.
                  Sure-bind
                    (clock-Sure w c (slice g w t mock (timed g w t mock sent timing))
                      (λ now. call-Sure w c w.on_spin (spin _)))
                    (λ _. h) (λ s p. tt))
                (λ s p. tt))
            (λ s p. tt)

      -- The checks of a round
      checks-Sure :
          (rest : Option Timing → M State Timing) (start : Sample) (timing : Option Timing)
          → Sure P (send_in_time g w t mock rest timing) Any
          → Sure P (round g w t mock rest start timing) Any
      checks-Sure rest start timing h =
          clock-Sure w c (round_at g w t mock rest start timing) λ now.
            Sure-bind (gap-Sure now timing)
              (λ _.
                Sure-bind (sample-Sure w c now (not mock))
                  (λ current.
                    Sure-bind (guard-Sure (displacement g start current t.direction)) (λ _. h)
                      (λ s p. tt))
                  (λ s p. tt))
              (λ s p. tt)

    module _ (lasts : Passes w n (duration_s t)) where
      -- From the first command on, sent when the clock was read after `h`
      drive-Sure :
          (h : List Call) (fuel k : ℕ) (start : Sample) (timing : Timing)
          → timing.deadline ≡ u.add (w.now h) (duration_s t)
          → n ≤ suc (fuel + k)
          → Sure (Passed h k) (drive g w t mock (suc fuel) start (some timing)) Any
      unfolding drive
      drive-Sure h zero k start timing e m =
          Sure-clock w
            (unless_over g w t mock
              (round g w t mock (drive g w t mock zero start) start (some timing)) timing)
            λ s p.
              Sure-split (lt (w.now (clock ∷ s.calls)) timing.deadline)
                (λ l. absurd (
                  false≢true (
                    sym (expired w (duration_s t) lasts h {k = k} s p (omega (arith, m)))
                    ∙ (ap (λ d. lt (w.now (clock ∷ s.calls)) d) (sym e) ∙ l))))
                (λ _. Sure-pure (λ s p. tt))
      drive-Sure h (suc fuel) k start timing e m =
          let rest = drive g w t mock (suc fuel) start in
          let c = Passed-IsClosed h (suc k) in
          Sure-clock w (unless_over g w t mock (round g w t mock rest start (some timing)) timing)
            λ s p.
              Sure-split (lt (w.now (clock ∷ s.calls)) timing.deadline)
                (λ _.
                  Sure-weaken
                    (checks-Sure c rest start (some timing) (
                      clock-Sure w c
                        (unless_late g w t mock (send g w t mock rest (some timing)) timing)
                        (λ now. Sure-if (le timing.deadline now) (Sure-pure (λ s p. tt)) (
                          clock-Sure w c (send_at g w t mock rest (some timing)) (λ sent.
                            send_at-Sure c rest (some timing) sent (
                              drive-Sure h fuel (suc k) start (timed g w t mock sent (some timing))
                                e (omega (arith, m))))))))
                    (λ r q. subst (Passed h (suc k)) (sym q) (counted h k clock s p)) (λ r q. q))
                (λ _. Sure-pure (λ s p. tt))

      -- The whole loop
      drive_all-Sure :
          (fuel : ℕ) (start : Sample)
          → n ≤ suc fuel
          → Sure Any (drive g w t mock (suc (suc fuel)) start none) Any
      unfolding drive
      drive_all-Sure fuel start m =
          let rest = drive g w t mock (suc fuel) start in
          checks-Sure Any-IsClosed rest start none (
            Sure-clock w (send_at g w t mock rest none) λ s p.
              let h = clock ∷ s.calls in
              Sure-weaken
                (send_at-Sure (Passed-IsClosed h 0) rest none (w.now h) (
                  drive-Sure h fuel 0 start (timed g w t mock (w.now h) none) refl
                    (omega (arith, m))))
                (λ r q. subst (Passed h 0) (sym q) ([], refl, omega arith)) (λ r q. q))

      closed : IsClosed Any
      closed = Any-IsClosed

      conclude-Sure : (start end_ : Sample) → Sure Any (conclude g w t mock start end_) Any
      conclude-Sure start end_ =
          let d = displacement g start end_ t.direction in
          Sure-bind (write-Sure w closed _)
            (λ _.
              Sure-bind (demand-Sure w closed (within_travel t d && within_drift d) _)
                (λ _. write-Sure w closed _) (λ s p. tt))
            (λ s p. tt)

      halt-Sure :
          (fuel : ℕ) (start : Sample) (timing : Timing)
          → n ≤ suc fuel
          → Sure Any (halt g w t mock (suc fuel) start timing) Any
      halt-Sure fuel start timing m =
          clock-Sure w closed (halt_at g w t mock (suc fuel) start timing) λ ended.
            Sure-bind (call-Sure w closed w.on_publish (publish (nought, nought)))
              (λ _.
                Sure-bind (write-Sure w closed _)
                  (λ _.
                    Sure-bind (demand-Sure w closed _ "Motion duration exceeded timing tolerance")
                      (λ _.
                        Sure-bind (stationary-Sure w g passes fuel two (not mock) m)
                          (conclude-Sure start) (λ s p. tt))
                      (λ s p. tt))
                  (λ s p. tt))
              (λ s p. tt)

      arm-Sure : (b : Bool) → Sure Any (arm_unless g w t mock b) Any
      arm-Sure true = Sure-pure (λ s p. tt)
      arm-Sure false = call-Sure w closed w.on_arm arm

      translate-Sure :
          (fuel : ℕ) (start : Sample)
          → n ≤ suc fuel
          → Sure Any (translate g w t mock (suc (suc fuel)) start) Any
      translate-Sure fuel start m =
          Sure-bind (write-Sure w closed _)
            (λ _.
              Sure-bind (drive_all-Sure fuel start m)
                (λ timing. halt-Sure (suc fuel) start timing (omega (arith, m))) (λ s p. tt))
            (λ s p. tt)

      move-Sure : (fuel : ℕ) → n ≤ suc fuel → Sure Any (move g w t mock (suc (suc fuel))) Any
      move-Sure fuel m =
          Sure-bind (stationary-Sure w g passes (suc fuel) one false (omega (arith, m)))
            (λ _.
              Sure-bind (arm-Sure mock)
                (λ _.
                  Sure-bind
                    (stationary-Sure w g passes (suc fuel) one (not mock) (omega (arith, m)))
                    (λ start. translate-Sure fuel start m) (λ s p. tt))
                (λ s p. tt))
            (λ s p. tt)

      discover-Sure :
          (fuel : ℕ) (now : Num)
          → n ≤ suc fuel
          → Sure Any (discover g w t mock (suc (suc fuel)) now) Any
      discover-Sure fuel now m =
          Sure-bind (sample-Sure w closed now false)
            (λ sample. Sure-bind (Sure-modify _ (λ s p. tt)) (λ _. move-Sure fuel m) (λ s p. tt))
            (λ s p. tt)

      prepare-Sure :
          (fuel : ℕ) (p : Parameters)
          → n ≤ suc fuel
          → Sure Any (with_parameters g w t mock (suc (suc fuel)) p) Any
      prepare-Sure fuel p m =
          Sure-bind (write-Sure w closed _)
            (λ _.
              Sure-bind (none-Sure w closed (validate_parameters p t mock))
                (λ _.
                  Sure-bind (call-Sure w closed w.on_spin (spin half))
                    (λ _.
                      clock-Sure w closed (discover g w t mock (suc (suc fuel)))
                        (λ now. discover-Sure fuel now m))
                    (λ s p. tt))
                (λ s p. tt))
            (λ s p. tt)

      body-Sure : (fuel : ℕ) → n ≤ suc fuel → Sure Any (body g w t mock (suc (suc fuel))) Any
      unfolding body
      body-Sure fuel m =
          Sure-bind (call-Sure w closed w.on_parameters get_parameters) (λ p. prepare-Sure fuel p m)
            (λ s p. tt)

      -- If after any `n` calls the clock has gone on by the five seconds of the stop and by the duration
      -- of the trial, then a run with fuel for `n` rounds ends. Every command it sent was a stop or the
      -- trial's velocity; and if it sent any, or armed the motors, then its last call is the one that
      -- stops the base and cuts the motor power, whatever raised on the way.
      pub run_trial-disarms :
          (fuel : ℕ)
          → n ≤ suc fuel
          → let (outcome, s) = run_trial g w t mock (suc (suc fuel)) initial in
            (outcome ≢ running) × (IsDisarmed s.calls) × (AllAllowed t s.calls)
      run_trial-disarms fuel m =
          let tried : Sure Any (attempted g w t mock (suc (suc fuel))) Any =
            Sure-catch_kind is_reported (body-Sure fuel m) (λ e. write-Sure w closed _)
              (λ s p. tt) in
          let over = run_trial-Over g w t mock (suc (suc fuel)) (tried.sure initial tt).0 in
          (over.0, over.1.0, over.1.1)
