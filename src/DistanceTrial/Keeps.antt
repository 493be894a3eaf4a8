-- ===== src/DistanceTrial/Keeps.antt =====
-- What a run keeps of a claim: calls whose motions are a stop or the trial's, and entries of the report.
use lekiwi.Prelude.{
  ◌≡◌, refl, ◌⊎◌, inl, inr, ℕ, zero, suc, Bool, true, false, not, Option, none, some, String, List,
  [], ◌∷◌,
}
use lekiwi.Float.{Num, nought, le, lt}
use lekiwi.Float.Fpu.{Fpu}
use lekiwi.Effect.{M, Reply, answer}
use lekiwi.Effect.State.{Keeps, Keeps-reads, Keeps-modify, Keeps-request, Keeps-pure, Triple-modify}
use lekiwi.Effect.Triple.{Triple, Triple-bind, Triple-if, Triple-raise, Triple-out_of_fuel}
use lekiwi.DistanceTrial.{
  Trial, Sample, Displacement, Trig, velocity, displacement, within_travel, within_drift, period,
}
use lekiwi.DistanceTrial.Endpoint.{
  Call, spin, publish, arm, check_graph, clock, World, Report, State, call, write, demand,
  none_or_raise, hand_over, check_state, read_clock, check_sample, is_fresh, same_ready,
}
use lekiwi.DistanceTrial.Run.{
  is_stationary, slide, judge_window, watch_once, watch_until, watch, stationary, Timing,
}
use lekiwi.DistanceTrial.Motion.{
  guard, check_gap, note_start, send_at, send, send_in_time, guarded, round_at, round, round_if,
  drive, arm_unless,
}

abbrev pub noted : Call → State → State
noted c s = record s { calls = c ∷ s.calls }

-- A motion is a stop or the trial's; other calls are free.
abbrev pub Allowed : ⦃u : Fpu⦄ → Trial → Call → Type 0
Allowed t (publish v) = (v ≡ (nought, nought)) ⊎ (v ≡ velocity t)
Allowed t _ = Unit

pub record IsKept ⦃u : Fpu⦄ (t : Trial) (I : State → Type 0) : Type 0 where
  pub by_call : (c : Call) → Allowed t c → (s : State) → I s → I (noted c s)
  pub by_write :
      (f : Report → Report)
      → ((r : Report) → (f r).completed ≡ r.completed)
      → ((r : Report) → (f r).start ≡ r.start)
      → (s : State) → I s
      → I (record s { report = f s.report })

pub write-Triple :
    {P Q E : State → Type 0} (f : Report → Report)
    → ((s : State) → P s → Q (record s { report = f s.report }))
    → Triple P (write f) (λ _. Q) E
unfolding write
write-Triple f h = Triple-modify _ h

-- The checks of a sample keep what calls of `check_graph` keep.
module _ ⦃u : Fpu⦄ (w : World) {I : State → Type 0}
    (k : (s : State) → I s → I (noted check_graph s)) where
  pub demand-Keeps : (b : Bool) (message : String) → Keeps I (demand b message)
  unfolding demand
  demand-Keeps b message = Triple-if b (λ _. Keeps-pure) (λ _. Triple-raise (λ s p. p))

  pub none-Keeps : (o : Option String) → Keeps I (none_or_raise o)
  none-Keeps none = Keeps-pure
  none-Keeps (some message) = Triple-raise (λ s p. p)

  hand-Keeps : (o : Option Sample) → Keeps I (hand_over w o)
  unfolding call
  hand-Keeps none = Triple-raise (λ s p. p)
  hand-Keeps (some sample) =
      Triple-bind (Keeps-request (λ s. w.on_graph s.calls) (noted check_graph) k) (λ _. Keeps-pure)

  state-Keeps :
      (now : Num) (ready : Bool) (error : Option String) (sample : Option Sample)
      (is_ready : Option Bool)
      → Keeps I (check_state w now ready error sample is_ready)
  state-Keeps now ready error sample is_ready = Triple-bind (none-Keeps error) (λ _.
      Triple-bind (demand-Keeps (is_fresh w now sample) "Missing or stale odometry") (λ _.
        Triple-bind (demand-Keeps (same_ready is_ready ready) "motor_ready must be as expected")
          (λ _. hand-Keeps sample)))

  pub check-Keeps : (now : Num) (ready : Bool) → Keeps I (check_sample w now ready)
  unfolding check_sample
  check-Keeps now ready =
      Keeps-reads
        λ s _. state-Keeps now ready (w.error s.calls) (w.latest s.calls) (w.ready s.calls)

module _ ⦃u : Fpu⦄ (g : Trig) (w : World) (t : Trial) {I : State → Type 0} (k : IsKept t I) where
  pub call-Keeps :
      {A : Type 0} (reply : List Call → Reply A) (c : Call) → Allowed t c → Keeps I (call reply c)
  unfolding call
  call-Keeps reply c a = Keeps-request (λ s. reply s.calls) (noted c) (k.by_call c a)

  pub write-Keeps :
      (f : Report → Report)
      → ((r : Report) → (f r).completed ≡ r.completed)
      → ((r : Report) → (f r).start ≡ r.start)
      → Keeps I (write f)
  unfolding write
  write-Keeps f m n = Keeps-modify _ (k.by_write f m n)

  pub clock-Keeps : Keeps I (read_clock w)
  unfolding read_clock
  clock-Keeps = call-Keeps (λ h. answer (w.now h)) clock tt

  sample-Keeps : (now : Num) (ready : Bool) → Keeps I (check_sample w now ready)
  sample-Keeps = check-Keeps w (k.by_call check_graph tt)

  judge-Keeps :
      {rest : List Sample → M State Sample} (seconds : Num) (window : List Sample) (sample : Sample)
      → ((window : List Sample) → Keeps I (rest window))
      → Keeps I (judge_window g w rest seconds window sample)
  judge-Keeps seconds window sample h =
      Triple-if (is_stationary g seconds (slide g w seconds sample window)) (λ _. Keeps-pure)
        (λ _. h (slide g w seconds sample window))

  once-Keeps :
      {rest : List Sample → M State Sample} (seconds : Num) (ready : Bool) (window : List Sample)
      (now : Num)
      → ((window : List Sample) → Keeps I (rest window))
      → Keeps I (watch_once g w rest seconds ready window now)
  once-Keeps seconds ready window now h =
      Triple-bind (sample-Keeps now ready) (λ sample. judge-Keeps seconds window sample h)

  until-Keeps :
      {rest : List Sample → M State Sample} (deadline seconds : Num) (ready : Bool)
      (window : List Sample) (now : Num)
      → ((window : List Sample) → Keeps I (rest window))
      → Keeps I (watch_until g w rest deadline seconds ready window now)
  until-Keeps deadline seconds ready window now h =
      Triple-if (lt now deadline)
        (λ _. Triple-bind (call-Keeps w.on_publish (publish (nought, nought)) (inl refl)) (λ _.
          Triple-bind (call-Keeps w.on_spin (spin period) tt)
            (λ _. Triple-bind clock-Keeps (λ now. once-Keeps seconds ready window now h))))
        (λ _. Triple-raise (λ s p. p))

  watch-Keeps :
      (fuel : ℕ) (deadline seconds : Num) (ready : Bool) (window : List Sample)
      → Keeps I (watch g w fuel deadline seconds ready window)
  unfolding watch
  watch-Keeps zero deadline seconds ready window = Triple-out_of_fuel (λ s p. p)
  watch-Keeps (suc fuel) deadline seconds ready window = Triple-bind clock-Keeps (λ now.
      until-Keeps deadline seconds ready window now (watch-Keeps fuel deadline seconds ready))

  pub stationary-Keeps :
      (fuel : ℕ) (seconds : Num) (ready : Bool) → Keeps I (stationary g w fuel seconds ready)
  unfolding stationary
  stationary-Keeps fuel seconds ready =
      Triple-bind clock-Keeps (λ now. watch-Keeps fuel _ seconds ready [])

  module _ (mock : Bool) where
    gap-Keeps : (now : Num) (timing : Option Timing) → Keeps I (check_gap g w t mock now timing)
    unfolding check_gap
    gap-Keeps now none = Keeps-pure
    gap-Keeps now (some timing) =
        Triple-bind (write-Keeps _ (λ r. refl) (λ r. refl))
          (λ _. demand-Keeps w (k.by_call check_graph tt) _ "Command publishing stalled")

    pub start-Keeps :
        (sent : Num) (timing : Option Timing) → Keeps I (note_start g w t mock sent timing)
    start-Keeps sent none = write-Keeps _ (λ r. refl) (λ r. refl)
    start-Keeps sent (some timing) = Keeps-pure

    module _ {rest : Option Timing → M State Timing}
        (h : (timing : Option Timing) → Keeps I (rest timing)) where
      send_at-Keeps :
          (timing : Option Timing) (sent : Num) → Keeps I (send_at g w t mock rest timing sent)
      send_at-Keeps timing sent =
          Triple-bind (call-Keeps w.on_publish (publish (velocity t)) (inr refl)) (λ _.
            Triple-bind (start-Keeps sent timing) (λ _.
              Triple-bind (Triple-bind clock-Keeps (λ now. call-Keeps w.on_spin (spin _) tt))
                (λ _. h _)))

      send-Keeps : (timing : Option Timing) → Keeps I (send g w t mock rest timing)
      send-Keeps timing = Triple-bind clock-Keeps (send_at-Keeps timing)

      in_time-Keeps : (timing : Option Timing) → Keeps I (send_in_time g w t mock rest timing)
      in_time-Keeps none = send-Keeps none
      in_time-Keeps (some timing) = Triple-bind clock-Keeps λ now.
          Triple-if (le timing.deadline now) (λ _. Keeps-pure) (λ _. send-Keeps (some timing))

      guard-Keeps : (d : Displacement) → Keeps I (guard g w t mock d)
      guard-Keeps d =
          Triple-bind (demand-Keeps w (k.by_call check_graph tt) (within_travel t d) _)
            (λ _. demand-Keeps w (k.by_call check_graph tt) (within_drift d) _)

      guarded-Keeps :
          (start : Sample) (timing : Option Timing) (current : Sample)
          → Keeps I (guarded g w t mock rest start timing current)
      guarded-Keeps start timing current =
          Triple-bind (guard-Keeps (displacement g start current t.direction))
            (λ _. in_time-Keeps timing)

      round_at-Keeps :
          (start : Sample) (timing : Option Timing) (now : Num)
          → Keeps I (round_at g w t mock rest start timing now)
      round_at-Keeps start timing now =
          Triple-bind (gap-Keeps now timing)
            (λ _. Triple-bind (sample-Keeps now (not mock)) (guarded-Keeps start timing))

      round-Keeps :
          (start : Sample) (timing : Option Timing) → Keeps I (round g w t mock rest start timing)
      round-Keeps start timing = Triple-bind clock-Keeps (round_at-Keeps start timing)

      round_if-Keeps :
          (start : Sample) (timing : Option Timing)
          → Keeps I (round_if g w t mock rest start timing)
      round_if-Keeps start none = round-Keeps start none
      round_if-Keeps start (some timing) = Triple-bind clock-Keeps λ now.
          Triple-if (lt now timing.deadline) (λ _. round-Keeps start (some timing))
            (λ _. Keeps-pure)

    pub drive-Keeps :
        (fuel : ℕ) (start : Sample) (timing : Option Timing)
        → Keeps I (drive g w t mock fuel start timing)
    unfolding drive
    drive-Keeps zero start timing = Triple-out_of_fuel (λ s p. p)
    drive-Keeps (suc fuel) start timing = round_if-Keeps (drive-Keeps fuel start) start timing

    pub arm-Keeps : (b : Bool) → Keeps I (arm_unless g w t mock b)
    arm-Keeps true = Keeps-pure
    arm-Keeps false = call-Keeps w.on_arm arm tt
