-- ===== src/DistanceTrial/Moves.antt =====
-- All of a run from the moment on at which it owns the motion: it returns with what completing the
-- report, after the guards, brings about.
use lekiwi.Prelude.{◌≡◌, refl, ◌∙◌, inl, ℕ, Bool, true, false, not, ◌&&◌, none, some, String}
use lekiwi.Float.{Num, nought, one}
use lekiwi.Float.Fpu.{Fpu}
use lekiwi.Effect.{M}
use lekiwi.Effect.State.{Keeps}
use lekiwi.Effect.Triple.{
  Triple, Triple-pure, Triple-bind, Triple-raise, Triple-weaken, Triple-both,
}
use lekiwi.DistanceTrial.{Trial, Sample, Trig, displacement, within_travel, within_drift}
use lekiwi.DistanceTrial.Endpoint.{publish, check_graph, World, State, demand}
use lekiwi.DistanceTrial.Run.{stationary, Timing, two}
use lekiwi.DistanceTrial.Motion.{halt_at, halt, completing, conclude, translate, move}
use lekiwi.DistanceTrial.Keeps.{
  IsKept, write-Triple, demand-Keeps, call-Keeps, write-Keeps, clock-Keeps, stationary-Keeps,
  drive-Keeps, arm-Keeps,
}
use lekiwi.DistanceTrial.Settling.{
  IsSeen, Commanded, Commanded-IsKept, drive-Commanded, stationary-IsSeen,
}

-- What a requirement lets through holds.
guarding :
    {P : State → Type 0} (b : Bool) (message : String)
    → Triple P (demand b message) (λ _ s. P s × (b ≡ true)) P
unfolding demand
guarding true message = Triple-pure (λ s p. (p, refl))
guarding false message = Triple-raise (λ s p. p)

module _ ⦃u : Fpu⦄ (g : Trig) (w : World) (t : Trial) (mock : Bool) {I : State → Type 0}
    (k : IsKept t I) where
  -- The report has its start sample.
  abbrev Begun : Sample → State → Type 0
  Begun start s = I s × (s.report.start ≡ some start)

  abbrev Driven : Sample → State → Type 0
  Driven start s = Begun start s × Commanded t s

  Begun-IsKept : (start : Sample) → IsKept t (Begun start)
  Begun-IsKept start = record {
    by_call = λ c a s p. (k.by_call c a s p.0, p.1);
    by_write = λ f m n s p. (k.by_write f m n s p.0, n s.report ∙ p.1);
  }

  Driven-IsKept : (start : Sample) → IsKept t (Driven start)
  Driven-IsKept start = record {
    by_call =
        λ c a s p. ((Begun-IsKept start).by_call c a s p.0, (Commanded-IsKept t).by_call c a s p.1);
    by_write = λ f m n s p. ((Begun-IsKept start).by_write f m n s p.0, p.1);
  }

  module _
      (begin : (start : Sample) (s : State)
        → I s
        → I (record s {
          report = record s.report { start = some start; max_publish_gap = nought };
        }))
      {J : State → Type 0}
      (complete : (start end_ : Sample)
        → IsSeen t g w end_
        → let d = displacement g start end_ t.direction in
          within_travel t d && within_drift d ≡ true
          → (s : State) → I s
          → s.report.start ≡ some start
          → s.report.end_ ≡ some end_
          → s.report.odom ≡ some d
          → J (record s { report = completing g w t mock d s.report })) where
    conclude-Triple :
        (start end_ : Sample)
        → IsSeen t g w end_
        → Triple (Begun start) (conclude g w t mock start end_) (λ _. J) I
    conclude-Triple start end_ seen =
        let d = displacement g start end_ t.direction in
        Triple-bind
          {Q = λ _ s. Begun start s × (s.report.end_ ≡ some end_) × (s.report.odom ≡ some d)}
          (write-Triple _ (λ s p. (
            (Begun-IsKept start).by_write (λ r. record r { end_ = some end_; odom = some d })
                (λ r. refl) (λ r. refl) s p,
            refl,
            refl,
          )))
          (λ _.
            Triple-bind
              (Triple-weaken (guarding (within_travel t d && within_drift d) _) (λ s p. p)
                (λ _ s p. p) (λ s p. p.0.0))
              (λ _.
                write-Triple (completing g w t mock d)
                  (λ s p. complete start end_ seen p.1 s p.0.0.0 p.0.0.1 p.0.1 p.0.2)))

    halt_at-Triple :
        (fuel : ℕ) (start : Sample) (timing : Timing) (ended : Num)
        → Triple (Driven start) (halt_at g w t mock fuel start timing ended) (λ _. J) I
    halt_at-Triple fuel start timing ended =
        let q = Driven-IsKept start in
        Triple-bind (out (call-Keeps g w t q w.on_publish (publish (nought, nought)) (inl refl)))
          (λ _. Triple-bind (out (write-Keeps g w t q _ (λ r. refl) (λ r. refl))) (λ _.
            Triple-bind
              (out (
                demand-Keeps w (q.by_call check_graph tt) _
                  "Motion duration exceeded timing tolerance"))
              (λ _.
                Triple-bind {Q = λ end_ s. IsSeen t g w end_ × Begun start s} settled
                  λ end_. record { holds = λ s p. (conclude-Triple start end_ p.0).holds s p.1 })))
      where
        out :
            {A : Type 0} {m : M State A}
            → Keeps (Driven start) m
            → Triple (Driven start) m (λ _. Driven start) I
        out h = Triple-weaken h (λ s p. p) (λ _ s p. p) (λ s p. p.0.0)

        settled :
            Triple
              (Driven start)
              (stationary g w fuel two (not mock))
              (λ end_ s. IsSeen t g w end_ × Begun start s)
              I
        settled =
            Triple-weaken
              (Triple-both (stationary-Keeps g w t (Begun-IsKept start) fuel two (not mock))
                (stationary-IsSeen t g w fuel two (not mock)))
              (λ s p. p) (λ _ s p. (p.1, p.0)) (λ s p. p.0.0)

    halt-Triple :
        (fuel : ℕ) (start : Sample) (timing : Timing)
        → Triple (Driven start) (halt g w t mock fuel start timing) (λ _. J) I
    halt-Triple fuel start timing =
        Triple-bind
          (Triple-weaken (clock-Keeps g w t (Driven-IsKept start)) (λ s p. p) (λ _ s p. p)
            (λ s p. p.0.0))
          (halt_at-Triple fuel start timing)

    translate-Triple :
        (fuel : ℕ) (start : Sample) → Triple I (translate g w t mock fuel start) (λ _. J) I
    translate-Triple fuel start =
        Triple-bind {Q = λ _. Begun start} (write-Triple _ (λ s p. (begin start s p, refl))) (λ _.
          Triple-bind {Q = λ _. Driven start}
            (Triple-weaken
              (Triple-both (drive-Keeps g w t (Begun-IsKept start) mock fuel start none)
                (drive-Commanded t g w mock fuel start))
              (λ s p. (p, tt)) (λ _ s p. p) (λ s p. p.0.0))
            (halt-Triple fuel start))

    pub move-Triple : (fuel : ℕ) → Triple I (move g w t mock fuel) (λ _. J) I
    move-Triple fuel = Triple-bind (stationary-Keeps g w t k fuel one false) (λ _.
        Triple-bind (arm-Keeps g w t k mock mock)
          (λ _. Triple-bind (stationary-Keeps g w t k fuel one (not mock)) (translate-Triple fuel)))
