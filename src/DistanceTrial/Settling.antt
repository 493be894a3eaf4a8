-- ===== src/DistanceTrial/Settling.antt =====
-- The sample that a run has in hand when the base has come to rest after the trial's commands.
use mathlib.Core.Path.{subst}
use lekiwi.Prelude.{
  ap, sym, ◌≡◌, refl, ℕ, zero, suc, Bool, not, ◌⊎◌, inl, inr, Option, none, some, String, List, [],
  ◌∷◌,
}
use lekiwi.Float.{Num, nought, lt}
use lekiwi.Float.Fpu.{Fpu}
use lekiwi.Effect.{M, Reply, answer}
use lekiwi.Effect.State.{Triple-request, Triple-reads}
use lekiwi.Effect.Triple.{
  Triple, Triple-pure, Triple-bind, Triple-if, Triple-raise, Triple-any, Triple-weaken,
  Triple-out_of_fuel,
}
use lekiwi.DistanceTrial.{Trial, Sample, Trig, velocity, displacement, period}
use lekiwi.DistanceTrial.Endpoint.{
  Call, get_parameters, spin, publish, arm, check_graph, stop_and_disarm, clock, World, State, call,
  read_clock, check_state, check_sample, hand_over, demand, none_or_raise, is_fresh, same_ready,
}
use lekiwi.DistanceTrial.Run.{is_stationary, slide, judge_window, watch_until, watch, stationary}
use lekiwi.DistanceTrial.Motion.{guard, check_gap, round_at, send_at, drive}
use lekiwi.DistanceTrial.Keeps.{IsKept, start-Keeps, clock-Keeps, call-Keeps, drive-Keeps}

abbrev Anything : State → Type 0
Anything s = Unit

module _ ⦃u : Fpu⦄ (t : Trial) where
  -- A command of the trial was sent.
  abbrev pub IsCommanded : List Call → Type 0
  IsCommanded [] = ⊥
  IsCommanded (publish v ∷ h) = (v ≡ velocity t) ⊎ IsCommanded h
  IsCommanded (get_parameters ∷ h) = IsCommanded h
  IsCommanded (spin n ∷ h) = IsCommanded h
  IsCommanded (arm ∷ h) = IsCommanded h
  IsCommanded (check_graph ∷ h) = IsCommanded h
  IsCommanded (stop_and_disarm ∷ h) = IsCommanded h
  IsCommanded (clock ∷ h) = IsCommanded h

  -- The last motion is a stop, and a command of the trial was sent before it.
  abbrev pub IsSettling : List Call → Type 0
  IsSettling [] = ⊥
  IsSettling (publish v ∷ h) = (v ≡ (nought, nought)) × IsCommanded h
  IsSettling (get_parameters ∷ h) = IsSettling h
  IsSettling (spin n ∷ h) = IsSettling h
  IsSettling (arm ∷ h) = IsSettling h
  IsSettling (check_graph ∷ h) = IsSettling h
  IsSettling (stop_and_disarm ∷ h) = IsSettling h
  IsSettling (clock ∷ h) = IsSettling h

  abbrev pub Commanded : State → Type 0
  Commanded s = IsCommanded s.calls

  abbrev Settling : State → Type 0
  Settling s = IsSettling s.calls

  commanded : (c : Call) (h : List Call) → IsCommanded h → IsCommanded (c ∷ h)
  commanded (publish v) h p = inr p
  commanded get_parameters h p = p
  commanded (spin n) h p = p
  commanded arm h p = p
  commanded check_graph h p = p
  commanded stop_and_disarm h p = p
  commanded clock h p = p

  IsSettling-IsCommanded : (h : List Call) → IsSettling h → IsCommanded h
  IsSettling-IsCommanded [] p = absurd p
  IsSettling-IsCommanded (publish v ∷ h) p = inr p.1
  IsSettling-IsCommanded (get_parameters ∷ h) p = IsSettling-IsCommanded h p
  IsSettling-IsCommanded (spin n ∷ h) p = IsSettling-IsCommanded h p
  IsSettling-IsCommanded (arm ∷ h) p = IsSettling-IsCommanded h p
  IsSettling-IsCommanded (check_graph ∷ h) p = IsSettling-IsCommanded h p
  IsSettling-IsCommanded (stop_and_disarm ∷ h) p = IsSettling-IsCommanded h p
  IsSettling-IsCommanded (clock ∷ h) p = IsSettling-IsCommanded h p

  pub Commanded-IsKept : IsKept t Commanded
  Commanded-IsKept = record {
    by_call = λ c a s p. commanded c s.calls p;
    by_write = λ f m n s p. p;
  }

  module _ (g : Trig) (w : World) where
    -- The odometry showed the sample when the base had been told to stop.
    abbrev pub IsSeen : Sample → Type 0
    IsSeen sample = (h : List Call) × (w.latest h ≡ some sample) × IsSettling h

    calling :
        {P Q : State → Type 0} {A : Type 0} (reply : List Call → Reply A) (c : Call)
        → ((s : State) → P s → Q (record s { calls = c ∷ s.calls }))
        → Triple P (call reply c) (λ _. Q) Anything
    unfolding call
    calling reply c h =
        Triple-weaken (Triple-request (λ s. reply s.calls) _ h) (λ s p. p) (λ _ s p. p) (λ s p. tt)

    reading :
        {P : State → Type 0}
        → ((s : State) → P s → P (record s { calls = clock ∷ s.calls }))
        → Triple P (read_clock w) (λ _. P) Anything
    unfolding read_clock
    reading h = calling (λ h. answer (w.now h)) clock h

    abbrev Handed : Sample → State → Type 0
    Handed sample s = IsSeen sample × Commanded s

    handing :
        (o : Option Sample)
        → Triple (λ s. (w.latest s.calls ≡ o) × Settling s) (hand_over w o) Handed Anything
    handing none = Triple-raise (λ s p. tt)
    handing (some sample) =
        Triple-bind {Q = λ _ s. Handed sample s}
          (calling w.on_graph check_graph
            (λ s p. ((s.calls, p.0, p.1), IsSettling-IsCommanded s.calls p.1)))
          (λ _. Triple-pure (λ s p. p))

    requiring :
        {P : State → Type 0} (b : Bool) (message : String)
        → Triple P (demand b message) (λ _. P) Anything
    unfolding demand
    requiring b message = Triple-if b (λ _. Triple-pure (λ s p. p)) (λ _. Triple-raise (λ s p. tt))

    expecting :
        {P : State → Type 0} (o : Option String) → Triple P (none_or_raise o) (λ _. P) Anything
    expecting none = Triple-pure (λ s p. p)
    expecting (some message) = Triple-raise (λ s p. tt)

    checking :
        (now : Num) (ready : Bool) → Triple Settling (check_sample w now ready) Handed Anything
    unfolding check_sample
    checking now ready = Triple-reads λ s p.
        Triple-weaken (looking (w.error s.calls) (w.latest s.calls) (w.ready s.calls))
          (λ r q. (ap (λ r. w.latest r.calls) q, subst Settling (sym q) p)) (λ _ s p. p) (λ s p. p)
      where
        looking :
            (error : Option String) (o : Option Sample) (is_ready : Option Bool)
            → Triple
                (λ s. (w.latest s.calls ≡ o) × Settling s)
                (check_state w now ready error o is_ready)
                Handed
                Anything
        looking error o is_ready = Triple-bind (expecting error) (λ _.
            Triple-bind (requiring (is_fresh w now o) "Missing or stale odometry") (λ _.
              Triple-bind (requiring (same_ready is_ready ready) "motor_ready must be as expected")
                (λ _. handing o)))

    judging :
        {rest : List Sample → M State Sample} (seconds : Num) (window : List Sample)
        (sample : Sample)
        → ((window : List Sample) → Triple Commanded (rest window) Handed Anything)
        → Triple (Handed sample) (judge_window g w rest seconds window sample) Handed Anything
    judging seconds window sample h =
        Triple-if (is_stationary g seconds (slide g w seconds sample window))
          (λ _. Triple-pure (λ s p. p))
          (λ _.
            Triple-weaken (h (slide g w seconds sample window)) (λ s p. p.1) (λ _ s p. p)
              (λ s p. p))

    -- A round stops the base before it looks at a sample.
    watching_round :
        {rest : List Sample → M State Sample} (deadline seconds : Num) (ready : Bool)
        (window : List Sample) (now : Num)
        → ((window : List Sample) → Triple Commanded (rest window) Handed Anything)
        → Triple Commanded (watch_until g w rest deadline seconds ready window now) Handed Anything
    watching_round deadline seconds ready window now h =
        Triple-if (lt now deadline)
          (λ _.
            Triple-bind {Q = λ _. Settling}
              (calling w.on_publish (publish (nought, nought)) (λ s p. (refl, p)))
              (λ _.
                Triple-bind {Q = λ _. Settling} (calling w.on_spin (spin period) (λ s p. p)) (λ _.
                  Triple-bind {Q = λ _. Settling} (reading (λ s p. p)) (λ now.
                    Triple-bind (checking now ready) (λ sample. judging seconds window sample h)))))
          (λ _. Triple-raise (λ s p. tt))

    watching :
        (fuel : ℕ) (deadline seconds : Num) (ready : Bool) (window : List Sample)
        → Triple Commanded (watch g w fuel deadline seconds ready window) Handed Anything
    unfolding watch
    watching zero deadline seconds ready window = Triple-out_of_fuel (λ s p. tt)
    watching (suc fuel) deadline seconds ready window =
        Triple-bind {Q = λ _. Commanded} (reading (λ s p. p)) (λ now.
          watching_round deadline seconds ready window now (watching fuel deadline seconds ready))

    -- After a command, what `stationary` hands over was shown after a later stop.
    pub stationary-IsSeen :
        (fuel : ℕ) (seconds : Num) (ready : Bool)
        → Triple Commanded (stationary g w fuel seconds ready) (λ a _. IsSeen a) Anything
    unfolding stationary
    stationary-IsSeen fuel seconds ready =
        Triple-bind {Q = λ _. Commanded} (reading (λ s p. p)) (λ now.
          Triple-weaken (watching fuel _ seconds ready []) (λ s p. p) (λ _ s p. p.0) (λ s p. p))

    module _ (mock : Bool) where
      sending :
          (fuel : ℕ) (start : Sample) (sent : Num)
          → Triple Anything
              (send_at g w t mock (drive g w t mock fuel start) none sent)
              (λ _. Commanded)
              Anything
      sending fuel start sent =
          Triple-bind {Q = λ _. Commanded}
            (calling w.on_publish (publish (velocity t)) (λ s p. inl refl))
            (λ _.
              Triple-weaken
                (Triple-bind (start-Keeps g w t Commanded-IsKept mock sent none) (λ _.
                  Triple-bind
                    (Triple-bind (clock-Keeps g w t Commanded-IsKept)
                      (λ now. call-Keeps g w t Commanded-IsKept w.on_spin (spin _) tt))
                    (λ _. drive-Keeps g w t Commanded-IsKept mock fuel start _)))
                (λ s p. p) (λ _ s p. p) (λ s p. tt))

      rounding :
          (fuel : ℕ) (start : Sample) (now : Num)
          → Triple Anything
              (round_at g w t mock (drive g w t mock fuel start) start none now)
              (λ _. Commanded)
              Anything
      rounding fuel start now = Triple-bind (Triple-any (check_gap g w t mock now none)) (λ _.
          Triple-bind (Triple-any (check_sample w now (not mock))) (λ sample.
            Triple-bind (Triple-any (guard g w t mock (displacement g start sample t.direction)))
              (λ _. Triple-bind (Triple-any (read_clock w)) (sending fuel start))))

      -- A publishing loop that ends has sent a command.
      pub drive-Commanded :
          (fuel : ℕ) (start : Sample)
          → Triple Anything (drive g w t mock fuel start none) (λ _. Commanded) Anything
      unfolding drive
      drive-Commanded zero start = Triple-out_of_fuel (λ s p. tt)
      drive-Commanded (suc fuel) start = Triple-bind (Triple-any _) (rounding fuel start)
