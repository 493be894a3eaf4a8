-- ===== src/DistanceTrial/Waits.antt =====
-- The loop of `stationary` ends when the clock runs.
use mathlib.Core.Path.{subst}
use lekiwi.Prelude.{
  ◌≡◌, refl, sym, ◌∙◌, ap, ℕ, zero, suc, ◌+◌, ◌≤◌, arith, Bool, true, false, false≢true, Option,
  none, some, String, List, [], ◌∷◌, ◌++◌, length, if◌then◌else◌,
}
use lekiwi.Float.{Num, nought, le, lt}
use lekiwi.Float.Fpu.{Fpu}
use lekiwi.Effect.{M, ◌>>=◌, Reply}
use lekiwi.Effect.State.{request}
use lekiwi.Effect.Sure.{
  Sure, Sure-bind, Sure-pure, Sure-raise, Sure-if, Sure-reads, Sure-modify, Sure-request,
  Sure-weaken,
}
use lekiwi.DistanceTrial.{Sample, Trig, period}
use lekiwi.DistanceTrial.Endpoint.{
  Call, spin, publish, check_graph, clock, World, Report, State, call, write, demand, none_or_raise,
  hand_over, check_state, read_clock, check_sample, is_fresh, same_ready,
}
use lekiwi.DistanceTrial.Run.{
  is_stationary, slide, watch_once, watch_until, watch, stationary, stop_timeout,
}
use lekiwi.DistanceTrial.Keeps.{noted}

-- After the history there were at least that many calls.
abbrev pub Passed : List Call → ℕ → State → Type 0
Passed h k s = (more : List Call) × (s.calls ≡ more ++ h) × (k ≤ length more)

abbrev pub Any : State → Type 0
Any s = Unit

-- What no call and no entry of the report breaks.
pub record IsClosed (P : State → Type 0) : Type 0 where
  pub by_call : (c : Call) (s : State) → P s → P (noted c s)
  pub by_write : (f : Report → Report) (s : State) → P s → P (record s { report = f s.report })

pub Any-IsClosed : IsClosed Any
Any-IsClosed = record { by_call = λ c s p. tt; by_write = λ f s p. tt }

pub Passed-IsClosed : (h : List Call) (k : ℕ) → IsClosed (Passed h k)
Passed-IsClosed h k = record {
  by_call = λ c s p. (c ∷ p.0, ap (λ l. c ∷ l) p.1, omega (arith, p.2));
  by_write = λ f s p. p;
}

-- A call counts.
pub counted :
    (h : List Call) (k : ℕ) (c : Call) (s : State) → Passed h k s → Passed h (suc k) (noted c s)
counted h k c s p = (c ∷ p.0, ap (λ l. c ∷ l) p.1, omega (arith, p.2))

pub le-not_lt : (a b : Num) → le a b ≡ true → lt b a ≡ false
unfolding le lt
le-not_lt a b e = ground arith

pub Sure-split :
    {A : Type 0} {P Q : State → Type 0} {m n : M State A} (b : Bool)
    → (b ≡ true → Sure P m Q)
    → (b ≡ false → Sure P n Q)
    → Sure P (if b then m else n) Q
Sure-split true h k = h refl
Sure-split false h k = k refl

module _ ⦃u : Fpu⦄ (w : World) where
  -- A reading of the clock
  pub Sure-clock :
      {A : Type 0} {P R : State → Type 0} (f : Num → M State A)
      → ((s : State) → P s → Sure (λ r. r ≡ noted clock s) (f (w.now (clock ∷ s.calls))) R)
      → Sure P (read_clock w >>= f) R
  unfolding read_clock call request
  Sure-clock f h = record { sure = λ s p. (h s p).sure (noted clock s) refl }

  -- After at least `n` calls the clock has gone on by the delay.
  abbrev pub Passes : ℕ → Num → Type 0
  Passes n delay =
      (h more : List Call) → n ≤ length more → le (u.add (w.now h) delay) (w.now (more ++ h)) ≡ true

  pub expired :
      {n : ℕ} (delay : Num)
      → Passes n delay
      → (h : List Call) {k : ℕ} (s : State) → Passed h k s
      → n ≤ suc k
      → lt (w.now (clock ∷ s.calls)) (u.add (w.now h) delay) ≡ false
  expired delay c h s (more, e, l) m =
      subst (λ calls. lt (w.now (clock ∷ calls)) (u.add (w.now h) delay) ≡ false) (sym e)
        (le-not_lt _ _ (c h (clock ∷ more) (omega (arith, l, m))))

  module _ {P : State → Type 0} (k : IsClosed P) where
    pub call-Sure : {A : Type 0} (reply : List Call → Reply A) (c : Call) → Sure P (call reply c) P
    unfolding call
    call-Sure reply c = Sure-request (λ s. reply s.calls) (noted c) (k.by_call c)

    pub write-Sure : (f : Report → Report) → Sure P (write f) P
    unfolding write
    write-Sure f = Sure-modify _ (k.by_write f)

    pub demand-Sure : (b : Bool) (message : String) → Sure P (demand b message) P
    unfolding demand
    demand-Sure b message = Sure-if b (Sure-pure (λ s p. p)) (Sure-raise (λ s p. p))

    pub none-Sure : (o : Option String) → Sure P (none_or_raise o) P
    none-Sure none = Sure-pure (λ s p. p)
    none-Sure (some message) = Sure-raise (λ s p. p)

    pub hand-Sure : (o : Option Sample) → Sure P (hand_over w o) P
    hand-Sure none = Sure-raise (λ s p. p)
    hand-Sure (some sample) =
        Sure-bind (call-Sure w.on_graph check_graph) (λ _. Sure-pure (λ s p. p)) (λ s p. p)

    pub state-Sure :
        (now : Num) (ready : Bool) (error : Option String) (sample : Option Sample)
        (is_ready : Option Bool)
        → Sure P (check_state w now ready error sample is_ready) P
    state-Sure now ready error sample is_ready =
        Sure-bind (none-Sure error)
          (λ _.
            Sure-bind (demand-Sure (is_fresh w now sample) "Missing or stale odometry")
              (λ _.
                Sure-bind
                  (demand-Sure (same_ready is_ready ready) "motor_ready must be as expected")
                  (λ _. hand-Sure sample) (λ s p. p))
              (λ s p. p))
          (λ s p. p)

    pub sample-Sure : (now : Num) (ready : Bool) → Sure P (check_sample w now ready) P
    unfolding check_sample
    sample-Sure now ready = Sure-reads λ s p.
        Sure-weaken (state-Sure now ready (w.error s.calls) (w.latest s.calls) (w.ready s.calls))
          (λ r q. subst P (sym q) p) (λ r q. q)

    -- A reading of the clock that is not compared with a deadline
    pub clock-Sure :
        {A : Type 0} {R : State → Type 0} (f : Num → M State A)
        → ((now : Num) → Sure P (f now) R)
        → Sure P (read_clock w >>= f) R
    clock-Sure f h = Sure-clock f λ s p.
        Sure-weaken (h (w.now (clock ∷ s.calls))) (λ r q. subst P (sym q) (k.by_call clock s p))
          (λ r q. q)

module _ ⦃u : Fpu⦄ (w : World) (g : Trig) {n : ℕ} (passes : Passes w n stop_timeout) where
  pub watch-Sure :
      (h : List Call) (fuel k : ℕ) (seconds : Num) (ready : Bool) (window : List Sample)
      → n ≤ suc (fuel + k)
      → Sure
          (Passed h k)
          (watch g w (suc fuel) (u.add (w.now h) stop_timeout) seconds ready window)
          Any
  unfolding watch
  watch-Sure h zero k seconds ready window m =
      let until = u.add (w.now h) stop_timeout in
      Sure-clock w (watch_until g w (watch g w zero until seconds ready) until seconds ready window)
        λ s p.
          Sure-split (lt (w.now (clock ∷ s.calls)) (u.add (w.now h) stop_timeout))
            (λ e. absurd (
              false≢true
                (sym (expired w stop_timeout passes h {k = k} s p (omega (arith, m))) ∙ e)))
            (λ _. Sure-raise (λ s p. tt))
  watch-Sure h (suc fuel) k seconds ready window m =
      let until = u.add (w.now h) stop_timeout in
      let again = watch g w (suc fuel) until seconds ready in
      Sure-clock w (watch_until g w again until seconds ready window) λ s p.
        let closed = Passed-IsClosed h (suc k) in
        Sure-split (lt (w.now (clock ∷ s.calls)) (u.add (w.now h) stop_timeout))
          (λ _.
            Sure-weaken
              (Sure-bind (call-Sure w closed w.on_publish (publish (nought, nought)))
                (λ _.
                  Sure-bind (call-Sure w closed w.on_spin (spin period))
                    (λ _. clock-Sure w closed (watch_once g w again seconds ready window) (λ now.
                      Sure-bind (sample-Sure w closed now ready)
                        (λ sample.
                          Sure-if (is_stationary g seconds (slide g w seconds sample window))
                            (Sure-pure (λ s p. tt))
                            (watch-Sure h fuel (suc k) seconds ready
                              (slide g w seconds sample window) (omega (arith, m))))
                        (λ s p. tt)))
                    (λ s p. tt))
                (λ s p. tt))
              (λ r q. subst (Passed h (suc k)) (sym q) (counted h k clock s p)) (λ r q. q))
          (λ _. Sure-raise (λ s p. tt))

  pub stationary-Sure :
      (fuel : ℕ) (seconds : Num) (ready : Bool)
      → n ≤ suc fuel
      → Sure Any (stationary g w (suc fuel) seconds ready) Any
  unfolding stationary
  stationary-Sure fuel seconds ready m =
      Sure-clock w (λ now. watch g w (suc fuel) (u.add now stop_timeout) seconds ready [])
        λ s p.
          Sure-weaken (watch-Sure (clock ∷ s.calls) fuel 0 seconds ready [] (omega (arith, m)))
            (λ r q. subst (Passed (clock ∷ s.calls) 0) (sym q) ([], refl, omega arith)) (λ r q. q)
