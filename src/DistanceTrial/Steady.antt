-- ===== src/DistanceTrial/Steady.antt =====
-- The samples that are kept of any odometry messages follow one another steadily.
use mathlib.Core.Path.{subst, sym}
use lekiwi.Prelude.{
  ◌≡◌, refl, ℕ, ◌<◌, Bool, true, false, ◌&&◌, Option, none, some, String, str_eq, eq_iff, List, [],
  ◌∷◌, ◌++◌, ltb, arith,
}
use lekiwi.Float.{Num, le, fabs}
use lekiwi.Float.Fpu.{Fpu}
use lekiwi.DistanceTrial.{Sample, Trig, forward, displacement, require, three_tenths, period}
use lekiwi.DistanceTrial.Samples.{
  Message, Endpoint, fifth, sample_of, check_step, check_latest, check_message, keep, on_odom,
  receive, Event, arrived, answered, handle_event,
}

-- The last of the samples
abbrev pub last_of : List Sample → Option Sample
last_of [] = none
last_of (s ∷ []) = some s
last_of (s ∷ r ∷ rs) = last_of (r ∷ rs)

last-append : (samples : List Sample) (s : Sample) → last_of (samples ++ s ∷ []) ≡ some s
last-append [] s = refl
last-append (r ∷ []) s = refl
last-append (r ∷ q ∷ qs) s = last-append (q ∷ qs) s

-- What a requirement lets through holds, and so does the rest.
required :
    (b : Bool) (message : String) (rest : Option String)
    → require b message rest ≡ none
    → (b ≡ true) × (rest ≡ none)
unfolding require
required true message rest h = (refl, h)
required false message rest h = cc h

module _ (g : Trig) ⦃u : Fpu⦄ where
  -- A later sample of the same frames, at most 5 cm, 0.2 rad and 0.3 s after the one before
  pub record IsNext (a b : Sample) : Type 0 where
    pub later : a.stamp_ns < b.stamp_ns
    pub frame : b.frame ≡ a.frame
    pub child : b.child ≡ a.child
    pub near : le (g.hypot (u.sub b.x a.x) (u.sub b.y a.y)) period ≡ true
    pub turned : le (fabs (displacement g a b forward).yaw_rad) fifth ≡ true
    pub soon : le (u.sub b.received_s a.received_s) three_tenths ≡ true

  abbrev pub IsSteady : List Sample → Type 0
  IsSteady [] = Unit
  IsSteady (a ∷ []) = Unit
  IsSteady (a ∷ b ∷ rs) = IsNext a b × IsSteady (b ∷ rs)

  abbrev Follows : Option Sample → Sample → Type 0
  Follows none s = Unit
  Follows (some a) s = IsNext a s

  IsSteady-append :
      (samples : List Sample) (s : Sample)
      → IsSteady samples
      → Follows (last_of samples) s
      → IsSteady (samples ++ s ∷ [])
  IsSteady-append [] s h f = tt
  IsSteady-append (a ∷ []) s h f = (f, tt)
  IsSteady-append (a ∷ b ∷ rs) s h f = (h.0, IsSteady-append (b ∷ rs) s h.1 f)

  step-Follows :
      (latest : Option Sample) (s : Sample) → check_latest g latest s ≡ none → Follows latest s
  unfolding check_step
  step-Follows none s h = tt
  step-Follows (some a) s h =
      let (later, h1) = required (ltb a.stamp_ns s.stamp_ns) _ _ h in
      let (frames, h2) = required (str_eq s.frame a.frame && str_eq s.child a.child) _ _ h1 in
      let (near, h3) = required _ _ _ h2 in
      let (turned, h4) = required _ _ _ h3 in
      let (soon, h5) = required _ _ _ h4 in
      record {
        later = ground arith;
        frame = (eq_iff s.frame a.frame).0 (ground arith);
        child = (eq_iff s.child a.child).0 (ground arith);
        near = near;
        turned = turned;
        soon = soon;
      }

  message-Follows :
      (e : Endpoint) (now : ℕ) (received_s : Num) (m : Message)
      → check_message g e now received_s m ≡ none
      → Follows e.latest (sample_of g received_s m)
  unfolding check_message
  message-Follows e now received_s m h =
      let (_, h1) = required _ _ _ h in
      let (_, h2) = required _ _ _ h1 in
      let (_, h3) = required _ _ _ h2 in
      let (_, h4) = required _ _ _ h3 in
      let (_, h5) = required _ _ _ h4 in
      let (_, h6) = required _ _ _ h5 in step-Follows e.latest (sample_of g received_s m) h6

  -- The latest sample is the last that was kept, and those that were kept are steady.
  abbrev pub IsTracked : Endpoint → Type 0
  IsTracked e = (e.latest ≡ last_of e.samples) × IsSteady e.samples

  keep-IsTracked :
      (e : Endpoint) (s : Sample) (o : Option String)
      → (o ≡ none → Follows e.latest s)
      → IsTracked e
      → IsTracked (keep g e s o)
  keep-IsTracked e s none f (latest, steady) = (
    sym (last-append e.samples s),
    IsSteady-append e.samples s steady (subst (λ l. Follows l s) latest (f refl)),
  )
  keep-IsTracked e s (some message) f tracked = tracked

  handle_event-IsTracked :
      (event : Event) (e : Endpoint) → IsTracked e → IsTracked (handle_event g event e)
  unfolding on_odom
  handle_event-IsTracked (arrived now received_s m) e tracked =
      keep-IsTracked e (sample_of g received_s m) (check_message g e now received_s m)
        (message-Follows e now received_s m) tracked
  handle_event-IsTracked (answered frames) e tracked = tracked

  receive-IsTracked : (events : List Event) → IsTracked (receive g events)
  unfolding receive
  receive-IsTracked [] = (refl, tt)
  receive-IsTracked (event ∷ events) =
      handle_event-IsTracked event (receive g events) (receive-IsTracked events)

  -- Whatever odometry messages come, whatever the clocks say, and whichever frames the base is found to be
  -- set to meanwhile: each sample that is kept has the frames of the one before and a later time stamp, and
  -- comes at most 5 cm, 0.2 rad and 0.3 s after it.
  pub receive-IsSteady : (events : List Event) → IsSteady (receive g events).samples
  receive-IsSteady events = (receive-IsTracked events).1
