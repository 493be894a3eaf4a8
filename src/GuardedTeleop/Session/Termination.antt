-- ===== src/GuardedTeleop/Session/Termination.antt =====
-- The keyboard loop of `run_guarded_session` in lekiwi_teleop/lekiwi_teleop/guarded_base_teleop.py.
use lekiwi.Prelude.{
  ℕ, zero, suc, ◌+◌, ◌≤◌, ◌≡◌, sym, ◌∙◌, true, Option, String, ◌∷◌, arith, length, false≢true,
}
use lekiwi.Float.{Num, le, nought, fmin}
use lekiwi.Float.Fpu.{Fpu}
use lekiwi.Effect.{M, answer, interrupt}
use lekiwi.Effect.Ends.{Ends, Ends-pure, Ends-raise, Ends-if, Ends-ask, Ends-ask-map}
use lekiwi.MotorSession.{World, History, Call, clock, publish, read_key}
use lekiwi.GuardedTeleop.Directional.{Directional, next_motion}
use lekiwi.GuardedTeleop.Session.{
  Config, apply_key, is_interrupt, act, after_read, poll, control_loop,
}

module _ ⦃u : Fpu⦄ (w : World) (deadline : Num) where
  -- A round ends, if the next one does.
  after_read-Ends :
      (again : Directional → M History (Unit {0})) (profile : Directional) (key : Option String)
      (h : History)
      → ((q : Directional) (c : Call) → Ends (again q) (c ∷ clock ∷ h))
      → Ends (after_read w again deadline profile key) h
  after_read-Ends again profile key h more =
      Ends-ask-map w.on_clock clock (u.sub deadline) (act w again profile key) λ now _.
        Ends-if (le (u.sub deadline now) nought) (λ _. Ends-pure)
          (λ _.
            Ends-if (is_interrupt key) (λ _. Ends-raise {x = interrupt})
              (λ _.
                Ends-ask w.on_publish (publish (next_motion (apply_key key profile)).1)
                  (λ _. again (next_motion (apply_key key profile)).0)
                  (λ _ _.
                    more (next_motion (apply_key key profile)).0
                      (publish (next_motion (apply_key key profile)).1))))

  -- The clock runs: from the call number `last` on it shows the deadline or a later time.
  abbrev pub Expires : ℕ → Type 0
  Expires last =
      (h : History) (now : Num)
      → last ≤ length h
      → w.on_clock h ≡ answer now
      → le (u.sub deadline now) nought ≡ true

  -- If every clock reading from the call number `last` on is at the deadline or later, then the loop
  -- with one unit of fuel more than the calls left until then ends by itself, by time, by Control-C or by
  -- a failing call, and does not use up its fuel.
  pub control_loop-Ends :
      (last fuel : ℕ) (config : Config) (profile : Directional) (h : History)
      → Expires last
      → last ≤ fuel + length h
      → Ends (control_loop w (suc fuel) config deadline profile) h
  unfolding control_loop
  control_loop-Ends last zero config profile h expires m =
      Ends-ask-map w.on_clock clock (u.sub deadline)
        (poll w (control_loop w zero config deadline) config deadline profile)
        λ now e.
          Ends-if (le (u.sub deadline now) nought) (λ _. Ends-pure)
            (λ late. absurd (false≢true (sym late ∙ expires (clock ∷ h) now (ground arith) e)))
  control_loop-Ends last (suc fuel) config profile h expires m =
      let again = control_loop w (suc fuel) config deadline in
      Ends-ask-map w.on_clock clock (u.sub deadline) (poll w again config deadline profile) λ now _.
        Ends-if (le (u.sub deadline now) nought) (λ _. Ends-pure)
          (λ _.
            let poll_call = read_key (fmin config.key_poll_timeout (u.sub deadline now)) in
            Ends-ask w.on_read_key poll_call (after_read w again deadline profile) (λ key _.
              after_read-Ends again profile key (poll_call ∷ clock ∷ h) (λ q c.
                control_loop-Ends last fuel config q (c ∷ clock ∷ poll_call ∷ clock ∷ h) expires
                  (ground arith))))
