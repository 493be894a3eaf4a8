-- ===== src/GuardedTeleop/Session/Armed.antt =====
-- A session moves the base only after the power was acknowledged and readiness was seen, and slowly.
use lekiwi.Prelude.{
  ℕ, zero, suc, ◌≡◌, ◌⊎◌, Bool, true, false, ◌&&◌, Option, none, some, String, [], ◌∷◌, arith, inl,
  inr,
}
use lekiwi.Float.{Num, le, nought, fmin}
use lekiwi.Float.Fpu.{Fpu}
use lekiwi.Effect.{Reply, answer, failure}
use lekiwi.Effect.Triple.{
  Triple, Triple-bind, Triple-pure, Triple-raise, Triple-out_of_fuel, Triple-if, Triple-ask,
  Triple-repeat, Post-same,
}
use lekiwi.MotorSession.{
  stop, World, History, publish, power, begin_ready, wait_ready, clock, read_key,
}
use lekiwi.GuardedTeleop.Limits.{IsStill, stop-IsStill}
use lekiwi.GuardedTeleop.Directional.{Directional, initial, next_motion}
use lekiwi.GuardedTeleop.Directional.Envelope.{
  IsSlow, stop-IsSlow, IsValid, initial-IsValid, handle_key-IsValid, next_motion-IsValid,
}
use lekiwi.GuardedTeleop.Session.{
  Config, remaining_time, prepare, apply_key, is_interrupt, control_loop, session_body,
}

abbrev pub is_answer : Reply (Unit {0}) → Bool
is_answer (answer _) = true
is_answer (failure _) = false

abbrev pub is_true : Reply Bool → Bool
is_true (answer b) = b
is_true (failure _) = false

applied : ⦃u : Fpu⦄ (key : Option String) (p : Directional) → IsValid p → IsValid (apply_key key p)
applied none p v = v
applied (some key) p v = handle_key-IsValid key p v

module _ (w : World) where
  -- The latest power request was to switch on, and it was acknowledged.
  abbrev pub is_powered : History → Bool
  is_powered [] = false
  is_powered (power b t ∷ h) = b && is_answer (w.on_power (power b t ∷ h))
  is_powered (_ ∷ h) = is_powered h

  -- Since then readiness was waited for and seen, and no power was cut.
  abbrev pub is_armed : History → Bool
  is_armed [] = false
  is_armed (power b t ∷ h) = false
  is_armed (wait_ready t ∷ h) = is_true (w.on_wait_ready (wait_ready t ∷ h)) && is_powered h
  is_armed (_ ∷ h) = is_armed h

  -- Each motion that was sent is slow, and a standstill unless the base was armed before; and power
  -- was requested only with time left.
  abbrev pub IsGuarded : History → Type 0
  IsGuarded [] = Unit
  IsGuarded (publish m ∷ h) = IsSlow m × (IsStill m ⊎ (is_armed h ≡ true)) × IsGuarded h
  IsGuarded (power b t ∷ h) = (le t nought ≡ false) × IsGuarded h
  IsGuarded (_ ∷ h) = IsGuarded h

  abbrev IsPowered : History → Type 0
  IsPowered h = IsGuarded h × (is_powered h ≡ true)

  abbrev IsArmed : History → Type 0
  IsArmed h = IsGuarded h × (is_armed h ≡ true)

  module _ ⦃u : Fpu⦄ where
    -- Reading the clock or the keyboard keeps what holds of the history.
    remaining-keeps :
        (deadline : Num) (P : History → Type 0)
        → ((h : History) → P h → P (clock ∷ h))
        → ((h : History) → P h → IsGuarded (clock ∷ h))
        → Triple P (remaining_time w deadline) (λ _. P) IsGuarded
    remaining-keeps deadline P keep guard =
        Triple-bind {Q = λ _. P}
          (Triple-ask w.on_clock clock (λ h a p e. keep h p) (λ h a p e. guard h p))
          (λ now. Triple-pure (λ s p. p))

    prepare-IsArmed :
        (config : Config) (deadline : Num)
        → Triple IsGuarded (prepare w config deadline) (λ _. IsArmed) IsGuarded
    unfolding prepare
    prepare-IsArmed config deadline =
        Triple-bind {Q = λ _. IsGuarded}
          (Triple-repeat config.zero_cycles (
            Triple-ask w.on_publish (publish stop) (λ h a p e. (stop-IsSlow, inl stop-IsStill, p))
              (λ h a p e. (stop-IsSlow, inl stop-IsStill, p))))
          λ _.
            Triple-bind {Q = λ _. IsGuarded}
              (remaining-keeps deadline IsGuarded (λ h p. p) (λ h p. p))
              λ remaining.
                Triple-bind {Q = λ _. IsPowered}
                  (Triple-if (le remaining nought) (λ e. Triple-raise (λ s p. p))
                    (λ e.
                      Triple-ask w.on_power (power true remaining)
                        (λ h a p q. ((e, p), ground arith)) (λ h x p q. (e, p))))
                  λ _.
                    Triple-bind {Q = λ _. IsPowered}
                      (Triple-ask w.on_begin_ready begin_ready (λ h a p e. p) (λ h x p e. p.0))
                      λ _.
                        Triple-bind {Q = λ _. IsPowered}
                          (remaining-keeps deadline IsPowered (λ h p. p) (λ h p. p.0))
                          λ remaining.
                            Triple-bind {Q = λ _. IsPowered}
                              (Triple-if (le remaining nought) (λ e. Triple-raise (λ s p. p.0))
                                (λ e. Triple-pure (λ s p. p)))
                              λ _.
                                Triple-bind
                                  {Q = λ ready h. IsGuarded h × (ready ≡ true → is_armed h ≡ true)}
                                  (Triple-ask w.on_wait_ready
                                    (wait_ready (fmin config.ready_timeout remaining))
                                    (λ h a p e. (p.0, λ t. ground arith)) (λ h x p e. p.0))
                                  λ ready.
                                    Triple-if ready (λ e. Triple-pure (λ s p. (p.0, p.1 e)))
                                      (λ e. Triple-raise (λ s p. p.0))

    -- The loop keeps the base armed and the profile within its limits.
    control_loop-IsGuarded :
        (fuel : ℕ) (config : Config) (deadline : Num) (profile : Directional)
        → IsValid profile
        → Triple IsArmed (control_loop w fuel config deadline profile) (λ _. IsGuarded) IsGuarded
    unfolding control_loop
    control_loop-IsGuarded zero config deadline profile v = Triple-out_of_fuel (λ s p. p.0)
    control_loop-IsGuarded (suc fuel) config deadline profile v =
        Triple-bind {Q = λ _. IsArmed} (remaining-keeps deadline IsArmed (λ h p. p) (λ h p. p.0))
          λ remaining.
            Triple-if (le remaining nought) (λ e. Triple-pure (λ s p. p.0))
              λ e.
                Triple-bind {Q = λ _. IsArmed}
                  (Triple-ask w.on_read_key (read_key (fmin config.key_poll_timeout remaining))
                    (λ h a p q. p) (λ h x p q. p.0))
                  λ key.
                    Triple-bind {Q = λ _. IsArmed}
                      (remaining-keeps deadline IsArmed (λ h p. p) (λ h p. p.0))
                      λ left.
                        Triple-if (le left nought) (λ e. Triple-pure (λ s p. p.0))
                          λ e.
                            Triple-if (is_interrupt key) (λ e. Triple-raise (λ s p. p.0))
                              λ e.
                                let v' : IsValid (apply_key key profile) = applied key profile v in
                                let ticked = next_motion (apply_key key profile) in
                                let (valid, slow) =
                                  next_motion-IsValid (apply_key key profile) v' in
                                Triple-bind {Q = λ _. IsArmed}
                                  (Triple-ask w.on_publish (publish ticked.1)
                                    (λ h a p q. ((slow, inr p.1, p.0), p.1))
                                    (λ h x p q. (slow, inr p.1, p.0)))
                                  (λ _. control_loop-IsGuarded fuel config deadline ticked.0 valid)

    session_body-Triple :
        (fuel : ℕ) (config : Config) (deadline : Num)
        → Triple IsGuarded (session_body w fuel config deadline) (λ _. IsGuarded) IsGuarded
    unfolding session_body
    session_body-Triple fuel config deadline =
        Triple-bind (prepare-IsArmed config deadline)
          (λ _. control_loop-IsGuarded fuel config deadline initial initial-IsValid)

    -- Whatever the world answers and however long the session runs, its history stays guarded: every
    -- motion sent is within the speed limits, every motion other than a standstill was sent when the
    -- power had been acknowledged and readiness seen, and power was requested only with time left.
    pub session_body-IsGuarded :
        (fuel : ℕ) (config : Config) (deadline : Num) (h : History)
        → IsGuarded h
        → IsGuarded (session_body w fuel config deadline h).1
    session_body-IsGuarded fuel config deadline h g =
        Post-same IsGuarded (session_body w fuel config deadline h)
          ((session_body-Triple fuel config deadline).holds h g)
