-- ===== src/MotorSession/Power/Acknowledged.antt =====
-- When `request_motor_power` returns, and when the wait for readiness says yes.
use mathlib.Core.Path.{ap, ◌∙◌, subst}
use lekiwi.Prelude.{
  ℕ, zero, suc, ◌≡◌, refl, Bool, true, false, not, ◌||◌, Option, none, some, String, ◌∷◌,
  false≢true, ◌⊎◌, inl, inr,
}
use lekiwi.Float.{Num, nought, isfinite, le, fmin}
use lekiwi.Float.Fpu.{Fpu}
use lekiwi.Effect.{value, Reply, answer}
use lekiwi.Effect.Triple.{
  Post, Triple, Triple-bind, Triple-ask, Triple-raise, Triple-pure, Triple-if, Triple-out_of_fuel,
  Triple-weaken,
}
use lekiwi.MotorSession.Power.{
  clock, wait_for_service, call_async, spin_until_complete, future_result, is_ok, spin_once,
  History, Service, discovery_limit, response_limit, spin_slice, is_success, is_true, judge,
  remaining, exchange, request_motor_power, await_ready, wait_for_motor_ready,
}

-- Since the request for `enabled` there was at most a look at the clock and the wait for the response.
abbrev pub IsRequested : Bool → History → Type 0
IsRequested enabled (call_async b ∷ h) = b ≡ enabled
IsRequested enabled (clock ∷ h) = IsRequested enabled h
IsRequested enabled (spin_until_complete t ∷ h) = IsRequested enabled h
IsRequested enabled _ = ⊥

abbrev pub succeeded : Reply (Option (Option (Bool × String))) → Bool
succeeded (answer (some response)) = is_success response
succeeded _ = false

-- The latest call fetched a successful response to a request for `enabled`.
abbrev pub IsAcknowledged : Service → Bool → History → Type 0
IsAcknowledged w enabled (future_result ∷ h) =
    (succeeded (w.on_result (future_result ∷ h)) ≡ true) × IsRequested enabled h
IsAcknowledged w enabled _ = ⊥

abbrev Anything : History → Type 0
Anything h = Unit

module _ ⦃u : Fpu⦄ (w : Service) (enabled : Bool) where
  judged :
      (result : Option (Option (Bool × String)))
      → Triple
          (λ h. succeeded (answer result) ≡ true → IsAcknowledged w enabled h)
          (judge result)
          (λ _. IsAcknowledged w enabled)
          Anything
  judged none = Triple-raise (λ h p. tt)
  judged (some response) =
      Triple-if (is_success response) (λ good. Triple-pure (λ h p. p good))
        (λ _. Triple-raise (λ h p. tt))

  left_over :
      (deadline : Option Num)
      → Triple (IsRequested enabled) (remaining w deadline) (λ _. IsRequested enabled) Anything
  left_over none = Triple-pure (λ h p. p)
  left_over (some deadline) =
      Triple-bind (Triple-ask w.on_clock clock (λ h a p e. p) (λ h e p _. tt))
        (λ now. Triple-pure (λ h p. p))

  exchanged :
      (deadline : Option Num) (discovery_timeout : Num)
      → Triple Anything
          (exchange w enabled deadline discovery_timeout)
          (λ _. IsAcknowledged w enabled)
          Anything
  unfolding exchange
  exchanged deadline discovery_timeout =
      Triple-bind
        (Triple-ask {Q = λ _. Anything} w.on_wait (wait_for_service discovery_timeout)
          (λ h a p e. tt) (λ h e p _. tt))
        λ found.
          Triple-if (not found) (λ _. Triple-raise (λ h p. tt))
            λ _.
              Triple-bind
                (Triple-ask {Q = λ _. IsRequested enabled} w.on_call (call_async enabled)
                  (λ h a p e. refl) (λ h e p _. tt))
                λ _. Triple-bind (left_over deadline) λ left.
                  Triple-if (le left nought) (λ _. Triple-raise (λ h p. tt))
                    λ _.
                      Triple-bind
                        (Triple-ask {Q = λ _. IsRequested enabled} w.on_spin_until
                          (spin_until_complete (fmin response_limit left)) (λ h a p e. p)
                          (λ h e p _. tt))
                        λ _.
                          Triple-bind
                            (Triple-ask
                              {Q = λ result h.
                                succeeded (answer result) ≡ true → IsAcknowledged w enabled h}
                              w.on_result future_result (λ h a p e good. (ap succeeded e ∙ good, p))
                              (λ h e p _. tt))
                            judged

  requested :
      (timeout : Option Num)
      → Triple Anything
          (request_motor_power w enabled timeout)
          (λ _. IsAcknowledged w enabled)
          Anything
  unfolding request_motor_power
  requested none = exchanged none discovery_limit
  requested (some timeout) =
      Triple-if (not (isfinite timeout) || le timeout nought) (λ _. Triple-raise (λ h p. tt))
        (λ _.
          Triple-bind
            (Triple-ask {Q = λ _. Anything} w.on_clock clock (λ h a p e. tt) (λ h e p _. tt))
            (λ now. exchanged (some (u.add now timeout)) (fmin discovery_limit timeout)))

  -- If `request_motor_power` returns, then the service was asked for `enabled`, and the last thing done
  -- was to fetch its successful response: an unavailable service, a spent budget, a missing or a negative
  -- response all raise.
  pub request_motor_power-IsAcknowledged :
      (timeout : Option Num) (h t : History)
      → request_motor_power w enabled timeout h ≡ (value tt, t)
      → IsAcknowledged w enabled t
  request_motor_power-IsAcknowledged timeout h t e =
      subst (Post (λ _. IsAcknowledged w enabled) Anything) e ((requested timeout).holds h tt)

module _ ⦃u : Fpu⦄ (w : Service) where
  -- The wait ended with a true sample as its latest call.
  abbrev pub IsSeen : Bool → History → Type 0
  IsSeen true (spin_once t ∷ h) = w.on_spin_once (spin_once t ∷ h) ≡ answer (some true)
  IsSeen true _ = ⊥
  IsSeen false h = Unit

  sampled :
      (latest : Option Bool) (t : Num) (h : History)
      → w.on_spin_once (spin_once t ∷ h) ≡ answer latest
      → is_true latest ≡ true
      → IsSeen true (spin_once t ∷ h)
  sampled none t h e s = absurd (false≢true s)
  sampled (some true) t h e s = e
  sampled (some false) t h e s = absurd (false≢true s)

  awaited :
      (fuel : ℕ) (deadline : Num) → Triple Anything (await_ready w fuel deadline) IsSeen Anything
  unfolding await_ready
  awaited zero deadline = Triple-out_of_fuel (λ h p. tt)
  awaited (suc fuel) deadline =
      Triple-bind (Triple-ask {Q = λ _. Anything} w.on_ok is_ok (λ h a p e. tt) (λ h e p _. tt))
        λ ok.
          Triple-if (not ok) (λ _. Triple-pure (λ h p. tt))
            λ _.
              Triple-bind
                (Triple-ask {Q = λ _. Anything} w.on_clock clock (λ h a p e. tt) (λ h e p _. tt))
                λ now.
                  Triple-if (le (u.sub deadline now) nought) (λ _. Triple-pure (λ h p. tt))
                    λ _.
                      Triple-bind
                        (Triple-ask {Q = λ latest h. is_true latest ≡ true → IsSeen true h}
                          w.on_spin_once (spin_once (fmin spin_slice (u.sub deadline now)))
                          (λ h latest p e. sampled latest _ h e) (λ h e p _. tt))
                        λ latest.
                          Triple-if (is_true latest) (λ good. Triple-pure (λ h p. p good))
                            (λ _.
                              Triple-weaken (awaited fuel deadline) (λ h p. tt) (λ _ h p. p)
                                (λ h p. p))

  waited :
      (fuel : ℕ) (latest : Option Bool) (timeout : Num) (h : History)
      → Triple
          (λ s. s ≡ h)
          (wait_for_motor_ready w fuel latest timeout)
          (λ b t. ((is_true latest ≡ true) × (t ≡ h)) ⊎ IsSeen b t)
          Anything
  unfolding wait_for_motor_ready
  waited fuel latest timeout h =
      Triple-if (is_true latest) (λ fresh. Triple-pure (λ s p. inl (fresh, p)))
        (λ _.
          Triple-bind
            (Triple-ask {Q = λ _. Anything} w.on_clock clock (λ h a p e. tt) (λ h e p _. tt))
            (λ now.
              Triple-weaken (awaited fuel (u.add now timeout)) (λ h p. p) (λ b t q. inr q)
                (λ h p. p)))

  -- The wait for readiness says yes only if the latest sample at its start was true, and then it makes no
  -- call, or if the last call that it made received a true sample.
  pub wait_for_motor_ready-IsSeen :
      (fuel : ℕ) (latest : Option Bool) (timeout : Num) (h t : History)
      → wait_for_motor_ready w fuel latest timeout h ≡ (value true, t)
      → ((is_true latest ≡ true) × (t ≡ h)) ⊎ IsSeen true t
  wait_for_motor_ready-IsSeen fuel latest timeout h t e =
      subst (Post (λ b t. ((is_true latest ≡ true) × (t ≡ h)) ⊎ IsSeen b t) Anything) e
        ((waited fuel latest timeout h).holds h refl)
