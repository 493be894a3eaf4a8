-- ===== src/SafeCmdVel/Ending.antt =====
-- However a run ends, the motors are disarmed, and the plan ends with zero commands.
use mathlib.Core.Path.{subst, sym}
use lekiwi.Prelude.{false≢true, ℕ, suc, ◌≡◌, ◌≢◌, refl, Bool, true, false, Option, List, [], ◌∷◌}
use lekiwi.Float.{Num, lt, nought}
use lekiwi.Float.Fpu.{Fpu}
use lekiwi.Effect.{Exn, running, when, repeat, ask}
use lekiwi.Effect.Sure.{Sure, Sure-ask, Sure-pure, Sure-bind, Sure-finally, Sure-repeat}
use lekiwi.MotorSession.{Motion, stop}
use lekiwi.SafeCmdVel.Run.{
  World, History, publish, power, destroy_node, shutdown, sleep, Arguments, set_motor_power,
  publish_zero, publish_each, publish_plan, cleanup_after_motion, body, finish, run,
}

-- The latest call is a zero command.
abbrev pub IsStopped : History → Type 0
IsStopped (publish m ∷ h) = m ≡ stop
IsStopped _ = ⊥

-- The motor power was requested off, and nothing but the node's end came after it.
abbrev pub IsDisarmed : History → Type 0
IsDisarmed (power enabled ∷ h) = enabled ≡ false
IsDisarmed (destroy_node ∷ h) = IsDisarmed h
IsDisarmed (shutdown ∷ h) = IsDisarmed h
IsDisarmed _ = ⊥

abbrev Anything : History → Type 0
Anything h = Unit

module _ (w : World) where
  zeros-Sure : (n : ℕ) → Sure Anything (publish_zero w n) Anything
  unfolding publish_zero
  zeros-Sure n = Sure-repeat n (Sure-ask w.on_publish (publish stop) (λ h p. tt))

  IsStopped-Sure : (n : ℕ) → Sure Anything (publish_zero w (suc n)) IsStopped
  unfolding publish_zero repeat
  IsStopped-Sure n =
      Sure-bind (Sure-ask w.on_publish (publish stop) (λ h p. refl))
        (λ _. Sure-repeat n (Sure-ask w.on_publish (publish stop) (λ h p. refl))) (λ h p. p)

  pause-Sure :
      (b : Bool) (interval : Num)
      → Sure Anything (when b (ask w.on_sleep (sleep interval))) Anything
  pause-Sure true interval = Sure-ask w.on_sleep (sleep interval) (λ h p. tt)
  pause-Sure false interval = Sure-pure (λ h p. tt)

  each-Sure :
      (interval : Num) (plan : List Motion) → Sure Anything (publish_each w interval plan) Anything
  unfolding publish_each
  each-Sure interval [] = Sure-pure (λ h p. tt)
  each-Sure interval (m ∷ []) = Sure-ask w.on_publish (publish m) (λ h p. tt)
  each-Sure interval (m ∷ next ∷ plan) =
      Sure-bind (Sure-ask w.on_publish (publish m) (λ h p. tt))
        (λ _.
          Sure-bind (pause-Sure (lt nought interval) interval)
            (λ _. each-Sure interval (next ∷ plan)) (λ h p. tt))
        (λ h p. tt)

  -- With at least one zero cycle, the last call of a plan is a zero command: also when a publish or a
  -- sleep in the middle of the plan raises.
  pub publish_plan-IsStopped :
      (plan : List Motion) (n : ℕ) (interval : Num) (h : History)
      → ((publish_plan w plan (suc n) interval h).0 ≢ running)
        × IsStopped (publish_plan w plan (suc n) interval h).1
  unfolding publish_plan
  publish_plan-IsStopped plan n interval h =
      (Sure-finally (Sure-bind (zeros-Sure (suc n)) (λ _. each-Sure interval plan) (λ h p. tt))
          (λ e. Sure-bind (IsStopped-Sure n) (λ _. Sure-pure (λ h p. p)) (λ h p. p))).sure
        h tt

  disarm-Sure : Sure Anything (set_motor_power w false) IsDisarmed
  disarm-Sure = Sure-ask w.on_power (power false) (λ h p. refl)

  cleanup-Sure :
      (n : ℕ) (b : Bool)
      → b ≡ true
      → Sure Anything (cleanup_after_motion w n (when b (set_motor_power w false))) IsDisarmed
  unfolding cleanup_after_motion
  cleanup-Sure n true armed =
      Sure-finally (zeros-Sure n)
        (λ e. Sure-bind disarm-Sure (λ _. Sure-pure (λ h p. p)) (λ h p. p))
  cleanup-Sure n false armed = absurd (false≢true armed)

  finish-Sure :
      (args : Arguments) (e : Option Exn)
      → args.arm_motors ≡ true
      → Sure Anything (finish w args e) IsDisarmed
  unfolding finish
  finish-Sure args e armed =
      Sure-bind
        (Sure-finally (cleanup-Sure args.zero_cycles args.arm_motors armed) (λ x.
          Sure-bind (Sure-ask w.on_destroy_node destroy_node (λ h p. p))
            (λ _.
              Sure-bind (Sure-ask w.on_shutdown shutdown (λ h p. p)) (λ _. Sure-pure (λ h p. p))
                (λ h p. p))
            (λ h p. p)))
        (λ _. Sure-pure (λ h p. p)) (λ h p. p)

  module _ ⦃u : Fpu⦄ where
    -- A run that arms the motors ends, if its `try` block does, and then it has requested the power off,
    -- and after that no motion and no other power request: whatever raises before, in the zero commands
    -- of the cleanup, or in the request itself.
    pub run-IsDisarmed :
        (fuel : ℕ) (args : Arguments) (plan : List Motion) (sleep_period : Num) (h : History)
        → args.arm_motors ≡ true
        → (body w fuel args plan sleep_period h).0 ≢ running
        → let (r, t) = run w fuel args plan sleep_period h in (r ≢ running) × IsDisarmed t
    unfolding run
    run-IsDisarmed fuel args plan sleep_period h armed ends =
        let m = body w fuel args plan sleep_period in
        let tried : Sure (λ s. s ≡ h) m Anything = record {
          sure = λ s e. (subst (λ s. (m s).0 ≢ running) (sym e) ends, tt);
        } in
        (Sure-finally tried (λ e. finish-Sure args e armed)).sure h refl
