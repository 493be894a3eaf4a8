-- ===== src/SafeCmdVel/Run.antt =====
-- The waits, the plan and the main program, as calls.
use lekiwi.Prelude.{
  ℕ, zero, suc, Bool, true, false, not, Option, none, some, List, [], ◌∷◌, ltb, if◌then◌else◌,
}
use lekiwi.Float.{Num, nought, le, lt, fmin, fmax}
use lekiwi.Float.Fpu.{Fpu}
use lekiwi.Effect.{
  M, pure, raise, out_of_fuel, ◌>>=◌, ◌>>◌, when, repeat, finally_with, runtime_error, Reply, ask,
  Exn,
}
use lekiwi.MotorSession.{Motion, stop}

-- A call on the publisher, the executor, the motor power service or the clock.
pub data Call : Type 0 where
  publish : Motion → Call
  subscription_count : Call
  clock : Call
  sleep : Num → Call
  spin : Num → Call
  power : Bool → Call
  print_line : Call
  destroy_node : Call
  shutdown : Call

abbrev pub History : Type 0
History = List Call

-- `on_spin` answers the last of the `/motor_ready` states received so far.
pub record World : Type 0 where
  pub on_publish : History → Reply (Unit {0})
  pub on_subscription_count : History → Reply ℕ
  pub on_clock : History → Reply Num
  pub on_sleep : History → Reply (Unit {0})
  pub on_spin : History → Reply (Option Bool)
  pub on_power : History → Reply (Unit {0})
  pub on_print_line : History → Reply (Unit {0})
  pub on_destroy_node : History → Reply (Unit {0})
  pub on_shutdown : History → Reply (Unit {0})

-- The arguments of the command line that the run uses.
pub record Arguments : Type 0 where
  pub zero_cycles : ℕ
  pub min_subscribers : ℕ
  pub discovery_timeout : Num
  pub arm_motors : Bool

-- 0.05 and 2.0
abbrev pub slice : Num
slice = 0x3fa999999999999a

abbrev pub ready_timeout : Num
ready_timeout = 0x4000000000000000

-- `states and states[-1] is expected`
abbrev pub is_expected : Bool → Option Bool → Bool
is_expected expected none = false
is_expected true (some state) = state
is_expected false (some state) = not state

module _ (w : World) where
  abbrev pub publish_motion : Motion → M History (Unit {0})
  publish_motion m = ask w.on_publish (publish m)

  unfoldable pub publish_zero : ℕ → M History (Unit {0})
  publish_zero cycles = repeat cycles (publish_motion stop)

  abbrev pub set_motor_power : Bool → M History (Unit {0})
  set_motor_power enabled = ask w.on_power (power enabled)

  -- the loop of `publish_plan`; `index < len(plan) - 1` holds where more follows
  unfoldable pub publish_each : Num → List Motion → M History (Unit {0})
  publish_each interval [] = pure tt
  publish_each interval (twist ∷ []) = publish_motion twist
  publish_each interval (twist ∷ next ∷ plan) = do
    publish_motion twist
    when (lt nought interval) (ask w.on_sleep (sleep interval))
    publish_each interval (next ∷ plan)

  unfoldable pub publish_plan : List Motion → ℕ → Num → M History (Unit {0})
  publish_plan plan zero_cycles interval =
      finally_with (do publish_zero zero_cycles; publish_each interval plan)
        (λ e. do publish_zero zero_cycles; pure e)

  unfoldable pub cleanup_after_motion : ℕ → M History (Unit {0}) → M History (Unit {0})
  cleanup_after_motion zero_cycles disarm =
      finally_with (publish_zero zero_cycles) (λ e. do disarm; pure e)

  -- the `finally` block of `main`: `disarm` does nothing without a motor power client
  unfoldable pub finish : Arguments → Option Exn → M History (Option Exn)
  finish args e = do
    finally_with
        (cleanup_after_motion args.zero_cycles (when args.arm_motors (set_motor_power false)))
        (λ x. do ask w.on_destroy_node destroy_node; ask w.on_shutdown shutdown; pure x)
    pure e

  module _ ⦃u : Fpu⦄ where
    unfoldable pub await_subscribers : ℕ → ℕ → Num → M History (Unit {0})
    await_subscribers zero minimum deadline = out_of_fuel
    await_subscribers (suc fuel) minimum deadline = do
      count ← ask w.on_subscription_count subscription_count
      if ltb count minimum
          then (do
            now ← ask w.on_clock clock
            if le (u.sub deadline now) nought then raise (runtime_error "/cmd_vel") else do
              ask w.on_sleep (sleep (fmin slice (u.sub deadline now)))
              await_subscribers fuel minimum deadline)
          else pure tt

    unfoldable pub wait_for_subscribers : ℕ → ℕ → Num → M History (Unit {0})
    wait_for_subscribers fuel minimum timeout = do
      now ← ask w.on_clock clock
      await_subscribers fuel minimum (u.add now timeout)

    unfoldable pub await_motor_ready : ℕ → Bool → Num → M History (Unit {0})
    await_motor_ready zero expected deadline = out_of_fuel
    await_motor_ready (suc fuel) expected deadline = do
      now ← ask w.on_clock clock
      if lt now deadline
          then (do
            now ← ask w.on_clock clock
            state ← ask w.on_spin (spin (fmin slice (fmax nought (u.sub deadline now))))
            if is_expected expected state
                then pure tt
                else await_motor_ready fuel expected deadline)
          else raise (runtime_error "/motor_ready")

    unfoldable pub wait_for_motor_ready : ℕ → Bool → Num → M History (Unit {0})
    wait_for_motor_ready fuel expected timeout = do
      now ← ask w.on_clock clock
      await_motor_ready fuel expected (u.add now timeout)

    -- the `try` block of `main`
    unfoldable pub body : ℕ → Arguments → List Motion → Num → M History (Unit {0})
    body fuel args plan sleep_period = do
      wait_for_subscribers fuel args.min_subscribers args.discovery_timeout
      ask w.on_subscription_count subscription_count
      ask w.on_print_line print_line
      publish_zero args.zero_cycles
      when args.arm_motors (do
        wait_for_motor_ready fuel false ready_timeout
        set_motor_power true
        wait_for_motor_ready fuel true ready_timeout)
      publish_plan plan args.zero_cycles sleep_period

    -- `main` from the `try` on
    unfoldable pub run : ℕ → Arguments → List Motion → Num → M History (Unit {0})
    run fuel args plan sleep_period = finally_with (body fuel args plan sleep_period) (finish args)
