-- ===== src/MotorSession/Power.antt =====
-- `request_motor_power`, and the wait for readiness of `RosMotorEndpoint`.
pub mod Acknowledged
mod Tests
use lekiwi.Prelude.{
  ℕ, zero, suc, ◌≡◌, refl, Bool, true, false, not, ◌||◌, Option, none, some, String, append_text,
  List, [], ◌∷◌, if◌then◌else◌,
}
use lekiwi.Float.{Num, nought, isfinite, le, fmin}
use lekiwi.Float.Fpu.{Fpu}
use lekiwi.Effect.{
  M, pure, raise, out_of_fuel, ◌>>=◌, ◌>>◌, runtime_error, Reply, answer, failure, ask,
}

-- A call on the service client, the executor, its context or the clock.
pub data Call : Type 0 where
  clock : Call
  wait_for_service : Num → Call
  call_async : Bool → Call
  spin_until_complete : Num → Call
  future_result : Call
  is_ok : Call
  spin_once : Num → Call

abbrev pub History : Type 0
History = List Call

-- `on_result` answers `none` while the future is not done, and else the response, which may be missing:
-- its success and its message. `on_spin_once` answers the latest sample of `/motor_ready`, if there is one.
pub record Service : Type 0 where
  pub on_clock : History → Reply Num
  pub on_wait : History → Reply Bool
  pub on_call : History → Reply (Unit {0})
  pub on_spin_until : History → Reply (Unit {0})
  pub on_result : History → Reply (Option (Option (Bool × String)))
  pub on_ok : History → Reply Bool
  pub on_spin_once : History → Reply (Option Bool)

-- 2.0, 3.0 and 0.1
abbrev pub discovery_limit : Num
discovery_limit = 0x4000000000000000

abbrev pub response_limit : Num
response_limit = 0x4008000000000000

abbrev pub spin_slice : Num
spin_slice = 0x3fb999999999999a

abbrev pub detail : Option (Bool × String) → String
detail none = ""
detail (some (success, message)) = message

abbrev pub is_success : Option (Bool × String) → Bool
is_success none = false
is_success (some (success, message)) = success

-- `is True`
abbrev pub is_true : Option Bool → Bool
is_true (some b) = b
is_true none = false

-- the last part of `request_motor_power`: what the future holds
abbrev pub judge : Option (Option (Bool × String)) → M History (Unit {0})
judge none = raise (runtime_error "/motor_power service response timed out")
judge (some response) =
    if is_success response
    then pure tt
    else raise (runtime_error (append_text "/motor_power failed: " (detail response)))

module _ ⦃u : Fpu⦄ (w : Service) where
  -- the response budget that is left
  abbrev pub remaining : Option Num → M History Num
  remaining none = pure response_limit
  remaining (some deadline) = do now ← ask w.on_clock clock; pure (u.sub deadline now)

  -- the request and its response, once a deadline and a discovery limit are set
  unfoldable pub exchange : Bool → Option Num → Num → M History (Unit {0})
  exchange enabled deadline discovery_timeout = do
    found ← ask w.on_wait (wait_for_service discovery_timeout)
    if not found then raise (runtime_error "/motor_power service unavailable") else do
      ask w.on_call (call_async enabled)
      left ← remaining deadline
      if le left nought
          then raise (runtime_error "/motor_power service deadline expired before response")
          else do
            ask w.on_spin_until (spin_until_complete (fmin response_limit left))
            result ← ask w.on_result future_result
            judge result

  unfoldable pub request_motor_power : Bool → Option Num → M History (Unit {0})
  request_motor_power enabled none = exchange enabled none discovery_limit
  request_motor_power enabled (some timeout) =
      if not (isfinite timeout) || le timeout nought
      then raise (runtime_error "/motor_power timeout budget is exhausted")
      else do
        now ← ask w.on_clock clock
        exchange enabled (some (u.add now timeout)) (fmin discovery_limit timeout)

  -- the loop of `wait_for_motor_ready`
  unfoldable pub await_ready : ℕ → Num → M History Bool
  await_ready zero deadline = out_of_fuel
  await_ready (suc fuel) deadline = do
    ok ← ask w.on_ok is_ok
    if not ok then pure false else do
      now ← ask w.on_clock clock
      if le (u.sub deadline now) nought then pure false else do
        latest ← ask w.on_spin_once (spin_once (fmin spin_slice (u.sub deadline now)))
        if is_true latest then pure true else await_ready fuel deadline

  -- `wait_for_motor_ready`, with the latest sample at its start
  unfoldable pub wait_for_motor_ready : ℕ → Option Bool → Num → M History Bool
  wait_for_motor_ready fuel latest timeout =
      if is_true latest
      then pure true
      else do now ← ask w.on_clock clock; await_ready fuel (u.add now timeout)
