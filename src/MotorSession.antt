-- ===== src/MotorSession.antt =====
-- lekiwi_teleop/lekiwi_teleop/motor_session.py: the motor connection that teleop, calibration and
-- navigation share. `Motion`, and the endpoint as its callers see it.
pub mod Cleanup
pub mod Power
mod Tests
use lekiwi.Prelude.{
  ℕ, zero, suc, Bool, false, ◌&&◌, List, [], ◌∷◌, ◌++◌, Option, none, some, String, append_text,
}
use lekiwi.Float.{Num, nought, feq}
use lekiwi.Effect.{Exn, M, pure, ◌>>=◌, attempt, runtime_error, Reply, ask}

pub record Motion : Type 0 where
  pub linear_x : Num
  pub linear_y : Num
  pub angular_z : Num

-- `Motion()`
abbrev pub stop : Motion
stop = record { linear_x = nought; linear_y = nought; angular_z = nought }

-- `a == b` of the frozen dataclass, field by field
unfoldable pub same_motion : Motion → Motion → Bool
same_motion a b =
    feq a.linear_x b.linear_x && (feq a.linear_y b.linear_y && feq a.angular_z b.angular_z)

-- A call that a session makes: on the endpoint, the clock, the keyboard or the error output.
pub data Call : Type 0 where
  publish : Motion → Call
  power : Bool → Num → Call
  begin_ready : Call
  wait_ready : Num → Call
  clock : Call
  read_key : Num → Call
  report : String → Call
  print_error : String → Call

abbrev pub History : Type 0
History = List Call

-- The other side of the calls. An answer may depend on everything that was called before, and any
-- call may raise, also because a signal arrives during it.
pub record World : Type 0 where
  pub on_publish : History → Reply (Unit {0})
  pub on_power : History → Reply (Unit {0})
  pub on_begin_ready : History → Reply (Unit {0})
  pub on_wait_ready : History → Reply Bool
  pub on_clock : History → Reply Num
  pub on_read_key : History → Reply (Option String)
  pub on_report : History → Reply (Unit {0})
  pub on_print_error : History → Reply (Unit {0})

module _ (w : World) where
  abbrev pub publish_motion : Motion → M History (Unit {0})
  publish_motion m = ask w.on_publish (publish m)

  -- the timeout of `set_motor_power` where the caller gives none: 5.0 s
  abbrev pub default_timeout : Num
  default_timeout = 0x4014000000000000

  abbrev pub set_motor_power : Bool → Num → M History (Unit {0})
  set_motor_power enabled timeout = ask w.on_power (power enabled timeout)

  -- the loop over `range(zero_cycles)` in `cleanup_session`, with the errors so far
  unfoldable pub attempt_zeros : ℕ → List Exn → M History (List Exn)
  attempt_zeros zero errors = pure errors
  attempt_zeros (suc n) errors = do
    failed ← attempt (publish_motion stop)
    attempt_zeros n (errors ++ failed)

-- `"; ".join(str(error) for error in errors)`
unfoldable pub join_messages : List Exn → String
join_messages [] = ""
join_messages (e ∷ []) = e.message
join_messages (e ∷ f ∷ errors) =
    append_text e.message (append_text "; " (join_messages (f ∷ errors)))

unfoldable pub combine_errors : List Exn → Option Exn
combine_errors [] = none
combine_errors (e ∷ []) = some e
combine_errors (e ∷ f ∷ errors) =
    some (runtime_error (append_text "cleanup failures: " (join_messages (e ∷ f ∷ errors))))

unfoldable pub cleanup_session : World → ℕ → M History (Option Exn)
unfolding attempt_zeros combine_errors
cleanup_session w zero_cycles = do
  errors ← attempt_zeros w zero_cycles []
  failed ← attempt (set_motor_power w false (default_timeout w))
  pure (combine_errors (errors ++ failed))
