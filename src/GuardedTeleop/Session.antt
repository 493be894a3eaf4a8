-- ===== src/GuardedTeleop/Session.antt =====
-- `run_guarded_session` with its configuration, the keyboard loop and the cleanup.
pub mod Cleanup
pub mod Armed
pub mod Termination
mod Tests
use lekiwi.Prelude.{
  ℕ, zero, suc, Bool, true, false, not, ◌||◌, Option, none, some, String, str_eq, append_text, List,
  [], ◌∷◌, ◌==◌, if◌then◌else◌,
}
use lekiwi.Float.{Num, nought, le, isfinite, fmin}
use lekiwi.Float.Fpu.{Fpu}
use lekiwi.Effect.{
  Exn, M, pure, raise, out_of_fuel, ◌>>=◌, ◌>>◌, repeat, finally_with, attempt, runtime_error,
  interrupt, add_note, ask,
}
use lekiwi.MotorSession.{
  Motion, stop, World, History, Call, publish_motion, set_motor_power, begin_ready, wait_ready,
  clock, read_key, report, print_error, cleanup_session,
}
use lekiwi.GuardedTeleop.Directional.{Directional, initial, handle_key, next_motion}

-- `GuardedTeleopConfig`
pub record Config : Type 0 where
  pub max_session_duration : Num
  pub ready_timeout : Num
  pub key_poll_timeout : Num
  pub zero_cycles : ℕ

-- the dataclass defaults 3600.0, 5.0, 0.1 and 20
abbrev pub default_config : Config
default_config = record {
  max_session_duration = 0x40ac200000000000;
  ready_timeout = 0x4014000000000000;
  key_poll_timeout = 0x3fb999999999999a;
  zero_cycles = 20;
}

-- `not math.isfinite(value) or value <= 0.0`
abbrev pub is_refused : Num → Bool
is_refused value = not (isfinite value) || le value nought

-- `__post_init__`, as the message of the ValueError if there is one
unfoldable pub post_init : Config → Option String
post_init c =
    if is_refused c.max_session_duration
    then some "max_session_duration must be finite and greater than zero"
    else if is_refused c.ready_timeout
    then some "ready_timeout must be finite and greater than zero"
    else if is_refused c.key_poll_timeout
    then some "key_poll_timeout must be finite and greater than zero"
    else if c.zero_cycles == 0
    then some "zero_cycles must be greater than zero"
    else none

abbrev note_primary : String → Option Exn → Option Exn
note_primary text none = none
note_primary text (some e) = some (add_note text e)

-- the end of `_handle_cleanup_failure`: without a primary exception the cleanup's is raised
abbrev settle : Option Exn → Exn → M History (Option Exn)
settle none cleanup_error = raise cleanup_error
settle (some e) cleanup_error = pure (some e)

abbrev note_cleanup : String → Option Exn → Exn → Exn
note_cleanup text none cleanup_error = add_note text cleanup_error
note_cleanup text (some _) cleanup_error = cleanup_error

-- the `except BaseException as reporting_error` part of `_handle_cleanup_failure`
unfoldable pub after_report : World → String → Exn → Option Exn → List Exn → M History (Option Exn)
after_report w message cleanup_error primary [] = settle primary cleanup_error
after_report w message cleanup_error primary (reporting_error ∷ _) = do
  let text = append_text "cleanup failure reporting also failed: " reporting_error.message
  attempt (ask w.on_print_error (print_error (append_text message (append_text "; " text))))
  settle (note_primary text primary) (note_cleanup text primary cleanup_error)

-- `_handle_cleanup_failure`, which hands over the primary exception with its notes
unfoldable pub handle_cleanup_failure : World → Exn → Option Exn → M History (Option Exn)
handle_cleanup_failure w cleanup_error primary = do
  let message = append_text "guarded teleop cleanup failed: " cleanup_error.message
  failed ← attempt (ask w.on_report (report message))
  after_report w message cleanup_error (note_primary message primary) failed

abbrev after_cleanup : World → Option Exn → Option Exn → M History (Option Exn)
after_cleanup w primary none = pure primary
after_cleanup w primary (some cleanup_error) = handle_cleanup_failure w cleanup_error primary

-- the `finally` block of a session
unfoldable pub close_session : World → Config → Option Exn → M History (Option Exn)
close_session w config primary = do
  failed ← cleanup_session w config.zero_cycles
  after_cleanup w primary failed

-- `if key is not None: profile.handle_key(key)`
abbrev pub apply_key : ⦃u : Fpu⦄ → Option String → Directional → Directional
apply_key none p = p
apply_key (some key) p = (handle_key key p).0

-- `key == "\x03"`
abbrev pub is_interrupt : Option String → Bool
is_interrupt none = false
is_interrupt (some key) = str_eq key "\u{3}"

module _ ⦃u : Fpu⦄ (w : World) where
  -- `deadline - clock()`
  abbrev pub remaining_time : Num → M History Num
  remaining_time deadline = do now ← ask w.on_clock clock; pure (u.sub deadline now)

  -- everything before the loop: zero commands, power on, and the wait for readiness
  unfoldable pub prepare : Config → Num → M History (Unit {0})
  prepare config deadline = do
    repeat config.zero_cycles (publish_motion w stop)
    remaining ← remaining_time deadline
    if le remaining nought
        then raise (runtime_error "maximum session duration expired during preparation")
        else set_motor_power w true remaining
    ask w.on_begin_ready begin_ready
    remaining ← remaining_time deadline
    if le remaining nought
        then raise (runtime_error "maximum session duration expired during preparation")
        else pure tt
    ready ← ask w.on_wait_ready (wait_ready (fmin config.ready_timeout remaining))
    if ready then pure tt else raise (runtime_error "/motor_ready did not produce a true sample")

  -- The parts of one round of the loop, with the next round as `again`: after the second look at the
  -- clock, after a key was read (or none was), and after the first look at the clock.
  abbrev pub act :
      (Directional → M History (Unit {0}))
      → Directional
      → Option String
      → Num
      → M History (Unit {0})
  act again profile key left =
      if le left nought then pure tt else if is_interrupt key then raise interrupt else do
        publish_motion w (next_motion (apply_key key profile)).1
        again (next_motion (apply_key key profile)).0

  abbrev pub after_read :
      (Directional → M History (Unit {0}))
      → Num
      → Directional
      → Option String
      → M History (Unit {0})
  after_read again deadline profile key = do
    left ← remaining_time deadline
    act again profile key left

  abbrev pub poll :
      (Directional → M History (Unit {0})) → Config → Num → Directional → Num → M History (Unit {0})
  poll again config deadline profile remaining = if le remaining nought then pure tt else do
    key ← ask w.on_read_key (read_key (fmin config.key_poll_timeout remaining))
    after_read again deadline profile key

  -- the `while True` loop; it returns for "timeout"
  unfoldable pub control_loop : ℕ → Config → Num → Directional → M History (Unit {0})
  control_loop zero config deadline profile = out_of_fuel
  control_loop (suc fuel) config deadline profile = do
    remaining ← remaining_time deadline
    poll (control_loop fuel config deadline) config deadline profile remaining

  unfoldable pub session_body : ℕ → Config → Num → M History (Unit {0})
  session_body fuel config deadline = do
    prepare config deadline
    control_loop fuel config deadline initial

  unfoldable pub run_guarded_session : ℕ → Config → M History (Unit {0})
  run_guarded_session fuel config = do
    now ← ask w.on_clock clock
    finally_with (session_body fuel config (u.add now config.max_session_duration))
        (close_session w config)
