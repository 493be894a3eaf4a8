-- ===== src/NavGuard/Main.antt =====
-- The second half of `supervise`, which arms and watches, and `main`.
use lekiwi.Prelude.{ℕ, zero, suc, Bool, true, false, Option, none, [], if◌then◌else◌}
use lekiwi.Float.{Num, lt, le}
use lekiwi.Float.Fpu.{Fpu}
use lekiwi.Effect.{
  Exn, M, pure, raise, out_of_fuel, ◌>>=◌, ◌>>◌, when, finally_with, catch, catch_kind,
  is_exception, is_keyboard_interrupt, runtime_error,
}
use lekiwi.Effect.State.{modify, reads}
use lekiwi.NavGuard.Session.{
  create_node, create_client, create_ready_subscription, create_observer, is_ok, spin, power,
  wait_ready, destroy, shutdown, World, State, tenth, half, two, five, is_true, is_false, unheard,
  clear_ready, set_result, own_node, stale, not_false, call, read_clock, check_graph,
  read_hardware_parameters, publish_zero, need_fresh, await_start, recheck_graph,
}

abbrev pub went_stale : Exn
went_stale = runtime_error "/scan_navigation or /odom became stale before motor power on"

abbrev pub not_ready : Exn
not_ready = runtime_error "/motor_ready did not become true after motor power on"

abbrev pub lost_ready : Exn
lost_ready = runtime_error "/motor_ready became false; Nav2 motor guard is disarming"

abbrev pub lost_sensors : Exn
lost_sensors = runtime_error "/scan_navigation or /odom stopped; Nav2 motor guard is disarming"

module _ (w : World) where
  -- `endpoint.set_motor_power(enabled)`
  abbrev pub set_motor_power : Bool → M State (Unit {0})
  set_motor_power enabled = call w w.on_power (power enabled)

  -- `if endpoint.motor_ready is not False: raise`
  abbrev pub need_false : Option Bool → M State (Unit {0})
  need_false ready = if is_false ready then pure tt else raise not_false

  abbrev pub need_ready : Bool → M State (Unit {0})
  need_ready ready = if ready then pure tt else raise not_ready

  -- `initialize` of an endpoint that does not publish
  unfoldable pub initialize : M State (Unit {0})
  initialize = do
    call w w.on_create create_node
    modify own_node
    call w w.on_create create_client
    call w w.on_create create_ready_subscription

  -- Power on, and the wait for readiness
  unfoldable pub arm : M State (Unit {0})
  arm = do
    modify clear_ready
    set_motor_power true
    ready ← call w w.on_wait_ready (wait_ready five)
    need_ready ready

  -- The handlers of `main`
  abbrev pub handle : Exn → M State (Unit {0})
  handle e =
      if is_keyboard_interrupt e.kind
      then modify (set_result 130)
      else if is_exception e.kind
      then modify (set_result 1)
      else raise e

  -- A step of the `finally` block whose `Exception`s only set the result
  abbrev pub attempt_step : M State (Unit {0}) → M State (Unit {0})
  attempt_step m = catch_kind is_exception m (λ _. modify (set_result 1))

  abbrev pub release_node : M State (Unit {0})
  release_node = do
    attempt_step (set_motor_power false)
    attempt_step (publish_zero w)
    call w w.on_end destroy

  abbrev pub cleanup : Bool → M State (Unit {0})
  cleanup has_node = do when has_node release_node; call w w.on_end shutdown

  abbrev pub finish : Option Exn → M State (Option Exn)
  finish e = do reads λ s. cleanup s.has_node; pure e

  module _ ⦃u : Fpu⦄ where
    -- `if clock() >= next_graph_check`, with the time of the next check
    abbrev pub check_if_due : Num → Num → M State Num
    check_if_due next now =
        if le next now
        then (do check_graph w; later ← read_clock w; pure (u.add later half))
        else pure next

    abbrev pub need_still_ready : Option Bool → M State (Unit {0})
    need_still_ready ready = if is_true ready then pure tt else raise lost_ready

    -- The body of the last loop
    abbrev pub watch_round : Num → M State Num
    watch_round next = do
      call w w.on_spin (spin tenth)
      reads λ s. need_still_ready s.seen.latest_ready
      need_fresh w lost_sensors
      now ← read_clock w
      check_if_due next now

    -- `rclpy.ok() and clock() < end`
    abbrev pub is_before_end : Num → Bool → M State Bool
    is_before_end end_ ok = if ok then (do now ← read_clock w; pure (lt now end_)) else pure false

    -- After the loop only the clock is read, for a message.
    abbrev pub watch_if : (Num → M State (Unit {0})) → Num → Bool → M State (Unit {0})
    watch_if more next go_on =
        if go_on then (do later ← watch_round next; more later) else (do read_clock w; pure tt)

    unfoldable pub watch : ℕ → Num → Num → M State (Unit {0})
    watch zero end_ next = out_of_fuel
    watch (suc fuel) end_ next = do
      ok ← call w w.on_ok is_ok
      go_on ← is_before_end end_ ok
      watch_if (watch fuel end_) next go_on

    -- `supervise` after the power on
    abbrev pub supervise_armed : ℕ → Num → M State (Unit {0})
    supervise_armed fuel duration = do
      start ← read_clock w
      next ← read_clock w
      watch fuel (u.add start duration) next

    -- `supervise` from the checks after the first loop to the power on
    abbrev pub check_all : ℕ → M State (Unit {0})
    check_all fuel = do
      need_fresh w stale
      reads λ s. need_false s.seen.latest_ready
      check_graph w
      read_hardware_parameters w
      publish_zero w
      now ← read_clock w
      recheck_graph w fuel (u.add now two)
      need_fresh w went_stale

    unfoldable pub supervise : ℕ → Num → Num → M State (Unit {0})
    supervise fuel duration startup_timeout = do
      call w w.on_create create_observer
      modify unheard
      now ← read_clock w
      await_start w fuel (u.add now startup_timeout) none
      check_all fuel
      arm
      supervise_armed fuel duration

    unfoldable pub attempt_session : ℕ → Num → Num → M State (Unit {0})
    attempt_session fuel duration startup_timeout =
        catch (do initialize; supervise fuel duration startup_timeout) handle

    -- `main` from the `try` on
    unfoldable pub main : ℕ → Num → Num → M State ℕ
    main fuel duration startup_timeout = do
      finally_with (attempt_session fuel duration startup_timeout) finish
      reads λ s. pure s.result

-- The state at the `try`
abbrev pub at_start : State
at_start = record {
  has_node = false;
  seen = record { latest_ready = none; observer = record { scan_time = none; odom_time = none } };
  result = 0;
  calls = [];
}
