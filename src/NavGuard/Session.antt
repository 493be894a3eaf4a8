-- ===== src/NavGuard/Session.antt =====
-- `supervise` and `main`, as calls on the endpoint, the executor and the clock.
use lekiwi.Prelude.{
  ℕ, zero, suc, Bool, true, false, not, ◌||◌, Option, none, some, String, List, [], ◌∷◌,
  if◌then◌else◌,
}
use lekiwi.Float.{Num, one, lt, le}
use lekiwi.Float.Fpu.{Fpu}
use lekiwi.Effect.{
  Exn, M, pure, raise, out_of_fuel, ◌>>=◌, ◌>>◌, repeat, finally_with, catch_kind, is_runtime,
  runtime_error, Reply, answer,
}
use lekiwi.Effect.State.{reads, request}
use lekiwi.NavGuard.{
  EndpointInfo, check_command_graph, Hardware, check_hardware_parameters, Observer, on_scan,
  on_odom, fresh,
}

pub data Call : Type 0 where
  create_node : Call
  create_client : Call
  create_ready_subscription : Call
  create_observer : Call
  clock : Call
  is_ok : Call
  spin : Num → Call
  query_graph : Call
  wait_for_services : Call
  get_parameters : Call
  spin_until_complete : Call
  future_result : Call
  create_publisher : Call
  publish_stop : Call
  destroy_publisher : Call
  power : Bool → Call
  wait_ready : Num → Call
  destroy : Call
  shutdown : Call

-- A message that a callback took while a call ran: `_on_scan` and `_on_odom` with the clock's reading, and
-- `_on_motor_ready`.
pub data Message : Type 0 where
  scan : Num → Message
  odom : Num → Message
  motor_ready : Bool → Message

-- What the calls answer, and the messages that came while the latest call ran. `on_graph`: the publishers
-- and the subscribers of /cmd_vel. `on_result`: the four parameters, unless the future is not done or has
-- no result. The clock does not raise.
pub record World : Type 0 where
  pub strip : String → String
  pub on_create : List Call → Reply (Unit {0})
  pub now : List Call → Num
  pub on_ok : List Call → Reply Bool
  pub on_spin : List Call → Reply (Unit {0})
  pub on_graph : List Call → Reply (List EndpointInfo × List EndpointInfo)
  pub on_services : List Call → Reply Bool
  pub on_result : List Call → Reply (Option Hardware)
  pub on_publish : List Call → Reply (Unit {0})
  pub on_power : List Call → Reply (Unit {0})
  pub on_wait_ready : List Call → Reply Bool
  pub on_end : List Call → Reply (Unit {0})
  pub heard : List Call → List Message

-- What callbacks write: `endpoint.motor_ready` and the observer
pub record Seen : Type 0 where
  pub latest_ready : Option Bool
  pub observer : Observer

-- `endpoint.node is not None`, what callbacks wrote, `result`, and the calls so far, latest first.
pub record State : Type 0 where
  pub has_node : Bool
  pub seen : Seen
  pub result : ℕ
  pub calls : List Call

-- 0.1, 0.01, 0.05, 0.5, 2.0 and 5.0
abbrev pub tenth : Num
tenth = 0x3fb999999999999a

abbrev pub hundredth : Num
hundredth = 0x3f847ae147ae147b

abbrev pub twentieth : Num
twentieth = 0x3fa999999999999a

abbrev pub half : Num
half = 0x3fe0000000000000

abbrev pub two : Num
two = 0x4000000000000000

abbrev pub five : Num
five = 0x4014000000000000

abbrev pub take : Message → Seen → Seen
take (scan t) s = record s { observer = on_scan t s.observer }
take (odom t) s = record s { observer = on_odom t s.observer }
take (motor_ready b) s = record s { latest_ready = some b }

unfoldable pub deliver : List Message → Seen → Seen
deliver [] s = s
deliver (m ∷ ms) s = deliver ms (take m s)

-- The state after a call, with the messages that came during it
abbrev pub noted : World → Call → State → State
noted w c s = record {
  has_node = s.has_node;
  seen = deliver (w.heard (c ∷ s.calls)) s.seen;
  result = s.result;
  calls = c ∷ s.calls;
}

abbrev pub none_or_raise : Option String → M State (Unit {0})
none_or_raise none = pure tt
none_or_raise (some message) = raise (runtime_error message)

abbrev pub is_true : Option Bool → Bool
is_true (some true) = true
is_true _ = false

abbrev pub is_false : Option Bool → Bool
is_false (some false) = true
is_false _ = false

abbrev pub is_missing : Option Bool → Bool
is_missing none = true
is_missing (some _) = false

-- `SensorObserver.__init__`'s times, and `begin_ready_observation`
abbrev pub unheard : State → State
unheard s = record s {
  seen = record s.seen { observer = record { scan_time = none; odom_time = none } };
}

abbrev pub clear_ready : State → State
clear_ready s = record s { seen = record s.seen { latest_ready = none } }

abbrev pub set_result : ℕ → State → State
set_result n s = record s { result = n }

abbrev pub own_node : State → State
own_node s = record s { has_node = true }

-- A round of the first loop leaves it by `break`, or goes on with the graph's last error.
pub data Progress : Type 0 where
  broke : Progress
  again : Option Exn → Progress

abbrev pub stale : Exn
stale = runtime_error "fresh /scan_navigation and /odom were not observed"

abbrev pub not_false : Exn
not_false = runtime_error "/motor_ready must be false before this guard arms the motors"

module _ (w : World) where
  unfoldable pub call : {A : Type 0} → (List Call → Reply A) → Call → M State A
  unfolding request
  call reply c = request (λ s. reply s.calls) (noted w c)

  unfoldable pub read_clock : M State Num
  unfolding call
  read_clock = call (λ h. answer (w.now h)) clock

  abbrev pub judge_graph : List EndpointInfo × List EndpointInfo → M State (Unit {0})
  judge_graph infos = none_or_raise (check_command_graph w.strip infos.0 infos.1)

  -- `check_command_graph(node)`
  unfoldable pub check_graph : M State (Unit {0})
  check_graph = do infos ← call w.on_graph query_graph; judge_graph infos

  abbrev pub judge_hardware : Option Hardware → M State (Unit {0})
  judge_hardware none = raise (runtime_error "could not read base hardware parameters")
  judge_hardware (some h) = none_or_raise (check_hardware_parameters h)

  abbrev pub fetch_parameters : Bool → M State (Unit {0})
  fetch_parameters found =
      if not found
      then raise (runtime_error "/lekiwi_node parameter services are unavailable")
      else do
        call w.on_end get_parameters
        call w.on_end spin_until_complete
        values ← call w.on_result future_result
        judge_hardware values

  unfoldable pub read_hardware_parameters : M State (Unit {0})
  read_hardware_parameters = do found ← call w.on_services wait_for_services; fetch_parameters found

  abbrev pub publish_once : M State (Unit {0})
  publish_once = do call w.on_publish publish_stop; call w.on_spin (spin hundredth)

  unfoldable pub publish_zero : M State (Unit {0})
  publish_zero = do
    call w.on_publish create_publisher
    finally_with (repeat 20 publish_once) (λ e. do call w.on_publish destroy_publisher; pure e)

  module _ ⦃u : Fpu⦄ where
    -- `observer.fresh()`
    unfoldable pub is_fresh : M State Bool
    is_fresh = do now ← read_clock; reads λ s. pure (fresh now one s.seen.observer)

    -- `if not observer.fresh(): raise error`
    abbrev pub need_fresh : Exn → M State (Unit {0})
    need_fresh e = do ok ← is_fresh; if ok then pure tt else raise e

    -- The `try` of a round
    abbrev pub try_graph : M State Progress
    try_graph = catch_kind is_runtime (do check_graph; pure broke) (λ e. pure (again (some e)))

    abbrev pub look_graph : Option Exn → Bool → Option Bool → M State Progress
    look_graph error ok ready =
        if not ok || is_missing ready
        then pure (again error)
        else if is_true ready
        then raise not_false
        else try_graph

    -- The body of the first loop
    abbrev pub start_round : Option Exn → M State Progress
    start_round error = do
      call w.on_spin (spin tenth)
      ok ← is_fresh
      reads λ s. look_graph error ok s.seen.latest_ready

    -- The loop's `else`
    abbrev pub give_up : Option Exn → M State (Unit {0})
    give_up none = pure tt
    give_up (some e) = do ok ← is_fresh; if ok then raise e else pure tt

    -- `clock() < deadline and rclpy.ok()`
    abbrev pub is_ok_before : Bool → M State Bool
    is_ok_before early = if early then call w.on_ok is_ok else pure false

    abbrev pub after_round : (Option Exn → M State (Unit {0})) → Progress → M State (Unit {0})
    after_round more broke = pure tt
    after_round more (again error) = more error

    abbrev pub start_if : (Option Exn → M State (Unit {0})) → Option Exn → Bool → M State (Unit {0})
    start_if more error go_on =
        if go_on then (do p ← start_round error; after_round more p) else give_up error

    unfoldable pub await_start : ℕ → Num → Option Exn → M State (Unit {0})
    await_start zero deadline error = out_of_fuel
    await_start (suc fuel) deadline error = do
      now ← read_clock
      go_on ← is_ok_before (lt now deadline)
      start_if (await_start fuel deadline) error go_on

    -- The handler of the second loop
    abbrev pub retry_graph : M State (Unit {0}) → Num → Exn → M State (Unit {0})
    retry_graph more deadline e = do
      now ← read_clock
      if le deadline now then raise e else do call w.on_spin (spin twentieth); more

    unfoldable pub recheck_graph : ℕ → Num → M State (Unit {0})
    recheck_graph zero deadline = out_of_fuel
    recheck_graph (suc fuel) deadline =
        catch_kind is_runtime check_graph (retry_graph (recheck_graph fuel deadline) deadline)
