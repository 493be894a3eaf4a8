-- ===== src/DistanceTrial/Endpoint.antt =====
-- The trial's calls on its endpoint and the clock, its report, and the checks of a sample.
use lekiwi.Prelude.{Bool, true, false, ◌&&◌, Option, none, some, String, List, ◌∷◌, if◌then◌else◌}
use lekiwi.Float.{Num, nought, le}
use lekiwi.Float.Fpu.{Fpu}
use lekiwi.Effect.{Exn, M, pure, raise, ◌>>◌, runtime_error, Reply, answer}
use lekiwi.Effect.State.{modify, reads, request}
use lekiwi.DistanceTrial.{Parameters, Sample, Displacement, three_tenths}

pub data Call : Type 0 where
  get_parameters : Call
  spin : Num → Call
  publish : Num × Num → Call
  arm : Call
  check_graph : Call
  stop_and_disarm : Call
  clock : Call

-- What the endpoint's calls answer, and its attributes, after the calls so far. The clock does not raise.
pub record World : Type 0 where
  pub on_parameters : List Call → Reply Parameters
  pub on_spin : List Call → Reply (Unit {0})
  pub on_publish : List Call → Reply (Unit {0})
  pub on_arm : List Call → Reply (Unit {0})
  pub on_graph : List Call → Reply (Unit {0})
  pub on_stop : List Call → Reply (Unit {0})
  pub now : List Call → Num
  pub error : List Call → Option String
  pub latest : List Call → Option Sample
  pub ready : List Call → Option Bool
  pub samples : List Call → List Sample

-- The entries of the report that a run writes. Those that copy the trial or stay as they are are left
-- out.
pub record Report : Type 0 where
  pub parameters : Option Parameters
  pub start : Option Sample
  pub max_publish_gap : Num
  pub command_started : Option Num
  pub command_ended : Option Num
  pub command_duration : Option Num
  pub command_integral : Option Num
  pub end_ : Option Sample
  pub odom : Option Displacement
  pub odom_minus_requested : Option Num
  pub stop_window_passed : Bool
  pub completed : Bool
  pub torque_off : Option Bool
  pub errors : List Exn
  pub samples : List Sample

-- A run's state: whether it owns the motion, its report, and its calls so far, latest first.
pub record State : Type 0 where
  pub owns_motion : Bool
  pub report : Report
  pub calls : List Call

unfoldable pub call : {A : Type 0} → (List Call → Reply A) → Call → M State A
unfolding request
call reply c = request (λ s. reply s.calls) (λ s. record s { calls = c ∷ s.calls })

unfoldable pub write : (Report → Report) → M State (Unit {0})
unfolding modify
write f = modify λ s. record s { report = f s.report }

-- `require(condition, message)`
unfoldable pub demand : Bool → String → M State (Unit {0})
demand condition message = if condition then pure tt else raise (runtime_error message)

abbrev pub none_or_raise : Option String → M State (Unit {0})
none_or_raise none = pure tt
none_or_raise (some message) = raise (runtime_error message)

abbrev pub same_ready : Option Bool → Bool → Bool
same_ready (some true) true = true
same_ready (some false) false = true
same_ready _ _ = false

module _ (w : World) where
  unfoldable pub read_clock : M State Num
  unfolding call
  read_clock = call (λ h. answer (w.now h)) clock

  module _ ⦃u : Fpu⦄ where
    -- The sample is there, and at most `ODOM_MAX_AGE` old.
    abbrev pub is_fresh : Num → Option Sample → Bool
    is_fresh now none = false
    is_fresh now (some sample) =
        let age = u.sub now sample.received_s in le nought age && le age three_tenths

    abbrev pub hand_over : Option Sample → M State Sample
    hand_over none = raise (runtime_error "Missing or stale odometry")
    hand_over (some sample) = do call w.on_graph check_graph; pure sample

    abbrev pub check_state :
        Num → Bool → Option String → Option Sample → Option Bool → M State Sample
    check_state now ready error sample is_ready = do
      none_or_raise error
      demand (is_fresh now sample) "Missing or stale odometry"
      demand (same_ready is_ready ready) "motor_ready must be as expected"
      hand_over sample

    -- `check_sample` with a value for `ready`
    unfoldable pub check_sample : Num → Bool → M State Sample
    check_sample now ready =
        reads λ s. check_state now ready (w.error s.calls) (w.latest s.calls) (w.ready s.calls)
