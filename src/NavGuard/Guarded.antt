-- ===== src/NavGuard/Guarded.antt =====
-- Power is requested only after the checks: the history of a session is guarded.
use lekiwi.Prelude.{
  ◌≡◌, refl, String, ℕ, zero, suc, true, false, not, Option, none, some, List, [], ◌∷◌,
}
use lekiwi.Float.{Num, le}
use lekiwi.Float.Fpu.{Fpu}
use lekiwi.Effect.{Reply, answer, failure, outcome, is_runtime}
use lekiwi.Effect.State.{request, Triple-catch}
use lekiwi.Effect.Triple.{
  Triple, Triple-bind, Triple-pure, Triple-raise, Triple-if, Triple-out_of_fuel, Post,
}
use lekiwi.NavGuard.{EndpointInfo, check_command_graph, Hardware, check_hardware_parameters}
use lekiwi.NavGuard.Session.{
  Call, create_observer, create_node, create_client, create_ready_subscription, clock, is_ok, spin,
  query_graph, wait_for_services, get_parameters, spin_until_complete, future_result,
  create_publisher, publish_stop, destroy_publisher, power, wait_ready, destroy, shutdown, World,
  State, noted, none_or_raise, call, check_graph, judge_hardware, read_hardware_parameters,
  recheck_graph, twentieth,
}
use lekiwi.NavGuard.Keeps.{is_arm, IsKept, call-Keeps, clock-Keeps}

-- At some time in the history, latest first, `P` held.
pub data Once (P : List Call → Type 0) : List Call → Type 0 where
  now_ : {h : List Call} → P h → Once P h
  before : {c : Call} {h : List Call} → Once P h → Once P (c ∷ h)

-- The latest call is `c`, and was answered with `a`.
pub data Asked {A : Type 0} (reply : List Call → Reply A) (c : Call) (a : A)
    : List Call → Type 0 where
  asked : (h : List Call) → reply (c ∷ h) ≡ answer a → Asked reply c a (c ∷ h)

-- A claim on the history that calls other than power on keep
abbrev pub IsStable : (List Call → Type 0) → Type 0
IsStable P = (c : Call) (h : List Call) → is_arm c ≡ false → P h → P (c ∷ h)

abbrev pub On : (List Call → Type 0) → State → Type 0
On P s = P s.calls

module _ (w : World) where
  pub stable-IsKept : {P : List Call → Type 0} → IsStable P → IsKept w (On P)
  stable-IsKept k = record {
    by_call = λ c h s p. k c s.calls h p;
    by_unheard = λ s p. p;
    by_clear = λ s p. p;
    by_result = λ n s p. p;
  }

  -- The latest call was answered with a command graph that the checks accept.
  pub data IsGraphOk : List Call → Type 0 where
    graph_ok :
        (infos : List EndpointInfo × List EndpointInfo) (h : List Call)
        → w.on_graph (query_graph ∷ h) ≡ answer infos
        → check_command_graph w.strip infos.0 infos.1 ≡ none
        → IsGraphOk (query_graph ∷ h)

  -- The latest call was answered with parameters that the checks accept.
  pub data IsHardwareOk : List Call → Type 0 where
    hardware_ok :
        (values : Hardware) (h : List Call)
        → w.on_result (future_result ∷ h) ≡ answer (some values)
        → check_hardware_parameters values ≡ none
        → IsHardwareOk (future_result ∷ h)

  -- The graph was accepted, and before that the hardware was.
  unfoldable pub IsCleared : List Call → Type 0
  IsCleared = Once (λ h. IsGraphOk h × Once IsHardwareOk h)

  -- Whenever power was requested, the session had been cleared for it.
  unfoldable pub IsGuarded : List Call → Type 0
  IsGuarded [] = Unit
  IsGuarded (power true ∷ h) = IsCleared h × IsGuarded h
  IsGuarded (c ∷ h) = IsGuarded h

  pub guarded-IsStable : IsStable IsGuarded
  unfolding IsGuarded
  guarded-IsStable (power true) h e p = cc e
  guarded-IsStable (power false) h e p = p
  guarded-IsStable create_node h e p = p
  guarded-IsStable create_client h e p = p
  guarded-IsStable create_ready_subscription h e p = p
  guarded-IsStable create_observer h e p = p
  guarded-IsStable clock h e p = p
  guarded-IsStable is_ok h e p = p
  guarded-IsStable (spin t) h e p = p
  guarded-IsStable query_graph h e p = p
  guarded-IsStable wait_for_services h e p = p
  guarded-IsStable get_parameters h e p = p
  guarded-IsStable spin_until_complete h e p = p
  guarded-IsStable future_result h e p = p
  guarded-IsStable create_publisher h e p = p
  guarded-IsStable publish_stop h e p = p
  guarded-IsStable destroy_publisher h e p = p
  guarded-IsStable (wait_ready t) h e p = p
  guarded-IsStable destroy h e p = p
  guarded-IsStable shutdown h e p = p

  abbrev pub Known : List Call → Type 0
  Known h = IsGuarded h × Once IsHardwareOk h

  abbrev pub Ready : List Call → Type 0
  Ready h = IsGuarded h × IsCleared h

  pub Known-IsStable : IsStable Known
  Known-IsStable c h e p = (guarded-IsStable c h e p.0, before p.1)

  pub Ready-IsStable : IsStable Ready
  unfolding IsCleared
  Ready-IsStable c h e p = (guarded-IsStable c h e p.0, before p.1)

  module _ {P : List Call → Type 0} (k : IsStable P) where
    pub kept : IsKept w (On P)
    kept = stable-IsKept k

    call-Asked :
        {A : Type 0} (reply : List Call → Reply A) (c : Call)
        → is_arm c ≡ false
        → Triple (On P) (call w reply c) (λ a s. P s.calls × Asked reply c a s.calls) (On P)
    unfolding call request
    call-Asked {A} reply c e = record {
      holds = λ s p. go s (k c s.calls e p) (reply (c ∷ s.calls)) refl;
    }
      where
        go :
            (s : State)
            → P (c ∷ s.calls)
            → (r : Reply A) → reply (c ∷ s.calls) ≡ r
            → Post (λ a t. P t.calls × Asked reply c a t.calls) (On P) (outcome r, noted w c s)
        go s p (answer a) h = (p, asked s.calls h)
        go s p (failure x) h = p

    graph-Ok :
        (infos : List EndpointInfo × List EndpointInfo) (o : Option String)
        → check_command_graph w.strip infos.0 infos.1 ≡ o
        → Triple
            (λ s. P s.calls × Asked w.on_graph query_graph infos s.calls)
            (none_or_raise o)
            (λ _ s. P s.calls × IsGraphOk s.calls)
            (On P)
    graph-Ok infos none e = Triple-pure (λ s p. (p.0, accepted s.calls p.1))
      where
        accepted : (h : List Call) → Asked w.on_graph query_graph infos h → IsGraphOk h
        accepted _ (asked h a) = graph_ok infos h a e
    graph-Ok infos (some message) e = Triple-raise (λ s p. p.0)

    -- A check of the graph that returns leaves an accepted graph.
    check_graph-Ok : Triple (On P) (check_graph w) (λ _ s. P s.calls × IsGraphOk s.calls) (On P)
    unfolding check_graph
    check_graph-Ok =
        Triple-bind (call-Asked w.on_graph query_graph refl)
          (λ infos. graph-Ok infos (check_command_graph w.strip infos.0 infos.1) refl)

    values-Ok :
        (values : Hardware) (o : Option String)
        → check_hardware_parameters values ≡ o
        → Triple
            (λ s. P s.calls × Asked w.on_result future_result (some values) s.calls)
            (none_or_raise o)
            (λ _ s. P s.calls × IsHardwareOk s.calls)
            (On P)
    values-Ok values none e = Triple-pure (λ s p. (p.0, accepted s.calls p.1))
      where
        accepted :
            (h : List Call) → Asked w.on_result future_result (some values) h → IsHardwareOk h
        accepted _ (asked h a) = hardware_ok values h a e
    values-Ok values (some message) e = Triple-raise (λ s p. p.0)

    judge_hardware-Ok :
        (o : Option Hardware)
        → Triple
            (λ s. P s.calls × Asked w.on_result future_result o s.calls)
            (judge_hardware w o)
            (λ _ s. P s.calls × IsHardwareOk s.calls)
            (On P)
    judge_hardware-Ok none = Triple-raise (λ s p. p.0)
    judge_hardware-Ok (some values) = values-Ok values (check_hardware_parameters values) refl

    -- Hardware parameters that were read and let through were accepted.
    pub hardware-Ok :
        Triple (On P) (read_hardware_parameters w) (λ _ s. P s.calls × IsHardwareOk s.calls) (On P)
    unfolding read_hardware_parameters
    hardware-Ok = Triple-bind (call-Keeps kept w.on_services wait_for_services refl) λ found.
        Triple-if (not found) (λ _. Triple-raise (λ s p. p))
          λ _. Triple-bind (call-Keeps kept w.on_end get_parameters refl) λ _.
            Triple-bind (call-Keeps kept w.on_end spin_until_complete refl)
              λ _. Triple-bind (call-Asked w.on_result future_result refl) judge_hardware-Ok

    module _ ⦃u : Fpu⦄ where
      -- The second loop is left with an accepted graph, if it does not raise.
      pub recheck_graph-Ok :
          (fuel : ℕ) (deadline : Num)
          → Triple
              (On P)
              (recheck_graph w fuel deadline)
              (λ _ s. P s.calls × IsGraphOk s.calls)
              (On P)
      unfolding recheck_graph
      recheck_graph-Ok zero deadline = Triple-out_of_fuel (λ s p. p)
      recheck_graph-Ok (suc fuel) deadline =
          Triple-catch {I = On P} check_graph-Ok
            (λ e.
              Triple-if (is_runtime e.kind)
                (λ _. Triple-bind (clock-Keeps kept) λ now.
                  Triple-if (le deadline now) (λ _. Triple-raise (λ s p. p))
                    λ _.
                      Triple-bind (call-Keeps kept w.on_spin (spin twentieth) refl)
                        (λ _. recheck_graph-Ok fuel deadline))
                (λ _. Triple-raise (λ s p. p)))
            (λ s p. p)
