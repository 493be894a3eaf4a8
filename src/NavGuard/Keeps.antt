-- ===== src/NavGuard/Keeps.antt =====
-- What a session keeps of a claim on its state, whatever the calls answer.
use lekiwi.Prelude.{◌≡◌, refl, ℕ, zero, suc, Bool, true, false, not, ◌||◌, Option, none, some, List}
use lekiwi.Float.{Num, lt}
use lekiwi.Float.Fpu.{Fpu}
use lekiwi.Effect.{Exn, M, Reply, answer, is_runtime}
use lekiwi.Effect.State.{
  Keeps, Keeps-reads, Keeps-request, Keeps-pure, Keeps-catch_kind, Keeps-finally,
}
use lekiwi.Effect.Triple.{Triple-bind, Triple-raise, Triple-if, Triple-out_of_fuel, Triple-repeat}
use lekiwi.NavGuard.{check_command_graph, Hardware, check_hardware_parameters}
use lekiwi.NavGuard.Session.{
  Call, clock, is_ok, spin, query_graph, wait_for_services, get_parameters, spin_until_complete,
  future_result, create_publisher, publish_stop, destroy_publisher, power, World, State, noted,
  none_or_raise, is_true, is_missing, unheard, clear_ready, set_result, Progress, broke, again,
  call, read_clock, check_graph, judge_hardware, read_hardware_parameters, publish_zero, is_fresh,
  need_fresh, look_graph, start_round, give_up, is_ok_before, after_round, start_if, await_start,
  tenth, hundredth,
}

-- Power on
abbrev pub is_arm : Call → Bool
is_arm (power true) = true
is_arm _ = false

pub record IsKept (w : World) (I : State → Type 0) : Type 0 where
  pub by_call : (c : Call) → is_arm c ≡ false → (s : State) → I s → I (noted w c s)
  pub by_unheard : (s : State) → I s → I (unheard s)
  pub by_clear : (s : State) → I s → I (clear_ready s)
  pub by_result : (n : ℕ) (s : State) → I s → I (set_result n s)

module _ {I : State → Type 0} where
  pub none-Keeps : (o : Option _) → Keeps I (none_or_raise o)
  none-Keeps none = Keeps-pure
  none-Keeps (some message) = Triple-raise (λ s p. p)

module _ {w : World} {I : State → Type 0} (k : IsKept w I) where
  pub call-Keeps :
      {A : Type 0} (reply : List Call → Reply A) (c : Call)
      → is_arm c ≡ false
      → Keeps I (call w reply c)
  unfolding call
  call-Keeps reply c h = Keeps-request (λ s. reply s.calls) (noted w c) (k.by_call c h)

  pub clock-Keeps : Keeps I (read_clock w)
  unfolding read_clock
  clock-Keeps = Keeps-request (λ s. answer (w.now s.calls)) (noted w clock) (k.by_call clock refl)

  pub check_graph-Keeps : Keeps I (check_graph w)
  unfolding check_graph
  check_graph-Keeps =
      Triple-bind (call-Keeps w.on_graph query_graph refl)
        (λ infos. none-Keeps (check_command_graph w.strip infos.0 infos.1))

  judge-Keeps : (o : Option Hardware) → Keeps I (judge_hardware w o)
  judge-Keeps none = Triple-raise (λ s p. p)
  judge-Keeps (some h) = none-Keeps (check_hardware_parameters h)

  pub hardware-Keeps : Keeps I (read_hardware_parameters w)
  unfolding read_hardware_parameters
  hardware-Keeps = Triple-bind (call-Keeps w.on_services wait_for_services refl) λ found.
      Triple-if (not found) (λ _. Triple-raise (λ s p. p))
        λ _. Triple-bind (call-Keeps w.on_end get_parameters refl) λ _.
          Triple-bind (call-Keeps w.on_end spin_until_complete refl)
            λ _. Triple-bind (call-Keeps w.on_result future_result refl) judge-Keeps

  pub publish_zero-Keeps : Keeps I (publish_zero w)
  unfolding publish_zero
  publish_zero-Keeps = Triple-bind (call-Keeps w.on_publish create_publisher refl) λ _.
      Keeps-finally
        (Triple-repeat 20 (
          Triple-bind (call-Keeps w.on_publish publish_stop refl)
            λ _. call-Keeps w.on_spin (spin hundredth) refl))
        (λ e. Triple-bind (call-Keeps w.on_publish destroy_publisher refl) (λ _. Keeps-pure))

  module _ ⦃u : Fpu⦄ where
    pub is_fresh-Keeps : Keeps I (is_fresh w)
    unfolding is_fresh
    is_fresh-Keeps = Triple-bind clock-Keeps (λ now. Keeps-reads (λ s i. Keeps-pure))

    pub need_fresh-Keeps : (e : Exn) → Keeps I (need_fresh w e)
    need_fresh-Keeps e =
        Triple-bind is_fresh-Keeps
          λ ok. Triple-if ok (λ _. Keeps-pure) (λ _. Triple-raise (λ s p. p))

    look_graph-Keeps :
        (error : Option Exn) (ok : Bool) (ready : Option Bool)
        → Keeps I (look_graph w error ok ready)
    look_graph-Keeps error ok ready =
        Triple-if (not ok || is_missing ready) (λ _. Keeps-pure)
          λ _.
            Triple-if (is_true ready) (λ _. Triple-raise (λ s p. p))
              λ _.
                Keeps-catch_kind is_runtime (Triple-bind check_graph-Keeps (λ _. Keeps-pure))
                  (λ e. Keeps-pure)

    start_round-Keeps : (error : Option Exn) → Keeps I (start_round w error)
    start_round-Keeps error = Triple-bind (call-Keeps w.on_spin (spin tenth) refl) λ _.
        Triple-bind is_fresh-Keeps
          λ ok. Keeps-reads (λ s _. look_graph-Keeps error ok s.seen.latest_ready)

    give_up-Keeps : (error : Option Exn) → Keeps I (give_up w error)
    give_up-Keeps none = Keeps-pure
    give_up-Keeps (some e) =
        Triple-bind is_fresh-Keeps
          λ ok. Triple-if ok (λ _. Triple-raise (λ s p. p)) (λ _. Keeps-pure)

    is_ok_before-Keeps : (early : Bool) → Keeps I (is_ok_before w early)
    is_ok_before-Keeps early =
        Triple-if early (λ _. call-Keeps w.on_ok is_ok refl) (λ _. Keeps-pure)

    after_round-Keeps :
        (more : Option Exn → M State (Unit {0}))
        → ((error : Option Exn) → Keeps I (more error))
        → (p : Progress) → Keeps I (after_round w more p)
    after_round-Keeps more h broke = Keeps-pure
    after_round-Keeps more h (again error) = h error

    start_if-Keeps :
        (more : Option Exn → M State (Unit {0}))
        → ((error : Option Exn) → Keeps I (more error))
        → (error : Option Exn) (go_on : Bool) → Keeps I (start_if w more error go_on)
    start_if-Keeps more h error go_on =
        Triple-if go_on (λ _. Triple-bind (start_round-Keeps error) (after_round-Keeps more h))
          (λ _. give_up-Keeps error)

    pub await_start-Keeps :
        (fuel : ℕ) (deadline : Num) (error : Option Exn)
        → Keeps I (await_start w fuel deadline error)
    unfolding await_start
    await_start-Keeps zero deadline error = Triple-out_of_fuel (λ s p. p)
    await_start-Keeps (suc fuel) deadline error = Triple-bind clock-Keeps λ now.
        Triple-bind (is_ok_before-Keeps (lt now deadline)) λ go_on.
          start_if-Keeps (await_start w fuel deadline) (await_start-Keeps fuel deadline) error go_on
