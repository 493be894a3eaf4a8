-- ===== src/NavGuard/Watch.antt =====
-- What the supervision, the handlers and the cleanup keep of a claim.
use lekiwi.Prelude.{refl, ℕ, zero, suc, Bool, false, Option}
use lekiwi.Float.{Num, le}
use lekiwi.Float.Fpu.{Fpu}
use lekiwi.Effect.{is_runtime, Exn, M, is_exception, is_keyboard_interrupt}
use lekiwi.Effect.State.{Keeps, Keeps-reads, Keeps-modify, Keeps-pure, Keeps-catch_kind, Keeps-when}
use lekiwi.Effect.Triple.{Triple-bind, Triple-raise, Triple-if, Triple-out_of_fuel}
use lekiwi.NavGuard.Session.{
  is_false, twentieth, recheck_graph, is_ok, spin, power, destroy, shutdown, World, State, is_true,
  set_result, tenth,
}
use lekiwi.NavGuard.Main.{
  need_false, lost_sensors, check_if_due, watch_round, is_before_end, need_still_ready, watch_if,
  watch, supervise_armed, handle, attempt_step, release_node, cleanup,
}
use lekiwi.NavGuard.Keeps.{
  IsKept, call-Keeps, clock-Keeps, check_graph-Keeps, publish_zero-Keeps, need_fresh-Keeps,
}

module _ {w : World} {I : State → Type 0} (k : IsKept w I) where
  step-Keeps : {m : M State (Unit {0})} → Keeps I m → Keeps I (attempt_step w m)
  step-Keeps h = Keeps-catch_kind is_exception h (λ e. Keeps-modify (set_result 1) (k.by_result 1))

  pub release_node-Keeps : Keeps I (release_node w)
  release_node-Keeps =
      Triple-bind (step-Keeps (call-Keeps k w.on_power (power false) refl))
        λ _. Triple-bind (step-Keeps (publish_zero-Keeps k)) λ _. call-Keeps k w.on_end destroy refl

  pub cleanup-Keeps : (has_node : Bool) → Keeps I (cleanup w has_node)
  cleanup-Keeps has_node =
      Triple-bind (Keeps-when has_node (λ _. release_node-Keeps))
        λ _. call-Keeps k w.on_end shutdown refl

  pub handle-Keeps : (e : Exn) → Keeps I (handle w e)
  handle-Keeps e =
      Triple-if (is_keyboard_interrupt e.kind)
        (λ _. Keeps-modify (set_result 130) (k.by_result 130))
        λ _.
          Triple-if (is_exception e.kind) (λ _. Keeps-modify (set_result 1) (k.by_result 1))
            (λ _. Triple-raise (λ s p. p))

  module _ ⦃u : Fpu⦄ where
    check_if_due-Keeps : (next now : Num) → Keeps I (check_if_due w next now)
    check_if_due-Keeps next now =
        Triple-if (le next now)
          (λ _.
            Triple-bind (check_graph-Keeps k)
              λ _. Triple-bind (clock-Keeps k) (λ later. Keeps-pure))
          (λ _. Keeps-pure)

    still_ready-Keeps : (ready : Option Bool) → Keeps I (need_still_ready w ready)
    still_ready-Keeps ready =
        Triple-if (is_true ready) (λ _. Keeps-pure) (λ _. Triple-raise (λ s p. p))

    watch_round-Keeps : (next : Num) → Keeps I (watch_round w next)
    watch_round-Keeps next = Triple-bind (call-Keeps k w.on_spin (spin tenth) refl) λ _.
        Triple-bind (Keeps-reads (λ s _. still_ready-Keeps s.seen.latest_ready)) λ _.
          Triple-bind (need_fresh-Keeps k lost_sensors)
            λ _. Triple-bind (clock-Keeps k) (check_if_due-Keeps next)

    is_before_end-Keeps : (end_ : Num) (ok : Bool) → Keeps I (is_before_end w end_ ok)
    is_before_end-Keeps end_ ok =
        Triple-if ok (λ _. Triple-bind (clock-Keeps k) (λ now. Keeps-pure)) (λ _. Keeps-pure)

    watch_if-Keeps :
        (more : Num → M State (Unit {0}))
        → ((next : Num) → Keeps I (more next))
        → (next : Num) (go_on : Bool) → Keeps I (watch_if w more next go_on)
    watch_if-Keeps more h next go_on =
        Triple-if go_on (λ _. Triple-bind (watch_round-Keeps next) h)
          (λ _. Triple-bind (clock-Keeps k) (λ _. Keeps-pure))

    watch-Keeps : (fuel : ℕ) (end_ next : Num) → Keeps I (watch w fuel end_ next)
    unfolding watch
    watch-Keeps zero end_ next = Triple-out_of_fuel (λ s p. p)
    watch-Keeps (suc fuel) end_ next = Triple-bind (call-Keeps k w.on_ok is_ok refl) λ ok.
        Triple-bind (is_before_end-Keeps end_ ok)
          (watch_if-Keeps (watch w fuel end_) (watch-Keeps fuel end_) next)

    pub false-Keeps : (ready : Option Bool) → Keeps I (need_false w ready)
    false-Keeps ready = Triple-if (is_false ready) (λ _. Keeps-pure) (λ _. Triple-raise (λ s p. p))

    pub recheck-Keeps : (fuel : ℕ) (deadline : Num) → Keeps I (recheck_graph w fuel deadline)
    unfolding recheck_graph
    recheck-Keeps zero deadline = Triple-out_of_fuel (λ s p. p)
    recheck-Keeps (suc fuel) deadline = Keeps-catch_kind is_runtime (check_graph-Keeps k) λ e.
        Triple-bind (clock-Keeps k) λ now.
          Triple-if (le deadline now) (λ _. Triple-raise (λ s p. p))
            λ _.
              Triple-bind (call-Keeps k w.on_spin (spin twentieth) refl)
                (λ _. recheck-Keeps fuel deadline)

    pub supervise_armed-Keeps :
        (fuel : ℕ) (duration : Num) → Keeps I (supervise_armed w fuel duration)
    supervise_armed-Keeps fuel duration =
        Triple-bind (clock-Keeps k)
          λ start. Triple-bind (clock-Keeps k) λ next. watch-Keeps fuel (u.add start duration) next
