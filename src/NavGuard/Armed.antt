-- ===== src/NavGuard/Armed.antt =====
-- A whole session is guarded.
use lekiwi.Prelude.{refl, ℕ, true, none, List}
use lekiwi.Float.{Num}
use lekiwi.Float.Fpu.{Fpu}
use lekiwi.Effect.{M}
use lekiwi.Effect.State.{
  Keeps, Keeps-reads, Keeps-modify, Keeps-pure, Keeps-catch, Keeps-finally, Triple-request,
  Triple-modify,
}
use lekiwi.Effect.Triple.{Triple, Triple-bind, Triple-raise, Triple-if, Triple-weaken, Post-same}
use lekiwi.NavGuard.Session.{
  Call, create_observer, create_node, create_client, create_ready_subscription, power, wait_ready,
  World, State, noted, unheard, clear_ready, own_node, stale, call, read_hardware_parameters, five,
  two, recheck_graph,
}
use lekiwi.NavGuard.Main.{
  went_stale, initialize, arm, check_all, supervise, attempt_session, main, at_start,
  set_motor_power,
}
use lekiwi.NavGuard.Keeps.{
  IsKept, call-Keeps, clock-Keeps, check_graph-Keeps, publish_zero-Keeps, need_fresh-Keeps,
  await_start-Keeps,
}
use lekiwi.NavGuard.Guarded.{
  On, now_, IsGuarded, Known, Ready, guarded-IsStable, Known-IsStable, Ready-IsStable,
  stable-IsKept, kept, hardware-Ok, recheck_graph-Ok, IsCleared,
}
use lekiwi.NavGuard.Watch.{false-Keeps, handle-Keeps, cleanup-Keeps, supervise_armed-Keeps}

module _ (w : World) where
  abbrev guarded : IsKept w (On (IsGuarded w))
  guarded = stable-IsKept w (guarded-IsStable w)

  initialize-Keeps : Keeps (On (IsGuarded w)) (initialize w)
  unfolding initialize
  initialize-Keeps = Triple-bind (call-Keeps guarded w.on_create create_node refl) λ _.
      Triple-bind (Keeps-modify own_node (λ s p. p)) λ _.
        Triple-bind (call-Keeps guarded w.on_create create_client refl)
          λ _. call-Keeps guarded w.on_create create_ready_subscription refl

  -- Power on, once cleared, leaves a guarded history.
  power-Guarded :
      Triple (On (Ready w)) (set_motor_power w true) (λ _. On (IsGuarded w)) (On (IsGuarded w))
  unfolding call IsGuarded
  power-Guarded =
      Triple-request (λ s. w.on_power s.calls) (noted w (power true)) (λ s p. (p.1, p.0))

  arm-Guarded : Triple (On (Ready w)) (arm w) (λ _. On (IsGuarded w)) (On (IsGuarded w))
  unfolding arm
  arm-Guarded = Triple-bind (Triple-modify clear_ready (λ s p. p)) λ _.
      Triple-bind power-Guarded λ _.
        Triple-bind (call-Keeps guarded w.on_wait_ready (wait_ready five) refl)
          λ ready. Triple-if ready (λ _. Keeps-pure) (λ _. Triple-raise (λ s p. p))

  module _ ⦃u : Fpu⦄ where
    recheck-Ready :
        (fuel : ℕ) (deadline : Num)
        → Triple
            (On (Known w))
            (recheck_graph w fuel deadline)
            (λ _. On (Ready w))
            (On (IsGuarded w))
    unfolding IsCleared
    recheck-Ready fuel deadline =
        Triple-weaken (recheck_graph-Ok w (Known-IsStable w) fuel deadline) (λ s p. p)
          (λ a s q. (q.0.0, now_ (q.1, q.0.1))) (λ s p. p.0)

    weak :
        {A : Type 0} {m : M State A} {P : List Call → Type 0}
        → ((h : List Call) → P h → IsGuarded w h)
        → Keeps (On P) m
        → Triple (On P) m (λ _. On P) (On (IsGuarded w))
    weak f t = Triple-weaken t (λ s p. p) (λ a s q. q) (λ s p. f s.calls p)

    hardware-Known :
        Triple
          (On (IsGuarded w))
          (read_hardware_parameters w)
          (λ _. On (Known w))
          (On (IsGuarded w))
    hardware-Known =
        Triple-weaken (hardware-Ok w (guarded-IsStable w)) (λ s p. p) (λ a s q. (q.0, now_ q.1))
          (λ s p. p)

    check_all-Ready :
        (fuel : ℕ)
        → Triple (On (IsGuarded w)) (check_all w fuel) (λ _. On (Ready w)) (On (IsGuarded w))
    check_all-Ready fuel = Triple-bind (need_fresh-Keeps guarded stale) λ _.
        Triple-bind (Keeps-reads (λ s _. false-Keeps guarded s.seen.latest_ready)) λ _.
          Triple-bind (check_graph-Keeps guarded) λ _. Triple-bind hardware-Known λ _.
            Triple-bind (weak (λ h p. p.0) (publish_zero-Keeps (kept w (Known-IsStable w)))) λ _.
              Triple-bind (weak (λ h p. p.0) (clock-Keeps (kept w (Known-IsStable w)))) λ now.
                Triple-bind (recheck-Ready fuel (u.add now two))
                  λ _. weak (λ h p. p.0) (need_fresh-Keeps (kept w (Ready-IsStable w)) went_stale)

    supervise-Keeps :
        (fuel : ℕ) (duration startup_timeout : Num)
        → Keeps (On (IsGuarded w)) (supervise w fuel duration startup_timeout)
    unfolding supervise
    supervise-Keeps fuel duration startup_timeout =
        Triple-bind (call-Keeps guarded w.on_create create_observer refl) λ _.
          Triple-bind (Keeps-modify unheard (λ s p. p)) λ _.
            Triple-bind (clock-Keeps guarded) λ now.
              Triple-bind (await_start-Keeps guarded fuel (u.add now startup_timeout) none) λ _.
                Triple-bind (check_all-Ready fuel)
                  λ _. Triple-bind arm-Guarded (λ _. supervise_armed-Keeps guarded fuel duration)

    main-Keeps :
        (fuel : ℕ) (duration startup_timeout : Num)
        → Keeps (On (IsGuarded w)) (main w fuel duration startup_timeout)
    unfolding main attempt_session
    main-Keeps fuel duration startup_timeout =
        Triple-bind
          (Keeps-finally
            (Keeps-catch
              (Triple-bind initialize-Keeps (λ _. supervise-Keeps fuel duration startup_timeout))
              (handle-Keeps guarded))
            (λ e.
              Triple-bind (Keeps-reads (λ s _. cleanup-Keeps guarded s.has_node))
                (λ _. Keeps-pure)))
          (λ _. Keeps-reads (λ s _. Keeps-pure))

    -- Whatever the calls answer, whatever messages come, and however long it runs: power was requested only
    -- after the hardware parameters had been read and accepted, and after that a command graph had been.
    pub main-IsGuarded :
        (fuel : ℕ) (duration startup_timeout : Num)
        → IsGuarded w (main w fuel duration startup_timeout at_start).1.calls
    unfolding IsGuarded
    main-IsGuarded fuel duration startup_timeout =
        Post-same (On (IsGuarded w)) (main w fuel duration startup_timeout at_start)
          ((main-Keeps fuel duration startup_timeout).holds at_start tt)
