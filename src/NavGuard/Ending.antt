-- ===== src/NavGuard/Ending.antt =====
-- However a session ends, the motor power is requested off.
use lekiwi.Prelude.{
  ◌≡◌, ◌≢◌, refl, ℕ, Bool, true, false, Option, none, List, [], ◌∷◌, ◌⊎◌, inl, inr,
}
use mathlib.Core.Path.{subst, sym}
use lekiwi.Float.{Num}
use lekiwi.Float.Fpu.{Fpu}
use lekiwi.Effect.{finally_with, Exn, M, Reply, running, is_exception, when}
use lekiwi.Effect.State.{
  Keeps, Keeps-reads, Keeps-modify, Keeps-pure, Keeps-request, Triple-catch, Triple-modify,
}
use lekiwi.Effect.Triple.{Triple, Triple-bind, Triple-raise, Triple-if, Triple-weaken, Post-same}
use lekiwi.Effect.Sure.{
  Sure, Sure-pure, Sure-bind, Sure-finally, Sure-repeat, Sure-reads, Sure-modify, Sure-request,
  Sure-weaken, Sure-catch_kind, finally-ends,
}
use lekiwi.NavGuard.Session.{
  Call, create_node, create_client, create_ready_subscription, create_observer, spin, power,
  wait_ready, create_publisher, publish_stop, destroy_publisher, destroy, shutdown, World, State,
  noted, unheard, clear_ready, set_result, own_node, stale, five, two, hundredth, call,
  publish_once, publish_zero,
}
use lekiwi.NavGuard.Main.{
  went_stale, initialize, arm, check_all, supervise, attempt_session, attempt_step, release_node,
  cleanup, finish, main, at_start, set_motor_power,
}
use lekiwi.NavGuard.Keeps.{
  is_arm, IsKept, call-Keeps, clock-Keeps, check_graph-Keeps, hardware-Keeps, publish_zero-Keeps,
  need_fresh-Keeps, await_start-Keeps,
}
use lekiwi.NavGuard.Guarded.{On}
use lekiwi.NavGuard.Watch.{handle-Keeps, supervise_armed-Keeps, recheck-Keeps, false-Keeps}

-- No power on was requested since the start, or since the latest power off.
pub data IsOff : List Call → Type 0 where
  off_start : IsOff []
  off_now : {h : List Call} → IsOff (power false ∷ h)
  off_more : (c : Call) {h : List Call} → is_arm c ≡ false → IsOff h → IsOff (c ∷ h)

-- The node was created, or power was never requested on.
abbrev Owned : State → Type 0
Owned s = (s.has_node ≡ true) ⊎ IsOff s.calls

abbrev HasNode : State → Type 0
HasNode s = s.has_node ≡ true

module _ (w : World) where
  HasNode-IsKept : IsKept w HasNode
  HasNode-IsKept = record {
    by_call = λ c h s p. p;
    by_unheard = λ s p. p;
    by_clear = λ s p. p;
    by_result = λ n s p. p;
  }

  IsOff-IsKept : IsKept w (On IsOff)
  IsOff-IsKept = record {
    by_call = λ c h s p. off_more c h p;
    by_unheard = λ s p. p;
    by_clear = λ s p. p;
    by_result = λ n s p. p;
  }

  Owned-IsKept : IsKept w Owned
  Owned-IsKept = record {
    by_call = λ c h s p. elim p [ inl n ↦ inl n | inr off ↦ inr (off_more c h off) ];
    by_unheard = λ s p. p;
    by_clear = λ s p. p;
    by_result = λ n s p. p;
  }

  arm-HasNode : Keeps HasNode (arm w)
  unfolding arm call
  arm-HasNode = Triple-bind (Keeps-modify clear_ready (λ s p. p)) λ _.
      Triple-bind (Keeps-request (λ s. w.on_power s.calls) (noted w (power true)) (λ s p. p)) λ _.
        Triple-bind (call-Keeps HasNode-IsKept w.on_wait_ready (wait_ready five) refl)
          λ ready. Triple-if ready (λ _. Keeps-pure) (λ _. Triple-raise (λ s p. p))

  -- Before the node is there, nothing is armed; from then on it is there.
  initialize-Owned : Triple (On IsOff) (initialize w) (λ _. HasNode) Owned
  unfolding initialize
  initialize-Owned =
      Triple-bind
        (Triple-weaken (call-Keeps IsOff-IsKept w.on_create create_node refl) (λ s p. p)
          (λ a s p. p) (λ s p. inr p))
        λ _. Triple-bind {Q = λ _. HasNode} (Triple-modify own_node (λ s p. refl)) λ _.
          Triple-weaken
            (Triple-bind (call-Keeps HasNode-IsKept w.on_create create_client refl)
              λ _. call-Keeps HasNode-IsKept w.on_create create_ready_subscription refl)
            (λ s p. p) (λ a s p. p) (λ s p. inl p)

  module _ ⦃u : Fpu⦄ where
    check_all-HasNode : (fuel : ℕ) → Keeps HasNode (check_all w fuel)
    check_all-HasNode fuel =
        let k = HasNode-IsKept in
        Triple-bind (need_fresh-Keeps k stale) λ _.
          Triple-bind (Keeps-reads (λ s _. false-Keeps k s.seen.latest_ready)) λ _.
            Triple-bind (check_graph-Keeps k) λ _. Triple-bind (hardware-Keeps k) λ _.
              Triple-bind (publish_zero-Keeps k) λ _. Triple-bind (clock-Keeps k) λ now.
                Triple-bind (recheck-Keeps k fuel (u.add now two))
                  λ _. need_fresh-Keeps k went_stale

    supervise-HasNode :
        (fuel : ℕ) (duration startup_timeout : Num)
        → Keeps HasNode (supervise w fuel duration startup_timeout)
    unfolding supervise
    supervise-HasNode fuel duration startup_timeout =
        let k = HasNode-IsKept in
        Triple-bind (call-Keeps k w.on_create create_observer refl) λ _.
          Triple-bind (Keeps-modify unheard (λ s p. p)) λ _. Triple-bind (clock-Keeps k) λ now.
            Triple-bind (await_start-Keeps k fuel (u.add now startup_timeout) none) λ _.
              Triple-bind (check_all-HasNode fuel)
                λ _. Triple-bind arm-HasNode (λ _. supervise_armed-Keeps k fuel duration)

    attempt-Owned :
        (fuel : ℕ) (duration startup_timeout : Num)
        → Triple (On IsOff) (attempt_session w fuel duration startup_timeout) (λ _. Owned) Owned
    unfolding attempt_session
    attempt-Owned fuel duration startup_timeout =
        Triple-catch {I = Owned}
          (Triple-bind initialize-Owned λ _.
            Triple-weaken (supervise-HasNode fuel duration startup_timeout) (λ s p. p)
              (λ a s p. inl p) (λ s p. inl p))
          (handle-Keeps Owned-IsKept) (λ s p. p)

  abbrev Any : State → Type 0
  Any _ = Unit

  -- The calls of the cleanup end, and keep that the power is off.
  call-Sure :
      {A : Type 0} (reply : List Call → Reply A) (c : Call)
      → is_arm c ≡ false
      → Sure (On IsOff) (call w reply c) (On IsOff)
  unfolding call
  call-Sure reply c e = Sure-request (λ s. reply s.calls) (noted w c) (λ s p. off_more c e p)

  once-Sure : Sure (On IsOff) (publish_once w) (On IsOff)
  once-Sure =
      Sure-bind (call-Sure w.on_publish publish_stop refl)
        (λ _. call-Sure w.on_spin (spin hundredth) refl) (λ s p. p)

  publish_zero-Sure : Sure (On IsOff) (publish_zero w) (On IsOff)
  unfolding publish_zero
  publish_zero-Sure =
      Sure-bind (call-Sure w.on_publish create_publisher refl)
        (λ _. Sure-finally (Sure-repeat 20 once-Sure) λ e.
          Sure-bind (call-Sure w.on_publish destroy_publisher refl) (λ _. Sure-pure (λ s p. p))
            (λ s p. p))
        (λ s p. p)

  step-Sure :
      {m : M State (Unit {0})} {P : State → Type 0}
      → Sure P m (On IsOff)
      → Sure P (attempt_step w m) (On IsOff)
  step-Sure h =
      Sure-catch_kind is_exception h (λ e. Sure-modify (set_result 1) (λ s p. p)) (λ s p. p)

  set_motor_power-Sure : Sure Any (set_motor_power w false) (On IsOff)
  unfolding call
  set_motor_power-Sure =
      Sure-request (λ s. w.on_power s.calls) (noted w (power false)) (λ s p. off_now)

  release_node-Sure : Sure Any (release_node w) (On IsOff)
  release_node-Sure =
      Sure-bind (step-Sure set_motor_power-Sure)
        (λ _.
          Sure-bind (step-Sure publish_zero-Sure) (λ _. call-Sure w.on_end destroy refl) (λ s p. p))
        (λ s p. p)

  when-Sure :
      (b : Bool) → Sure (λ s. (b ≡ true) ⊎ IsOff s.calls) (when b (release_node w)) (On IsOff)
  when-Sure true = Sure-weaken release_node-Sure (λ s p. tt) (λ s p. p)
  when-Sure false = Sure-pure (λ s p. elim p [ inl e ↦ cc e | inr off ↦ off ])

  cleanup-Sure : (b : Bool) → Sure (λ s. (b ≡ true) ⊎ IsOff s.calls) (cleanup w b) (On IsOff)
  cleanup-Sure b = Sure-bind (when-Sure b) (λ _. call-Sure w.on_end shutdown refl) (λ s p. p)

  finish-Sure : (e : Option Exn) → Sure Owned (finish w e) (On IsOff)
  finish-Sure e =
      Sure-bind
        (Sure-reads λ s p.
          Sure-weaken (cleanup-Sure s.has_node)
            (λ t q. subst (λ t. (s.has_node ≡ true) ⊎ IsOff t.calls) (sym q) p) (λ t q. q))
        (λ _. Sure-pure (λ s p. p)) (λ s p. p)

  module _ ⦃u : Fpu⦄ (fuel : ℕ) (duration startup_timeout : Num) where
    closed-Sure :
        (attempt_session w fuel duration startup_timeout at_start).0 ≢ running
        → Sure
            (λ s. s ≡ at_start)
            (finally_with (attempt_session w fuel duration startup_timeout) (finish w))
            (On IsOff)
    closed-Sure ends = record {
      sure = λ s p.
          subst
            (λ s.
              ((finally_with (attempt_session w fuel duration startup_timeout) (finish w) s).0
                ≢ running)
              × IsOff
                  (finally_with (attempt_session w fuel duration startup_timeout) (finish w)
                    s).1.calls)
            (sym p)
            (finally-ends (attempt_session w fuel duration startup_timeout) (finish w) at_start
              (
                ends,
                Post-same Owned (attempt_session w fuel duration startup_timeout at_start)
                    ((attempt-Owned fuel duration startup_timeout).holds at_start off_start),
              )
              finish-Sure);
    }

    -- If the `try` block of `main` ends, by returning or by raising, then `main` ends too, and power was not
    -- requested on since the latest request to cut it, or since the start: also when that request or a zero
    -- command of the cleanup raises.
    pub main-IsOff :
        (attempt_session w fuel duration startup_timeout at_start).0 ≢ running
        → ((main w fuel duration startup_timeout at_start).0 ≢ running)
          × IsOff (main w fuel duration startup_timeout at_start).1.calls
    unfolding main
    main-IsOff ends =
        (Sure-bind (closed-Sure ends)
            (λ _. Sure-reads (λ s p. Sure-pure (λ t q. subst (On IsOff) (sym q) p)))
            (λ s p. p)).sure
          at_start refl
