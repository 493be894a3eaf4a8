-- ===== src/GuardedTeleop/Window/Keeps.antt =====
-- What every event keeps: a claim about the window's state that its small steps keep.
use lekiwi.Prelude.{
  ℕ, Bool, true, false, Option, none, some, ◌≡◌, refl, String, str_eq, List, [], ◌∷◌, ◌++◌,
  if◌then◌else◌,
}
use lekiwi.Float.{Num, le}
use lekiwi.Float.Fpu.{Fpu}
use lekiwi.Effect.{Exn, M, pure, Reply, outcome}
use lekiwi.Effect.Triple.{
  Post, Post-same, Triple, Triple-bind, Triple-pure, Triple-raise, Triple-if, Triple-weaken,
}
use lekiwi.Effect.State.{
  Keeps, settled, Keeps-reads, Keeps-modify, Keeps-when, Keeps-request, Keeps-catch, Keeps-finally,
  modify, reads,
}
use lekiwi.MotorSession.{Motion, stop}
use lekiwi.GuardedTeleop.HeldKeys.{HeldKeys, contains, remove, clear, press, release, next_motion}
use lekiwi.GuardedTeleop.Window.{
  Call, publish, cancel, after_release, after_tick, status, quit, spin, clock, Desktop, Window,
  timer_of, timers, call, on_profile, is_false, update, without, update, without,
}
use lekiwi.GuardedTeleop.Window.Handlers.{
  Event, pressed, released, release_timer, focus_out, closing, tick_timer, handle, handle_all,
  publish_motion, update_status, cancel_timer, cancel_pending, block_held, on_press, on_release,
  release_open, finish_release, cancel_all, stop_now, on_focus_out, on_close, advance, tick_body,
  tick,
}

Keeps-call :
    {I : Window → Type 0} {A : Type 0} (reply : List Call → Reply A) (c : Call)
    → ((s : Window) → I s → I (record s { calls = c ∷ s.calls }))
    → Keeps I (call reply c)
unfolding call
Keeps-call reply c h = Keeps-request (λ s. reply s.calls) (λ s. record s { calls = c ∷ s.calls }) h

-- The small steps under which a claim must be kept: calls other than a motion, a stop, the window's own
-- fields, and, while the window is open, what the profile does.
pub record IsKept ⦃u : Fpu⦄ (I : Window → Type 0) : Type 0 where
  pub by_stop : (s : Window) → I s → I (record s { calls = publish stop ∷ s.calls })
  pub by_cancel : (timer : ℕ) (s : Window) → I s → I (record s { calls = cancel timer ∷ s.calls })
  pub by_after_release :
      (key : String) (s : Window) → I s → I (record s { calls = after_release key ∷ s.calls })
  pub by_after_tick : (s : Window) → I s → I (record s { calls = after_tick ∷ s.calls })
  pub by_status :
      (n : ℕ) (key : Option String) (s : Window)
      → I s
      → I (record s { calls = status n key ∷ s.calls })
  pub by_quit : (s : Window) → I s → I (record s { calls = quit ∷ s.calls })
  pub by_spin : (s : Window) → I s → I (record s { calls = spin ∷ s.calls })
  pub by_clock : (s : Window) → I s → I (record s { calls = clock ∷ s.calls })
  pub by_pending :
      (pending : List (String × ℕ)) (s : Window) → I s → I (record s { pending_releases = pending })
  pub by_blocked :
      (keys : List String) (s : Window) → I s → I (record s { blocked_until_release = keys })
  pub by_error : (e : Exn) (s : Window) → I s → I (record s { error = some e })
  pub by_close : (s : Window) → I s → I (record s { closed = true })
  pub by_clear :
      (s : Window) → I s → I (record s { pending_releases = []; profile = clear s.profile })
  pub by_press :
      (key : String) (s : Window)
      → s.closed ≡ false
      → I s
      → I (record s { profile = (press key s.profile).0 })
  pub by_release :
      (key : String) (s : Window)
      → s.closed ≡ false
      → I s
      → I (record s { profile = (release key s.profile).0 })
  pub by_advance :
      (p : HeldKeys) (m : Motion) (s : Window)
      → s.closed ≡ false
      → next_motion s.profile ≡ some (p, m)
      → I s
      → I (record s { profile = p; calls = publish m ∷ s.calls })

-- Those of the steps that `on_close` takes.
pub record IsClosing (I : Window → Type 0) : Type 0 where
  pub by_stop : (s : Window) → I s → I (record s { calls = publish stop ∷ s.calls })
  pub by_cancel : (timer : ℕ) (s : Window) → I s → I (record s { calls = cancel timer ∷ s.calls })
  pub by_status :
      (n : ℕ) (key : Option String) (s : Window)
      → I s
      → I (record s { calls = status n key ∷ s.calls })
  pub by_quit : (s : Window) → I s → I (record s { calls = quit ∷ s.calls })
  pub by_close : (s : Window) → I s → I (record s { closed = true })
  pub by_clear :
      (s : Window) → I s → I (record s { pending_releases = []; profile = clear s.profile })

module _ (d : Desktop) {I : Window → Type 0} (k : IsClosing I) where
  stop-Keeps : Keeps I (publish_motion d stop)
  stop-Keeps = Keeps-call d.on_publish (publish stop) k.by_stop

  status-Keeps : Keeps I (update_status d)
  status-Keeps = Keeps-reads λ s _. Keeps-call d.on_status _ (k.by_status _ _)

  cancel_all-Keeps : (ids : List ℕ) → Keeps I (cancel_all d ids)
  unfolding cancel_all
  cancel_all-Keeps [] = Triple-pure (λ s p. p)
  cancel_all-Keeps (timer ∷ more) =
      Triple-bind (Keeps-call d.on_cancel (cancel timer) (k.by_cancel timer))
        (λ _. cancel_all-Keeps more)

  stop_now-Keeps : Keeps I (stop_now d)
  unfolding stop_now
  stop_now-Keeps =
      Triple-bind (Keeps-reads (λ s _. cancel_all-Keeps (timers s.pending_releases))) (λ _.
        Triple-bind (Keeps-modify _ k.by_clear) (λ _. Triple-bind stop-Keeps (λ _. status-Keeps)))

  pub on_close-Keeps : Keeps I (on_close d)
  unfolding on_close
  on_close-Keeps = Keeps-reads λ s _.
      Triple-if s.closed (λ _. Triple-pure (λ s p. p))
        (λ _. Keeps-finally stop_now-Keeps (λ e.
          Triple-bind (Keeps-modify _ k.by_close)
            (λ _. Triple-bind (Keeps-call d.on_quit quit k.by_quit) (λ _. Triple-pure (λ s p. p)))))

module _ ⦃u : Fpu⦄ (d : Desktop) {I : Window → Type 0} (k : IsKept I) where
  closing_of : IsClosing I
  closing_of = record {
    by_stop = k.by_stop;
    by_cancel = k.by_cancel;
    by_status = k.by_status;
    by_quit = k.by_quit;
    by_close = k.by_close;
    by_clear = k.by_clear;
  }

  nothing : Keeps I (pure {S = Window} tt)
  nothing = Triple-pure (λ s p. p)

  cancel_pending-Keeps : (key : String) → Keeps I (cancel_pending d key)
  unfolding cancel_pending
  cancel_pending-Keeps key = Keeps-reads λ s _. go (timer_of key s.pending_releases)
    where
      go : (o : Option ℕ) → Keeps I (cancel_timer d key o)
      go none = nothing
      go (some timer) =
          Triple-bind (Keeps-modify _ (λ s. k.by_pending (without key s.pending_releases) s))
            (λ _. Keeps-call d.on_cancel (cancel timer) (k.by_cancel timer))

  block_held-Keeps : Keeps I (block_held d)
  block_held-Keeps =
      Keeps-modify _ (λ s. k.by_blocked (update s.blocked_until_release s.profile.held_keys) s)

  pressing :
      (key : String) → Triple (λ s. I s × (s.closed ≡ false)) (on_profile (press key)) (λ _. I) I
  unfolding on_profile
  pressing key = record { holds = λ s p. k.by_press key s p.1 p.0 }

  releasing :
      (key : String) → Triple (λ s. I s × (s.closed ≡ false)) (on_profile (release key)) (λ _. I) I
  unfolding on_profile
  releasing key = record { holds = λ s p. k.by_release key s p.1 p.0 }

  -- The part of a handler that runs while the window is open.
  open-Keeps :
      {m : M Window (Unit {0})}
      → Triple (λ s. I s × (s.closed ≡ false)) m (λ _. I) I
      → Keeps I (reads λ s. if s.closed then pure tt else m)
  unfolding reads
  open-Keeps {m} h = record { holds = λ s p. go s.closed (λ o. h.holds s (p, o)) p }
    where
      go :
          (b : Bool) {s : Window}
          → (b ≡ false → Post {S = Window} (λ _. I) I (m s))
          → I s
          → Post {S = Window} (λ _. I) I ((if b then pure {S = Window} tt else m) s)
      go true f p = p
      go false f p = f refl

  on_press-Keeps : (key : String) → Keeps I (on_press d key)
  unfolding on_press
  on_press-Keeps key = Triple-bind (cancel_pending-Keeps key) λ _. Keeps-reads λ s _.
      Triple-if (contains key s.blocked_until_release) (λ _. nothing)
        (λ _. Triple-bind (Keeps-when (str_eq key "space") (λ _. block_held-Keeps)) (λ _.
          open-Keeps (
            Triple-bind (pressing key) (λ changed. Keeps-when changed (λ _.
              Triple-bind (Keeps-when (str_eq key "space") (λ _. (stop-Keeps d closing_of)))
                (λ _. (status-Keeps d closing_of)))))))

  on_release-Keeps : (key : String) → Keeps I (on_release d key)
  unfolding on_release
  on_release-Keeps key = Keeps-reads λ s _.
      Triple-if _ (λ _. nothing)
        (λ _. Triple-bind (cancel_pending-Keeps key) (λ _.
          Triple-bind (Keeps-call d.on_after (after_release key) (k.by_after_release key)) (λ timer.
            Keeps-modify _ (λ s. k.by_pending (s.pending_releases ++ (key, timer) ∷ []) s))))

  released-Keeps :
      (key : String) → Triple (λ s. I s × (s.closed ≡ false)) (release_open d key) (λ _. I) I
  released-Keeps key = Triple-bind (releasing key) (λ changed.
      Keeps-when changed
        (λ _. Triple-bind (stop-Keeps d closing_of) (λ _. (status-Keeps d closing_of))))

  finish_release-Keeps : (key : String) → Keeps I (finish_release d key)
  unfolding finish_release reads modify
  finish_release-Keeps key =
      Triple-bind (Keeps-modify _ (λ s. k.by_pending (without key s.pending_releases) s)) (λ _.
        record {
          holds = λ s p.
              go (contains key s.blocked_until_release) s.closed
                (λ o. (released-Keeps key).holds s (p, o)) p;
        })
    where
      go :
          (b c : Bool) {s : Window}
          → (c ≡ false → Post {S = Window} (λ _. I) I (release_open d key s))
          → I s
          → Post {S = Window}
              (λ _. I)
              I
              ((if b
                  then modify
                      (λ s. record s { blocked_until_release = remove key s.blocked_until_release })
                  else if c
                  then pure {S = Window} tt
                  else release_open d key)
                s)
      go true c {s} f p = k.by_blocked (remove key s.blocked_until_release) s p
      go false true f p = p
      go false false f p = f refl

  on_focus_out-Keeps : Keeps I (on_focus_out d)
  unfolding on_focus_out
  on_focus_out-Keeps = Triple-bind block_held-Keeps (λ _. (stop_now-Keeps d closing_of))

  -- What is kept while the window is open.
  abbrev Open : Window → Type 0
  Open s = I s × (s.closed ≡ false)

  Open-call :
      {A : Type 0} (reply : List Call → Reply A) (c : Call)
      → ((s : Window) → I s → I (record s { calls = c ∷ s.calls }))
      → Triple Open (call reply c) (λ _. Open) I
  Open-call reply c h =
      Triple-weaken (Keeps-call {I = Open} reply c (λ s p. (h s p.0, p.1))) (λ _ p. p) (λ _ _ p. p)
        (λ _ p. p.0)

  Open-advance : Triple Open (reads λ s. advance d (next_motion s.profile)) (λ _. I) I
  unfolding reads modify call
  Open-advance = record { holds = λ s p. go s p (next_motion s.profile) refl }
    where
      go :
          (s : Window)
          → Open s
          → (o : Option (HeldKeys × Motion)) → next_motion s.profile ≡ o
          → Post {S = Window} (λ _. I) I (advance d o s)
      go s p none e = p.0
      go s p (some (q, m)) e =
          settled I (outcome (d.on_publish (publish m ∷ s.calls))) (k.by_advance q m s p.1 e p.0)

  tick_body-Keeps : (deadline : Num) → Triple Open (tick_body d deadline) (λ _. I) I
  unfolding tick_body
  tick_body-Keeps deadline = Triple-bind (Open-call d.on_spin spin k.by_spin) λ ready.
      Triple-if (is_false ready) (λ _. Triple-raise (λ s p. p.0))
        (λ _. Triple-bind (Open-call d.on_clock clock k.by_clock) λ now.
          Triple-if (le deadline now)
            (λ _. Triple-weaken (on_close-Keeps d closing_of) (λ s p. p.0) (λ _ s p. p) (λ s p. p))
            (λ _.
              Triple-bind Open-advance (λ _.
                Triple-bind (Keeps-call d.on_after after_tick k.by_after_tick) (λ _. nothing))))

  tick-Keeps : (deadline : Num) → Keeps I (tick d deadline)
  unfolding tick
  tick-Keeps deadline = open-Keeps (
      Keeps-catch (tick_body-Keeps deadline)
        (λ e. Triple-bind (Keeps-modify _ (k.by_error e)) (λ _. (on_close-Keeps d closing_of))))

  handle-Keeps : (deadline : Num) (e : Event) → Keeps I (handle d deadline e)
  unfolding handle
  handle-Keeps deadline (pressed key) = on_press-Keeps key
  handle-Keeps deadline (released key) = on_release-Keeps key
  handle-Keeps deadline (release_timer key) = finish_release-Keeps key
  handle-Keeps deadline focus_out = on_focus_out-Keeps
  handle-Keeps deadline closing = (on_close-Keeps d closing_of)
  handle-Keeps deadline tick_timer = tick-Keeps deadline

  -- No sequence of events breaks a claim that the small steps keep.
  pub handle_all-keeps :
      (deadline : Num) (events : List Event) (s : Window) → I s → I (handle_all d deadline events s)
  unfolding handle_all
  handle_all-keeps deadline [] s p = p
  handle_all-keeps deadline (e ∷ events) s p =
      handle_all-keeps deadline events (handle d deadline e s).1
        (Post-same I (handle d deadline e s) ((handle-Keeps deadline e).holds s p))
