-- ===== src/GuardedTeleop/Window/Handlers.antt =====
-- The event handlers of `HoldTeleopWindow`, and the tick.
use lekiwi.Prelude.{
  ℕ, Bool, true, not, ◌&&◌, ◌||◌, Option, none, some, String, str_eq, List, [], ◌∷◌, ◌++◌,
  if◌then◌else◌,
}
use lekiwi.Float.{Num, le}
use lekiwi.Float.Fpu.{Fpu}
use lekiwi.Effect.{M, pure, raise, ◌>>=◌, ◌>>◌, when, finally_with, catch, runtime_error}
use lekiwi.Effect.State.{modify, reads}
use lekiwi.MotorSession.{Motion, stop}
use lekiwi.GuardedTeleop.HeldKeys.{
  HeldKeys, is_direction, contains, remove, active_key, clear, press, release, next_motion,
}
use lekiwi.GuardedTeleop.Window.{
  publish, cancel, after_release, after_tick, status, quit, spin, clock, Desktop, Window, update,
  timer_of, without, timers, call, on_profile, is_false, key_error,
}

module _ (d : Desktop) where
  abbrev pub publish_motion : Motion → M Window (Unit {0})
  publish_motion m = call d.on_publish (publish m)

  -- `update_status`
  abbrev pub update_status : M Window (Unit {0})
  update_status = reads λ s. call d.on_status (status s.profile.speed_stage (active_key s.profile))

  -- `if key in self.pending_releases: self.root.after_cancel(self.pending_releases.pop(key))`
  abbrev pub cancel_timer : String → Option ℕ → M Window (Unit {0})
  cancel_timer key none = pure tt
  cancel_timer key (some timer) = do
    modify (λ s. record s { pending_releases = without key s.pending_releases })
    call d.on_cancel (cancel timer)

  unfoldable pub cancel_pending : String → M Window (Unit {0})
  cancel_pending key = reads λ s. cancel_timer key (timer_of key s.pending_releases)

  -- `self.blocked_until_release.update(self.profile.held_keys)`
  abbrev pub block_held : M Window (Unit {0})
  block_held =
      modify (λ s. record s {
        blocked_until_release = update s.blocked_until_release s.profile.held_keys;
      })

  abbrev pub press_open : String → M Window (Unit {0})
  press_open key = do
    changed ← on_profile (press key)
    when changed (do when (str_eq key "space") (publish_motion stop); update_status)

  unfoldable pub on_press : String → M Window (Unit {0})
  on_press key = do
    cancel_pending key
    reads λ s. if contains key s.blocked_until_release then pure tt else do
      when (str_eq key "space") block_held
      reads λ s. if s.closed then pure tt else press_open key

  unfoldable pub on_release : String → M Window (Unit {0})
  on_release key = reads λ s.
      if s.closed || (not (is_direction key) && not (contains key s.blocked_until_release))
      then pure tt
      else do
        cancel_pending key
        timer ← call d.on_after (after_release key)
        modify (λ s. record s { pending_releases = s.pending_releases ++ (key, timer) ∷ [] })

  abbrev pub release_open : String → M Window (Unit {0})
  release_open key = do
    changed ← on_profile (release key)
    when changed (do publish_motion stop; update_status)

  unfoldable pub finish_release : String → M Window (Unit {0})
  finish_release key = do
    modify (λ s. record s { pending_releases = without key s.pending_releases })
    reads λ s.
        if contains key s.blocked_until_release
        then modify (λ s. record s { blocked_until_release = remove key s.blocked_until_release })
        else if s.closed
        then pure tt
        else release_open key

  unfoldable pub cancel_all : List ℕ → M Window (Unit {0})
  cancel_all [] = pure tt
  cancel_all (timer ∷ more) = do call d.on_cancel (cancel timer); cancel_all more

  unfoldable pub stop_now : M Window (Unit {0})
  stop_now = do
    reads λ s. cancel_all (timers s.pending_releases)
    modify (λ s. record s { pending_releases = []; profile = clear s.profile })
    publish_motion stop
    update_status

  unfoldable pub on_focus_out : M Window (Unit {0})
  on_focus_out = do block_held; stop_now

  unfoldable pub on_close : M Window (Unit {0})
  on_close = reads λ s.
      if s.closed
      then pure tt
      else finally_with stop_now
          (λ e. do modify (λ s. record s { closed = true }); call d.on_quit quit; pure e)

  module _ ⦃u : Fpu⦄ where
    -- `self.endpoint.publish_motion(self.profile.next_motion())`
    abbrev pub advance : Option (HeldKeys × Motion) → M Window (Unit {0})
    advance none = raise key_error
    advance (some (p, m)) = do modify (λ s. record s { profile = p }); publish_motion m

    -- `tick` from the test of `motor_ready` on, inside its `try`
    abbrev pub after_spin : Num → Option Bool → M Window (Unit {0})
    after_spin deadline ready =
        if is_false ready
        then raise (runtime_error "/motor_ready became false during teleop")
        else do
          now ← call d.on_clock clock
          if le deadline now then on_close else do
            reads λ s. advance (next_motion s.profile)
            call d.on_after after_tick
            pure tt

    unfoldable pub tick_body : Num → M Window (Unit {0})
    tick_body deadline = do ready ← call d.on_spin spin; after_spin deadline ready

    unfoldable pub tick : Num → M Window (Unit {0})
    tick deadline = reads λ s.
        if s.closed
        then pure tt
        else catch (tick_body deadline)
            (λ e. do modify (λ s. record s { error = some e }); on_close)

-- An event of the window.
pub data Event : Type 0 where
  pressed released release_timer : String → Event
  focus_out closing tick_timer : Event

unfoldable pub handle : ⦃u : Fpu⦄ → Desktop → Num → Event → M Window (Unit {0})
handle d deadline (pressed key) = on_press d key
handle d deadline (released key) = on_release d key
handle d deadline (release_timer key) = finish_release d key
handle d deadline focus_out = on_focus_out d
handle d deadline closing = on_close d
handle d deadline tick_timer = tick d deadline

-- Events in order. An exception that leaves a handler is reported by the window system, and the next
-- event is handled all the same.
unfoldable pub handle_all : ⦃u : Fpu⦄ → Desktop → Num → List Event → Window → Window
handle_all d deadline [] s = s
handle_all d deadline (e ∷ events) s = handle_all d deadline events (handle d deadline e s).1
