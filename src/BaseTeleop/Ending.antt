-- ===== src/BaseTeleop/Ending.antt =====
-- However the teleop ends, the last motion that it publishes is a stop.
use mathlib.Core.Path.{subst, sym}
use lekiwi.Prelude.{
  ◌≡◌, ◌≢◌, refl, ℕ, zero, suc, Bool, true, false, Option, none, some, String, List, [], ◌∷◌, ◌⊎◌,
  inl, inr,
}
use lekiwi.Float.Fpu.{Fpu}
use lekiwi.Effect.{Exn, M, Reply, running, is_keyboard_interrupt, when, repeat}
use lekiwi.Effect.State.{
  Keeps, Keeps-reads, Keeps-modify, Keeps-pure, Keeps-request, Keeps-finally, Triple-modify,
  Triple-catch,
}
use lekiwi.Effect.Triple.{
  Triple, Triple-bind, Triple-pure, Triple-raise, Triple-if, Triple-weaken, Triple-out_of_fuel,
  Triple-repeat, Post-same,
}
use lekiwi.Effect.Sure.{
  Sure, Sure-pure, Sure-bind, Sure-repeat, Sure-reads, Sure-request, Sure-weaken, finally-ends,
}
use lekiwi.MotorSession.{stop}
use lekiwi.BaseTeleop.{Mapper, Effect, exits, adjusts, publishes, ignores, refuses, publish_for_key}
use lekiwi.BaseTeleop.Main.{
  Call, create_node, set_raw, restore_terminal, is_ok, spin, read_key, publish, sleep, log,
  destroy_node, shutdown, World, State, sleep_sec, noted, set_mapper, is_some, call, stop_once,
  publish_stop, perform, press_with, take_key, turn, drive, drive_raw, attempt_drive, release_node,
  finish, main, at_start,
}

abbrev is_motion : Call → Bool
is_motion (publish m) = true
is_motion _ = false

-- Nothing was published yet, or the latest motion published is a stop.
pub data IsStill : List Call → Type 0 where
  still_start : IsStill []
  still_now : {h : List Call} → IsStill (publish stop ∷ h)
  still_more : (c : Call) {h : List Call} → is_motion c ≡ false → IsStill h → IsStill (c ∷ h)

abbrev Still : State → Type 0
Still s = IsStill s.calls

abbrev HasMapper : State → Type 0
HasMapper s = is_some s.mapper ≡ true

abbrev Owned : State → Type 0
Owned s = HasMapper s ⊎ Still s

module _ (w : World) where
  call-Keeps :
      {A : Type 0} (reply : List Call → Reply A) (c : Call) → Keeps HasMapper (call w reply c)
  unfolding call
  call-Keeps reply c = Keeps-request (λ s. reply s.calls) (noted c) (λ s p. p)

  stop-Keeps : Keeps HasMapper (publish_stop w)
  unfolding publish_stop
  stop-Keeps = Triple-repeat 3 (
      Triple-bind (call-Keeps w.on_publish (publish stop))
        λ _. call-Keeps w.on_sleep (sleep sleep_sec))

  perform-Keeps : (e : Effect) → Keeps HasMapper (perform w e)
  unfolding perform
  perform-Keeps exits = Triple-bind stop-Keeps (λ _. Keeps-pure)
  perform-Keeps (adjusts m) =
      Triple-bind (Keeps-modify (set_mapper m) (λ s p. refl))
        λ _. Triple-bind (call-Keeps w.on_log log) (λ _. Keeps-pure)
  perform-Keeps (publishes motion) =
      Triple-bind (call-Keeps w.on_publish (publish motion)) (λ _. Keeps-pure)
  perform-Keeps ignores = Keeps-pure
  perform-Keeps refuses = Triple-raise (λ s p. p)

  module _ ⦃u : Fpu⦄ where
    press_with-Keeps : (key : String) (m : Option Mapper) → Keeps HasMapper (press_with w key m)
    press_with-Keeps key none = Keeps-pure
    press_with-Keeps key (some m) = perform-Keeps (publish_for_key m key)

    take_key-Keeps : (key : Option String) → Keeps HasMapper (take_key w key)
    take_key-Keeps none = Keeps-pure
    take_key-Keeps (some key) = Keeps-reads (λ s _. press_with-Keeps key s.mapper)

    turn-Keeps :
        (more : M State (Unit {0})) (ok : Bool)
        → Keeps HasMapper more
        → Keeps HasMapper (turn w more ok)
    turn-Keeps more ok h =
        Triple-if ok
          (λ _. Triple-bind (call-Keeps w.on_spin spin) λ _.
            Triple-bind (call-Keeps w.on_read_key read_key) λ key.
              Triple-bind (take_key-Keeps key) λ go_on. Triple-if go_on (λ _. h) (λ _. Keeps-pure))
          (λ _. Keeps-pure)

    drive-Keeps : (fuel : ℕ) → Keeps HasMapper (drive w fuel)
    unfolding drive
    drive-Keeps zero = Triple-out_of_fuel (λ s p. p)
    drive-Keeps (suc fuel) =
        Triple-bind (call-Keeps w.on_ok is_ok) λ ok. turn-Keeps (drive w fuel) ok (drive-Keeps fuel)

    drive_raw-Keeps : (fuel : ℕ) → Keeps HasMapper (drive_raw w fuel)
    drive_raw-Keeps fuel = Triple-bind (call-Keeps w.on_terminal set_raw) λ _.
        Keeps-finally (drive-Keeps fuel)
          (λ e. Triple-bind (call-Keeps w.on_terminal restore_terminal) (λ _. Keeps-pure))

    owning :
        {A : Type 0} {m : M State A} → Keeps HasMapper m → Triple HasMapper m (λ _. Owned) Owned
    owning h = Triple-weaken h (λ s p. p) (λ a s p. inl p) (λ s p. inl p)

    create-Owned : Triple Still (call w w.on_create create_node) (λ _. Still) Owned
    unfolding call
    create-Owned =
        Triple-weaken
          (Keeps-request (λ s. w.on_create s.calls) (noted create_node)
            (λ s p. still_more create_node refl p))
          (λ s p. p) (λ a s p. p) (λ s p. inr p)

    attempt-Owned : (fuel : ℕ) → Triple Still (attempt_drive w fuel) (λ _. Owned) Owned
    unfolding attempt_drive
    attempt-Owned fuel =
        Triple-catch {I = Owned}
          (Triple-bind create-Owned λ m.
            Triple-bind {Q = λ _. HasMapper} (Triple-modify (set_mapper m) (λ s p. refl))
              λ _. owning (drive_raw-Keeps fuel))
          (λ e.
            Triple-if (is_keyboard_interrupt e.kind) (λ _. Triple-pure (λ s p. p))
              (λ _. Triple-raise (λ s p. p)))
          (λ s p. p)

  call-Sure :
      {A : Type 0} (reply : List Call → Reply A) (c : Call)
      → is_motion c ≡ false
      → Sure Still (call w reply c) Still
  unfolding call
  call-Sure reply c e = Sure-request (λ s. reply s.calls) (noted c) (λ s p. still_more c e p)

  -- Whatever was published before, a stop leaves the base still.
  once-Sure : {P : State → Type 0} → Sure P (stop_once w) Still
  unfolding call
  once-Sure =
      Sure-bind (Sure-request (λ s. w.on_publish s.calls) (noted (publish stop)) (λ s p. still_now))
        (λ _. call-Sure w.on_sleep (sleep sleep_sec) refl) (λ s p. p)

  stop-Sure : {P : State → Type 0} → Sure P (publish_stop w) Still
  unfolding publish_stop repeat
  stop-Sure = Sure-bind once-Sure (λ _. Sure-repeat 2 once-Sure) (λ s p. p)

  when-Sure : (b : Bool) → Sure (λ s. (b ≡ true) ⊎ Still s) (when b (release_node w)) Still
  when-Sure true = Sure-bind stop-Sure (λ _. call-Sure w.on_end destroy_node refl) (λ s p. p)
  when-Sure false = Sure-pure (λ s p. elim p [ inl e ↦ cc e | inr still ↦ still ])

  finish-Sure : (e : Option Exn) → Sure Owned (finish w e) Still
  finish-Sure e =
      Sure-bind
        (Sure-reads λ s p.
          Sure-weaken
            (Sure-bind (when-Sure (is_some s.mapper)) (λ _. call-Sure w.on_end shutdown refl)
              (λ s p. p))
            (λ t q. subst (λ t. (is_some s.mapper ≡ true) ⊎ Still t) (sym q) p) (λ t q. q))
        (λ _. Sure-pure (λ s p. p)) (λ s p. p)

  module _ ⦃u : Fpu⦄ where
    -- If the `try` block of `main` ends, by a key, by an interrupt or by any other exception, then `main`
    -- ends, and the last motion published, if there is any, is a stop: also when a stop command of the cleanup raises.
    pub main-IsStill :
        (fuel : ℕ)
        → (attempt_drive w fuel at_start).0 ≢ running
        → ((main w fuel at_start).0 ≢ running) × IsStill (main w fuel at_start).1.calls
    unfolding main
    main-IsStill fuel ends =
        finally-ends (attempt_drive w fuel) (finish w) at_start
          (
            ends,
            Post-same Owned (attempt_drive w fuel at_start)
                ((attempt-Owned fuel).holds at_start still_start),
          )
          finish-Sure
