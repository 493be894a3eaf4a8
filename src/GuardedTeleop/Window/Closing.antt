-- ===== src/GuardedTeleop/Window/Closing.antt =====
-- A failing tick closes the window, and losing the focus blocks the held keys.
use mathlib.Core.Path.{subst, sym, ap, ◌∙◌}
use lekiwi.Prelude.{
  ℕ, Bool, true, false, Option, none, some, ◌≡◌, ◌≢◌, refl, List, [], ◌∷◌, if◌then◌else◌,
}
use lekiwi.Float.{Num}
use lekiwi.Float.Fpu.{Fpu}
use lekiwi.Effect.{
  Exn, Outcome, value, raised, running, M, pure, ◌>>=◌, ◌>>◌, finally_with, catch, bind-value,
  runtime_error, Reply, outcome, answer, failure,
}
use lekiwi.Effect.Ends.{Ends}
use lekiwi.Effect.Triple.{Post-same}
use lekiwi.GuardedTeleop.Window.Keeps.{IsClosing, on_close-Keeps}
use lekiwi.Effect.State.{modify, reads}
use lekiwi.MotorSession.{stop}
use lekiwi.GuardedTeleop.Window.{Call, publish, cancel, quit, spin, Desktop, Window, timers, call}
use lekiwi.GuardedTeleop.Window.Handlers.{
  cancel_all, stop_now, on_close, after_spin, tick_body, tick,
}

-- The steps of `stop_now` return or raise.
Ends-bind :
    {A B : Type 0} {m : M Window A} {f : A → M Window B}
    → ((s : Window) → Ends m s)
    → ((a : A) (s : Window) → Ends (f a) s)
    → (s : Window) → Ends (m >>= f) s
Ends-bind {A} {B} {m} {f} h k s = record { ends = go (m s) (h s).ends }
  where
    go : (r : Outcome A × Window) → r.0 ≢ running → (◌>>=◌ (λ (_ : Window). r) f s).0 ≢ running
    go (value a, t) n = (k a t).ends
    go (raised e, t) n = λ r. cc r
    go (running, t) n = λ _. n refl

Ends-call :
    {A : Type 0} (reply : List Call → Reply A) (c : Call) (s : Window) → Ends (call reply c) s
unfolding call
Ends-call {A} reply c s = record { ends = go (reply (c ∷ s.calls)) }
  where
    go : (r : Reply A) → outcome r ≢ running
    go (answer a) = λ r. cc r
    go (failure e) = λ r. cc r

Ends-modify : (f : Window → Window) (s : Window) → Ends (modify f) s
unfolding modify
Ends-modify f s = record { ends = λ r. cc r }

Ends-reads :
    {A : Type 0} {f : Window → M Window A}
    → ((t s : Window) → Ends (f t) s)
    → (s : Window) → Ends (reads f) s
unfolding reads
Ends-reads h s = record { ends = (h s s).ends }

module _ (d : Desktop) where
  cancel_all-Ends : (ids : List ℕ) (s : Window) → Ends (cancel_all d ids) s
  unfolding cancel_all
  cancel_all-Ends [] s = record { ends = λ r. cc r }
  cancel_all-Ends (timer ∷ more) s =
      Ends-bind (Ends-call d.on_cancel (cancel timer)) (λ _. cancel_all-Ends more) s

  stop_now-Ends : (s : Window) → Ends (stop_now d) s
  unfolding stop_now
  stop_now-Ends = Ends-bind (Ends-reads (λ t. cancel_all-Ends (timers t.pending_releases))) (λ _.
      Ends-bind (Ends-modify _) (λ _.
        Ends-bind (Ends-call d.on_publish (publish stop))
          (λ _. Ends-reads (λ _. Ends-call d.on_status _))))

  -- What `on_close` does in the end.
  abbrev shut : Option Exn → M Window (Option Exn)
  shut e = do modify (λ s. record s { closed = true }); call d.on_quit quit; pure e

  shut-closes : (e : Option Exn) (s : Window) → (shut e s).1.closed ≡ true
  unfolding modify call
  shut-closes e s =
      elim (d.on_quit (quit ∷ s.calls))
        as (λ r.
          ((modify (λ s. record s { closed = true }) >>= λ _. call (λ _. r) quit >>= λ _. pure e)
            s).1.closed
          ≡ true) [ answer _ ↦ refl | failure _ ↦ refl ]

  -- Whatever fails while it stops the base, `on_close` leaves a closed window.
  pub on_close-closes : (s : Window) → (on_close d s).1.closed ≡ true
  unfolding on_close reads finally_with
  on_close-closes s = fork s.closed refl
    where
      go :
          (r : Outcome (Unit {0}) × Window)
          → r.0 ≢ running
          → (finally_with (λ (_ : Window). r) shut s).1.closed ≡ true
      go (value a, t) n = shut-closes none t
      go (raised e, t) n = shut-closes (some e) t
      go (running, t) n = absurd (n refl)

      fork :
          (b : Bool)
          → s.closed ≡ b
          → ((if b then pure tt else finally_with (stop_now d) shut) s).1.closed ≡ true
      fork true o = o
      fork false o = go (stop_now d s) (stop_now-Ends s).ends

module _ ⦃u : Fpu⦄ (d : Desktop) where
  -- Closing leaves the recorded error as it is.
  IsRecorded-IsClosing : (o : Option Exn) → IsClosing (λ s. s.error ≡ o)
  IsRecorded-IsClosing o = record {
    by_stop = λ s p. p;
    by_cancel = λ timer s p. p;
    by_status = λ n key s p. p;
    by_quit = λ s p. p;
    by_close = λ s p. p;
    by_clear = λ s p. p;
  }

  failing :
      (deadline : Num) (s : Window) {e : Exn} {t : Window}
      → s.closed ≡ false
      → tick_body d deadline s ≡ (raised e, t)
      → tick d deadline s ≡ on_close d (record t { error = some e })
  unfolding tick reads modify
  failing deadline s {e} {t} o f =
      let handler : Exn → M Window (Unit {0}) =
        λ e. modify (λ s. record s { error = some e }) >> on_close d in
      ap (λ b. (if b then pure tt else catch (tick_body d deadline) handler) s) o
      ∙ ap (λ r. catch (λ (_ : Window). r) handler s) f

  -- If a tick of an open window fails, because the readiness was lost or because a call raised, then the
  -- tick leaves the window closed with this error recorded, whatever else fails meanwhile.
  pub tick_fails_closed :
      (deadline : Num) (s : Window) {e : Exn} {t : Window}
      → s.closed ≡ false
      → tick_body d deadline s ≡ (raised e, t)
      → let r = (tick d deadline s).1 in (r.closed ≡ true) × (r.error ≡ some e)
  tick_fails_closed deadline s {e} {t} o f =
      let failed : Window = record t { error = some e } in
      subst (λ r. (r.1.closed ≡ true) × (r.1.error ≡ some e)) (sym (failing deadline s o f))
        (
          on_close-closes d failed,
          Post-same (λ s. s.error ≡ some e) (on_close d failed)
              ((on_close-Keeps d (IsRecorded-IsClosing (some e))).holds failed refl),
        )

  -- A tick that finds the readiness lost is such a failing tick: it sends no motion of its own.
  pub unready_fails :
      (deadline : Num) (s : Window)
      → d.on_spin (spin ∷ s.calls) ≡ answer (some false)
      → tick_body d deadline s ≡ (
        raised (runtime_error "/motor_ready became false during teleop"),
        record s { calls = spin ∷ s.calls },
      )
  unfolding tick_body call
  unready_fails deadline s e =
      bind-value (call d.on_spin spin) (after_spin d deadline) {s = s}
        (ap (λ (r : Reply (Option Bool)). (outcome r, record s { calls = spin ∷ s.calls })) e)
