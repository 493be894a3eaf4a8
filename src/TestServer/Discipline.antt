-- ===== src/TestServer/Discipline.antt =====
-- The order of the server's calls: which workers are live, which signals were sent, and the claims
-- about the server's state that follow both.
pub mod Steps
pub mod Watch
pub mod Serve
use mathlib.Core.Path.{subst}
use lekiwi.Prelude.{
  ◌≡◌, ◌≢◌, refl, sym, ap, ◌∙◌, ◌⊎◌, inl, inr, ℕ, zero, suc, Bool, true, false, not, ◌||◌, Option,
  none, some, String, str_eq, List, [], ◌∷◌, if◌then◌else◌,
}
use lekiwi.Float.{Num}
use lekiwi.Float.Fpu.{Fpu}
use lekiwi.Effect.{Exn, M, pure, Reply, answer, failure, outcome, Kind, when}
use lekiwi.Effect.State.{
  Keeps, settled, Keeps-reads, Keeps-modify, Keeps-when, Keeps-request, Keeps-pure,
  Keeps-catch_kind, modify, reads, request,
}
use lekiwi.Effect.Triple.{
  Post, Triple, Triple-bind, Triple-pure, Triple-raise, Triple-if, Triple-weaken,
}
use lekiwi.TestServer.Report.{Json}
use lekiwi.TestServer.{
  ExitCode, Signal, sigint, sigterm, sigkill, Job, Call, spawn, poll_process, signal, write_status,
  replace_status, read_file, World, Server, created, call, read_clock, with_job, on_active, update,
  put, need, persist, signal_worker, check_report, read_report,
}

-- What matters of a call here.
pub data Role : Type 0 where
  starts asks other : Role
  sends : Signal → Role

abbrev pub role : Call → Role
role (spawn _) = starts
role poll_process = asks
role (signal sig) = sends sig
role _ = other

abbrev pub started : Reply ℕ → Bool → Bool
started (answer _) b = true
started (failure _) b = b

abbrev pub still_live : Reply (Option ExitCode) → Bool → Bool
still_live (answer (some _)) b = false
still_live _ b = b

abbrev live_after : World → Role → List Call → Bool → Bool
live_after w starts h b = started (w.on_spawn h) b
live_after w asks h b = still_live (w.on_poll h) b
live_after w _ h b = b

-- The worker that was started last has not been seen to have ended.
unfoldable pub live : World → List Call → Bool
live w [] = false
live w (c ∷ h) = live_after w (role c) (c ∷ h) (live w h)

abbrev is_signal : Signal → Signal → Bool
is_signal sigint sigint = true
is_signal sigterm sigterm = true
is_signal sigkill sigkill = true
is_signal _ _ = false

abbrev sent_after : Signal → Role → Bool → Bool
sent_after sig starts b = false
sent_after sig (sends s) b = is_signal s sig || b
sent_after sig _ b = b

-- The signal was sent since a worker was started last.
unfoldable pub sent : Signal → List Call → Bool
sent sig [] = false
sent sig (c ∷ h) = sent_after sig (role c) (sent sig h)

abbrev InTurn : World → Role → List Call → Type 0
InTurn w starts h = live w h ≡ false
InTurn w (sends sigterm) h = (sent sigint h ≡ true) ⊎ (live w h ≡ false)
InTurn w (sends sigkill) h = sent sigterm h ≡ true
InTurn w _ h = Unit

-- A worker is started when no other is live; SIGTERM is for a worker that was sent SIGINT or has ended;
-- SIGKILL is for a worker that was sent SIGTERM.
abbrev pub IsOrderly : World → List Call → Type 0
IsOrderly w [] = Unit
IsOrderly w (c ∷ h) = InTurn w (role c) h × IsOrderly w h

module _ (w : World) where
  -- While a job is active, its timers are set when the signal before has been sent.
  abbrev pub Timed : Server → Type 0
  Timed s =
      (s.cancel_deadline ≢ none → sent sigint s.calls ≡ true)
      × (s.kill_deadline ≢ none → sent sigterm s.calls ≡ true)

  abbrev pub IsWatched : Server → Type 0
  IsWatched s = IsOrderly w s.calls × (s.active ≢ none) × Timed s

  -- The worker of the active job is known to have ended.
  abbrev pub IsEnded : Server → Type 0
  IsEnded s = IsWatched s × (live w s.calls ≡ false)

  -- No job is active, and no worker.
  abbrev pub IsReady : Server → Type 0
  IsReady s = IsOrderly w s.calls × (s.active ≡ none) × (live w s.calls ≡ false)

  -- Between requests
  abbrev pub IsSettled : Server → Type 0
  IsSettled s =
      IsOrderly w s.calls × (s.active ≡ none → live w s.calls ≡ false) × (s.active ≢ none → Timed s)

abbrev pub noted : Call → Server → Server
noted c s = record s { calls = c ∷ s.calls }

-- What no call of another role breaks.
pub record IsQuiet (P : Server → Type 0) : Type 0 where
  pub by_call : (c : Call) → role c ≡ other → (s : Server) → P s → P (noted c s)

module _ (w : World) (c : Call) (e : role c ≡ other) (h : List Call) where
  pub live-other : live w (c ∷ h) ≡ live w h
  unfolding live
  live-other = ap (λ r. live_after w r (c ∷ h) (live w h)) e

  sent-other : (sig : Signal) → sent sig (c ∷ h) ≡ sent sig h
  unfolding sent
  sent-other sig = ap (λ r. sent_after sig r (sent sig h)) e

  pub IsOrderly-other : IsOrderly w h → IsOrderly w (c ∷ h)
  IsOrderly-other o = (subst (λ r. InTurn w r h) (sym e) tt, o)

  pub Timed-other : (s : Server) → s.calls ≡ h → Timed w s → Timed w (record s { calls = c ∷ h })
  Timed-other s q t = (
    λ n. sent-other sigint ∙ (ap (sent sigint) (sym q) ∙ t.0 n),
    λ n. sent-other sigterm ∙ (ap (sent sigterm) (sym q) ∙ t.1 n),
  )

module _ (w : World) where
  pub IsWatched-IsQuiet : IsQuiet (IsWatched w)
  IsWatched-IsQuiet = record {
    by_call =
        λ c e s p. (IsOrderly-other w c e s.calls p.0, p.1, Timed-other w c e s.calls s refl p.2);
  }

  pub IsEnded-IsQuiet : IsQuiet (IsEnded w)
  IsEnded-IsQuiet = record {
    by_call = λ c e s p. (IsWatched-IsQuiet.by_call c e s p.0, live-other w c e s.calls ∙ p.1);
  }

  pub IsReady-IsQuiet : IsQuiet (IsReady w)
  IsReady-IsQuiet = record {
    by_call = λ c e s p. (IsOrderly-other w c e s.calls p.0, p.1, live-other w c e s.calls ∙ p.2);
  }

pub on_active-Triple :
    {A : Type 0} {f : Job → M Server A} {P E : Server → Type 0} {Q : A → Server → Type 0}
    → ((s : Server) → P s → E s)
    → ((job : Job) → Triple P (f job) Q E)
    → Triple P (on_active f) Q E
unfolding on_active reads
on_active-Triple {f} {P} {E} {Q} none_ h = record { holds = λ s p. go s.active p }
  where
    go : (o : Option Job) {s : Server} → P s → Post Q E (with_job f o s)
    go none {s} p = none_ s p
    go (some job) {s} p = (h job).holds s p

-- The calls of another role, and those made of them.
module _ {P : Server → Type 0} (k : IsQuiet P) where
  pub call-Keeps :
      {A : Type 0} (reply : List Call → Reply A) (c : Call)
      → role c ≡ other
      → Keeps P (call reply c)
  unfolding call
  call-Keeps reply c e = Keeps-request (λ s. reply s.calls) (noted c) (k.by_call c e)

  pub clock-Keeps :
      (clock : List Call → Num) (c : Call) → role c ≡ other → Keeps P (read_clock clock c)
  unfolding read_clock
  clock-Keeps clock c e = call-Keeps (λ h. answer (clock h)) c e

  pub need-Keeps : (b : Bool) → Keeps P (need b)
  need-Keeps true = Keeps-pure
  need-Keeps false = Triple-raise (λ s p. p)

  pub on_active-Keeps :
      {A : Type 0} {f : Job → M Server A} → ((job : Job) → Keeps P (f job)) → Keeps P (on_active f)
  on_active-Keeps h = on_active-Triple (λ s p. p) h

  module _ (w : World) where
    pub persist-Keeps : (job : Job) → Keeps P (persist w job)
    unfolding persist
    persist-Keeps job =
        Triple-bind (call-Keeps w.on_write (write_status job) refl)
          (λ _. call-Keeps w.on_write (replace_status job.directory) refl)

    check-Keeps : (report : Json) → Keeps P (check_report w report)
    check-Keeps report = Triple-if _ (λ _. Keeps-pure) (λ _. Triple-raise (λ s p. p))

    pub read-Keeps : (path : String) → Keeps P (read_report w path)
    unfolding read_report
    read-Keeps path = Triple-bind (call-Keeps w.on_read (read_file path) refl) check-Keeps
