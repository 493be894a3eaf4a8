-- ===== src/TestServer/Discipline/Steps.antt =====
-- The steps of `poll`, and what they keep of any claim: changes of the active job, signals and reports.
use mathlib.Core.Path.{subst}
use lekiwi.Prelude.{str_eq, ◌≡◌, ◌≢◌, refl, sym, Bool, true, false, Option, none, some}
use lekiwi.Effect.{Exn, pure, catch_kind, is_process_lookup, is_os_or_value}
use lekiwi.Effect.State.{
  Keeps, Keeps-when, Keeps-pure, Keeps-catch, Keeps-catch_kind, Triple-reads, Triple-request,
  modify, reads,
}
use lekiwi.Effect.Triple.{
  Post, Triple, Triple-bind, Triple-pure, Triple-raise, Triple-if, Triple-weaken,
}
use lekiwi.TestServer.Report.{Json}
use lekiwi.TestServer.{
  Signal, Job, write_report, signal, World, Server, call, on_active, update, put, need, with_job,
  signal_worker,
}
use lekiwi.TestServer.Poll.{
  note_progress, take_progress, refresh, set_report, take_report, replace_report, final_report,
}
use lekiwi.TestServer.Discipline.{
  noted, IsQuiet, call-Keeps, on_active-Keeps, persist-Keeps, read-Keeps,
}

pub some≢none : {A : Type 0} {a : A} → some a ≢ none
some≢none e = cc e

-- What a change of the active job's dictionary does not break.
module _ {P Q : Server → Type 0} (f : Job → Job)
    (k : (job : Job) (s : Server) → s.active ≡ some job → P s → Q (put (f job) s)) where
  pub update-Triple : Triple P (update f) (λ _. Q) P
  unfolding update on_active reads modify
  update-Triple = record { holds = λ s p. go s p s.active refl }
    where
      go :
          (s : Server)
          → P s
          → (o : Option Job) → s.active ≡ o
          → Post {S = Server} (λ _. Q) P (with_job (λ job. modify (put (f job))) o s)
      go s p none e = p
      go s p (some job) e = k job s e p

pub update-Keeps :
    {P : Server → Type 0} (f : Job → Job)
    → ((job : Job) (s : Server) → s.active ≡ some job → P s → P (put (f job) s))
    → Keeps P (update f)
update-Keeps f k = update-Triple f k

-- A change that leaves the job's state and its exit code.
abbrev pub IsMinor : (Job → Job) → Type 0
IsMinor f = (job : Job) → ((f job).state ≡ job.state) × ((f job).exit_code ≡ job.exit_code)

-- A signal that may be sent.
pub signal-Triple :
    (w : World) (sig : Signal) {P Q E : Server → Type 0}
    → ((s : Server) → P s → Q (noted (signal sig) s))
    → ((s : Server) → P s → E s)
    → ((s : Server) → Q s → E s)
    → Triple P (signal_worker w sig) (λ _. Q) E
unfolding signal_worker call
signal-Triple w sig {P} {Q} {E} step unsent after =
    Triple-bind {Q = λ _. P} (Triple-reads (λ s p. needed s.has_process s p)) (λ _. sending)
  where
    needed : (b : Bool) (s : Server) → P s → Triple (λ t. t ≡ s) (need b) (λ _. P) E
    needed true s p = Triple-pure (λ t e. subst P (sym e) p)
    needed false s p = Triple-raise (λ t e. subst E (sym e) (unsent s p))

    noting : Triple P (call w.on_signal (signal sig)) (λ _. Q) Q
    noting = Triple-request (λ s. w.on_signal s.calls) (noted (signal sig)) step

    sending :
        Triple P
          (catch_kind is_process_lookup (call w.on_signal (signal sig)) (λ _. pure tt))
          (λ _. Q)
          E
    sending =
        Triple-weaken {P = P} {Q = λ _. Q} {E = Q}
          (Keeps-catch {I = Q} noting (λ e.
            Triple-if (is_process_lookup e.kind) (λ _. Keeps-pure) (λ _. Triple-raise (λ s p. p))))
          (λ s p. p) (λ _ s q. q) after

-- The parts of `poll` that send no signal.
module _ (w : World) {P : Server → Type 0} (q : IsQuiet P)
    (k : (f : Job → Job)
      → IsMinor f
      → (job : Job) (s : Server) → s.active ≡ some job
      → P s
      → P (put (f job) s)) where
  -- The dictionary's result or the report's error changes.
  pub minor-Keeps : (f : Job → Job) → IsMinor f → Keeps P (update f)
  minor-Keeps f h = update-Keeps f (k f h)

  note-Keeps : (report : Json) → Keeps P (note_progress w report)
  note-Keeps report = on_active-Keeps q λ job.
      Triple-if (w.same job.result report) (λ _. Keeps-pure)
        (λ _.
          Triple-bind
            (minor-Keeps (λ job. record job { result = some report }) (λ job. (refl, refl)))
            (λ _. on_active-Keeps q (persist-Keeps q w)))

  take-Keeps : Keeps P (take_progress w)
  take-Keeps = on_active-Keeps q λ job. Triple-bind (read-Keeps q w job.report_path) note-Keeps

  pub refresh-Keeps : Keeps P (refresh w)
  unfolding refresh
  refresh-Keeps = on_active-Keeps q λ job.
      Keeps-when (str_eq job.feature "all")
        (λ _. Keeps-catch_kind is_os_or_value take-Keeps (λ _. Keeps-pure))

  set-Keeps : (report : Json) → Keeps P (set_report w report)
  set-Keeps report = Triple-bind (minor-Keeps _ (λ job. (refl, refl))) (λ _. Keeps-pure)

  take_report-Keeps : Keeps P (take_report w)
  take_report-Keeps =
      on_active-Keeps q λ job. Triple-bind (read-Keeps q w job.report_path) set-Keeps

  replace-Keeps : (e : Exn) → Keeps P (replace_report w e)
  replace-Keeps e = Triple-bind (minor-Keeps _ (λ job. (refl, refl))) (λ _. on_active-Keeps q λ job.
      Triple-bind (minor-Keeps _ (λ job. (refl, refl)))
        (λ _. Triple-bind (call-Keeps q w.on_write (write_report _ _) refl) (λ _. Keeps-pure)))

  pub final-Keeps : Keeps P (final_report w)
  final-Keeps = Keeps-catch_kind _ take_report-Keeps replace-Keeps
