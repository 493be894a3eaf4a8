-- ===== src/TestServer/Verdict.antt =====
-- What the final state of a job says of its worker and its report.
pub mod Honest
pub mod Serve
use mathlib.Core.Path.{subst}
use lekiwi.Prelude.{
  ◌≡◌, ◌≢◌, ◌↔◌, refl, sym, ◌∙◌, ap, ◌⊎◌, inl, inr, ℕ, zero, suc, Bool, true, false, false≢true,
  not, ◌&&◌, str_eq, Option, none, some, String, List, [], ◌∷◌, All, arith, if◌then◌else◌,
}
use lekiwi.Float.{Num, lt, le}
use lekiwi.Float.Fpu.{Fpu}
use lekiwi.Effect.{
  Exn, M, pure, raise, Reply, answer, failure, outcome, when, ◌>>=◌, ◌>>◌, catch_kind, is_exception,
  is_os_or_value,
}
use lekiwi.Effect.State.{
  Keeps, Keeps-reads, Keeps-modify, Keeps-when, Keeps-pure, Keeps-request, Triple-reads,
  Triple-when, Triple-modify, Triple-catch, request, reads,
}
use lekiwi.Effect.Triple.{
  Post, Post-same, Triple, Triple-bind, Triple-pure, Triple-raise, Triple-if, Triple-weaken,
  Triple-out_of_fuel,
}
use lekiwi.TestServer.Report.{Json, passed, all_passed}
use lekiwi.TestServer.{
  JobState, job_running, job_cancelling, job_passed, job_failed, job_cancelled, ExitCode, exited,
  Signal, sigint, sigterm, sigkill, Job, Call, monotonic, wall_clock, new_ident, mkdir,
  open_console, close_console, spawn, poll_process, write_status, replace_status, write_report,
  sleep, close_lock, Config, World, Server, created, all_checks, set_job, call, read_clock,
  on_active, with_job, update, put, signal_worker, persist, is_in, features,
}
use lekiwi.TestServer.Poll.{
  judge, missing_report, take_report, replace_report, final_report, clear_worker, note_end,
  conclude, finish, interrupt_worker, terminate_worker, kill_worker, expire, escalate, supervise,
  supervise_or_finish, ask_process, poll_active, poll_job, poll,
}
use lekiwi.TestServer.Discipline.{
  IsQuiet, noted, call-Keeps, clock-Keeps, need-Keeps, on_active-Keeps, on_active-Triple,
  persist-Keeps, read-Keeps,
}
use lekiwi.TestServer.Discipline.Steps.{
  IsMinor, update-Triple, update-Keeps, minor-Keeps, signal-Triple, refresh-Keeps,
}

-- A job that passed has a worker that ended with status 0, and a report that says so, of each of the
-- five checks if it is the suite. A cancelled job had no error.
abbrev pub IsPassed : Job → Type 0
IsPassed job =
    (job.exit_code ≡ some (exited 0))
    × ((report : Json) × (job.result ≡ some report)
        × (passed report ≡ true)
        × (str_eq job.feature "all" ≡ true → all_passed all_checks report ≡ true))

abbrev pub IsTruthful : Job → Type 0
IsTruthful job =
    (job.state ≡ job_passed → IsPassed job) × (job.state ≡ job_cancelled → job.error ≡ none)

abbrev pub AllTruthful : List (String × Job) → Type 0
AllTruthful [] = Unit
AllTruthful ((_, job) ∷ jobs) = IsTruthful job × AllTruthful jobs

abbrev pub is_open : JobState → Bool
is_open job_running = true
is_open job_cancelling = true
is_open _ = false

pub open-Truthful : (job : Job) → is_open job.state ≡ true → IsTruthful job
open-Truthful job o = (
  (λ e. absurd (false≢true (ap is_open (sym e) ∙ o))),
  (λ e. absurd (false≢true (ap is_open (sym e) ∙ o))),
)

pub set_job-AllTruthful :
    (feature : String) (job : Job) (jobs : List (String × Job))
    → IsTruthful job
    → AllTruthful jobs
    → AllTruthful (set_job feature job jobs)
unfolding set_job
set_job-AllTruthful feature job [] h p = (h, tt)
set_job-AllTruthful feature job ((f, j) ∷ jobs) h p =
    go (str_eq f feature) (set_job-AllTruthful feature job jobs h p.1)
  where
    go :
        (b : Bool)
        → AllTruthful (set_job feature job jobs)
        → AllTruthful (if b then (feature, job) ∷ jobs else (f, j) ∷ set_job feature job jobs)
    go true rest = (h, p.1)
    go false rest = (p.0, rest)

-- A job passes exactly if it was not being cancelled, its worker ended with status 0 and its report says
-- that it passed, of each of the five checks if it is the suite.
pub judge-passed :
    (job : Job) (code : ExitCode) (report : Json)
    → (judge job code report ≡ job_passed) ↔ (
        (job.state ≢ job_cancelling)
        × (code ≡ exited 0)
        × (passed report ≡ true)
        × (str_eq job.feature "all" ≡ true → all_passed all_checks report ≡ true))
unfolding judge
judge-passed job code report = ground arith

pub judge-cancelled :
    (job : Job) (code : ExitCode) (report : Json)
    → judge job code report ≡ job_cancelled
    → job.error ≡ none
unfolding judge
judge-cancelled job code report = ground arith

-- Status files are always written.
abbrev pub IsDurable : World → Type 0
IsDurable w =
    ((job : Job) (h : List Call) → w.on_write (write_status job ∷ h) ≡ answer tt)
    × ((directory : String) (h : List Call) → w.on_write (replace_status directory ∷ h) ≡ answer tt)

-- All jobs tell the truth, and the active job is not judged yet.
abbrev pub IsHonest : Server → Type 0
IsHonest s = AllTruthful s.jobs × ((job : Job) → s.active ≡ some job → is_open job.state ≡ true)

-- The active job's worker has ended with the code; then its report is known too; then it is judged.
abbrev pub HasEnded : ExitCode → Server → Type 0
HasEnded code s =
    AllTruthful s.jobs
    × ((job : Job) × (s.active ≡ some job)
        × (is_open job.state ≡ true)
        × (job.exit_code ≡ some code))

abbrev pub HasReport : ExitCode → Json → Server → Type 0
HasReport code report s =
    AllTruthful s.jobs
    × ((job : Job) × (s.active ≡ some job)
        × (is_open job.state ≡ true)
        × (job.exit_code ≡ some code)
        × (job.result ≡ some report))

abbrev pub IsJudged : Server → Type 0
IsJudged s = AllTruthful s.jobs × (s.active ≢ none)

pub same_job : {a b : Job} {o : Option Job} → o ≡ some a → o ≡ some b → a ≡ b
same_job e f = cc (e, f)

pub none≢some : {A : Type 0} {a : A} → none ≢ some a
none≢some e = cc e

pub ended-job :
    {code : ExitCode} (job : Job) (s : Server)
    → HasEnded code s
    → s.active ≡ some job
    → (is_open job.state ≡ true) × (job.exit_code ≡ some code)
ended-job job s (t, (j, q, o, c)) e = (
  ap (λ (j : Job). is_open j.state) (same_job e q) ∙ o,
  ap (λ (j : Job). j.exit_code) (same_job e q) ∙ c,
)

pub HasReport-Ended :
    {code : ExitCode} {report : Json} (s : Server) → HasReport code report s → HasEnded code s
HasReport-Ended s (t, (j, q, o, c, r)) = (t, (j, q, o, c))

pub HasEnded-Honest : {code : ExitCode} (s : Server) → HasEnded code s → IsHonest s
HasEnded-Honest s (t, (job, e, o, c)) =
    (t, (λ j f. ap (λ (j : Job). is_open j.state) (same_job f e) ∙ o))

pub IsHonest-IsQuiet : IsQuiet IsHonest
IsHonest-IsQuiet = record { by_call = λ c e s p. p }

pub HasEnded-IsQuiet : (code : ExitCode) → IsQuiet (HasEnded code)
HasEnded-IsQuiet code = record { by_call = λ c e s p. p }

-- A job that stays open
pub open-Honest :
    (job : Job) (s : Server) → is_open job.state ≡ true → IsHonest s → IsHonest (put job s)
open-Honest job s o p = (
  set_job-AllTruthful job.feature job s.jobs (open-Truthful job o) p.0,
  (λ j e. ap (λ (j : Job). is_open j.state) (same_job e refl) ∙ o),
)

pub minor-Honest :
    (f : Job → Job)
    → IsMinor f
    → (job : Job) (s : Server) → s.active ≡ some job
    → IsHonest s
    → IsHonest (put (f job) s)
minor-Honest f m job s e p = open-Honest (f job) s (ap is_open (m job).0 ∙ p.1 job e) p

pub minor-HasEnded :
    {code : ExitCode} (f : Job → Job)
    → IsMinor f
    → (job : Job) (s : Server) → s.active ≡ some job
    → HasEnded code s
    → HasEnded code (put (f job) s)
minor-HasEnded f m job s e p =
    let (o, c) = ended-job job s p e in
    let still_open : is_open (f job).state ≡ true = ap is_open (m job).0 ∙ o in
    (
      set_job-AllTruthful (f job).feature (f job) s.jobs (open-Truthful (f job) still_open) p.0,
      (f job, refl, still_open, (m job).1 ∙ c),
    )

-- The verdict on a job whose code and report are known is the truth.
pub judged-Truthful :
    (job : Job) (code : ExitCode) (report : Json)
    → job.exit_code ≡ some code
    → job.result ≡ some report
    → IsTruthful (record job { state = judge job code report })
judged-Truthful job code report c r = (
  (λ e. let v = (judge-passed job code report).0 e in (c ∙ ap some v.1, (report, r, v.2, v.3))),
  judge-cancelled job code report,
)
