-- ===== src/TestServer/Poll.antt =====
-- `TestJobs.poll`: the worker is supervised while it runs, and its job is judged when it has ended.
use lekiwi.Prelude.{
  zero, Bool, true, false, ◌&&◌, not, Option, none, some, String, str_eq, if◌then◌else◌,
}
use lekiwi.Float.{Num, le}
use lekiwi.Float.Fpu.{Fpu}
use lekiwi.Effect.{Exn, M, pure, ◌>>=◌, ◌>>◌, when, catch_kind, is_os_or_value}
use lekiwi.Effect.State.{modify, reads}
use lekiwi.TestServer.Report.{Json, boolean, object, no_field, field, text, passed, all_passed}
use lekiwi.TestServer.{
  JobState, job_running, job_cancelling, job_passed, job_failed, job_cancelled, ExitCode, exited,
  sigint, sigterm, sigkill, Job, monotonic, wall_clock, close_console, poll_process, write_report,
  World, Server, all_checks, call, read_clock, on_active, update, persist, need, signal_worker,
  read_report,
}

-- 12.0 and 5.0 seconds
abbrev pub twelve : Num
twelve = 0x4028000000000000

abbrev pub five : Num
five = 0x4014000000000000

abbrev pub is_running : JobState → Bool
is_running job_running = true
is_running _ = false

abbrev pub is_some : {A : Type 0} → Option A → Bool
is_some none = false
is_some (some _) = true

abbrev is_zero : ExitCode → Bool
is_zero (exited zero) = true
is_zero _ = false

-- The state of a job whose worker has ended, from its state before.
abbrev judge_ended : String → ExitCode → Json → JobState
judge_ended feature code report =
    if str_eq feature "all" && not (all_passed all_checks report)
    then job_failed
    else if is_zero code && passed report
    then job_passed
    else job_failed

unfoldable pub judge : Job → ExitCode → Json → JobState
judge job code report = elim job.state [
  | job_cancelling ↦ if is_some job.error then job_failed else job_cancelled
  | job_running ↦ judge_ended job.feature code report
  | job_passed ↦ judge_ended job.feature code report
  | job_failed ↦ judge_ended job.feature code report
  | job_cancelled ↦ judge_ended job.feature code report
]

-- `deadline is not None and now >= deadline`
abbrev pub is_due : Num → Option Num → Bool
is_due now none = false
is_due now (some deadline) = le deadline now

abbrev is_cancelling : JobState → Bool
is_cancelling job_cancelling = true
is_cancelling _ = false

-- The result of a job whose report cannot be used.
abbrev pub missing_report : Job → Json
missing_report job = object (
    field "passed" (boolean false) (
      field "checks" (object no_field) (
        field "error" (text "Worker ended without a valid report") (
          field "cancelled" (boolean (is_cancelling job.state && not (is_some job.error)))
            no_field))))

abbrev pub clear_worker : Server → Server
clear_worker s = record s { active = none; has_process = false; has_console = false }

abbrev pub note_end : ExitCode → Num → M Server (Unit {0})
note_end code finished =
    update (λ job. record job { exit_code = some code; finished_unix = some finished })

module _ (w : World) where
  abbrev pub note_progress : Json → M Server (Unit {0})
  note_progress report = on_active λ job.
      if w.same job.result report
      then pure tt
      else do update (λ job. record job { result = some report }); on_active (persist w)

  -- The report of the suite so far is the result of its job.
  abbrev pub take_progress : M Server (Unit {0})
  take_progress = on_active λ job. do report ← read_report w job.report_path; note_progress report

  unfoldable pub refresh : M Server (Unit {0})
  refresh = on_active λ job.
      when (str_eq job.feature "all") (catch_kind is_os_or_value (take_progress) (λ _. pure tt))

  module _ ⦃u : Fpu⦄ where
    -- A worker that runs past its deadline is interrupted.
    abbrev pub interrupt_worker : Num → M Server (Unit {0})
    interrupt_worker now = do
      update (λ job. record job { state = job_cancelling; error = some "Test deadline exceeded" })
      signal_worker w sigint
      modify (λ s. record s { cancel_deadline = some (u.add now twelve) })
      on_active (persist w)

    unfoldable pub expire : Num → M Server (Unit {0})
    expire now =
        on_active
          λ job. reads λ s. when (is_running job.state && le s.deadline now) (interrupt_worker now)

    -- An interrupted worker is terminated 12 s later, and killed 5 s after that.
    abbrev pub terminate_worker : Num → M Server (Unit {0})
    terminate_worker now = do
      signal_worker w sigterm
      modify (λ s. record s { cancel_deadline = none; kill_deadline = some (u.add now five) })

    abbrev pub kill_worker : M Server (Unit {0})
    kill_worker = do signal_worker w sigkill; modify (λ s. record s { kill_deadline = none })

    unfoldable pub escalate : Num → M Server (Unit {0})
    escalate now = do
      reads λ s. when (is_due now s.cancel_deadline) (terminate_worker now)
      reads λ s. when (is_due now s.kill_deadline) (kill_worker)

    unfoldable pub supervise : Num → M Server (Unit {0})
    supervise now = do refresh; expire now; escalate now

  -- The worker's report, or the result in its place, which is then written to the report's file.
  abbrev pub set_report : Json → M Server Json
  set_report report = do update (λ job. record job { result = some report }); pure report

  abbrev pub take_report : M Server Json
  take_report = on_active λ job. do report ← read_report w job.report_path; set_report report

  abbrev pub replace_report : Exn → M Server Json
  replace_report e = do
    update (λ job. record job { report_error = some e.message })
    on_active λ job. do
      update (λ j. record j { result = some (missing_report job) })
      call w.on_write (write_report job.report_path (missing_report job))
      pure (missing_report job)

  abbrev pub final_report : M Server Json
  final_report = catch_kind is_os_or_value (take_report) (replace_report)

  abbrev pub conclude : ExitCode → Json → M Server (Unit {0})
  conclude code report = do
    update (λ job. record job { state = judge job code report })
    on_active (persist w)
    modify clear_worker

  unfoldable pub finish : ExitCode → M Server (Unit {0})
  finish code = do
    signal_worker w sigterm
    reads λ s. need s.has_console
    call w.on_console close_console
    finished ← read_clock w.time_now wall_clock
    note_end code finished
    report ← final_report
    conclude code report

  module _ ⦃u : Fpu⦄ where
    abbrev pub supervise_or_finish : Num → Option ExitCode → M Server (Unit {0})
    supervise_or_finish now none = supervise now
    supervise_or_finish now (some code) = finish code

    abbrev pub ask_process : Num → M Server (Unit {0})
    ask_process now = do
      reads λ s. need s.has_process
      code ← call w.on_poll poll_process
      supervise_or_finish now code

    unfoldable pub poll_active : M Server (Unit {0})
    poll_active = do now ← read_clock w.monotonic_now monotonic; ask_process now

    abbrev pub poll_job : Option Job → M Server (Unit {0})
    poll_job none = pure tt
    poll_job (some _) = poll_active

    unfoldable pub poll : M Server (Unit {0})
    poll = reads λ s. poll_job s.active
