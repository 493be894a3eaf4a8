-- ===== src/TestServer.antt =====
-- lekiwi_bringup/tools/diagnostics/test_service_server.py: `TestJobs`, which runs one test worker at a
-- time for the ROS services and keeps the jobs' status files.
pub mod Report
pub mod Poll
pub mod Requests
pub mod Discipline
pub mod Verdict
mod Tests
use lekiwi.Prelude.{
  ℕ, Bool, true, false, ◌==◌, ◌||◌, Option, none, some, String, str_eq, append_text, List, [], ◌∷◌,
  ◌++◌, if◌then◌else◌,
}
use lekiwi.Float.{Num, nought}
use lekiwi.Float.Fpu.{Fpu}
use lekiwi.Effect.{
  Exn, exception, M, pure, raise, ◌>>=◌, ◌>>◌, catch_kind, is_process_lookup, value_error, Reply,
  answer,
}
use lekiwi.Effect.State.{modify, reads, request}
use lekiwi.TestServer.Report.{Json, structure_valid}

-- `ALL_CHECKS` and `FEATURES`
abbrev pub all_checks : List String
all_checks = "teleop" ∷ "cmd_vel" ∷ "odom" ∷ "lidar" ∷ "camera" ∷ []

abbrev pub features : List String
features = "all" ∷ all_checks ++ "camera0" ∷ "camera2" ∷ []

-- `name in names`
unfoldable pub is_in : String → List String → Bool
is_in name [] = false
is_in name (n ∷ names) = str_eq n name || is_in name names

pub data JobState : Type 0 where
  job_running job_cancelling job_passed job_failed job_cancelled : JobState

-- `returncode`: the exit status, or the number of the signal that ended the worker
pub data ExitCode : Type 0 where
  exited : ℕ → ExitCode
  killed : ℕ → ExitCode

pub data Signal : Type 0 where
  sigint sigterm sigkill : Signal

-- The dictionary of a job. An entry that is there only at times is an option.
pub record Job : Type 0 where
  pub feature : String
  pub job_id : String
  pub state : JobState
  pub started_unix : Num
  pub directory : String
  pub report_path : String
  pub console_path : String
  pub ros_domain_id : String
  pub command : List String
  pub pid : Option ℕ
  pub error : Option String
  pub result : Option Json
  pub report_error : Option String
  pub exit_code : Option ExitCode
  pub finished_unix : Option Num

-- The calls of the server on the clocks, the file system and the worker's process.
pub data Call : Type 0 where
  monotonic : Call
  wall_clock : Call
  new_ident : Call
  mkdir : String → Call
  open_console : String → Call
  close_console : Call
  spawn : List String → Call
  poll_process : Call
  signal : Signal → Call
  write_status : Job → Call
  replace_status : String → Call
  read_file : String → Call
  write_report : String → Json → Call
  sleep : Num → Call
  close_lock : Call

-- What the calls answer, which may depend on all calls so far. The clocks do not raise. `same` is the
-- comparison `job.get('result') == report`, and `error_report` the dictionary that is the result of a
-- job without a report: of the error's text, and of the entry `cancelled` if it is there.
pub record World : Type 0 where
  pub monotonic_now : List Call → Num
  pub time_now : List Call → Num
  pub on_ident : List Call → Reply String
  pub on_mkdir : List Call → Reply (Unit {0})
  pub on_console : List Call → Reply (Unit {0})
  pub on_spawn : List Call → Reply ℕ
  pub on_poll : List Call → Reply (Option ExitCode)
  pub on_signal : List Call → Reply (Unit {0})
  pub on_write : List Call → Reply (Unit {0})
  pub on_read : List Call → Reply Json
  pub on_sleep : List Call → Reply (Unit {0})
  pub on_close : List Call → Reply (Unit {0})
  pub same : Option Json → Json → Bool

-- The settings of the server and the process it runs in: `sys.executable`, `ROS_DOMAIN_ID`, `str`
pub record Config : Type 0 where
  pub executable : String
  pub worker : String
  pub output_dir : String
  pub duration : Num
  pub discovery_timeout : Num
  pub domain : String
  pub str : Num → String

-- The fields of the server that change, and the calls so far, latest first. The job of `active` is the
-- object that `jobs` has at its feature. `deadline` is first set when a worker is started.
pub record Server : Type 0 where
  pub jobs : List (String × Job)
  pub active : Option Job
  pub has_process : Bool
  pub has_console : Bool
  pub deadline : Num
  pub cancel_deadline : Option Num
  pub kill_deadline : Option Num
  pub calls : List Call

unfoldable pub created : Server
created = record {
  jobs = [];
  active = none;
  has_process = false;
  has_console = false;
  deadline = nought;
  cancel_deadline = none;
  kill_deadline = none;
  calls = [];
}

-- `jobs.get(feature)` and `jobs[feature] = job`
unfoldable pub job_of : String → List (String × Job) → Option Job
job_of feature [] = none
job_of feature ((f, job) ∷ jobs) = if str_eq f feature then some job else job_of feature jobs

unfoldable pub set_job : String → Job → List (String × Job) → List (String × Job)
set_job feature job [] = (feature, job) ∷ []
set_job feature job ((f, j) ∷ jobs) =
    if str_eq f feature then (feature, job) ∷ jobs else (f, j) ∷ set_job feature job jobs

unfoldable pub call : {A : Type 0} → (List Call → Reply A) → Call → M Server A
unfolding request
call reply c = request (λ s. reply s.calls) (λ s. record s { calls = c ∷ s.calls })

-- A clock's reading.
unfoldable pub read_clock : (List Call → Num) → Call → M Server Num
read_clock clock c = call (λ h. answer (clock h)) c

-- The exceptions of using `None` as an object.
abbrev pub type_error : Exn
type_error = record { kind = exception; message = "NoneType"; notes = [] }

-- The active job is changed: it is the same object in `jobs`.
abbrev pub put : Job → Server → Server
put job s = record s { active = some job; jobs = set_job job.feature job s.jobs }

abbrev pub with_job : {A : Type 0} → (Job → M Server A) → Option Job → M Server A
with_job f none = raise type_error
with_job f (some job) = f job

unfoldable pub on_active : {A : Type 0} → (Job → M Server A) → M Server A
unfolding reads
on_active f = reads λ s. with_job f s.active

unfoldable pub update : (Job → Job) → M Server (Unit {0})
unfolding on_active modify
update f = on_active λ job. modify (put (f job))

-- A process or a console that is there.
abbrev pub need : Bool → M Server (Unit {0})
need true = pure tt
need false = raise type_error

module _ (w : World) where
  -- `persist`: the dictionary is written beside the status file, which it then replaces.
  unfoldable pub persist : Job → M Server (Unit {0})
  unfolding call
  persist job = do
    call w.on_write (write_status job)
    call w.on_write (replace_status job.directory)

  -- `signal_worker`
  unfoldable pub signal_worker : Signal → M Server (Unit {0})
  unfolding call reads
  signal_worker sig = do
    reads λ s. need s.has_process
    catch_kind is_process_lookup (call w.on_signal (signal sig)) (λ _. pure tt)

  abbrev pub check_report : Json → M Server Json
  check_report report =
      if structure_valid report
      then pure report
      else raise record { kind = value_error; message = "Invalid report structure"; notes = [] }

  -- `read_report`
  unfoldable pub read_report : String → M Server Json
  unfolding call
  read_report path = do report ← call w.on_read (read_file path); check_report report
