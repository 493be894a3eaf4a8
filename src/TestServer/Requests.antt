-- ===== src/TestServer/Requests.antt =====
-- `TestJobs.start`, `status`, `cancel` and `close`.
use lekiwi.Prelude.{
  ℕ, ◌⊎◌, inl, inr, zero, suc, Bool, true, false, not, Option, none, some, String, str_eq,
  append_text, List, [], ◌∷◌, ◌++◌, ◌||◌, if◌then◌else◌,
}
use lekiwi.Float.{Num, lt}
use lekiwi.Float.Fpu.{Fpu}
use lekiwi.Effect.{Exn, M, pure, ◌>>=◌, ◌>>◌, when, catch_kind, is_exception, out_of_fuel}
use lekiwi.Effect.State.{modify, reads}
use lekiwi.TestServer.Report.{Json, boolean, object, no_field, field, text}
use lekiwi.TestServer.{
  job_running, job_cancelling, job_failed, Job, sigint, is_in, all_checks, features, Config,
  monotonic, wall_clock, new_ident, mkdir, open_console, close_console, spawn, write_report, sleep,
  close_lock, World, Server, job_of, set_job, call, read_clock, on_active, update, persist,
  signal_worker,
}
use lekiwi.TestServer.Poll.{poll, is_running, is_some, twelve}

-- 3.0, 8.0, 60.0, 90.0, 19.0 and 0.05 seconds
abbrev three : Num
three = 0x4008000000000000

abbrev eight : Num
eight = 0x4020000000000000

abbrev sixty : Num
sixty = 0x404e000000000000

abbrev ninety : Num
ninety = 0x4056800000000000

abbrev nineteen : Num
nineteen = 0x4033000000000000

abbrev twentieth : Num
twentieth = 0x3fa999999999999a

-- What the requests answer, beside whether they succeeded.
pub data StatusReply : Type 0 where
  idle : String → StatusReply
  known : Job → StatusReply

pub data Answer : Type 0 where
  unknown_test : Answer
  busy : String → String → Answer
  of_job : Job → Answer
  not_running : StatusReply → Answer

pub data Request : Type 0 where
  to_start to_status to_cancel : String → Request
  by_timer : Request
  to_close : ℕ → Request

-- `folder / name`
abbrev pub path_of : String → String → String
path_of folder name = append_text folder (append_text "/" name)

-- The worker's command line
unfoldable pub command_of : Config → String → String → List String
command_of c feature report_path =
    let selected =
      if str_eq feature "all"
      then all_checks
      else (if str_eq feature "camera0" || str_eq feature "camera2" then "camera" else feature)
        ∷ [] in
    let camera =
      if str_eq feature "camera0"
      then "--camera-indices" ∷ "0" ∷ []
      else if str_eq feature "camera2"
      then "--camera-indices" ∷ "2" ∷ []
      else [] in
    (c.executable ∷ c.worker ∷ "--checks" ∷ [])
    ++ (selected
        ++ (("--duration"
              ∷ c.str c.duration
              ∷ "--discovery-timeout"
              ∷ c.str c.discovery_timeout
              ∷ "--report"
              ∷ report_path
              ∷ [])
            ++ camera))

-- The dictionary of a job that is about to be started.
unfoldable pub new_job : Config → String → String → Num → Job
new_job c feature ident now =
    let folder = path_of c.output_dir (append_text feature (append_text "-" ident)) in
    record {
      feature = feature;
      job_id = ident;
      state = job_running;
      started_unix = now;
      directory = folder;
      report_path = path_of folder "report.json";
      console_path = path_of folder "console.log";
      ros_domain_id = c.domain;
      command = command_of c feature (path_of folder "report.json");
      pid = none;
      error = none;
      result = none;
      report_error = none;
      exit_code = none;
      finished_unix = none;
    }

-- The result of a job whose worker could not be started.
abbrev pub spawn_failed : String → Json
spawn_failed message = object (
    field "passed" (boolean false)
      (field "error" (text message) (field "checks" (object no_field) no_field)))

-- A job whose worker could not be started.
abbrev pub failed_job : Job → Exn → Num → Job
failed_job job e now = record job {
  state = job_failed;
  error = some e.message;
  finished_unix = some now;
  result = some (spawn_failed e.message);
}

module _ (w : World) (c : Config) ⦃u : Fpu⦄ where
  -- `deadline - time.monotonic()` when the worker is started
  unfoldable pub budget : String → Num
  budget feature = u.add c.duration (
      if str_eq feature "all"
      then u.add (u.mul eight c.discovery_timeout) ninety
      else u.add (u.mul three c.discovery_timeout) sixty)

  abbrev pub keep_failed : Job → Exn → Num → M Server (Bool × Answer)
  keep_failed job e now = do
    call w.on_write (write_report job.report_path (spawn_failed e.message))
    modify (λ s. record s { jobs = set_job job.feature (failed_job job e now) s.jobs })
    persist w (failed_job job e now)
    pure (false, of_job (failed_job job e now))

  abbrev pub give_up : Job → Exn → M Server (Bool × Answer)
  give_up job e = do
    call w.on_console close_console
    now ← read_clock w.time_now wall_clock
    keep_failed job e now

  abbrev pub own : Job → Num → Server → Server
  own job now s = record s {
    active = some job;
    jobs = set_job job.feature job s.jobs;
    deadline = u.add now (budget job.feature);
    cancel_deadline = none;
    kill_deadline = none;
  }

  abbrev pub set_active : Job → Num → M Server (Bool × Answer)
  set_active job now = do modify (own job now); persist w job; pure (true, of_job job)

  -- The worker is running under the process id.
  abbrev pub take_on : Job → ℕ → M Server (Bool × Answer)
  take_on job pid = do
    modify (λ s. record s { has_process = true })
    now ← read_clock w.monotonic_now monotonic
    set_active (record job { pid = some pid }) now

  -- `Popen`, and the exceptions of it that are caught
  abbrev pub try_spawn : Job → M Server (ℕ ⊎ Exn)
  try_spawn job =
      catch_kind is_exception (do pid ← call w.on_spawn (spawn job.command); pure (inl pid))
        (λ e. pure (inr e))

  abbrev pub spawned : Job → ℕ ⊎ Exn → M Server (Bool × Answer)
  spawned job (inl pid) = take_on job pid
  spawned job (inr e) = give_up job e

  abbrev pub open_job : Job → M Server (Bool × Answer)
  open_job job = do
    call w.on_console (open_console job.console_path)
    modify (λ s. record s { has_console = true })
    r ← try_spawn job
    spawned job r

  abbrev pub with_ident : String → String → M Server (Bool × Answer)
  with_ident feature ident = do
    call w.on_mkdir (mkdir (path_of c.output_dir (append_text feature (append_text "-" ident))))
    now ← read_clock w.time_now wall_clock
    open_job (new_job c feature ident now)

  abbrev pub launch : String → M Server (Bool × Answer)
  launch feature = do ident ← call w.on_ident new_ident; with_ident feature ident

  abbrev pub start_unless : String → Option Job → M Server (Bool × Answer)
  start_unless feature none = launch feature
  start_unless feature (some job) = pure (false, busy job.feature job.job_id)

  unfoldable pub start : String → M Server (Bool × Answer)
  start feature = do
    poll w
    if not (is_in feature features)
        then pure (false, unknown_test)
        else reads λ s. start_unless feature s.active

  abbrev pub status_of : String → Option Job → StatusReply
  status_of feature none = idle feature
  status_of feature (some job) = known job

  unfoldable pub status : String → M Server StatusReply
  status feature = do poll w; reads λ s. pure (status_of feature (job_of feature s.jobs))

  abbrev pub set_cancel_deadline : Num → M Server (Unit {0})
  set_cancel_deadline now = do
    modify (λ s. record s { cancel_deadline = some (u.add now twelve) })
    on_active (persist w)

  -- The worker is interrupted at the operator's request.
  abbrev pub interrupt_job : M Server (Unit {0})
  interrupt_job = do
    update (λ job. record job { state = job_cancelling })
    signal_worker w sigint
    now ← read_clock w.monotonic_now monotonic
    set_cancel_deadline now

  abbrev pub refuse : String → M Server (Bool × Answer)
  refuse feature = do reply ← status feature; pure (false, not_running reply)

  abbrev pub cancel_active : String → Option Job → M Server (Bool × Answer)
  cancel_active feature none = refuse feature
  cancel_active feature (some job) =
      if not (str_eq job.feature feature)
      then refuse feature
      else do when (is_running job.state) (interrupt_job); on_active λ job. pure (true, of_job job)

  unfoldable pub cancel : String → M Server (Bool × Answer)
  cancel feature = do poll w; reads λ s. cancel_active feature s.active

  abbrev pub until_deadline : M Server (Unit {0}) → Num → Num → M Server (Unit {0})
  until_deadline rest deadline now =
      when (lt now deadline) (do poll w; call w.on_sleep (sleep twentieth); rest)

  -- The loop of `close`, on fuel
  unfoldable pub wait_closed : ℕ → Num → M Server (Unit {0})
  wait_closed zero deadline = out_of_fuel
  wait_closed (suc fuel) deadline =
      let rest = wait_closed fuel deadline in
      reads λ s.
        when (is_some s.active)
          (read_clock w.monotonic_now monotonic >>= until_deadline rest deadline)

  abbrev pub close_job : ℕ → Option Job → M Server (Unit {0})
  close_job fuel none = pure tt
  close_job fuel (some job) = do
    cancel job.feature
    now ← read_clock w.monotonic_now monotonic
    wait_closed fuel (u.add now nineteen)

  unfoldable pub close : ℕ → M Server (Unit {0})
  close fuel = do reads λ s. close_job fuel s.active; call w.on_close close_lock

  -- The requests of the services, and the timer that polls.
  abbrev pub serve : Request → M Server (Unit {0})
  serve (to_start feature) = start feature >> pure tt
  serve (to_status feature) = status feature >> pure tt
  serve (to_cancel feature) = cancel feature >> pure tt
  serve by_timer = poll w
  serve (to_close fuel) = close fuel

  -- A request that raises leaves what it did.
  unfoldable pub serve_all : List Request → Server → Server
  serve_all [] s = s
  serve_all (r ∷ requests) s = serve_all requests (serve r s).1
