-- ===== src/TestServer/Verdict/Serve.antt =====
-- The requests keep the jobs honest.
use lekiwi.Prelude.{
  ◌≡◌, refl, ap, ◌⊎◌, inl, inr, ℕ, zero, suc, not, str_eq, Option, none, some, String, List, [],
  ◌∷◌,
}
use lekiwi.Float.{Num, lt}
use lekiwi.Float.Fpu.{Fpu}
use lekiwi.Effect.{Exn, M, when, ◌>>=◌, is_exception}
use lekiwi.Effect.State.{
  Keeps, Keeps-reads, Keeps-modify, Keeps-when, Keeps-pure, Keeps-catch_kind, reads,
}
use lekiwi.Effect.Triple.{Post-same, Triple-bind, Triple-if, Triple-out_of_fuel}
use lekiwi.TestServer.{
  job_running, sigint, Job, monotonic, wall_clock, new_ident, mkdir, open_console, close_console,
  spawn, sleep, close_lock, Config, World, Server, created, read_clock, is_in, features,
}
use lekiwi.TestServer.Poll.{is_running, is_some}
use lekiwi.TestServer.Requests.{
  Request, to_start, to_status, to_cancel, by_timer, to_close, failed_job, keep_failed, set_active,
  try_spawn, spawned, open_job, with_ident, start_unless, start, status, set_cancel_deadline,
  interrupt_job, cancel_active, cancel, until_deadline, wait_closed, close_job, close, serve,
  serve_all, new_job,
}
use lekiwi.TestServer.Discipline.{clock-Keeps, on_active-Keeps, persist-Keeps}
use lekiwi.TestServer.Verdict.{
  IsDurable, IsHonest, IsTruthful, AllTruthful, is_open, open-Honest, set_job-AllTruthful,
  IsHonest-IsQuiet, none≢some,
}
use lekiwi.TestServer.Verdict.Honest.{
  Honest-call, Honest-signal, cancelling, persist-Honest, poll-Honest,
}

failed-Truthful : (job : Job) (e : Exn) (now : Num) → IsTruthful (failed_job job e now)
failed-Truthful job e now = ((λ q. cc q), (λ q. cc q))

module _ (w : World) (d : IsDurable w) (c : Config) ⦃u : Fpu⦄ where
  clock-Honest : Keeps IsHonest (read_clock w.monotonic_now monotonic)
  clock-Honest = clock-Keeps IsHonest-IsQuiet w.monotonic_now monotonic refl

  wall-Honest : Keeps IsHonest (read_clock w.time_now wall_clock)
  wall-Honest = clock-Keeps IsHonest-IsQuiet w.time_now wall_clock refl

  set_active-Honest :
      (job : Job) (now : Num) → job.state ≡ job_running → Keeps IsHonest (set_active w c job now)
  set_active-Honest job now o =
      Triple-bind (Keeps-modify _ (λ s p. open-Honest job s (ap is_open o) p))
        (λ _. Triple-bind (persist-Keeps IsHonest-IsQuiet w job) (λ _. Keeps-pure))

  keep_failed-Honest :
      (job : Job) (e : Exn) (now : Num) → Keeps IsHonest (keep_failed w c job e now)
  keep_failed-Honest job e now = Triple-bind (Honest-call w w.on_write _) (λ _.
      Triple-bind
        (Keeps-modify _
          (λ s p. (set_job-AllTruthful _ _ s.jobs (failed-Truthful job e now) p.0, p.1)))
        (λ _. Triple-bind (persist-Keeps IsHonest-IsQuiet w _) (λ _. Keeps-pure)))

  spawned-Honest :
      (job : Job) (r : ℕ ⊎ Exn) → job.state ≡ job_running → Keeps IsHonest (spawned w c job r)
  spawned-Honest job (inl pid) o = Triple-bind (Keeps-modify _ (λ s p. p)) (λ _.
      Triple-bind clock-Honest (λ now. set_active-Honest (record job { pid = some pid }) now o))
  spawned-Honest job (inr e) o =
      Triple-bind (Honest-call w w.on_console close_console)
        (λ _. Triple-bind wall-Honest (keep_failed-Honest job e))

  try_spawn-Honest : (job : Job) → Keeps IsHonest (try_spawn w c job)
  try_spawn-Honest job =
      Keeps-catch_kind is_exception
        (Triple-bind (Honest-call w w.on_spawn (spawn job.command)) (λ pid. Keeps-pure))
        (λ e. Keeps-pure)

  open_job-Honest : (job : Job) → job.state ≡ job_running → Keeps IsHonest (open_job w c job)
  open_job-Honest job o =
      Triple-bind (Honest-call w w.on_console (open_console job.console_path)) (λ _.
        Triple-bind (Keeps-modify _ (λ s p. p))
          (λ _. Triple-bind (try_spawn-Honest job) (λ r. spawned-Honest job r o)))

  with_ident-Honest : (feature ident : String) → Keeps IsHonest (with_ident w c feature ident)
  unfolding new_job
  with_ident-Honest feature ident =
      Triple-bind (Honest-call w w.on_mkdir (mkdir _))
        (λ _. Triple-bind wall-Honest (λ now. open_job-Honest (new_job c feature ident now) refl))

  start_unless-Honest :
      (feature : String) (o : Option Job) → Keeps IsHonest (start_unless w c feature o)
  start_unless-Honest feature none =
      Triple-bind (Honest-call w w.on_ident new_ident) (with_ident-Honest feature)
  start_unless-Honest feature (some job) = Keeps-pure

  start-Honest : (feature : String) → Keeps IsHonest (start w c feature)
  unfolding start
  start-Honest feature = Triple-bind (poll-Honest w d) λ _.
      Triple-if (not (is_in feature features)) (λ _. Keeps-pure)
        (λ _. Keeps-reads (λ s _. start_unless-Honest feature s.active))

  status-Honest : (feature : String) → Keeps IsHonest (status w c feature)
  unfolding status
  status-Honest feature = Triple-bind (poll-Honest w d) (λ _. Keeps-reads (λ s _. Keeps-pure))

  interrupt-Honest : Keeps IsHonest (interrupt_job w c)
  interrupt-Honest =
      Triple-bind (cancelling w d _ (λ job. refl))
        (λ _. Triple-bind (Honest-signal w sigint) (λ _. Triple-bind clock-Honest setting))
    where
      setting : (now : Num) → Keeps IsHonest (set_cancel_deadline w c now)
      setting now = Triple-bind (Keeps-modify _ (λ s p. p)) (λ _. persist-Honest w d)

  cancel_active-Honest :
      (feature : String) (o : Option Job) → Keeps IsHonest (cancel_active w c feature o)
  cancel_active-Honest feature none = Triple-bind (status-Honest feature) (λ _. Keeps-pure)
  cancel_active-Honest feature (some job) =
      Triple-if (not (str_eq job.feature feature))
        (λ _. Triple-bind (status-Honest feature) (λ _. Keeps-pure))
        (λ _.
          Triple-bind (Keeps-when (is_running job.state) (λ _. interrupt-Honest))
            (λ _. on_active-Keeps IsHonest-IsQuiet (λ job. Keeps-pure)))

  cancel-Honest : (feature : String) → Keeps IsHonest (cancel w c feature)
  unfolding cancel
  cancel-Honest feature =
      Triple-bind (poll-Honest w d)
        (λ _. Keeps-reads (λ s _. cancel_active-Honest feature s.active))

  wait-Honest : (fuel : ℕ) (deadline : Num) → Keeps IsHonest (wait_closed w c fuel deadline)
  unfolding wait_closed
  wait-Honest zero deadline = Triple-out_of_fuel (λ s p. p)
  wait-Honest (suc fuel) deadline = waiting (wait-Honest fuel deadline)
    where
      again :
          {rest : M Server (Unit {0})}
          → Keeps IsHonest rest
          → (now : Num) → Keeps IsHonest (until_deadline w c rest deadline now)
      again h now = Keeps-when (lt now deadline) λ _.
          Triple-bind (poll-Honest w d)
            (λ _. Triple-bind (Honest-call w w.on_sleep (sleep _)) (λ _. h))

      waiting :
          {rest : M Server (Unit {0})}
          → Keeps IsHonest rest
          → Keeps IsHonest (
              reads λ s.
                when
                  (is_some s.active)
                  (read_clock w.monotonic_now monotonic >>= until_deadline w c rest deadline))
      waiting h =
          Keeps-reads λ s _. Keeps-when (is_some s.active) λ _. Triple-bind clock-Honest (again h)

  close_job-Honest : (fuel : ℕ) (o : Option Job) → Keeps IsHonest (close_job w c fuel o)
  close_job-Honest fuel none = Keeps-pure
  close_job-Honest fuel (some job) =
      Triple-bind (cancel-Honest job.feature)
        (λ _. Triple-bind clock-Honest (λ now. wait-Honest fuel _))

  serve-Honest : (r : Request) → Keeps IsHonest (serve w c r)
  unfolding close
  serve-Honest (to_start feature) = Triple-bind (start-Honest feature) (λ _. Keeps-pure)
  serve-Honest (to_status feature) = Triple-bind (status-Honest feature) (λ _. Keeps-pure)
  serve-Honest (to_cancel feature) = Triple-bind (cancel-Honest feature) (λ _. Keeps-pure)
  serve-Honest by_timer = poll-Honest w d
  serve-Honest (to_close fuel) =
      Triple-bind (Keeps-reads (λ s _. close_job-Honest fuel s.active))
        (λ _. Honest-call w w.on_close close_lock)

  serve_all-Honest :
      (requests : List Request) (s : Server) → IsHonest s → IsHonest (serve_all w c requests s)
  unfolding serve_all
  serve_all-Honest [] s p = p
  serve_all-Honest (r ∷ requests) s p =
      serve_all-Honest requests (serve w c r s).1
        (Post-same IsHonest (serve w c r s) ((serve-Honest r).holds s p))

  -- If status files can always be written, then after any requests, whatever else raises, each job that
  -- the server keeps as passed has a worker that exited with status 0 and a report whose `passed` is
  -- True, also for each of the five checks if it is the suite; and each job kept as cancelled has no
  -- error.
  pub requests-AllTruthful :
      (requests : List Request) → AllTruthful (serve_all w c requests created).jobs
  unfolding created
  requests-AllTruthful requests =
      (serve_all-Honest requests created (tt, (λ job e. absurd (none≢some e)))).0
