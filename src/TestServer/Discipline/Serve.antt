-- ===== src/TestServer/Discipline/Serve.antt =====
-- The requests keep the order of the server's calls.
use mathlib.Core.Path.{subst}
use lekiwi.Prelude.{
  ◌≡◌, refl, sym, ◌∙◌, ap, ◌⊎◌, inl, inr, ℕ, zero, suc, true, not, str_eq, Option, none, some,
  String, List, [], ◌∷◌,
}
use lekiwi.Float.{Num, lt}
use lekiwi.Float.Fpu.{Fpu}
use lekiwi.Effect.{Exn, M, Reply, answer, failure, outcome, is_exception}
use lekiwi.Effect.State.{
  Keeps, Keeps-reads, Keeps-when, Keeps-pure, Triple-reads, Triple-modify, Triple-catch, request,
}
use lekiwi.Effect.Triple.{
  Post, Post-same, Triple, Triple-bind, Triple-pure, Triple-raise, Triple-if, Triple-weaken,
  Triple-out_of_fuel,
}
use lekiwi.TestServer.{
  sigint, Job, Call, monotonic, wall_clock, new_ident, mkdir, open_console, close_console, spawn,
  write_report, sleep, close_lock, Config, World, Server, created, call, read_clock, is_in,
  features,
}
use lekiwi.TestServer.Poll.{is_running, is_some}
use lekiwi.TestServer.Requests.{
  Request, to_start, to_status, to_cancel, by_timer, to_close, keep_failed, own, set_active,
  take_on, try_spawn, spawned, open_job, with_ident, launch, start_unless, start, status,
  set_cancel_deadline, interrupt_job, refuse, cancel_active, cancel, until_deadline, wait_closed,
  close_job, close, serve, serve_all, new_job,
}
use lekiwi.TestServer.Discipline.{
  live, sent, started, IsOrderly, IsWatched, IsReady, IsSettled, noted, role, other, IsQuiet,
  IsWatched-IsQuiet, IsReady-IsQuiet, live-other, IsOrderly-other, Timed-other, call-Keeps,
  clock-Keeps, on_active-Keeps, persist-Keeps,
}
use lekiwi.TestServer.Discipline.Steps.{update-Keeps, some≢none}
use lekiwi.TestServer.Discipline.Watch.{
  interrupting, Watched-put, Watched-Settled, Settled-Watched, poll-Keeps,
}

module _ (w : World) where
  IsSettled-IsQuiet : IsQuiet (IsSettled w)
  IsSettled-IsQuiet = record {
    by_call = λ c e s p. (
      IsOrderly-other w c e s.calls p.0,
      (λ n. live-other w c e s.calls ∙ p.1 n),
      (λ n. Timed-other w c e s.calls s refl (p.2 n)),
    );
  }

  -- A worker was started for a job that is not active yet.
  abbrev IsSpawned : Server → Type 0
  IsSpawned s = IsOrderly w s.calls × (s.active ≡ none)

  Ready-Settled : (s : Server) → IsReady w s → IsSettled w s
  Ready-Settled s p = (p.0, (λ _. p.2), (λ n. absurd (n p.1)))

  Ready-raises :
      {A : Type 0} {m : M Server A}
      → Keeps (IsReady w) m
      → Triple (IsReady w) m (λ _. IsReady w) (IsSettled w)
  Ready-raises h = Triple-weaken h (λ s p. p) (λ _ s p. p) Ready-Settled

  Ready-call :
      {A : Type 0} (reply : List Call → Reply A) (c : Call)
      → role c ≡ other
      → Triple (IsReady w) (call reply c) (λ _. IsReady w) (IsSettled w)
  Ready-call reply c e = Ready-raises (call-Keeps (IsReady-IsQuiet w) reply c e)

  abbrev Tried : ℕ ⊎ Exn → Server → Type 0
  Tried (inl pid) = IsSpawned
  Tried (inr e) = IsReady w

  module _ (c : Config) ⦃u : Fpu⦄ where
    starting :
        (job : Job)
        → Triple (IsReady w) (call w.on_spawn (spawn job.command)) (λ _. IsSpawned) (IsReady w)
    unfolding call request live
    starting job = record { holds = λ s p. go s p (w.on_spawn (spawn job.command ∷ s.calls)) refl }
      where
        go :
            (s : Server)
            → IsReady w s
            → (r : Reply ℕ) → w.on_spawn (spawn job.command ∷ s.calls) ≡ r
            → Post {S = Server}
                (λ _. IsSpawned)
                (IsReady w)
                (outcome r, noted (spawn job.command) s)
        go s p (answer pid) e = ((p.2, p.0), p.1)
        go s p (failure x) e = ((p.2, p.0), p.1, ap (λ r. started r (live w s.calls)) e ∙ p.2)

    trying : (job : Job) → Triple (IsReady w) (try_spawn w c job) Tried (IsSettled w)
    trying job =
        Triple-catch {I = IsReady w} (Triple-bind (starting job) (λ pid. Triple-pure (λ s p. p)))
          (λ e.
            Triple-if (is_exception e.kind) (λ _. Triple-pure (λ s p. p))
              (λ _. Triple-raise Ready-Settled))
          Ready-Settled

    own-Watched :
        (job : Job) (now : Num) (s : Server) → IsSpawned s → IsWatched w (own w c job now s)
    own-Watched job now s p = (p.0, some≢none, ((λ n. absurd (n refl)), (λ n. absurd (n refl))))

    set_active-settles :
        (job : Job) (now : Num)
        → Triple IsSpawned (set_active w c job now) (λ _. IsSettled w) (IsSettled w)
    set_active-settles job now =
        Triple-bind {Q = λ _. IsWatched w} (Triple-modify _ (own-Watched job now)) (λ _.
          Triple-weaken (Triple-bind (persist-Keeps (IsWatched-IsQuiet w) w job) (λ _. Keeps-pure))
            (λ s p. p) (λ _. Watched-Settled w) (Watched-Settled w))

    -- A clock does not raise.
    clock-Spawned :
        Triple IsSpawned (read_clock w.monotonic_now monotonic) (λ _. IsSpawned) (IsSettled w)
    unfolding read_clock call request
    clock-Spawned = record { holds = λ s p. ((tt, p.0), p.1) }

    take_on-settles :
        (job : Job) (pid : ℕ)
        → Triple IsSpawned (take_on w c job pid) (λ _. IsSettled w) (IsSettled w)
    take_on-settles job pid =
        Triple-bind {Q = λ _. IsSpawned} (Triple-modify _ (λ s p. p))
          (λ _. Triple-bind clock-Spawned (set_active-settles (record job { pid = some pid })))

    keep_failed-settles :
        (job : Job) (e : Exn) (now : Num)
        → Triple (IsReady w) (keep_failed w c job e now) (λ _. IsReady w) (IsSettled w)
    keep_failed-settles job e now =
        Triple-bind (Ready-call w.on_write (write_report _ _) refl) (λ _.
          Triple-bind (Triple-modify _ (λ s p. p)) (λ _.
            Triple-bind (Ready-raises (persist-Keeps (IsReady-IsQuiet w) w _))
              (λ _. Triple-pure (λ s p. p))))

    spawned-settles :
        (job : Job) (r : ℕ ⊎ Exn)
        → Triple (Tried r) (spawned w c job r) (λ _. IsSettled w) (IsSettled w)
    spawned-settles job (inl pid) = take_on-settles job pid
    spawned-settles job (inr e) =
        Triple-weaken
          (Triple-bind (Ready-call w.on_console close_console refl) (λ _.
            Triple-bind (Ready-raises (clock-Keeps (IsReady-IsQuiet w) w.time_now wall_clock refl))
              (keep_failed-settles job e)))
          (λ s p. p) (λ _. Ready-Settled) (λ s p. p)

    open_job-settles :
        (job : Job) → Triple (IsReady w) (open_job w c job) (λ _. IsSettled w) (IsSettled w)
    open_job-settles job =
        Triple-bind (Ready-call w.on_console (open_console job.console_path) refl) (λ _.
          Triple-bind {Q = λ _. IsReady w} (Triple-modify _ (λ s p. p))
            (λ _. Triple-bind (trying job) (spawned-settles job)))

    with_ident-settles :
        (feature ident : String)
        → Triple (IsReady w) (with_ident w c feature ident) (λ _. IsSettled w) (IsSettled w)
    with_ident-settles feature ident = Triple-bind (Ready-call w.on_mkdir (mkdir _) refl) (λ _.
        Triple-bind (Ready-raises (clock-Keeps (IsReady-IsQuiet w) w.time_now wall_clock refl))
          (λ now. open_job-settles (new_job c feature ident now)))

    launch-settles :
        (feature : String)
        → Triple (IsReady w) (launch w c feature) (λ _. IsSettled w) (IsSettled w)
    launch-settles feature =
        Triple-bind (Ready-call w.on_ident new_ident refl) (with_ident-settles feature)

    start_unless-settles :
        (feature : String) (s : Server)
        → IsSettled w s
        → (o : Option Job) → s.active ≡ o
        → Triple (λ t. t ≡ s) (start_unless w c feature o) (λ _. IsSettled w) (IsSettled w)
    start_unless-settles feature s p none e =
        Triple-weaken (launch-settles feature) (λ t q. subst (IsReady w) (sym q) (p.0, e, p.1 e))
          (λ _ s p. p) (λ s p. p)
    start_unless-settles feature s p (some job) e =
        Triple-pure (λ t q. subst (IsSettled w) (sym q) p)

    start-Keeps : (feature : String) → Keeps (IsSettled w) (start w c feature)
    unfolding start
    start-Keeps feature = Triple-bind (poll-Keeps w) λ _.
        Triple-if (not (is_in feature features)) (λ _. Keeps-pure)
          (λ _. Triple-reads (λ s p. start_unless-settles feature s p s.active refl))

    status-Keeps : (feature : String) → Keeps (IsSettled w) (status w c feature)
    unfolding status
    status-Keeps feature = Triple-bind (poll-Keeps w) (λ _. Keeps-reads (λ s _. Keeps-pure))

    refuse-Keeps : (feature : String) → Keeps (IsSettled w) (refuse w c feature)
    refuse-Keeps feature = Triple-bind (status-Keeps feature) (λ reply. Keeps-pure)

    set_cancel-Keeps :
        (now : Num)
        → Triple
            (λ s. IsWatched w s × (sent sigint s.calls ≡ true))
            (set_cancel_deadline w c now)
            (λ _. IsWatched w)
            (IsWatched w)
    set_cancel-Keeps now =
        Triple-bind (Triple-modify _ (λ s p. (p.0.0, p.0.1, ((λ _. p.1), p.0.2.1))))
          (λ _. on_active-Keeps (IsWatched-IsQuiet w) (persist-Keeps (IsWatched-IsQuiet w) w))

    clock-Sent :
        Triple
          (λ s. IsWatched w s × (sent sigint s.calls ≡ true))
          (read_clock w.monotonic_now monotonic)
          (λ _ s. IsWatched w s × (sent sigint s.calls ≡ true))
          (IsWatched w)
    unfolding read_clock call request sent
    clock-Sent = record { holds = λ s p. (((tt, p.0.0), p.0.1, p.0.2), p.1) }

    interrupt-Keeps : Keeps (IsWatched w) (interrupt_job w c)
    interrupt-Keeps =
        Triple-bind (update-Keeps _ (Watched-put w _))
          (λ _. Triple-bind (interrupting w) (λ _. Triple-bind clock-Sent set_cancel-Keeps))

    cancel_active-settles :
        (feature : String) (s : Server)
        → IsSettled w s
        → (o : Option Job) → s.active ≡ o
        → Triple (λ t. t ≡ s) (cancel_active w c feature o) (λ _. IsSettled w) (IsSettled w)
    cancel_active-settles feature s p none e =
        Triple-weaken (refuse-Keeps feature) (λ t q. subst (IsSettled w) (sym q) p) (λ _ s p. p)
          (λ s p. p)
    cancel_active-settles feature s p (some job) e =
        Triple-if (not (str_eq job.feature feature))
          (λ _.
            Triple-weaken (refuse-Keeps feature) (λ t q. subst (IsSettled w) (sym q) p) (λ _ s p. p)
              (λ s p. p))
          (λ _.
            Triple-weaken
              (Triple-bind (Keeps-when (is_running job.state) (λ _. interrupt-Keeps))
                (λ _. on_active-Keeps (IsWatched-IsQuiet w) (λ job. Keeps-pure)))
              (λ t q.
                subst (IsWatched w) (sym q) (Settled-Watched w s p (λ n. some≢none (sym e ∙ n))))
              (λ _. Watched-Settled w) (Watched-Settled w))

    cancel-Keeps : (feature : String) → Keeps (IsSettled w) (cancel w c feature)
    unfolding cancel
    cancel-Keeps feature =
        Triple-bind (poll-Keeps w)
          (λ _. Triple-reads (λ s p. cancel_active-settles feature s p s.active refl))

    until-Keeps :
        {rest : M Server (Unit {0})} (deadline now : Num)
        → Keeps (IsSettled w) rest
        → Keeps (IsSettled w) (until_deadline w c rest deadline now)
    until-Keeps deadline now h = Keeps-when (lt now deadline) λ _.
        Triple-bind (poll-Keeps w)
          (λ _. Triple-bind (call-Keeps IsSettled-IsQuiet w.on_sleep (sleep _) refl) (λ _. h))

    wait-Keeps : (fuel : ℕ) (deadline : Num) → Keeps (IsSettled w) (wait_closed w c fuel deadline)
    unfolding wait_closed
    wait-Keeps zero deadline = Triple-out_of_fuel (λ s p. p)
    wait-Keeps (suc fuel) deadline = Keeps-reads λ s _. Keeps-when (is_some s.active) λ _.
        Triple-bind (clock-Keeps IsSettled-IsQuiet w.monotonic_now monotonic refl)
          (λ now. until-Keeps deadline now (wait-Keeps fuel deadline))

    close_job-Keeps : (fuel : ℕ) (o : Option Job) → Keeps (IsSettled w) (close_job w c fuel o)
    close_job-Keeps fuel none = Keeps-pure
    close_job-Keeps fuel (some job) = Triple-bind (cancel-Keeps job.feature) λ _.
        Triple-bind (clock-Keeps IsSettled-IsQuiet w.monotonic_now monotonic refl)
          (λ now. wait-Keeps fuel _)

    close-Keeps : (fuel : ℕ) → Keeps (IsSettled w) (close w c fuel)
    unfolding close
    close-Keeps fuel =
        Triple-bind (Keeps-reads (λ s _. close_job-Keeps fuel s.active))
          (λ _. call-Keeps IsSettled-IsQuiet w.on_close close_lock refl)

    serve-Keeps : (r : Request) → Keeps (IsSettled w) (serve w c r)
    serve-Keeps (to_start feature) = Triple-bind (start-Keeps feature) (λ _. Keeps-pure)
    serve-Keeps (to_status feature) = Triple-bind (status-Keeps feature) (λ _. Keeps-pure)
    serve-Keeps (to_cancel feature) = Triple-bind (cancel-Keeps feature) (λ _. Keeps-pure)
    serve-Keeps by_timer = poll-Keeps w
    serve-Keeps (to_close fuel) = close-Keeps fuel

    serve_all-keeps :
        (requests : List Request) (s : Server)
        → IsSettled w s
        → IsSettled w (serve_all w c requests s)
    unfolding serve_all
    serve_all-keeps [] s p = p
    serve_all-keeps (r ∷ requests) s p =
        serve_all-keeps requests (serve w c r s).1
          (Post-same (IsSettled w) (serve w c r s) ((serve-Keeps r).holds s p))

    -- Whatever requests come, and whatever the calls answer or raise, a worker is started only when the
    -- one before is known to have ended or could not be started; SIGTERM is sent only to a worker that
    -- was sent SIGINT or has ended, and SIGKILL only to one that was sent SIGTERM.
    pub requests-IsOrderly :
        (requests : List Request) → IsOrderly w (serve_all w c requests created).calls
    unfolding created live
    requests-IsOrderly requests =
        (serve_all-keeps requests created (tt, (λ _. refl), (λ n. absurd (n refl)))).0
