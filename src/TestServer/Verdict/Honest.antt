-- ===== src/TestServer/Verdict/Honest.antt =====
-- `poll` keeps the jobs honest.
use mathlib.Core.Path.{subst}
use lekiwi.Prelude.{◌≡◌, refl, sym, ◌∙◌, ap, true, Option, none, some, List, ◌∷◌}
use lekiwi.Float.{Num}
use lekiwi.Float.Fpu.{Fpu}
use lekiwi.Effect.{Exn, M, Reply, answer, outcome, is_os_or_value}
use lekiwi.Effect.State.{
  Keeps, Keeps-reads, Keeps-modify, Keeps-when, Keeps-pure, Keeps-request, Triple-modify,
  Triple-catch, request, reads,
}
use lekiwi.Effect.Triple.{
  Post, Triple, Triple-bind, Triple-pure, Triple-raise, Triple-if, Triple-weaken,
}
use lekiwi.TestServer.Report.{Json}
use lekiwi.TestServer.{
  job_cancelling, ExitCode, Signal, sigint, sigterm, sigkill, Job, Call, monotonic, wall_clock,
  close_console, poll_process, write_status, replace_status, World, Server, call, on_active,
  with_job, update, put, signal_worker, persist,
}
use lekiwi.TestServer.Poll.{
  judge, missing_report, take_report, replace_report, final_report, clear_worker, note_end,
  conclude, finish, interrupt_worker, terminate_worker, kill_worker, expire, escalate, supervise,
  supervise_or_finish, ask_process, poll_active, poll_job, poll,
}
use lekiwi.TestServer.Discipline.{
  noted, clock-Keeps, need-Keeps, on_active-Keeps, on_active-Triple, persist-Keeps, read-Keeps,
}
use lekiwi.TestServer.Discipline.Steps.{
  update-Triple, update-Keeps, minor-Keeps, signal-Triple, refresh-Keeps,
}
use lekiwi.TestServer.Verdict.{
  is_open, open-Truthful, set_job-AllTruthful, IsDurable, IsHonest, HasEnded, HasReport, IsJudged,
  same_job, none≢some, ended-job, HasReport-Ended, HasEnded-Honest, IsHonest-IsQuiet,
  HasEnded-IsQuiet, open-Honest, minor-Honest, minor-HasEnded, judged-Truthful,
}

module _ (w : World) where
  pub Honest-call :
      {A : Type 0} (reply : List Call → Reply A) (c : Call) → Keeps IsHonest (call reply c)
  unfolding call
  Honest-call reply c = Keeps-request (λ s. reply s.calls) _ (λ s p. p)

  pub Honest-signal : (sig : Signal) → Keeps IsHonest (signal_worker w sig)
  Honest-signal sig = signal-Triple w sig (λ s p. p) (λ s p. p) (λ s p. p)

  HasReport-call :
      {code : ExitCode} {report : Json} {A : Type 0} (reply : List Call → Reply A) (c : Call)
      → Keeps (HasReport code report) (call reply c)
  unfolding call
  HasReport-call reply c = Keeps-request (λ s. reply s.calls) _ (λ s p. p)

  reporting :
      (code : ExitCode) (report : Json)
      → Triple
          (HasEnded code)
          (update (λ job. record job { result = some report }))
          (λ _. HasReport code report)
          (HasEnded code)
  reporting code report = update-Triple _ (λ job s e p.
      let new : Job = record job { result = some report } in
      let (o, c) = ended-job job s p e in
      (
        set_job-AllTruthful job.feature new s.jobs (open-Truthful new o) p.0,
        (new, refl, o, c, refl),
      ))

  taking :
      (code : ExitCode)
      → Triple (HasEnded code) (take_report w) (λ report. HasReport code report) (HasEnded code)
  taking code =
      on_active-Triple (λ s p. p)
        λ job.
          Triple-bind (read-Keeps (HasEnded-IsQuiet code) w job.report_path)
            (λ report. Triple-bind (reporting code report) (λ _. Triple-pure (λ s p. p)))

  -- A step that leaves the job as it was when it raises.
  Ended-raises :
      {code : ExitCode} {A : Type 0} {m : M Server A} {Q : A → Server → Type 0}
      → Triple (HasEnded code) m Q (HasEnded code)
      → Triple (HasEnded code) m Q IsHonest
  Ended-raises h = Triple-weaken h (λ s p. p) (λ _ s p. p) HasEnded-Honest

  replacing :
      (code : ExitCode) (e : Exn)
      → Triple (HasEnded code) (replace_report w e) (λ report. HasReport code report) IsHonest
  replacing code e =
      Triple-bind
        (Ended-raises
          (minor-Keeps w (HasEnded-IsQuiet code) minor-HasEnded _ (λ job. (refl, refl))))
        (λ _. on_active-Triple HasEnded-Honest λ job.
          Triple-bind (Ended-raises (reporting code (missing_report job))) (λ _.
            Triple-bind
              (Triple-weaken (HasReport-call w.on_write _) (λ s p. p) (λ _ s p. p)
                (λ s p. HasEnded-Honest s (HasReport-Ended s p)))
              (λ _. Triple-pure (λ s p. p))))

  final-HasReport :
      (code : ExitCode)
      → Triple (HasEnded code) (final_report w) (λ report. HasReport code report) IsHonest
  final-HasReport code =
      Triple-catch (taking code)
        (λ e.
          Triple-if (is_os_or_value e.kind) (λ _. replacing code e)
            (λ _. Triple-raise HasEnded-Honest))
        HasEnded-Honest

  judging :
      (code : ExitCode) (report : Json)
      → Triple
          (HasReport code report)
          (update (λ job. record job { state = judge job code report }))
          (λ _. IsJudged)
          IsHonest
  judging code report =
      Triple-weaken (update-Triple {Q = IsJudged} _ step) (λ s p. p) (λ _ s p. p)
        (λ s p. HasEnded-Honest s (HasReport-Ended s p))
    where
      step :
          (job : Job) (s : Server)
          → s.active ≡ some job
          → HasReport code report s
          → IsJudged (put (record job { state = judge job code report }) s)
      step job s e (t, (j, q, o, c, r)) = (
        set_job-AllTruthful job.feature (record job { state = judge job code report }) s.jobs
            (judged-Truthful job code report (ap (λ (j : Job). j.exit_code) (same_job e q) ∙ c)
              (ap (λ (j : Job). j.result) (same_job e q) ∙ r))
            t,
        (λ n. cc n),
      )

  module _ (d : IsDurable w) where
    -- A call that is answered
    answered-Judged :
        (c : Call)
        → ((h : List Call) → w.on_write (c ∷ h) ≡ answer tt)
        → Triple IsJudged (call w.on_write c) (λ _. IsJudged) IsHonest
    unfolding call request
    answered-Judged c a = record {
      holds = λ s p.
          subst (λ r. Post {S = Server} (λ _. IsJudged) IsHonest (outcome r, noted c s))
            (sym (a s.calls)) p;
    }

    persist-Judged : (job : Job) → Triple IsJudged (persist w job) (λ _. IsJudged) IsHonest
    unfolding persist
    persist-Judged job =
        Triple-bind (answered-Judged (write_status job) (d.0 job))
          (λ _. answered-Judged (replace_status job.directory) (d.1 job.directory))

    persisting : Triple IsJudged (on_active (persist w)) (λ _. IsJudged) IsHonest
    unfolding on_active reads
    persisting = record { holds = λ s p. go s p s.active refl }
      where
        go :
            (s : Server)
            → IsJudged s
            → (o : Option Job) → s.active ≡ o
            → Post {S = Server} (λ _. IsJudged) IsHonest (with_job (persist w) o s)
        go s p none e = absurd (p.1 e)
        go s p (some job) e = (persist-Judged job).holds s p

    conclude-Honest :
        (code : ExitCode) (report : Json)
        → Triple (HasReport code report) (conclude w code report) (λ _. IsHonest) IsHonest
    conclude-Honest code report = Triple-bind (judging code report) (λ _.
        Triple-bind persisting
          (λ _. Triple-modify clear_worker (λ s p. (p.0, (λ job e. absurd (none≢some e))))))

    noting_end :
        (code : ExitCode) (finished : Num)
        → Triple IsHonest (note_end code finished) (λ _. HasEnded code) IsHonest
    noting_end code finished = update-Triple _ (λ job s e p.
        let new : Job = record job { exit_code = some code; finished_unix = some finished } in
        let o : is_open job.state ≡ true = p.1 job e in
        (
          set_job-AllTruthful job.feature new s.jobs (open-Truthful new o) p.0,
          (new, refl, o, refl),
        ))

    finish-Honest : (code : ExitCode) → Keeps IsHonest (finish w code)
    unfolding finish
    finish-Honest code = Triple-bind (Honest-signal sigterm) (λ _.
        Triple-bind (Keeps-reads (λ s _. need-Keeps IsHonest-IsQuiet s.has_console)) (λ _.
          Triple-bind (Honest-call w.on_console close_console) (λ _.
            Triple-bind (clock-Keeps IsHonest-IsQuiet w.time_now wall_clock refl) (λ finished.
              Triple-bind (noting_end code finished)
                (λ _. Triple-bind (final-HasReport code) (conclude-Honest code))))))

    module _ ⦃u : Fpu⦄ where
      -- Cancelling keeps a job open.
      pub cancelling :
          (f : Job → Job)
          → ((job : Job) → (f job).state ≡ job_cancelling)
          → Keeps IsHonest (update f)
      cancelling f h = update-Keeps f (λ job s e p. open-Honest (f job) s (ap is_open (h job)) p)

      pub persist-Honest : Keeps IsHonest (on_active (persist w))
      persist-Honest = on_active-Keeps IsHonest-IsQuiet (persist-Keeps IsHonest-IsQuiet w)

      interrupt-Honest : (now : Num) → Keeps IsHonest (interrupt_worker w now)
      interrupt-Honest now = Triple-bind (cancelling _ (λ job. refl)) (λ _.
          Triple-bind (Honest-signal sigint)
            (λ _. Triple-bind (Keeps-modify _ (λ s p. p)) (λ _. persist-Honest)))

      expire-Honest : (now : Num) → Keeps IsHonest (expire w now)
      unfolding expire
      expire-Honest now =
          on_active-Keeps IsHonest-IsQuiet
            λ job. Keeps-reads λ s _. Keeps-when _ (λ _. interrupt-Honest now)

      terminate-Honest : (now : Num) → Keeps IsHonest (terminate_worker w now)
      terminate-Honest now = Triple-bind (Honest-signal sigterm) (λ _. Keeps-modify _ (λ s p. p))

      kill-Honest : Keeps IsHonest (kill_worker w)
      kill-Honest = Triple-bind (Honest-signal sigkill) (λ _. Keeps-modify _ (λ s p. p))

      escalate-Honest : (now : Num) → Keeps IsHonest (escalate w now)
      unfolding escalate
      escalate-Honest now =
          Triple-bind (Keeps-reads λ s _. Keeps-when _ (λ _. terminate-Honest now))
            (λ _. Keeps-reads λ s _. Keeps-when _ (λ _. kill-Honest))

      supervise-Honest : (now : Num) → Keeps IsHonest (supervise w now)
      unfolding supervise
      supervise-Honest now =
          Triple-bind (refresh-Keeps w IsHonest-IsQuiet minor-Honest)
            (λ _. Triple-bind (expire-Honest now) (λ _. escalate-Honest now))

      acting : (now : Num) (o : Option ExitCode) → Keeps IsHonest (supervise_or_finish w now o)
      acting now none = supervise-Honest now
      acting now (some code) = finish-Honest code

      ask_process-Honest : (now : Num) → Keeps IsHonest (ask_process w now)
      ask_process-Honest now =
          Triple-bind (Keeps-reads (λ s _. need-Keeps IsHonest-IsQuiet s.has_process))
            (λ _. Triple-bind (Honest-call w.on_poll poll_process) (acting now))

      poll_job-Honest : (o : Option Job) → Keeps IsHonest (poll_job w o)
      unfolding poll_active
      poll_job-Honest none = Keeps-pure
      poll_job-Honest (some _) =
          Triple-bind (clock-Keeps IsHonest-IsQuiet w.monotonic_now monotonic refl)
            ask_process-Honest

      pub poll-Honest : Keeps IsHonest (poll w)
      unfolding poll
      poll-Honest = Keeps-reads λ s _. poll_job-Honest s.active
