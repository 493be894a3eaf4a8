-- ===== src/TestServer/Discipline/Watch.antt =====
-- What `poll` keeps of the order of the server's calls.
use mathlib.Core.Path.{subst}
use lekiwi.Prelude.{
  ◌≡◌, ◌≢◌, refl, sym, ◌∙◌, inl, inr, true, false≢true, Option, none, some, ◌∷◌, ap,
}
use lekiwi.Float.{Num}
use lekiwi.Float.Fpu.{Fpu}
use lekiwi.Effect.{M, Reply, answer, failure, outcome}
use lekiwi.Effect.State.{
  Keeps, Keeps-reads, Keeps-when, Triple-reads, Triple-when, Triple-modify, request,
}
use lekiwi.Effect.Triple.{Post, Triple, Triple-bind, Triple-pure, Triple-weaken}
use lekiwi.TestServer.Report.{Json}
use lekiwi.TestServer.{
  ExitCode, sigint, sigterm, sigkill, Job, monotonic, wall_clock, close_console, poll_process,
  World, Server, call, put, signal_worker,
}
use lekiwi.TestServer.Poll.{
  interrupt_worker, expire, terminate_worker, kill_worker, escalate, supervise, clear_worker,
  note_end, conclude, finish, supervise_or_finish, ask_process, poll_active, poll_job, poll, is_due,
}
use lekiwi.TestServer.Discipline.{
  live, sent, IsWatched, IsEnded, IsSettled, still_live, noted, IsWatched-IsQuiet, IsEnded-IsQuiet,
  call-Keeps, clock-Keeps, need-Keeps, on_active-Keeps, persist-Keeps,
}
use lekiwi.TestServer.Discipline.Steps.{
  some≢none, update-Keeps, signal-Triple, refresh-Keeps, final-Keeps,
}

module _ (w : World) where
  pub Watched-put :
      (f : Job → Job) (job : Job) (s : Server)
      → s.active ≡ some job
      → IsWatched w s
      → IsWatched w (put (f job) s)
  Watched-put f job s n p = (p.0, some≢none, p.2)

  Ended-put :
      (f : Job → Job) (job : Job) (s : Server)
      → s.active ≡ some job
      → IsEnded w s
      → IsEnded w (put (f job) s)
  Ended-put f job s n p = (Watched-put f job s n p.0, p.1)

  -- Each signal, with the claim that it was sent.
  pub interrupting :
      Triple
        (IsWatched w)
        (signal_worker w sigint)
        (λ _ s. IsWatched w s × (sent sigint s.calls ≡ true))
        (IsWatched w)
  unfolding sent
  interrupting =
      signal-Triple w sigint {Q = λ s. IsWatched w s × (sent sigint s.calls ≡ true)}
        (λ s p. (((tt, p.0), p.1, ((λ _. refl), p.2.1)), refl)) (λ s p. p) (λ s p. p.0)

  -- SIGTERM goes to a worker that was sent SIGINT, or that has ended.
  terminating :
      Triple
        (λ s. IsWatched w s × (sent sigint s.calls ≡ true))
        (signal_worker w sigterm)
        (λ _ s. IsWatched w s × (sent sigterm s.calls ≡ true))
        (IsWatched w)
  unfolding sent
  terminating =
      signal-Triple w sigterm {Q = λ s. IsWatched w s × (sent sigterm s.calls ≡ true)}
        (λ s p. (((inl p.1, p.0.0), p.0.1, (p.0.2.0, (λ _. refl))), refl)) (λ s p. p.0) (λ s p. p.0)

  killing :
      Triple
        (λ s. IsWatched w s × (sent sigterm s.calls ≡ true))
        (signal_worker w sigkill)
        (λ _. IsWatched w)
        (IsWatched w)
  unfolding sent
  killing =
      signal-Triple w sigkill {Q = IsWatched w} (λ s p. ((p.1, p.0.0), p.0.1, p.0.2)) (λ s p. p.0)
        (λ s p. p)

  stopping : Keeps (IsEnded w) (signal_worker w sigterm)
  unfolding sent live
  stopping =
      signal-Triple w sigterm {Q = IsEnded w}
        (λ s p. (((inr p.1, p.0.0), p.0.1, (p.0.2.0, (λ _. refl))), p.1)) (λ s p. p) (λ s p. p)

  module _ ⦃u : Fpu⦄ where
    interrupt-Keeps : (now : Num) → Keeps (IsWatched w) (interrupt_worker w now)
    interrupt-Keeps now = Triple-bind (update-Keeps _ (Watched-put _)) (λ _.
        Triple-bind interrupting (λ _.
          Triple-bind (Triple-modify _ (λ s p. (p.0.0, p.0.1, ((λ _. p.1), p.0.2.1))))
            (λ _. on_active-Keeps (IsWatched-IsQuiet w) (persist-Keeps (IsWatched-IsQuiet w) w))))

    expire-Keeps : (now : Num) → Keeps (IsWatched w) (expire w now)
    unfolding expire
    expire-Keeps now =
        on_active-Keeps (IsWatched-IsQuiet w)
          λ job. Keeps-reads λ s _. Keeps-when _ (λ _. interrupt-Keeps now)

    terminate-Keeps :
        (now : Num)
        → Triple
            (λ s. IsWatched w s × (sent sigint s.calls ≡ true))
            (terminate_worker w now)
            (λ _. IsWatched w)
            (IsWatched w)
    terminate-Keeps now =
        Triple-bind (terminating)
          (λ _. Triple-modify _ (λ s p. (p.0.0, p.0.1, ((λ n. absurd (n refl)), (λ _. p.1)))))

    kill-Keeps :
        Triple
          (λ s. IsWatched w s × (sent sigterm s.calls ≡ true))
          (kill_worker w)
          (λ _. IsWatched w)
          (IsWatched w)
    kill-Keeps =
        Triple-bind (killing)
          (λ _. Triple-modify _ (λ s p. (p.0, p.1, (p.2.0, (λ n. absurd (n refl))))))

    -- A deadline that is due is set.
    is_due-some : (now : Num) (o : Option Num) → is_due now o ≡ true → o ≢ none
    is_due-some now none e n = absurd (false≢true e)
    is_due-some now (some d) e n = some≢none n

    escalate-Keeps : (now : Num) → Keeps (IsWatched w) (escalate w now)
    unfolding escalate
    escalate-Keeps now =
        Triple-bind {Q = λ _. IsWatched w}
          (Triple-reads λ s p.
            Triple-when (is_due now s.cancel_deadline)
              (λ e.
                Triple-weaken (terminate-Keeps now)
                  (λ t q.
                    subst (λ t. IsWatched w t × (sent sigint t.calls ≡ true)) (sym q)
                      (p, p.2.0 (is_due-some now s.cancel_deadline e)))
                  (λ _ _ r. r) (λ _ r. r))
              (λ t q. subst (IsWatched w) (sym q) p))
          (λ _. Triple-reads λ s p.
            Triple-when (is_due now s.kill_deadline)
              (λ e.
                Triple-weaken kill-Keeps
                  (λ t q.
                    subst (λ t. IsWatched w t × (sent sigterm t.calls ≡ true)) (sym q)
                      (p, p.2.1 (is_due-some now s.kill_deadline e)))
                  (λ _ _ r. r) (λ _ r. r))
              (λ t q. subst (IsWatched w) (sym q) p))

    supervise-Keeps : (now : Num) → Keeps (IsWatched w) (supervise w now)
    unfolding supervise
    supervise-Keeps now =
        Triple-bind (refresh-Keeps w (IsWatched-IsQuiet w) (λ f _. Watched-put f))
          (λ _. Triple-bind (expire-Keeps now) (λ _. escalate-Keeps now))

  pub Watched-Settled : (s : Server) → IsWatched w s → IsSettled w s
  Watched-Settled s p = (p.0, (λ n. absurd (p.1 n)), (λ _. p.2))

  conclude-settles :
      (code : ExitCode) (report : Json)
      → Triple (IsEnded w) (conclude w code report) (λ _. IsSettled w) (IsSettled w)
  conclude-settles code report =
      Triple-weaken
        (Triple-bind {Q = λ _. IsEnded w} (update-Keeps _ (Ended-put _)) (λ _.
          Triple-bind (on_active-Keeps (IsEnded-IsQuiet w) (persist-Keeps (IsEnded-IsQuiet w) w))
            (λ _.
              Triple-modify {Q = IsSettled w} clear_worker
                (λ s p. (p.0.0, (λ _. p.1), (λ n. absurd (n refl)))))))
        (λ s p. p) (λ _ s p. p) (λ s p. Watched-Settled s p.0)

  note_end-Keeps : (code : ExitCode) (finished : Num) → Keeps (IsEnded w) (note_end code finished)
  note_end-Keeps code finished = update-Keeps _ (Ended-put _)

  Ended-raises :
      {A : Type 0} {m : M Server A}
      → Keeps (IsEnded w) m
      → Triple (IsEnded w) m (λ _. IsEnded w) (IsSettled w)
  Ended-raises h = Triple-weaken h (λ s p. p) (λ _ s p. p) (λ s p. Watched-Settled s p.0)

  finish-settles :
      (code : ExitCode) → Triple (IsEnded w) (finish w code) (λ _. IsSettled w) (IsSettled w)
  unfolding finish
  finish-settles code = Triple-bind (Ended-raises stopping) (λ _.
      Triple-bind (Ended-raises (Keeps-reads (λ s _. need-Keeps (IsEnded-IsQuiet w) s.has_console)))
        (λ _.
          Triple-bind
            (Ended-raises (call-Keeps (IsEnded-IsQuiet w) w.on_console close_console refl))
            (λ _.
              Triple-bind
                (Ended-raises (clock-Keeps (IsEnded-IsQuiet w) w.time_now wall_clock refl))
                (λ finished. Triple-bind (Ended-raises (note_end-Keeps code finished)) (λ _.
                  Triple-bind
                    (Ended-raises (final-Keeps w (IsEnded-IsQuiet w) (λ f _. Ended-put f)))
                    (conclude-settles code))))))

  module _ ⦃u : Fpu⦄ where
    -- What the process answers decides what is known of the worker.
    abbrev Asked : Option ExitCode → Server → Type 0
    Asked none = IsWatched w
    Asked (some code) = IsEnded w

    asking : Triple (IsWatched w) (call w.on_poll poll_process) Asked (IsSettled w)
    unfolding call request live sent
    asking = record { holds = λ s p. go s p (w.on_poll (poll_process ∷ s.calls)) refl }
      where
        go :
            (s : Server)
            → IsWatched w s
            → (r : Reply (Option ExitCode)) → w.on_poll (poll_process ∷ s.calls) ≡ r
            → Post {S = Server} Asked (IsSettled w) (outcome r, noted poll_process s)
        go s p (answer none) e = ((tt, p.0), p.1, p.2)
        go s p (answer (some code)) e =
            (((tt, p.0), p.1, p.2), ap (λ r. still_live r (live w s.calls)) e)
        go s p (failure x) e = Watched-Settled (noted poll_process s) ((tt, p.0), p.1, p.2)

    acting :
        (now : Num) (o : Option ExitCode)
        → Triple (Asked o) (supervise_or_finish w now o) (λ _. IsSettled w) (IsSettled w)
    acting now none =
        Triple-weaken (supervise-Keeps now) (λ s p. p) (λ _. Watched-Settled) Watched-Settled
    acting now (some code) = finish-settles code

    Watched-raises :
        {A : Type 0} {m : M Server A}
        → Keeps (IsWatched w) m
        → Triple (IsWatched w) m (λ _. IsWatched w) (IsSettled w)
    Watched-raises h = Triple-weaken h (λ s p. p) (λ _ s p. p) Watched-Settled

    ask_process-settles :
        (now : Num) → Triple (IsWatched w) (ask_process w now) (λ _. IsSettled w) (IsSettled w)
    ask_process-settles now =
        Triple-bind
          (Watched-raises (Keeps-reads (λ s _. need-Keeps (IsWatched-IsQuiet w) s.has_process)))
          (λ _. Triple-bind asking (acting now))

    poll_active-settles : Triple (IsWatched w) (poll_active w) (λ _. IsSettled w) (IsSettled w)
    unfolding poll_active
    poll_active-settles =
        Triple-bind
          (Watched-raises (clock-Keeps (IsWatched-IsQuiet w) w.monotonic_now monotonic refl))
          ask_process-settles

    -- An active job of a settled server is watched.
    pub Settled-Watched : (s : Server) → IsSettled w s → s.active ≢ none → IsWatched w s
    Settled-Watched s p n = (p.0, n, p.2 n)

    pub poll-Keeps : Keeps (IsSettled w) (poll w)
    unfolding poll
    poll-Keeps = Triple-reads λ s p. go s p s.active refl
      where
        go :
            (s : Server)
            → IsSettled w s
            → (o : Option Job) → s.active ≡ o
            → Triple (λ t. t ≡ s) (poll_job w o) (λ _. IsSettled w) (IsSettled w)
        go s p none e = Triple-pure (λ t q. subst (IsSettled w) (sym q) p)
        go s p (some job) e =
            Triple-weaken poll_active-settles
              (λ t q.
                subst (IsWatched w) (sym q) (Settled-Watched s p (λ n. some≢none (sym e ∙ n))))
              (λ _ s p. p) (λ s p. p)
