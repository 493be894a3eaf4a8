-- ===== src/TestServer/Tests.antt =====
-- A server whose worker ends at once with a report of success.
use lekiwi.Prelude.{◌≡◌, ◌↔◌, refl, true, some, String, str_eq, List, [], ◌∷◌, ◌≢◌}
use lekiwi.Float.{nought, one}
use lekiwi.Float.Fixed.{fixed}
use lekiwi.Effect.{answer}
use lekiwi.Effect.State.{modify, reads, request}
use lekiwi.TestServer.Report.{
  Json, boolean, object, field, no_field, passed, all_passed, get, structure_valid, checks_valid,
}
use lekiwi.TestServer.{
  exited, job_cancelling, job_passed, Job, World, Config, Server, created, JobState, all_checks,
  is_in, call, read_clock, persist, signal_worker, update, read_report, on_active, set_job,
}
use lekiwi.TestServer.Poll.{judge, poll, poll_active, finish}
use lekiwi.TestServer.Requests.{
  to_start, to_cancel, by_timer, Request, serve_all, new_job, start, command_of, budget,
}
use lekiwi.TestServer.Discipline.{IsOrderly}
use lekiwi.TestServer.Discipline.Serve.{requests-IsOrderly}
use lekiwi.TestServer.Verdict.{AllTruthful, judge-passed}
use lekiwi.TestServer.Verdict.Serve.{requests-AllTruthful}

abbrev success : Json
success = object (field "passed" (boolean true) no_field)

abbrev prompt_world : World
prompt_world = record {
  monotonic_now = λ _. nought;
  time_now = λ _. one;
  on_ident = λ _. answer "1";
  on_mkdir = λ _. answer tt;
  on_console = λ _. answer tt;
  on_spawn = λ _. answer 7;
  on_poll = λ _. answer (some (exited 0));
  on_signal = λ _. answer tt;
  on_write = λ _. answer tt;
  on_read = λ _. answer success;
  on_sleep = λ _. answer tt;
  on_close = λ _. answer tt;
  same = λ _ _. true;
}

abbrev config : Config
config = record {
  executable = "python3";
  worker = "worker.py";
  output_dir = "out";
  duration = one;
  discovery_timeout = one;
  domain = "0";
  str = λ _. "1.0";
}

abbrev requests : List Request
requests = to_start "teleop" ∷ by_timer ∷ to_cancel "teleop" ∷ []

abbrev served : Server
served = serve_all prompt_world config requests created

requests-IsOrderly_example : IsOrderly prompt_world served.calls
requests-IsOrderly_example = requests-IsOrderly prompt_world config requests

abbrev first_job : Job
first_job = new_job config "teleop" "1" one

requests-AllTruthful_example : AllTruthful served.jobs
requests-AllTruthful_example =
    requests-AllTruthful prompt_world ((λ _ _. refl), (λ _ _. refl)) config requests

-- The job of such a server passes.
abbrev states : List (String × Job) → List JobState
states [] = []
states ((_, job) ∷ jobs) = job.state ∷ states jobs

teleop-passes :
    states (serve_all prompt_world config (to_start "teleop" ∷ by_timer ∷ []) created).jobs
    ≡ job_passed ∷ []
unfolding serve_all poll reads start created is_in call read_clock modify persist poll_active finish
    signal_worker update read_report request judge passed get structure_valid checks_valid new_job
    command_of budget on_active set_job
teleop-passes = refl

judge-passed_example : (judge first_job (exited 0) success ≡ job_passed) ↔ (
    (first_job.state ≢ job_cancelling)
    × (exited 0 ≡ exited 0)
    × (passed success ≡ true)
    × (str_eq first_job.feature "all" ≡ true → all_passed all_checks success ≡ true))
judge-passed_example = judge-passed first_job (exited 0) success
