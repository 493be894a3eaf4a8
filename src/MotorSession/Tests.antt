-- ===== src/MotorSession/Tests.antt =====
-- Runs of `cleanup_session` in a world where the power request fails.
use lekiwi.Prelude.{◌≡◌, refl, true, Option, none, some, []}
use lekiwi.Float.{nought}
use lekiwi.Effect.{Exn, attempt, value, answer, failure, runtime_error}
use lekiwi.MotorSession.{World, cleanup_session, attempt_zeros, combine_errors, join_messages}
use lekiwi.MotorSession.Cleanup.{failures, cleaned, IsReport, cleanup_session_lem}

abbrev unpowered : World
unpowered = record {
  on_publish = λ _. answer tt;
  on_power = λ _. failure (runtime_error "/motor_power false failed: ");
  on_begin_ready = λ _. answer tt;
  on_wait_ready = λ _. answer true;
  on_clock = λ _. answer nought;
  on_read_key = λ _. answer none;
  on_report = λ _. answer tt;
  on_print_error = λ _. answer tt;
}

-- The publisher is gone too.
abbrev spent : World
spent = record unpowered { on_publish = λ _. failure (runtime_error "closed") }

cleanup_session_example :
    (o : Option Exn) × (cleanup_session spent 1 [] ≡ (value o, cleaned spent 1 []))
    × IsReport (failures spent 1 []) o
cleanup_session_example = cleanup_session_lem spent 1 []

-- What is reported if both calls fail, and if only the power request does
several-reported : cleanup_session spent 1 [] ≡ (
  value (some (runtime_error "cleanup failures: closed; /motor_power false failed: ")),
  cleaned spent 1 [],
)
unfolding cleanup_session attempt_zeros attempt combine_errors join_messages
several-reported = refl
