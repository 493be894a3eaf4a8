-- ===== src/SensorCheck/Probe.antt =====
-- `stop_probe` and `run_probe`: a measuring program that is started, waited for and read.
use lekiwi.Prelude.{Bool, true, false, not, Option, none, some, String, List, [], ◌∷◌, ◌++◌}
use lekiwi.Float.{Num}
use lekiwi.Effect.{
  Exn, Kind, keyboard_interrupt, timeout_expired, is_process_lookup, M, pure, raise, ◌>>=◌, ◌>>◌,
  catch, catch_kind, when, ask,
}
use lekiwi.SensorCheck.Record.{ℤ, pos, text, object, Fields, no_field, field}
use lekiwi.SensorCheck.Device.{
  spawn, communicate, poll, sigterm, sigkill, return_code, write_log, Line, plain, broken, parsed,
  Sensor, History, World,
}

-- `except subprocess.TimeoutExpired`
abbrev pub is_timeout : Kind → Bool
is_timeout timeout_expired = true
is_timeout _ = false

-- 3
abbrev pub stop_limit : Num
stop_limit = 0x4008000000000000

-- The records of the lines, and the error so far
unfoldable pub read_lines : List Line → Option String → List Fields × Option String
read_lines [] error = ([], error)
read_lines (plain ∷ lines) error = read_lines lines error
read_lines (broken ∷ lines) error = read_lines lines (some "측정 프로그램이 잘못된 JSON을 출력했습니다")
read_lines (parsed (object r) ∷ lines) error =
    let (records, last_error) = read_lines lines error in (r ∷ records, last_error)
read_lines (parsed _ ∷ lines) error = read_lines lines error

-- `{"type": "error", "message": error}`
abbrev pub error_record : String → Fields
error_record message = field "type" (text "error") (field "message" (text message) no_field)

abbrev pub with_error : List Fields × Option String → List Fields
with_error (records, none) = records
with_error (records, some message) = records ++ error_record message ∷ []

-- What the first wait hands over: the output, the error, and whether it was interrupted.
pub record Wait : Type 0 where
  pub output : List Line
  pub error : Option String
  pub interrupted : Bool

-- What `run_probe` returns.
pub record Measured : Type 0 where
  pub records : List Fields
  pub returncode : ℤ
  pub interrupted : Bool

module _ (w : World) where
  unfoldable pub stop_probe : M History (List Line)
  stop_probe = do
    ended ← ask w.on_poll poll
    when (not ended) (catch_kind is_process_lookup (ask w.on_signal sigterm) (λ _. pure tt))
    catch_kind is_timeout (ask w.on_communicate (communicate stop_limit))
        (λ _. do ask w.on_signal sigkill; ask w.on_communicate (communicate stop_limit))

  -- The two handlers of `run_probe`
  abbrev pub stop_after : Exn → Kind → M History Wait
  stop_after e timeout_expired = do
    output ← stop_probe
    pure (record { output = output; error = some "검사 제한 시간을 초과했습니다"; interrupted = false })
  stop_after e keyboard_interrupt = do
    output ← stop_probe
    pure (record { output = output; error = some "사용자가 검사를 중단했습니다"; interrupted = true })
  stop_after e _ = raise e

  abbrev pub wait_for : Num → M History Wait
  wait_for timeout =
      catch
        (do
          output ← ask w.on_communicate (communicate timeout)
          pure (record { output = output; error = none; interrupted = false }))
        (λ e. stop_after e e.kind)

  -- `process.returncode if error is None else 1`
  abbrev pub code_of : Option String → M History ℤ
  code_of none = ask w.on_return_code return_code
  code_of (some message) = pure (pos 1)

  abbrev pub measured : Bool → List Fields × Option String → M History Measured
  measured interrupted read = do
    code ← code_of read.1
    pure (record { records = with_error read; returncode = code; interrupted = interrupted })

  abbrev pub read_output : Sensor → Wait → M History Measured
  read_output sensor waited = do
    ask w.on_write (write_log sensor)
    measured waited.interrupted (read_lines waited.output waited.error)

  unfoldable pub run_probe : Sensor → List String → Num → M History Measured
  run_probe sensor command timeout = do
    ask w.on_spawn (spawn command)
    waited ← wait_for timeout
    read_output sensor waited
