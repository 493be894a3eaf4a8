-- ===== src/SensorCheck/Clean.antt =====
-- A probe whose wait failed leaves an error record and the exit code 1.
use lekiwi.Prelude.{
  ap, sym, ◌∙◌, false≢true, ◌≡◌, refl, Bool, true, false, Option, none, some, String, List, [], ◌∷◌,
  ◌++◌, ◌⊎◌, inl, inr, arith,
}
use lekiwi.Float.{Num}
use lekiwi.Effect.{
  Exn, Kind, keyboard_interrupt, timeout_expired, exception, runtime_failure, process_lookup_error,
  file_not_found_error, blocking_io_error, os_error, value_error, other_base_exception, answer, ask,
}
use lekiwi.Effect.Triple.{
  Post, Triple-weaken, Triple, Triple-bind, Triple-pure, Triple-raise, Triple-ask, Triple-any,
}
use lekiwi.Effect.State.{Triple-catch}
use lekiwi.SensorCheck.Record.{
  pos, Fields, has_type, some_of, get, null, boolean, whole, real, text, array, object,
}
use lekiwi.SensorCheck.Device.{
  spawn, write_log, return_code, communicate, Line, plain, broken, parsed, Sensor, History, World,
}
use lekiwi.SensorCheck.Probe.{
  Wait, Measured, read_lines, error_record, with_error, stop_probe, stop_after, wait_for, measured,
  run_probe,
}

some_of-last :
    (test : Fields → Bool) (rs : List Fields) (r : Fields)
    → test r ≡ true
    → some_of test (rs ++ r ∷ []) ≡ true
unfolding some_of
some_of-last test [] r h = ground arith
some_of-last test (s ∷ rs) r h = ground (arith, some_of-last test rs r h)

error-marked : (message : String) → has_type "error" (error_record message) ≡ true
unfolding has_type get
error-marked message = refl

-- An error of the wait is an error of the lines too.
read_lines-error :
    (lines : List Line) (message : String)
    → (m : String) × ((read_lines lines (some message)).1 ≡ some m)
unfolding read_lines
read_lines-error [] message = (message, refl)
read_lines-error (plain ∷ lines) message = read_lines-error lines message
read_lines-error (broken ∷ lines) message = read_lines-error lines _
read_lines-error (parsed (object r) ∷ lines) message = read_lines-error lines message
read_lines-error (parsed null ∷ lines) message = read_lines-error lines message
read_lines-error (parsed (boolean b) ∷ lines) message = read_lines-error lines message
read_lines-error (parsed (whole i) ∷ lines) message = read_lines-error lines message
read_lines-error (parsed (real x) ∷ lines) message = read_lines-error lines message
read_lines-error (parsed (text t) ∷ lines) message = read_lines-error lines message
read_lines-error (parsed (array vs) ∷ lines) message = read_lines-error lines message

-- Each line of the output that starts with a brace is JSON.
abbrev pub IsUnbroken : List Line → Type 0
IsUnbroken [] = Unit
IsUnbroken (plain ∷ lines) = IsUnbroken lines
IsUnbroken (broken ∷ lines) = ⊥
IsUnbroken (parsed v ∷ lines) = IsUnbroken lines

-- The objects among the lines, in order
abbrev pub objects : List Line → List Fields
objects [] = []
objects (parsed (object r) ∷ lines) = r ∷ objects lines
objects (_ ∷ lines) = objects lines

read_lines-IsUnbroken :
    (lines : List Line)
    → (read_lines lines none).1 ≡ none
    → IsUnbroken lines × ((read_lines lines none).0 ≡ objects lines)
unfolding read_lines
read_lines-IsUnbroken [] e = (tt, refl)
read_lines-IsUnbroken (plain ∷ lines) e = read_lines-IsUnbroken lines e
read_lines-IsUnbroken (broken ∷ lines) e =
    let (m, h) = read_lines-error lines "측정 프로그램이 잘못된 JSON을 출력했습니다" in absurd (cc (e, h))
read_lines-IsUnbroken (parsed (object r) ∷ lines) e =
    let (unbroken, same) = read_lines-IsUnbroken lines e in (unbroken, ap (λ rs. r ∷ rs) same)
read_lines-IsUnbroken (parsed null ∷ lines) e = read_lines-IsUnbroken lines e
read_lines-IsUnbroken (parsed (boolean b) ∷ lines) e = read_lines-IsUnbroken lines e
read_lines-IsUnbroken (parsed (whole i) ∷ lines) e = read_lines-IsUnbroken lines e
read_lines-IsUnbroken (parsed (real x) ∷ lines) e = read_lines-IsUnbroken lines e
read_lines-IsUnbroken (parsed (text t) ∷ lines) e = read_lines-IsUnbroken lines e
read_lines-IsUnbroken (parsed (array vs) ∷ lines) e = read_lines-IsUnbroken lines e

-- A probe left an error record and the exit code 1.
pub record IsSpoiled (m : Measured) : Type 0 where
  pub marked : some_of (has_type "error") m.records ≡ true
  pub code : m.returncode ≡ pos 1

module _ (w : World) (timeout : Num) (sensor : Sensor) (command : List String) where
  -- The calls of a probe whose output came in time: up to the output, and up to the log that holds it
  abbrev awaited : History → History
  awaited before = communicate timeout ∷ spawn command ∷ before

  abbrev logged : History → History
  logged before = write_log sensor ∷ awaited before

  -- The output of the probe that was started with the command came in time, all its lines were read, the
  -- records are those of the lines, and the exit code is that of the same process.
  pub record IsComplete (m : Measured) : Type 0 where
    pub output : List Line
    pub before : History
    pub in_time : w.on_communicate (communicate timeout ∷ spawn command ∷ before) ≡ answer output
    pub unbroken : IsUnbroken output
    pub read : m.records ≡ objects output
    pub exited :
        w.on_return_code
          (return_code ∷ write_log sensor ∷ communicate timeout ∷ spawn command ∷ before)
        ≡ answer m.returncode
    pub not_interrupted : m.interrupted ≡ false

  -- What the first wait hands over, with the calls up to then
  abbrev IsAwaited : (History → History) → Wait → History → Type 0
  IsAwaited calls waited h =
      ((before : History) × (h ≡ calls before)
        × (w.on_communicate (awaited before) ≡ answer waited.output)
        × (waited.error ≡ none)
        × (waited.interrupted ≡ false))
      ⊎ ((message : String) × (waited.error ≡ some message))

  abbrev pub IsRead : Measured → Type 0
  IsRead m = IsComplete m ⊎ IsSpoiled m

  abbrev Anything : History → Type 0
  Anything _ = Unit

  abbrev Waited : Wait → History → Type 0
  Waited waited h = IsAwaited awaited waited h

  abbrev Started : History → Type 0
  Started h = (before : History) × (h ≡ spawn command ∷ before)

  stop_after-Waited : (e : Exn) (k : Kind) → Triple Anything (stop_after w e k) Waited Anything
  stop_after-Waited e timeout_expired =
      Triple-bind (Triple-any (stop_probe w)) (λ _. Triple-pure (λ s p. inr (_, refl)))
  stop_after-Waited e keyboard_interrupt =
      Triple-bind (Triple-any (stop_probe w)) (λ _. Triple-pure (λ s p. inr (_, refl)))
  stop_after-Waited e exception = Triple-raise (λ s p. p)
  stop_after-Waited e runtime_failure = Triple-raise (λ s p. p)
  stop_after-Waited e process_lookup_error = Triple-raise (λ s p. p)
  stop_after-Waited e file_not_found_error = Triple-raise (λ s p. p)
  stop_after-Waited e blocking_io_error = Triple-raise (λ s p. p)
  stop_after-Waited e os_error = Triple-raise (λ s p. p)
  stop_after-Waited e value_error = Triple-raise (λ s p. p)
  stop_after-Waited e other_base_exception = Triple-raise (λ s p. p)

  waiting : Triple Started (wait_for w timeout) Waited Anything
  waiting =
      Triple-catch {I = Anything}
        (Triple-bind
          {Q = λ output h.
            (before : History) × (h ≡ awaited before)
            × (w.on_communicate (awaited before) ≡ answer output)}
          (Triple-ask w.on_communicate (communicate timeout)
            (λ h a p e. (
              p.0,
              ap (λ t. communicate timeout ∷ t) p.1,
              sym (ap (λ t. w.on_communicate (communicate timeout ∷ t)) p.1) ∙ e,
            ))
            (λ h e p q. tt))
          (λ output. Triple-pure (λ s p. inl (p.0, p.1, p.2, refl, refl))))
        (λ e. stop_after-Waited e e.kind) (λ s p. p)

  marked :
      (records : List Fields) (message : String)
      → some_of (has_type "error") (records ++ error_record message ∷ []) ≡ true
  marked records message =
      some_of-last (has_type "error") records (error_record message) (error-marked message)

  abbrev Read : Measured → History → Type 0
  Read m _ = IsRead m

  spoiled :
      (interrupted : Bool) (records : List Fields) (message : String)
      → Triple Anything (measured w interrupted (records, some message)) Read Anything
  spoiled interrupted records message =
      Triple-bind (Triple-pure {Q = λ code _. code ≡ pos 1} (λ s p. refl)) λ code.
        Triple-pure
          {a = record {
            records = with_error (records, some message);
            returncode = code;
            interrupted = interrupted;
          }}
          (λ s p. inr (record { marked = marked records message; code = p }))

  -- What is read of an output that came in time is complete, unless a line is broken.
  measured-IsComplete :
      (output : List Line) (before : History) (read : List Fields × Option String)
      → w.on_communicate (awaited before) ≡ answer output
      → read_lines output none ≡ read
      → Triple (λ h. h ≡ logged before) (measured w false read) Read Anything
  measured-IsComplete output before (records, none) in_time eq =
      Triple-bind {Q = λ code _. w.on_return_code (return_code ∷ logged before) ≡ answer code}
        (Triple-ask w.on_return_code return_code
          (λ h a p e. sym (ap (λ t. w.on_return_code (return_code ∷ t)) p) ∙ e) (λ h e p q. tt))
        λ code.
          Triple-pure {a = record { records = records; returncode = code; interrupted = false }}
            (λ s p. inl (record {
              output = output;
              before = before;
              in_time = in_time;
              unbroken = (read_lines-IsUnbroken output (ap (λ r. r.1) eq)).0;
              read = sym (ap (λ r. r.0) eq) ∙ (read_lines-IsUnbroken output (ap (λ r. r.1) eq)).1;
              exited = p;
              not_interrupted = refl;
            }))
  measured-IsComplete output before (records, some message) in_time eq =
      Triple-weaken (spoiled false records message) (λ s p. tt) (λ _ s p. p) (λ s p. p)

  -- A wait that failed spoils it, whatever the lines are.
  measured-spoiled :
      (interrupted : Bool) (read : List Fields × Option String)
      → (m : String) × (read.1 ≡ some m)
      → Triple Anything (measured w interrupted read) Read Anything
  measured-spoiled interrupted (records, none) (m, h) = cc h
  measured-spoiled interrupted (records, some message) h = spoiled interrupted records message

  waited-Read :
      (waited : Wait)
      → Triple
          (IsAwaited logged waited)
          (measured w waited.interrupted (read_lines waited.output waited.error))
          Read
          Anything
  waited-Read waited = record { holds = λ s p. go waited.error waited.interrupted refl refl s p }
    where
      go :
          (error : Option String) (interrupted : Bool)
          → waited.error ≡ error
          → waited.interrupted ≡ interrupted
          → (h : History) → IsAwaited logged waited h
          → Post {S = History} Read Anything
              (measured w interrupted (read_lines waited.output error) h)
      go none false _ _ h (inl (before, at, in_time, _, _)) =
          (measured-IsComplete waited.output before (read_lines waited.output none) in_time
              refl).holds
            h at
      go none true _ i h (inl (before, at, in_time, e, j)) = absurd (false≢true (sym j ∙ i))
      go none interrupted e _ h (inr (message, f)) = absurd (cc (e, f))
      go (some message) interrupted _ _ h _ =
          (measured-spoiled interrupted (read_lines waited.output (some message))
              (read_lines-error waited.output message)).holds
            h tt

  logging :
      (waited : Wait)
      → Triple
          (Waited waited)
          (ask w.on_write (write_log sensor))
          (λ _. IsAwaited logged waited)
          Anything
  logging waited = Triple-ask w.on_write (write_log sensor) (λ h a p e. go h p) (λ h e p q. tt)
    where
      go : (h : History) → Waited waited h → IsAwaited logged waited (write_log sensor ∷ h)
      go h (inl p) = inl (p.0, ap (λ t. write_log sensor ∷ t) p.1, p.2, p.3, p.4)
      go h (inr failed) = inr failed

  -- A probe that returns either came in time with every line read, or left an error record.
  pub run_probe-Read : Triple Anything (run_probe w sensor command timeout) Read Anything
  unfolding run_probe
  run_probe-Read =
      Triple-bind {Q = λ _. Started}
        (Triple-ask w.on_spawn (spawn command) (λ h a p e. (h, refl)) (λ h e p q. tt))
        (λ _.
          Triple-bind waiting (λ waited. Triple-bind (logging waited) (λ _. waited-Read waited)))
