-- ===== src/GuardedTeleop/Window.antt =====
-- `HoldTeleopWindow`: key presses, releases and the focus of the window as events, and the tick.
pub mod Handlers
pub mod Keeps
pub mod Still
pub mod Envelope
pub mod Closing
mod Tests
use lekiwi.Prelude.{
  ℕ, Bool, true, false, not, ◌&&◌, ◌||◌, Option, none, some, String, str_eq, List, [], ◌∷◌, map,
  if◌then◌else◌,
}
use lekiwi.Float.{Num, le}
use lekiwi.Float.Fpu.{Fpu}
use lekiwi.Effect.{
  Exn, exception, M, Outcome, value, raised, pure, raise, ◌>>=◌, ◌>>◌, when, finally_with, catch,
  runtime_error, Reply, outcome,
}
use lekiwi.Effect.State.{request}
use lekiwi.MotorSession.{Motion, stop}
use lekiwi.GuardedTeleop.HeldKeys.{
  HeldKeys, initial, is_direction, contains, remove, active_key, clear, press, release, next_motion,
}

-- The calls of the window on the endpoint, the window system and the clock. The status line shows the
-- stage and the active key.
pub data Call : Type 0 where
  publish : Motion → Call
  cancel : ℕ → Call
  after_release : String → Call
  after_tick : Call
  status : ℕ → Option String → Call
  quit : Call
  spin : Call
  clock : Call

-- `after` answers the timer's number, and `spin` the value of `motor_ready` after the callbacks.
pub record Desktop : Type 0 where
  pub on_publish : List Call → Reply (Unit {0})
  pub on_cancel : List Call → Reply (Unit {0})
  pub on_after : List Call → Reply ℕ
  pub on_status : List Call → Reply (Unit {0})
  pub on_quit : List Call → Reply (Unit {0})
  pub on_spin : List Call → Reply (Option Bool)
  pub on_clock : List Call → Reply Num

-- The fields of the window that change, and the calls so far, latest first.
pub record Window : Type 0 where
  pub profile : HeldKeys
  pub pending_releases : List (String × ℕ)
  pub blocked_until_release : List String
  pub closed : Bool
  pub error : Option Exn
  pub calls : List Call

-- `__init__`
unfoldable pub opened : Window
opened = record {
  profile = initial;
  pending_releases = [];
  blocked_until_release = [];
  closed = false;
  error = none;
  calls = [];
}

-- The set's `update`: each key is added once.
unfoldable pub update : List String → List String → List String
update blocked [] = blocked
update blocked (key ∷ keys) =
    if contains key blocked then update blocked keys else update (key ∷ blocked) keys

-- `pending.get(key)` and the dictionary without the key
unfoldable pub timer_of : String → List (String × ℕ) → Option ℕ
timer_of key [] = none
timer_of key ((k, timer) ∷ pending) = if str_eq k key then some timer else timer_of key pending

unfoldable pub without : String → List (String × ℕ) → List (String × ℕ)
without key [] = []
without key ((k, timer) ∷ pending) =
    if str_eq k key then without key pending else (k, timer) ∷ without key pending

abbrev pub timers : List (String × ℕ) → List ℕ
timers [] = []
timers ((_, timer) ∷ pending) = timer ∷ timers pending

unfoldable pub call : {A : Type 0} → (List Call → Reply A) → Call → M Window A
unfolding request
call reply c = request (λ s. reply s.calls) (λ s. record s { calls = c ∷ s.calls })

-- A method of the profile that answers whether something changed.
unfoldable pub on_profile : (HeldKeys → HeldKeys × Bool) → M Window Bool
on_profile f s = (value (f s.profile).1, record s { profile = (f s.profile).0 })

-- `motor_ready is False`
abbrev pub is_false : Option Bool → Bool
is_false (some false) = true
is_false _ = false

abbrev pub key_error : Exn
key_error = record { kind = exception; message = ""; notes = [] }
