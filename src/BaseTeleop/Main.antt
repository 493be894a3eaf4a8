-- ===== src/BaseTeleop/Main.antt =====
-- `publish_stop_command`, the node's answer to a key, and `main` with its loop on fuel.
use lekiwi.Prelude.{
  ℕ, zero, suc, Bool, true, false, Option, none, some, String, List, [], ◌∷◌, if◌then◌else◌,
}
use lekiwi.Float.{Num}
use lekiwi.Float.Fpu.{Fpu}
use lekiwi.Effect.{
  Exn, value_error, M, pure, raise, out_of_fuel, ◌>>=◌, ◌>>◌, when, repeat, finally_with,
  catch_kind, is_keyboard_interrupt, Reply,
}
use lekiwi.Effect.State.{modify, reads, request}
use lekiwi.MotorSession.{Motion, stop}
use lekiwi.BaseTeleop.{Mapper, Effect, exits, adjusts, publishes, ignores, refuses, publish_for_key}

pub data Call : Type 0 where
  create_node : Call
  set_raw : Call
  restore_terminal : Call
  is_ok : Call
  spin : Call
  read_key : Call
  publish : Motion → Call
  sleep : Num → Call
  log : Call
  destroy_node : Call
  shutdown : Call

-- `on_create`: the node's mapper, made of its parameters. `on_read_key`: the key, or `none` after 0.1 s.
pub record World : Type 0 where
  pub on_create : List Call → Reply Mapper
  pub on_terminal : List Call → Reply (Unit {0})
  pub on_ok : List Call → Reply Bool
  pub on_spin : List Call → Reply (Unit {0})
  pub on_read_key : List Call → Reply (Option String)
  pub on_publish : List Call → Reply (Unit {0})
  pub on_sleep : List Call → Reply (Unit {0})
  pub on_log : List Call → Reply (Unit {0})
  pub on_end : List Call → Reply (Unit {0})

-- The node's mapper, if there is a node, and the calls so far, latest first.
pub record State : Type 0 where
  pub mapper : Option Mapper
  pub calls : List Call

-- 0.02
abbrev pub sleep_sec : Num
sleep_sec = 0x3f947ae147ae147b

abbrev pub noted : Call → State → State
noted c s = record s { calls = c ∷ s.calls }

abbrev pub set_mapper : Mapper → State → State
set_mapper m s = record s { mapper = some m }

-- The ValueError of a new mapper
abbrev pub invalid_mapper : Exn
invalid_mapper = record { kind = value_error; message = ""; notes = [] }

abbrev pub is_some : Option Mapper → Bool
is_some none = false
is_some (some m) = true

module _ (w : World) where
  unfoldable pub call : {A : Type 0} → (List Call → Reply A) → Call → M State A
  unfolding request
  call reply c = request (λ s. reply s.calls) (noted c)

  abbrev pub stop_once : M State (Unit {0})
  stop_once = do call w.on_publish (publish stop); call w.on_sleep (sleep sleep_sec)

  -- `publish_stop_command`, with its three commands
  unfoldable pub publish_stop : M State (Unit {0})
  publish_stop = repeat 3 stop_once

  -- What `publish_for_key` does and answers
  unfoldable pub perform : Effect → M State Bool
  perform exits = do publish_stop; pure false
  perform (adjusts m) = do modify (set_mapper m); call w.on_log log; pure true
  perform (publishes motion) = do call w.on_publish (publish motion); pure true
  perform ignores = pure true
  perform refuses = raise invalid_mapper

  module _ ⦃u : Fpu⦄ where
    abbrev pub press_with : String → Option Mapper → M State Bool
    press_with key none = pure true
    press_with key (some m) = perform (publish_for_key m key)

    -- A key that was read, if one was: whether the loop goes on
    abbrev pub take_key : Option String → M State Bool
    take_key none = pure true
    take_key (some key) = reads λ s. press_with key s.mapper

    abbrev pub go_on_if : M State (Unit {0}) → Bool → M State (Unit {0})
    go_on_if more go_on = if go_on then more else pure tt

    abbrev pub turn : M State (Unit {0}) → Bool → M State (Unit {0})
    turn more ok =
        if ok
        then (do
          call w.on_spin spin
          key ← call w.on_read_key read_key
          go_on ← take_key key
          go_on_if more go_on)
        else pure tt

    unfoldable pub drive : ℕ → M State (Unit {0})
    drive zero = out_of_fuel
    drive (suc fuel) = do ok ← call w.on_ok is_ok; turn (drive fuel) ok

    abbrev pub drive_raw : ℕ → M State (Unit {0})
    drive_raw fuel = do
      call w.on_terminal set_raw
      finally_with (drive fuel) (λ e. do call w.on_terminal restore_terminal; pure e)

    -- The `try` block with its handler
    unfoldable pub attempt_drive : ℕ → M State (Unit {0})
    attempt_drive fuel =
        catch_kind is_keyboard_interrupt
          (do m ← call w.on_create create_node; modify (set_mapper m); drive_raw fuel)
          (λ e. pure tt)

  abbrev pub release_node : M State (Unit {0})
  release_node = do publish_stop; call w.on_end destroy_node

  abbrev pub cleanup : Bool → M State (Unit {0})
  cleanup has_node = do when has_node release_node; call w.on_end shutdown

  abbrev pub finish : Option Exn → M State (Option Exn)
  finish e = do reads λ s. cleanup (is_some s.mapper); pure e

  module _ ⦃u : Fpu⦄ where
    unfoldable pub main : ℕ → M State (Unit {0})
    main fuel = finally_with (attempt_drive fuel) finish

-- The state at the `try`
abbrev pub at_start : State
at_start = record { mapper = none; calls = [] }
