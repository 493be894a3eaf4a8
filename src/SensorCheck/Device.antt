-- ===== src/SensorCheck/Device.antt =====
-- The devices: `usb_identity`, `select_lidar_port` and `preflight`, as calls.
use lekiwi.Prelude.{
  zero, suc, Bool, true, false, not, ◌&&◌, Option, none, some, String, str_eq, starts_with, List,
  [], ◌∷◌, if◌then◌else◌,
}
use lekiwi.Effect.{
  Kind, file_not_found_error, M, pure, raise, ◌>>=◌, catch_kind, runtime_error, Reply, ask,
}
use lekiwi.Float.{Num}
use lekiwi.SensorCheck.{Outcome}
use lekiwi.SensorCheck.Record.{ℤ, pos, Json}

-- A line of a probe's output: one that does not start with `{`, one at which `json.loads` raises, and one
-- that it reads.
pub data Line : Type 0 where
  plain : Line
  broken : Line
  parsed : Json → Line

pub data Sensor : Type 0 where
  imu lidar : Sensor

-- A call on the file system, a process that was started, or the output.
pub data Call : Type 0 where
  resolve : String → Call
  device_nodes : String → Call
  read_text : String → String → Call
  glob_by_id : Call
  glob_tty : Call
  exists : String → Call
  is_char_device : String → Call
  access : String → Call
  which_fuser : Call
  run_fuser : String → String → Call
  spawn : List String → Call
  communicate : Num → Call
  poll : Call
  sigterm : Call
  sigkill : Call
  return_code : Call
  write_log : Sensor → Call
  write_samples : Sensor → Call
  open_lock : Call
  flock : Call
  validate_probes : List Sensor → Call
  make_report_dir : Call
  write_report : Bool → Bool → List (Sensor × Outcome) → Call

abbrev pub History : Type 0
History = List Call

-- What the calls answer. Of a path that was resolved: the whole path, and its last component. `on_nodes`:
-- the device's node in `/sys` and its parents. `on_read_text`: the text, stripped and in lower case.
-- `on_fuser`: the exit code and the stripped error output. `on_communicate`: the lines printed.
pub record World : Type 0 where
  pub on_resolve : History → Reply (String × String)
  pub on_nodes : History → Reply (List String)
  pub on_read_text : History → Reply String
  pub on_glob : History → Reply (List String)
  pub on_exists : History → Reply Bool
  pub on_is_char_device : History → Reply Bool
  pub on_access : History → Reply Bool
  pub on_which : History → Reply (Option String)
  pub on_fuser : History → Reply (ℤ × String)
  pub on_spawn : History → Reply (Unit {0})
  pub on_communicate : History → Reply (List Line)
  pub on_poll : History → Reply Bool
  pub on_signal : History → Reply (Unit {0})
  pub on_return_code : History → Reply ℤ
  pub on_write : History → Reply (Unit {0})
  pub on_flock : History → Reply (Unit {0})
  pub on_validate : History → Reply (Unit {0})
  pub on_make_dir : History → Reply (Unit {0})

-- `except FileNotFoundError`
abbrev pub is_not_found : Kind → Bool
is_not_found file_not_found_error = true
is_not_found _ = false

-- `== ("10c4", "ea60")`
abbrev pub is_cp2102 : Option (String × String) → Bool
is_cp2102 none = false
is_cp2102 (some (vendor, product)) = str_eq vendor "10c4" && str_eq product "ea60"

-- `found[key] = path`
unfoldable pub set_port : String → String → List (String × String) → List (String × String)
set_port key path [] = (key, path) ∷ []
set_port key path ((k, p) ∷ found) =
    if str_eq k key then (k, path) ∷ found else (k, p) ∷ set_port key path found

-- `if requested`
abbrev pub is_given : Option String → Bool
is_given none = false
is_given (some port) = not (str_eq port "")

abbrev pub port_or_empty : Option String → String
port_or_empty none = ""
port_or_empty (some port) = port

-- `next(iter(found.values()))` of one that is found
abbrev pub only_port : List (String × String) → M History String
only_port ((key, path) ∷ []) = pure path
only_port _ = raise (runtime_error "Tmini Plus CP2102 USB")

module _ (w : World) where
  -- the loop of `usb_identity`
  unfoldable pub read_identity : List String → M History (Option (String × String))
  read_identity [] = pure none
  read_identity (node ∷ nodes) =
      catch_kind is_not_found
        (do
          vendor ← ask w.on_read_text (read_text node "idVendor")
          product ← ask w.on_read_text (read_text node "idProduct")
          pure (some (vendor, product)))
        (λ _. read_identity nodes)

  unfoldable pub usb_identity : String → M History (Option (String × String))
  usb_identity device = do nodes ← ask w.on_nodes (device_nodes device); read_identity nodes

  -- the body of the loop of `select_lidar_port`, of a path that was resolved
  abbrev pub add_port :
      String
      → List (String × String)
      → Option (String × String)
      → M History (List (String × String))
  add_port path found none = pure found
  add_port path found (some (resolved, name)) =
      if starts_with name "ttyUSB"
      then (do
        identity ← usb_identity resolved
        pure (if is_cp2102 identity then set_port resolved path found else found))
      else pure found

  abbrev pub resolve_strict : String → M History (Option (String × String))
  resolve_strict path =
      catch_kind is_not_found (do r ← ask w.on_resolve (resolve path); pure (some r))
        (λ _. pure none)

  unfoldable pub find_ports :
      List String → List (String × String) → M History (List (String × String))
  find_ports [] found = pure found
  find_ports (path ∷ paths) found = do
    resolved ← resolve_strict path
    next ← add_port path found resolved
    find_ports paths next

  abbrev pub or_tty : List String → M History (List String)
  or_tty [] = ask w.on_glob glob_tty
  or_tty (path ∷ paths) = pure (path ∷ paths)

  abbrev pub candidates : Option String → M History (List String)
  candidates requested =
      if is_given requested
      then pure (port_or_empty requested ∷ [])
      else do paths ← ask w.on_glob glob_by_id; or_tty paths

  unfoldable pub select_lidar_port : Option String → M History String
  select_lidar_port requested = do
    paths ← candidates requested
    found ← find_ports paths []
    only_port found

  -- the last part of `preflight`: what `fuser` says
  abbrev pub judge_fuser : ℤ × String → M History (Unit {0})
  judge_fuser (pos zero, stderr) = raise (runtime_error "in use")
  judge_fuser (pos (suc zero), stderr) =
      if str_eq stderr "" then pure tt else raise (runtime_error stderr)
  judge_fuser (_, stderr) = raise (runtime_error "fuser")

  abbrev pub check_free : String → Option String → M History (Unit {0})
  check_free device none = raise (runtime_error "psmisc")
  check_free device (some fuser) = do
    resolved ← ask w.on_resolve (resolve device)
    checked ← ask w.on_fuser (run_fuser fuser resolved.0)
    judge_fuser checked

  -- What follows each test of `preflight`
  abbrev pub when_allowed : String → Bool → M History (Unit {0})
  when_allowed device allowed =
      if not allowed
      then raise (runtime_error "no access")
      else do fuser ← ask w.on_which which_fuser; check_free device fuser

  abbrev pub when_device : String → Bool → M History (Unit {0})
  when_device device is_device =
      if not is_device
      then raise (runtime_error "not a device")
      else do allowed ← ask w.on_access (access device); when_allowed device allowed

  abbrev pub when_found : String → Bool → M History (Unit {0})
  when_found device found = if not found then raise (runtime_error "missing") else do
    is_device ← ask w.on_is_char_device (is_char_device device)
    when_device device is_device

  unfoldable pub preflight : String → M History (Unit {0})
  preflight device = do found ← ask w.on_exists (exists device); when_found device found
