-- ===== src/TestServer/Report.antt =====
-- What `json.loads` returns, and `TestJobs.read_report`'s check of it.
use lekiwi.Prelude.{
  Bool, true, false, ◌&&◌, Option, none, some, String, str_eq, List, [], ◌∷◌, if◌then◌else◌,
}
use lekiwi.Float.{Num}

-- A dictionary of a parsed text has each key once.
mutual
  pub data Json : Type 0 where
    null : Json
    boolean : Bool → Json
    number : Num → Json
    text : String → Json
    array : Elements → Json
    object : Fields → Json

  pub data Elements : Type 0 where
    no_element : Elements
    element : Json → Elements → Elements

  pub data Fields : Type 0 where
    no_field : Fields
    field : String → Json → Fields → Fields

-- `fields.get(key)`
unfoldable pub get : String → Fields → Option Json
get key no_field = none
get key (field k v fields) = if str_eq k key then some v else get key fields

-- `value is True`
abbrev pub is_true : Option Json → Bool
is_true (some (boolean true)) = true
is_true _ = false

-- The fields of a value that is a dictionary, and of `.get(key, {})`; other values have no `get`.
abbrev pub fields_of : Option Json → Fields
fields_of (some (object fields)) = fields
fields_of _ = no_field

-- `report.get('passed') is True`
unfoldable pub passed : Json → Bool
passed report = is_true (get "passed" (fields_of (some report)))

-- `report.get('checks', {}).get(name, {}).get('passed') is True for name in names`, of all of them
unfoldable pub all_passed : List String → Json → Bool
all_passed [] report = true
all_passed (name ∷ names) report =
    is_true
      (get "passed" (fields_of (get name (fields_of (get "checks" (fields_of (some report)))))))
    && all_passed names report

-- `all(isinstance(check, dict) for check in checks.values())`
abbrev pub is_object : Json → Bool
is_object (object _) = true
is_object _ = false

unfoldable pub all_objects : Fields → Bool
all_objects no_field = true
all_objects (field _ v fields) = is_object v && all_objects fields

-- `report.get('checks', {})` is a dictionary of dictionaries.
unfoldable pub checks_valid : Option Json → Bool
checks_valid none = true
checks_valid (some (object checks)) = all_objects checks
checks_valid (some _) = false

-- The condition under which `read_report` returns the report.
unfoldable pub structure_valid : Json → Bool
structure_valid (object fields) = checks_valid (get "checks" fields)
structure_valid _ = false
