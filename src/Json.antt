-- ===== src/Json.antt =====
-- JSON values, as `serde_json::Value` has them: objects and arrays are lists of their own.
use sqreen_core.Prelude.{String, str_eq, Bool, Option, none, some, if◌then◌else◌}

mutual
  pub data Value : Type 0 where
    null : Value
    bool : Bool → Value
    number : String → Value
    string : String → Value
    array : Items → Value
    object : Fields → Value

  pub data Items : Type 0 where
    nil : Items
    cons : Value → Items → Items

  pub data Fields : Type 0 where
    end : Fields
    field : String → Value → Fields → Fields

-- `Map::get`
abbrev pub get : String → Fields → Option Value
get key end = none
get key (field k v fs) = if str_eq k key then some v else get key fs

-- `Value::as_object`
abbrev pub as_object : Value → Option Fields
as_object (object fs) = some fs
as_object _ = none

-- `Value::as_str`
abbrev pub as_str : Value → Option String
as_str (string s) = some s
as_str _ = none

-- The answer of `serde_json::from_str`: a value, or the text of the error
pub data Parsed : Type 0 where
  parsed : Value → Parsed
  malformed : String → Parsed
