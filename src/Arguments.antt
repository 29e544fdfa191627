-- ===== src/Arguments.antt =====
-- The parsing of `tools/call` params: `Arguments` of mcp-proxy/src/action.rs.
use sqreen_core.Prelude.{String, ◌&◌, str_eq, Option, none, some, if◌then◌else◌}
use sqreen_core.Json.{Value, Fields, null, get, as_object, as_str, parsed, malformed}
use sqreen_core.Host.{Host}

-- The constructors of `ActionValidationError` that the parser gives
pub data ActionValidationError : Type 0 where
  malformed_arguments : String → ActionValidationError
  arguments_not_object missing_tool_name empty_tool_name : ActionValidationError

-- `Display` of those
unfoldable pub display : ActionValidationError → String
display (malformed_arguments detail) = "arguments were not valid json: " & detail
display arguments_not_object = "arguments payload was not a json object"
display missing_tool_name = "arguments payload had no string `name` field"
display empty_tool_name = "tool name was empty"

-- `Arguments`
pub record Arguments : Type 0 where
  pub canonical : String
  pub parsed : Value

pub data ParamsResult : Type 0 where
  ok : String → Arguments → ParamsResult
  err : ActionValidationError → ParamsResult

abbrev or_null : Option Value → Value
or_null none = null
or_null (some v) = v

-- The name of an object of params, if it is a text
abbrev pub declared_name : Fields → Option String
declared_name object = elim (get "name" object) [ none ↦ none | some v ↦ as_str v ]

-- `Arguments::from_canonical_params`, of an object
unfoldable pub params_of_object : Host → String → Fields → ParamsResult
params_of_object host params_json object = elim (declared_name object) [
  | none ↦ err missing_tool_name
  | some name ↦
      if str_eq (host.trim name) ""
      then err empty_tool_name
      else ok name (record { canonical = params_json; parsed = or_null (get "arguments" object) })
]

-- `Arguments::from_canonical_params`
unfoldable pub from_canonical_params : Host → String → ParamsResult
unfolding params_of_object
from_canonical_params host params_json = elim (host.parse_json params_json) [
  | malformed detail ↦ err (malformed_arguments detail)
  | parsed root ↦ elim (as_object root) [
    | none ↦ err arguments_not_object
    | some object ↦ params_of_object host params_json object
  ]
]
