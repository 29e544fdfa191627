-- ===== src/Policy/Redact.antt =====
-- Redaction of JSON by key: mcp-proxy/src/policy/redact.rs, with the canonical key names of
-- mcp-proxy/src/security_baseline/sensitive_keys.rs.
pub mod Clean
pub mod Kept
use sqreen_core.Prelude.{
  ℕ, leb, ◌+◌, ◌==◌, String, codes, codes_eq, trim, to_lower, Bool, true, false, ◌||◌, List, [],
  ◌∷◌, map, if◌then◌else◌,
}
use sqreen_core.Json.{
  Value, Items, Fields, null, bool, number, string, array, object, nil, cons, end, field, parsed,
  malformed,
}
use sqreen_core.Host.{Host}

-- One character of `canonicalize_key_name`: `-` and the space become `_`.
canonical_char : ℕ → ℕ
canonical_char c = if c == 45 || c == 32 then 95 else to_lower c

-- `canonicalize_key_name`, as code points
unfoldable pub canonicalize_key_name : String → List ℕ
unfolding canonical_char trim to_lower
canonicalize_key_name key = map canonical_char (trim (codes key))

-- `policy_keys_to_canonical_set`
unfoldable pub policy_keys_to_canonical_set : List String → List (List ℕ)
policy_keys_to_canonical_set = map canonicalize_key_name

-- `HashSet::contains`
unfoldable pub has_key : List (List ℕ) → List ℕ → Bool
has_key [] k = false
has_key (c ∷ cs) k = codes_eq c k || has_key cs k

abbrev pub redacted : Value
redacted = string "[REDACTED]"

module _ (keys : List (List ℕ)) where
  -- Is the key of an entry to be redacted?
  unfoldable pub is_sensitive : String → Bool
  is_sensitive key = has_key keys (canonicalize_key_name key)

  -- `redact_value_ci`
  unfoldable mutual
    pub redact_value_ci : Value → Value
    redact_value_ci (object fs) = object (redact_fields fs)
    redact_value_ci (array xs) = array (redact_items xs)
    redact_value_ci null = null
    redact_value_ci (bool b) = bool b
    redact_value_ci (number n) = number n
    redact_value_ci (string s) = string s

    pub redact_items : Items → Items
    redact_items nil = nil
    redact_items (cons v xs) = cons (redact_value_ci v) (redact_items xs)

    pub redact_fields : Fields → Fields
    redact_fields end = end
    redact_fields (field k v fs) =
        field k (if is_sensitive k then redacted else redact_value_ci v) (redact_fields fs)

-- `redact_value`
unfoldable pub redact_value : Value → List String → Value
redact_value v keys = redact_value_ci (policy_keys_to_canonical_set keys) v

-- `redact_json_text`
unfoldable pub redact_json_text : Host → String → List String → List ℕ
redact_json_text host source keys = elim (host.parse_json source) [
  | parsed v ↦ host.as_bytes (host.print_json (redact_value v keys))
  | malformed _ ↦ host.as_bytes source
]
