-- ===== src/Policy/Validate.antt =====
-- Validation of a document before it is compiled: mcp-proxy/src/policy/validate.rs.
use Prim.Native.String.{String}
use text.Mathlib.Text.{starts_with}
use sqreen_core.Prelude.{
  ℕ, suc, ◌&◌, str_eq, Bool, not, ◌&&◌, ◌||◌, List, [], ◌∷◌, map, contains, is_empty, if◌then◌else◌,
}
use sqreen_core.Policy.Schema.{
  schema_legacy, schema_2026_3, PolicyRule, PolicyConfig, PolicyError, Fallible, ok, err, ◌>>=◌,
  ◌>>◌, bail_if,
}

-- `SUPPORTED_SCHEMA_VERSIONS`
abbrev pub supported_schema_versions : List String
supported_schema_versions = schema_legacy ∷ schema_2026_3 ∷ []

-- `match_ctx::DOCUMENTED_MATCH_FIELDS`
abbrev pub documented_match_fields : List String
documented_match_fields =
    "action" ∷ "agent.anonymous" ∷ "agent_id" ∷ "agent.label" ∷ "agent.trust" ∷ "agent.bound_id"
    ∷ "agent.id" ∷ "agent_type" ∷ "behavior.severity" ∷ "behavior.severity_at_least"
    ∷ "behavior.signal" ∷ "environment" ∷ "labels.team" ∷ "operation" ∷ "path" ∷ "path_not_prefix"
    ∷ "path_pattern" ∷ "path_prefix" ∷ "resource.filesystem" ∷ "risk.destructive" ∷ "risk.factor"
    ∷ "risk.level" ∷ "risk.level_at_least" ∷ "risk.score_at_least" ∷ "runtime" ∷ "tool_name"
    ∷ "workspace_id" ∷ []

-- `validate_unique_names`, one loop: `prefix` is what `format!` puts before the name in `seen`
unfoldable pub unique_from :
    String → (String → PolicyError) → List String → List String → Fallible (List String)
unique_from prefix duplicate seen [] = ok seen
unique_from prefix duplicate seen (name ∷ names) =
    bail_if (contains seen (prefix & name)) (duplicate name)
    >> unique_from prefix duplicate ((prefix & name) ∷ seen) names

-- `validate_unique_names`
unfoldable pub validate_unique_names : PolicyConfig → Fallible (Unit {0})
validate_unique_names c = do
  a ← unique_from "rules:" PolicyError.duplicate_rule [] (map (λ r. r.name) c.rules)
  b ←
      unique_from "identity:" PolicyError.duplicate_identity_rule a
        (map (λ r. r.name) c.identity_rules)
  d ←
      unique_from "taxonomy:" PolicyError.duplicate_taxonomy_rule b
        (map (λ r. r.name) c.taxonomy_rules)
  e ← unique_from "tool:" PolicyError.duplicate_tool d (map (λ t. t.name) c.tools)
  ok tt

-- The fields and the families of fields that `validate_match_key` accepts, of a trimmed key
is_known_match_key : String → Bool
is_known_match_key key =
    contains documented_match_fields key
    || starts_with key "labels."
    || starts_with key "action."
    || starts_with key "resource."
    || starts_with key "risk."
    || starts_with key "behavior.signal."
    || starts_with key "risk.factor."
    || contains ("path_pattern" ∷ "path_prefix" ∷ "path_not_prefix" ∷ []) key

-- `trim` stands for `str::trim`, the library's.
module _ (trim : String → String) where
  -- `validate_match_key`; the scope is the index of the rule.
  unfoldable pub validate_match_key : ℕ → String → Fallible (Unit {0})
  unfolding is_known_match_key
  validate_match_key index key =
      let trimmed = trim key in
      if str_eq trimmed ""
      then err (PolicyError.empty_match_key index)
      else if is_known_match_key trimmed
      then ok tt
      else err (PolicyError.unknown_match_key index trimmed)

  unfoldable pub validate_match_keys : ℕ → List (String × String) → Fallible (Unit {0})
  validate_match_keys index [] = ok tt
  validate_match_keys index ((key, _) ∷ when) =
      validate_match_key index key >> validate_match_keys index when

  -- `validate_rules`, from an index on
  unfoldable pub validate_rules : ℕ → List PolicyRule → Fallible (Unit {0})
  unfolding validate_match_keys
  validate_rules index [] = ok tt
  validate_rules index (rule ∷ rules) = do
    bail_if (str_eq (trim rule.name) "") (PolicyError.empty_rule_name index)
    validate_match_keys index rule.when
    validate_rules (suc index) rules

  -- A loop of `validate_config` over the names of a section
  unfoldable pub validate_names : (ℕ → PolicyError) → ℕ → List String → Fallible (Unit {0})
  validate_names empty index [] = ok tt
  validate_names empty index (name ∷ names) =
      bail_if (str_eq (trim name) "") (empty index) >> validate_names empty (suc index) names

  -- `validate_config`
  unfoldable pub validate_config : PolicyConfig → Fallible (Unit {0})
  validate_config c = do
    bail_if (not (contains supported_schema_versions c.schema_version))
        (PolicyError.unsupported_schema_version c.schema_version)
    bail_if (str_eq (trim c.version) "") PolicyError.empty_version
    validate_unique_names c
    validate_rules 0 c.rules
    validate_names PolicyError.empty_identity_name 0 (map (λ r. r.name) c.identity_rules)
    validate_names PolicyError.empty_taxonomy_name 0 (map (λ r. r.name) c.taxonomy_rules)
    validate_names PolicyError.empty_tool_name 0 (map (λ t. t.name) c.tools)
    bail_if (str_eq c.schema_version schema_2026_3 && is_empty c.rules) PolicyError.missing_rules
    ok tt

-- `is_legacy_only`
unfoldable pub is_legacy_only : PolicyConfig → Bool
is_legacy_only c = str_eq c.schema_version schema_legacy && is_empty c.rules
