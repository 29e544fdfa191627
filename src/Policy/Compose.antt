-- ===== src/Policy/Compose.antt =====
-- The overlay of documents: mcp-proxy/src/policy/compose.rs. A hash set is a list without
-- repetitions and a hash map a list with one entry for each key; Rust leaves their order open.
pub mod Tools
pub mod Sets
pub mod Maps
pub mod Tighten
pub mod Effective
use sqreen_core.Prelude.{
  ℕ, ltb, min, String, str_eq, Bool, true, false, not, ◌&&◌, Option, none, some, List, [], ◌∷◌,
  ◌++◌, any, all, contains, if◌then◌else◌,
}
use sqreen_core.Policy.Schema.{
  schema_legacy, PolicyMode, PolicyAction, LegacyRule, PolicyRule, ToolPolicy, PolicyConfig,
}
use Tools.{action_severity, merge_tool, entry, collect, lookup, extend_set, set_of}

-- `tools.entry(name).and_modify(…).or_insert_with(…)` for each tool of the overlay
unfoldable pub overlay_tools : List ToolPolicy → List ToolPolicy → List ToolPolicy
overlay_tools m [] = m
overlay_tools m (t ∷ ts) = overlay_tools (entry merge_tool t m) ts

-- The mode of an overlay
unfoldable pub overlay_mode : PolicyMode → PolicyMode → PolicyMode
overlay_mode PolicyMode.enforce _ = PolicyMode.enforce
overlay_mode PolicyMode.audit m = m

-- Appends the rules whose name is new
unfoldable pub add_legacy_rules : List LegacyRule → List LegacyRule → List LegacyRule
add_legacy_rules rules [] = rules
add_legacy_rules rules (r ∷ rs) =
    add_legacy_rules (if any (λ e. str_eq e.name r.name) rules then rules else rules ++ r ∷ []) rs

unfoldable pub add_rules : List PolicyRule → List PolicyRule → List PolicyRule
add_rules rules [] = rules
add_rules rules (r ∷ rs) =
    add_rules (if any (λ e. str_eq e.name r.name) rules then rules else rules ++ r ∷ []) rs

abbrev is_legacy : String → Bool
is_legacy version = str_eq version schema_legacy

-- `overlay_globals_tools_legacy`
unfoldable pub overlay_globals_tools_legacy : PolicyConfig → PolicyConfig → PolicyConfig
overlay_globals_tools_legacy base overlay = record {
  version = overlay.version;
  schema_version =
      if not (is_legacy overlay.schema_version)
      then overlay.schema_version
      else base.schema_version;
  mode = overlay_mode base.mode overlay.mode;
  rules = add_rules base.rules overlay.rules;
  global = record {
    redact_keys = extend_set (set_of base.global.redact_keys) overlay.global.redact_keys;
    risk_threshold = min base.global.risk_threshold overlay.global.risk_threshold;
    block_patterns = extend_set (set_of base.global.block_patterns) overlay.global.block_patterns;
  };
  identity_rules = add_legacy_rules base.identity_rules overlay.identity_rules;
  taxonomy_rules = add_legacy_rules base.taxonomy_rules overlay.taxonomy_rules;
  tools = overlay_tools (collect [] base.tools) overlay.tools;
}

abbrev overlay_local : PolicyConfig → Option PolicyConfig → PolicyConfig
overlay_local base none = base
overlay_local base (some local) = overlay_globals_tools_legacy base local

-- The version and the schema version that `overlay_globals_and_tools` sets at its end
unfoldable pub surface_metadata : PolicyConfig → PolicyConfig → Option PolicyConfig → PolicyConfig
surface_metadata merged organization none = record merged {
  rules = [];
  version = organization.version;
  schema_version =
      if not (is_legacy organization.schema_version)
      then organization.schema_version
      else merged.schema_version;
}
surface_metadata merged organization (some local) = record merged {
  rules = [];
  version = local.version;
  schema_version =
      if not (is_legacy local.schema_version)
      then local.schema_version
      else if not (is_legacy organization.schema_version)
      then organization.schema_version
      else merged.schema_version;
}

-- `overlay_globals_and_tools`
unfoldable pub overlay_globals_and_tools :
    PolicyConfig → PolicyConfig → Option PolicyConfig → PolicyConfig
unfolding surface_metadata
overlay_globals_and_tools baseline organization local =
    surface_metadata (overlay_local (overlay_globals_tools_legacy baseline organization) local)
      organization local

-- `compose_effective_policy`, over the mandatory baseline
unfoldable pub compose_effective_policy :
    PolicyConfig → PolicyConfig → Option PolicyConfig → PolicyConfig
compose_effective_policy baseline organization local =
    overlay_local (overlay_globals_tools_legacy baseline organization) local

-- The test of one tool of the baseline in `respects_mandatory_baseline`
abbrev pub is_no_weaker : List ToolPolicy → ToolPolicy → Bool
is_no_weaker candidates bt = elim (lookup bt.name candidates) [
  | none ↦ true
  | some ct ↦ not (ltb (action_severity ct.action) (action_severity bt.action))
]

-- `respects_mandatory_baseline`, over the mandatory baseline
unfoldable pub respects_mandatory_baseline : PolicyConfig → PolicyConfig → Bool
respects_mandatory_baseline baseline candidate =
    all (contains candidate.global.block_patterns) baseline.global.block_patterns
    && all (is_no_weaker (collect [] candidate.tools)) baseline.tools
    && not (ltb baseline.global.risk_threshold candidate.global.risk_threshold)
