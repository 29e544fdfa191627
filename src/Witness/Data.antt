-- ===== src/Witness/Data.antt =====
-- The concrete inputs: a host that parses every text as one call, an organization that allows what
-- the baseline denies, and actions.
use sqreen_core.Prelude.{
  ℕ, pos, String, true, false, str_eq, Option, none, some, List, [], ◌∷◌, codes,
}
use sqreen_core.Json.{Value, string, object, end, field, parsed}
use sqreen_core.Host.{Host}
use sqreen_core.Policy.Schema.{PolicyMode, RuleEffect, PolicyAction, PolicyConfig, schema_2026_3}
use sqreen_core.Policy.Compile.{
  PolicyTrustLayer, mandatory_baseline, organization, normalized, CompiledRule, CompiledPolicy,
  Predicate, path_prefix, field_equals,
}
use sqreen_core.Policy.Context.{PolicyMatchContext}
use sqreen_core.Gateway.PolicyStage.{Extended, failed}

-- The params of a call of `bash`
abbrev pub call_value : Value
call_value = object (
    field "name" (string "bash")
      (field "arguments" (object (field "token" (string "s3cret") end)) end))

abbrev pub host : Host
host = record {
  trim = λ s. s;
  to_ascii_lowercase = λ s. s;
  show_int = λ _. "0";
  as_bytes = codes;
  from_utf8 = λ _. some "{}";
  regex_valid = λ _. true;
  is_match = str_eq;
  parse_json = λ _. parsed call_value;
  print_json = λ _. "{}";
}

abbrev pub same_text : String → String
same_text s = s

abbrev pub no_panic : CompiledPolicy → PolicyMatchContext → Option String
no_panic _ _ = none

abbrev pub utf8_error : List ℕ → String
utf8_error _ = "invalid utf-8 sequence"

abbrev pub ctx : PolicyMatchContext
ctx = record {
  tool_name = "bash";
  canonical_arguments = "params";
  paths = "/etc/passwd" ∷ [];
  expand_home = λ s. s;
  matches_field_equals = λ field value. str_eq value "true";
  agent_trust_can_grant_privilege = false;
}

abbrev pub rule : String → ℕ → RuleEffect → List Predicate → PolicyTrustLayer → ℕ → CompiledRule
rule name priority effect predicates layer order = record {
  id = name;
  name = name;
  priority = pos priority;
  order = order;
  effect = effect;
  description = none;
  tools = "bash" ∷ [];
  predicates = predicates;
  source = normalized;
  trust_layer = layer;
}

-- A deny of the baseline, and a stronger priority for an allow of the organization
abbrev pub deny_etc : CompiledRule
deny_etc = rule "deny-etc" 100 RuleEffect.deny (path_prefix "/etc" ∷ []) mandatory_baseline 0

abbrev pub allow_all : CompiledRule
allow_all = rule "allow-all" 9000 RuleEffect.allow [] organization 1

abbrev pub allow_agent : CompiledRule
allow_agent =
    rule "allow-agent" 9000 RuleEffect.allow (field_equals "agent_id" "true" ∷ []) organization 1

abbrev pub policy : PolicyMode → List CompiledRule → CompiledPolicy
policy mode rules = record {
  version = "7";
  schema_version = schema_2026_3;
  mode = mode;
  rules = rules;
  redact_keys = "token" ∷ [];
  risk_threshold = 70;
}

abbrev pub layered : CompiledPolicy
layered = policy PolicyMode.enforce (deny_etc ∷ allow_all ∷ [])

-- An organization's document with one rule
abbrev pub org_config : PolicyConfig
org_config = record {
  version = "7";
  schema_version = schema_2026_3;
  mode = PolicyMode.audit;
  rules =
      record {
        name = "allow-all";
        priority = pos 9000;
        effect = RuleEffect.allow;
        description = none;
        when = [];
        tools = [];
      }
      ∷ [];
  global = record { redact_keys = []; risk_threshold = 99; block_patterns = "rm -rf" ∷ [] };
  identity_rules = [];
  taxonomy_rules = [];
  tools = record { name = "bash"; action = PolicyAction.allow; block_patterns = [] } ∷ [];
}

-- A baseline document with one rule
abbrev pub base_config : PolicyConfig
base_config = record org_config {
  mode = PolicyMode.enforce;
  rules =
      record {
        name = "deny-etc";
        priority = pos 100;
        effect = RuleEffect.deny;
        description = none;
        when = ("path_prefix", "/etc") ∷ [];
        tools = "bash" ∷ [];
      }
      ∷ [];
  tools = [];
}

-- An extension that is out of order
abbrev pub broken_extension : Option (String → String → Extended)
broken_extension = some (λ _ _. failed "trap")
