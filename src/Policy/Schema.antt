-- ===== src/Policy/Schema.antt =====
-- Policy documents: mcp-proxy/src/policy/schema.rs. A `BTreeMap` of predicates is the list of its
-- entries in the order of its keys.
use sqreen_core.Prelude.{
  ℕ, ℤ, String, str_eq, Bool, true, false, not, ◌||◌, Option, List, is_empty, ◌≡◌, refl,
}

abbrev pub schema_legacy : String
schema_legacy = "legacy"

abbrev pub schema_2026_3 : String
schema_2026_3 = "2026.3"

-- `PolicyMode`
pub data PolicyMode : Type 0 where
  enforce audit : PolicyMode

-- `RuleEffect`
pub data RuleEffect : Type 0 where
  allow deny require_approval redact : RuleEffect

-- `RuleEffect::severity`
abbrev pub severity : RuleEffect → ℕ
severity deny = 3
severity require_approval = 2
severity redact = 1
severity allow = 0

-- `RuleEffect::as_str`
unfoldable pub effect_str : RuleEffect → String
effect_str allow = "allow"
effect_str deny = "deny"
effect_str require_approval = "require_approval"
effect_str redact = "redact"

-- `PolicyAction`
pub data PolicyAction : Type 0 where
  allow block redact confirm : PolicyAction

-- `From<PolicyAction> for RuleEffect`
unfoldable pub effect_of_action : PolicyAction → RuleEffect
effect_of_action PolicyAction.allow = RuleEffect.allow
effect_of_action PolicyAction.block = RuleEffect.deny
effect_of_action PolicyAction.redact = RuleEffect.redact
effect_of_action PolicyAction.confirm = RuleEffect.require_approval

-- `GlobalPolicy`
pub record GlobalPolicy : Type 0 where
  pub redact_keys : List String
  pub risk_threshold : ℕ
  pub block_patterns : List String

-- `PolicyRule`
pub record PolicyRule : Type 0 where
  pub name : String
  pub priority : ℤ
  pub effect : RuleEffect
  pub description : Option String
  pub when : List (String × String)
  pub tools : List String

-- `IdentityRule`, and `TaxonomyRule`, which has the same fields
pub record LegacyRule : Type 0 where
  pub name : String
  pub when : List (String × String)
  pub action : PolicyAction
  pub tools : List String

-- `ToolPolicy`
pub record ToolPolicy : Type 0 where
  pub name : String
  pub action : PolicyAction
  pub block_patterns : List String

-- `PolicyConfig`
pub record PolicyConfig : Type 0 where
  pub version : String
  pub schema_version : String
  pub mode : PolicyMode
  pub rules : List PolicyRule
  pub global : GlobalPolicy
  pub identity_rules : List LegacyRule
  pub taxonomy_rules : List LegacyRule
  pub tools : List ToolPolicy

-- `PolicyConfig::uses_normalized_rules`
unfoldable pub uses_normalized_rules : PolicyConfig → Bool
uses_normalized_rules c = str_eq c.schema_version schema_2026_3 || not (is_empty c.rules)

-- Why a document is refused, in place of the text of the error.
pub data PolicyError : Type 0 where
  unsupported_schema_version : String → PolicyError
  empty_version : PolicyError
  duplicate_rule duplicate_identity_rule duplicate_taxonomy_rule duplicate_tool :
      String → PolicyError
  empty_rule_name empty_identity_name empty_taxonomy_name empty_tool_name : ℕ → PolicyError
  empty_match_key : ℕ → PolicyError
  unknown_match_key : ℕ → String → PolicyError
  missing_rules : PolicyError
  invalid_pattern : String → String → PolicyError

-- `anyhow::Result`
pub data Fallible {ℓ} (T : Type ℓ) : Type ℓ where
  err : PolicyError → Fallible T
  ok : T → Fallible T

infixl 5 ◌>>=◌ ◌>>◌
abbrev pub ◌>>=◌ {ℓ κ} : {S : Type ℓ} {T : Type κ} → Fallible S → (S → Fallible T) → Fallible T
err e >>= next = err e
ok s >>= next = next s

abbrev pub ◌>>◌ {ℓ} : {T : Type ℓ} → Fallible (Unit {0}) → Fallible T → Fallible T
first >> next = first >>= λ _. next

-- `if failed { bail!(…) }`
abbrev pub bail_if : Bool → PolicyError → Fallible (Unit {0})
bail_if true e = err e
bail_if false e = ok tt

-- What the first step of a chain that succeeds gave.
pub >>=-eq-ok {ℓ κ} :
    {S : Type ℓ} {T : Type κ} (first : Fallible S) (next : S → Fallible T) {t : T}
    → (first >>= next) ≡ ok t
    → (s : S) × (first ≡ ok s) × (next s ≡ ok t)
>>=-eq-ok (err e) next h = cc
>>=-eq-ok (ok s) next h = (s, refl, h)
