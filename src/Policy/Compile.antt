-- ===== src/Policy/Compile.antt =====
-- The compiler of policy documents: mcp-proxy/src/policy/compile.rs. The tools of a document form
-- a hash map there; its order, which Rust leaves open, is here the order of the document. The
-- counter of rules is unbounded.
pub mod Layered
pub mod Trust
pub mod Layers
use sqreen_core.Prelude.{
  ℕ, ◌+◌, suc, ℤ, pos, sub_ℕ, String, ◌&◌, str_eq, Bool, Option, none, some, List, [], ◌∷◌, ◌++◌,
  map, length, contains, if◌then◌else◌,
}
use sqreen_core.Policy.Schema.{
  PolicyMode, RuleEffect, PolicyAction, effect_of_action, PolicyRule, LegacyRule, ToolPolicy,
  PolicyConfig, PolicyError, Fallible, ok, err, ◌>>=◌, ◌>>◌, bail_if,
}

-- The priorities of the legacy rules
abbrev pub legacy_identity_priority_base : ℕ
legacy_identity_priority_base = 7000

abbrev pub legacy_taxonomy_priority_base : ℕ
legacy_taxonomy_priority_base = 6000

abbrev pub legacy_global_block_priority : ℕ
legacy_global_block_priority = 5000

abbrev pub legacy_tool_block_priority : ℕ
legacy_tool_block_priority = 4500

abbrev pub legacy_tool_deny_priority : ℕ
legacy_tool_deny_priority = 4000

abbrev pub legacy_tool_approval_priority : ℕ
legacy_tool_approval_priority = 3500

-- `PolicyTrustLayer`
pub data PolicyTrustLayer : Type 0 where
  local organization mandatory_baseline : PolicyTrustLayer

-- `PolicyTrustLayer::as_str`
unfoldable pub layer_str : PolicyTrustLayer → String
layer_str mandatory_baseline = "mandatory_baseline"
layer_str organization = "organization"
layer_str local = "local"

-- `PolicyTrustLayer::rank`
abbrev pub rank : PolicyTrustLayer → ℕ
rank local = 0
rank organization = 1
rank mandatory_baseline = 2

-- `RuleSource`
pub data RuleSource : Type 0 where
  normalized legacy_identity legacy_taxonomy : RuleSource
  legacy_global_block legacy_tool_block legacy_tool_action : RuleSource

-- `Predicate`; a compiled regex is the text of its pattern.
pub data Predicate : Type 0 where
  field_equals : String → String → Predicate
  path_regex path_prefix path_not_prefix payload_regex : String → Predicate

-- `CompiledRule`
pub record CompiledRule : Type 0 where
  pub id : String
  pub name : String
  pub priority : ℤ
  pub order : ℕ
  pub effect : RuleEffect
  pub description : Option String
  pub tools : List String
  pub predicates : List Predicate
  pub source : RuleSource
  pub trust_layer : PolicyTrustLayer

-- `CompiledPolicy`
pub record CompiledPolicy : Type 0 where
  pub version : String
  pub schema_version : String
  pub mode : PolicyMode
  pub rules : List CompiledRule
  pub redact_keys : List String
  pub risk_threshold : ℕ

abbrev equals : String × String → Predicate
equals (field, expected) = field_equals field expected

-- `{:?}` of a `PolicyAction`
action_debug : PolicyAction → String
action_debug PolicyAction.allow = "Allow"
action_debug PolicyAction.block = "Block"
action_debug PolicyAction.redact = "Redact"
action_debug PolicyAction.confirm = "Confirm"

-- The part of `compile_tool_policy` for the action: the priority and the effect, if it makes a rule
abbrev pub tool_action_effect : PolicyAction → Option (ℕ × RuleEffect)
tool_action_effect PolicyAction.block = some (legacy_tool_deny_priority, RuleEffect.deny)
tool_action_effect PolicyAction.confirm =
    some (legacy_tool_approval_priority, RuleEffect.require_approval)
tool_action_effect PolicyAction.allow = none
tool_action_effect PolicyAction.redact = some (legacy_tool_approval_priority, RuleEffect.redact)

-- A legacy rule, over what `compile_identity_rule` and `compile_taxonomy_rule` differ in
compile_legacy_rule : String → ℕ → RuleSource → LegacyRule → ℕ → ℕ → PolicyTrustLayer → CompiledRule
unfolding layer_str
compile_legacy_rule section base source rule index order layer = record {
  id = layer_str layer & section & rule.name & "]";
  name = rule.name;
  priority = sub_ℕ base index;
  order = order;
  effect = effect_of_action rule.action;
  description = none;
  tools = rule.tools;
  predicates = map equals rule.when;
  source = source;
  trust_layer = layer;
}

-- `compile_identity_rule`
unfoldable pub compile_identity_rule : LegacyRule → ℕ → ℕ → PolicyTrustLayer → CompiledRule
unfolding compile_legacy_rule
compile_identity_rule =
    compile_legacy_rule ".identity_rules[" legacy_identity_priority_base legacy_identity

-- `compile_taxonomy_rule`
unfoldable pub compile_taxonomy_rule : LegacyRule → ℕ → ℕ → PolicyTrustLayer → CompiledRule
unfolding compile_legacy_rule
compile_taxonomy_rule =
    compile_legacy_rule ".taxonomy_rules[" legacy_taxonomy_priority_base legacy_taxonomy

-- The rule for the action of a tool, if it has one
unfoldable pub compile_tool_action : ToolPolicy → ℕ → PolicyTrustLayer → List CompiledRule
unfolding layer_str action_debug
compile_tool_action tool order layer = elim (tool_action_effect tool.action) [
  | none ↦ []
  | some (priority, effect) ↦
      record {
        id = layer_str layer & ".tools[" & tool.name & "].action";
        name = tool.name & "-action";
        priority = pos priority;
        order = order;
        effect = effect;
        description =
            some ("tool `" & tool.name & "` configured with action " & action_debug tool.action);
        tools = tool.name ∷ [];
        predicates = [];
        source = legacy_tool_action;
        trust_layer = layer;
      }
      ∷ []
]

-- `regex_valid` stands for `Regex::new` of the regex crate: does a pattern compile?
module _ (regex_valid : String → Bool) where
  -- One entry of `match` in `compile_normalized_rule`
  unfoldable pub compile_predicate : String → String × String → Fallible Predicate
  compile_predicate rule_name (field, expected) =
      if str_eq field "path_pattern"
      then (if regex_valid expected
          then ok (path_regex expected)
          else err (PolicyError.invalid_pattern rule_name expected))
      else if str_eq field "path_prefix"
      then ok (path_prefix expected)
      else if str_eq field "path_not_prefix"
      then ok (path_not_prefix expected)
      else ok (field_equals field expected)

  unfoldable pub compile_predicates : String → List (String × String) → Fallible (List Predicate)
  compile_predicates rule_name [] = ok []
  compile_predicates rule_name (e ∷ es) = do
    p ← compile_predicate rule_name e
    ps ← compile_predicates rule_name es
    ok (p ∷ ps)

  -- `compile_normalized_rule`
  unfoldable pub compile_normalized_rule : PolicyRule → ℕ → PolicyTrustLayer → Fallible CompiledRule
  unfolding layer_str
  compile_normalized_rule rule order layer = do
    ps ← compile_predicates rule.name rule.when
    ok (record {
      id = layer_str layer & ".rules[" & rule.name & "]";
      name = rule.name;
      priority = rule.priority;
      order = order;
      effect = rule.effect;
      description = rule.description;
      tools = rule.tools;
      predicates = ps;
      source = normalized;
      trust_layer = layer;
    })

  -- `compile_global_block`
  unfoldable pub compile_global_block : String → ℕ → PolicyTrustLayer → Fallible CompiledRule
  unfolding layer_str
  compile_global_block pattern order layer =
      if regex_valid pattern
      then ok (record {
        id = layer_str layer & ".global.block_patterns[" & pattern & "]";
        name = "global-block-" & pattern;
        priority = pos legacy_global_block_priority;
        order = order;
        effect = RuleEffect.deny;
        description = none;
        tools = [];
        predicates = payload_regex pattern ∷ [];
        source = legacy_global_block;
        trust_layer = layer;
      })
      else err (PolicyError.invalid_pattern "global" pattern)

  -- One block pattern of `compile_tool_policy`
  unfoldable pub compile_tool_block : String → String → ℕ → PolicyTrustLayer → Fallible CompiledRule
  unfolding layer_str
  compile_tool_block tool pattern order layer =
      if regex_valid pattern
      then ok (record {
        id = layer_str layer & ".tools[" & tool & "].block_patterns[" & pattern & "]";
        name = tool & "-block-" & pattern;
        priority = pos legacy_tool_block_priority;
        order = order;
        effect = RuleEffect.deny;
        description = none;
        tools = tool ∷ [];
        predicates = payload_regex pattern ∷ [];
        source = legacy_tool_block;
        trust_layer = layer;
      })
      else err (PolicyError.invalid_pattern tool pattern)

-- What pushes rules: from the value of `order` to the rules pushed. Each rule takes one number, so
-- `order` moves by as many.
abbrev pub Compiler : Type 0
Compiler = ℕ → Fallible (List CompiledRule)

infixr 6 ◌>>>◌
abbrev pub ◌>>>◌ : Compiler → Compiler → Compiler
◌>>>◌ m k order = do rs ← m order; ss ← k (order + length rs); ok (rs ++ ss)

-- `for x in xs { rules.push(compile(x, order)?) }`
unfoldable pub compile_each {ℓ} : {A : Type ℓ} → (A → ℕ → Fallible CompiledRule) → List A → Compiler
compile_each f [] order = ok []
compile_each f (x ∷ xs) order = do r ← f x order; rs ← compile_each f xs (suc order); ok (r ∷ rs)

-- The same with `enumerate`
unfoldable pub compile_indexed : {A : Type 0} → (A → ℕ → ℕ → CompiledRule) → ℕ → List A → Compiler
compile_indexed f index [] order = ok []
compile_indexed f index (x ∷ xs) order = do
  rs ← compile_indexed f (suc index) xs (suc order)
  ok (f x index order ∷ rs)

-- `tools.contains_key` in `append_legacy_rules`, over the tools so far
unfoldable pub check_duplicate_tools : List String → List ToolPolicy → Fallible (Unit {0})
check_duplicate_tools seen [] = ok tt
check_duplicate_tools seen (t ∷ ts) =
    bail_if (contains seen t.name) (PolicyError.duplicate_tool t.name)
    >> check_duplicate_tools (t.name ∷ seen) ts

module _ (regex_valid : String → Bool) where
  -- `compile_tool_policy`
  unfoldable pub compile_tool_policy : PolicyTrustLayer → ToolPolicy → Compiler
  unfolding compile_each compile_tool_block compile_tool_action
  compile_tool_policy layer tool =
      compile_each (λ pattern order. compile_tool_block regex_valid tool.name pattern order layer)
        tool.block_patterns
      >>> λ order. ok (compile_tool_action tool order layer)

  -- `for tool in tools.into_values() { rules.extend(compile_tool_policy(…)?) }`
  unfoldable pub compile_tools : PolicyTrustLayer → List ToolPolicy → Compiler
  compile_tools layer [] order = ok []
  compile_tools layer (t ∷ ts) order =
      (compile_tool_policy layer t >>> compile_tools layer ts) order

  -- `append_legacy_rules`
  unfoldable pub append_legacy_rules : PolicyTrustLayer → PolicyConfig → Compiler
  append_legacy_rules layer config =
      compile_indexed (λ rule index order. compile_identity_rule rule index order layer) 0
        config.identity_rules
      >>> compile_indexed (λ rule index order. compile_taxonomy_rule rule index order layer) 0
          config.taxonomy_rules
      >>> compile_each (λ pattern order. compile_global_block regex_valid pattern order layer)
          config.global.block_patterns
      >>> λ order. check_duplicate_tools [] config.tools >> compile_tools layer config.tools order

  -- `for rule in &config.rules { rules.push(compile_normalized_rule(…)?) }`
  unfoldable pub compile_rules : PolicyTrustLayer → List PolicyRule → Compiler
  unfolding compile_each
  compile_rules layer =
      compile_each (λ rule order. compile_normalized_rule regex_valid rule order layer)

  -- `append_all_rules`
  unfoldable pub append_all_rules : PolicyTrustLayer → PolicyConfig → Compiler
  append_all_rules layer config =
      compile_rules layer config.rules >>> append_legacy_rules layer config
