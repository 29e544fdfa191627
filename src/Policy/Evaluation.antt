-- ===== src/Policy/Evaluation.antt =====
-- The evaluation of a compiled policy: mcp-proxy/src/policy/evaluation.rs. The context of the
-- action, which `PolicyMatchContext::build_with_context` makes, is an argument.
pub mod Winner
pub mod Precedence
pub mod Layers
pub mod Baseline
use sqreen_core.Prelude.{
  ℕ, ℤ, ◌&◌, str_eq, Bool, true, false, not, ◌&&◌, ◌||◌, Option, none, some, List, [], ◌∷◌, map,
  filter, first, is_empty, if◌then◌else◌, ltb, ◌==◌,
}
use Prim.Native.Char.{code}
use Prim.Native.String.{String}
use sqreen_core.Host.{Host}
use sqreen_core.Arguments.{from_canonical_params, ok, err, display}
use sqreen_core.Policy.Schema.{PolicyMode, RuleEffect, effect_str, severity}
use sqreen_core.Policy.Compile.{
  PolicyTrustLayer, mandatory_baseline, layer_str, rank, RuleSource, normalized, legacy_identity,
  legacy_taxonomy, legacy_global_block, legacy_tool_block, legacy_tool_action, CompiledRule,
  CompiledPolicy,
}
use sqreen_core.Policy.Context.{PolicyMatchContext, matches}
use sqreen_core.Policy.Redact.{redact_json_text}
use Winner.{layer_winners, strongest}

-- `BlockedRule`
pub data BlockedRule : Type 0 where
  global_block_pattern : String → BlockedRule
  tool_block_pattern : String → String → BlockedRule
  tool_action identity_rule taxonomy_rule normalized_rule : String → BlockedRule

-- `MatchedRuleSummary`
pub record MatchedRuleSummary : Type 0 where
  pub id : String
  pub name : String
  pub priority : ℤ
  pub effect : RuleEffect
  pub trust_layer : String
  pub explanation : String

-- `PolicyVerdict`
pub data PolicyVerdict : Type 0 where
  allow : PolicyVerdict
  block : String → BlockedRule → PolicyVerdict
  redact : List ℕ → PolicyVerdict
  confirm unevaluable : String → PolicyVerdict

-- `PolicyEvaluation`
pub record PolicyEvaluation : Type 0 where
  pub mode : PolicyMode
  pub enforced_verdict : PolicyVerdict
  pub explanation : String
  pub winning_rule : Option String
  pub winning_trust_layer : Option String
  pub matched_rules : List MatchedRuleSummary
  pub shadowed_rules : List String

-- `PolicyEvaluation::verdict_for_enforcement`, in audit mode
abbrev pub audited : PolicyVerdict → PolicyVerdict
audited (redact frame) = redact frame
audited (unevaluable detail) = unevaluable detail
audited _ = allow

-- `PolicyEvaluation::verdict_for_enforcement`
unfoldable pub verdict_for_enforcement : PolicyEvaluation → PolicyVerdict
verdict_for_enforcement e = elim e.mode [
  | PolicyMode.enforce ↦ e.enforced_verdict
  | PolicyMode.audit ↦ audited e.enforced_verdict
]

-- `verdict_label`
unfoldable pub verdict_label : PolicyVerdict → String
verdict_label allow = "allow"
verdict_label (block _ _) = "deny"
verdict_label (confirm _) = "require_approval"
verdict_label (redact _) = "redact"
verdict_label (unevaluable _) = "unevaluable"

-- The text of `PolicyEvaluation::audit_explanation`
audit_note : PolicyEvaluation → String
unfolding verdict_label
audit_note e =
    "audit-only: would have been `" & verdict_label e.enforced_verdict & "` — " & e.explanation

-- `PolicyEvaluation::audit_explanation`
unfoldable pub audit_explanation : PolicyEvaluation → Option String
unfolding audit_note
audit_explanation e = elim e.mode [
  | PolicyMode.enforce ↦ none
  | PolicyMode.audit ↦ elim e.enforced_verdict [ allow ↦ none | _ ↦ some (audit_note e) ]
]

abbrev or_else {ℓ} : {A : Type ℓ} → Option A → A → A
or_else none d = d
or_else (some a) d = a

-- `str::strip_prefix`
strip_prefix : String → String → Option String
strip_prefix String.[] text = some text
strip_prefix (String.◌∷◌ c prefix) String.[] = none
strip_prefix (String.◌∷◌ c prefix) (String.◌∷◌ d text) =
    if code c == code d then strip_prefix prefix text else none

-- `strip_prefix(…).unwrap_or(…)`, with the whole text where it does not apply
unfoldable pub strip_prefix_or_self : String → String → String
unfolding strip_prefix
strip_prefix_or_self prefix text = or_else (strip_prefix prefix text) text

-- `rule.tools.iter().next().cloned().unwrap_or_else(|| "unknown")`
abbrev first_tool : CompiledRule → String
first_tool rule = or_else (first rule.tools) "unknown"

-- `BlockedRule::from_rule`
unfoldable pub blocked_rule : CompiledRule → BlockedRule
unfolding strip_prefix_or_self
blocked_rule rule = elim rule.source [
  | normalized ↦ normalized_rule rule.name
  | legacy_identity ↦ identity_rule rule.name
  | legacy_taxonomy ↦ taxonomy_rule rule.name
  | legacy_global_block ↦ global_block_pattern (strip_prefix_or_self "global-block-" rule.name)
  | legacy_tool_block ↦ tool_block_pattern (first_tool rule) rule.name
  | legacy_tool_action ↦ tool_action (first_tool rule)
]

-- `BlockedRule::rule_id`
unfoldable pub rule_id : BlockedRule → String
rule_id (global_block_pattern pattern) = "global.block_patterns[" & pattern & "]"
rule_id (tool_block_pattern tool pattern) = "tools[" & tool & "].block_patterns[" & pattern & "]"
rule_id (tool_action tool) = "tools[" & tool & "].action"
rule_id (identity_rule name) = "identity_rules[" & name & "]"
rule_id (taxonomy_rule name) = "taxonomy_rules[" & name & "]"
rule_id (normalized_rule name) = "rules[" & name & "]"

module _ (host : Host) where
  -- The last case of `default_explanation`
  plain_explanation : CompiledRule → String → String
  unfolding effect_str
  plain_explanation rule tool_name =
      "policy rule `"
      & rule.name
      & "` (priority "
      & host.show_int rule.priority
      & ") matched tool `"
      & tool_name
      & "` with effect `"
      & effect_str rule.effect
      & "`"

  -- `default_explanation`
  unfoldable pub default_explanation : CompiledRule → String → String
  unfolding strip_prefix_or_self plain_explanation
  default_explanation rule tool_name = elim rule.source [
    | legacy_global_block ↦
        "global block pattern `"
        & strip_prefix_or_self "global-block-" rule.name
        & "` matched tool `"
        & tool_name
        & "`"
    | legacy_tool_block ↦ "tool `" & tool_name & "` matched block pattern"
    | legacy_tool_action ↦ "tool `" & tool_name & "` is configured with action Block"
    | _ ↦ plain_explanation rule tool_name
  ]

  -- `rule.description.clone().unwrap_or_else(|| default_explanation(rule, action))`
  unfoldable pub description_of : CompiledRule → String → String
  unfolding default_explanation
  description_of rule tool_name = or_else rule.description (default_explanation rule tool_name)

  -- `verdict_for_rule`
  unfoldable pub verdict_for_rule : CompiledRule → PolicyMatchContext → List String → PolicyVerdict
  verdict_for_rule rule ctx redact_keys = elim rule.effect [
    | RuleEffect.deny ↦ block (description_of rule ctx.tool_name) (blocked_rule rule)
    | RuleEffect.require_approval ↦ confirm (description_of rule ctx.tool_name)
    | RuleEffect.redact ↦ redact (redact_json_text host ctx.canonical_arguments redact_keys)
    | RuleEffect.allow ↦ allow
  ]

  -- The text of a shadowed winner in `select_cross_layer_winner`
  unfoldable pub shadow_note : CompiledRule → CompiledRule → String
  unfolding layer_str effect_str
  shadow_note cand best =
      layer_str cand.trust_layer
      & " rule `"
      & cand.name
      & "` (effect "
      & effect_str cand.effect
      & ", priority "
      & host.show_int cand.priority
      & ") did not weaken "
      & layer_str best.trust_layer
      & " constraint"

  -- Is a layer's winner noted as shadowed?
  abbrev pub is_shadowed : CompiledRule → CompiledRule → Bool
  is_shadowed best cand =
      not (str_eq cand.id best.id)
      && (ltb (severity cand.effect) (severity best.effect)
          || (severity cand.effect == severity best.effect
              && ltb (rank cand.trust_layer) (rank best.trust_layer)))

  -- The second half of `select_cross_layer_winner`
  unfoldable pub shadowed_by : CompiledRule → List CompiledRule → List String
  unfolding shadow_note
  shadowed_by best winners = map (λ cand. shadow_note cand best) (filter (is_shadowed best) winners)

  -- `select_cross_layer_winner`, of the winners of the layers
  unfoldable pub select_among : List CompiledRule → Option CompiledRule × List String
  unfolding shadowed_by
  select_among [] = (none, [])
  select_among (w ∷ ws) = (some (strongest w ws), shadowed_by (strongest w ws) (w ∷ ws))

  -- `select_cross_layer_winner`
  unfoldable pub select_cross_layer_winner : List CompiledRule → Option CompiledRule × List String
  select_cross_layer_winner matched = select_among (layer_winners matched)

  -- `policy_payload_readable`: the detail of the error, if there is one
  unfoldable pub unreadable_payload : PolicyMatchContext → Option String
  unreadable_payload ctx = elim (from_canonical_params host ctx.canonical_arguments) [
    | ok declared _ ↦
        if str_eq declared ctx.tool_name
        then none
        else some (
            "arguments payload declares tool `" & declared & "` but action is `" & ctx.tool_name
            & "`")
    | err error ↦ some (display error)
  ]

  -- `unevaluable_evaluation`
  unfoldable pub unevaluable_evaluation : CompiledPolicy → String → PolicyEvaluation
  unevaluable_evaluation policy detail = record {
    mode = policy.mode;
    enforced_verdict = unevaluable detail;
    explanation = "policy payload is not evaluable: " & detail;
    winning_rule = none;
    winning_trust_layer = none;
    matched_rules = [];
    shadowed_rules = [];
  }

  -- The rules that `evaluate_policy_with_context` finds to match
  unfoldable pub matched_rules : CompiledPolicy → PolicyMatchContext → List CompiledRule
  matched_rules policy ctx =
      filter (matches host.trim host.to_ascii_lowercase host.is_match ctx) policy.rules

  -- `MatchedRuleSummary` of a rule
  summary : PolicyMatchContext → CompiledRule → MatchedRuleSummary
  unfolding layer_str
  summary ctx rule = record {
    id = rule.id;
    name = rule.name;
    priority = rule.priority;
    effect = rule.effect;
    trust_layer = layer_str rule.trust_layer;
    explanation = description_of rule ctx.tool_name;
  }

  -- `slice::join` with "; "
  joined : List String → String
  joined [] = ""
  joined (s ∷ []) = s
  joined (s ∷ t ∷ ss) = s & "; " & joined (t ∷ ss)

  -- The explanation of the winner
  explain : CompiledRule → PolicyMatchContext → List String → String
  unfolding joined
  explain rule ctx shadowed =
      let own = description_of rule ctx.tool_name in
      let base = if is_empty shadowed then own else own & "; shadowed: " & joined shadowed in
      elim rule.trust_layer [
        | mandatory_baseline ↦ "mandatory baseline rule `" & rule.name & "` — " & base
        | _ ↦ base
      ]

  abbrev pub verdict_of_winner :
      Option CompiledRule → PolicyMatchContext → List String → PolicyVerdict
  verdict_of_winner none ctx keys = allow
  verdict_of_winner (some w) ctx keys = verdict_for_rule w ctx keys

  abbrev explain_winner : Option CompiledRule → PolicyMatchContext → List String → String
  explain_winner none ctx shadowed = "no policy rules matched; default allow"
  explain_winner (some w) ctx shadowed = explain w ctx shadowed

  -- `evaluate_policy_with_context`, of a payload that is readable
  unfoldable pub evaluate_readable : CompiledPolicy → PolicyMatchContext → PolicyEvaluation
  unfolding summary explain
  evaluate_readable policy ctx =
      let matched = matched_rules policy ctx in
      let (winner, shadowed) = select_cross_layer_winner matched in
      record {
        mode = policy.mode;
        enforced_verdict = verdict_of_winner winner ctx policy.redact_keys;
        explanation = explain_winner winner ctx shadowed;
        winning_rule = elim winner [ none ↦ none | some w ↦ some w.name ];
        winning_trust_layer = elim winner [ none ↦ none | some w ↦ some (layer_str w.trust_layer) ];
        matched_rules = map (summary ctx) matched;
        shadowed_rules = shadowed;
      }

  -- `evaluate_policy_with_context`, of the error of the payload, if there is one
  unfoldable pub evaluate_payload :
      Option String → CompiledPolicy → PolicyMatchContext → PolicyEvaluation
  evaluate_payload (some detail) policy ctx = unevaluable_evaluation policy detail
  evaluate_payload none policy ctx = evaluate_readable policy ctx

  -- `evaluate_policy_with_context`
  unfoldable pub evaluate_policy_with_context :
      CompiledPolicy → PolicyMatchContext → PolicyEvaluation
  evaluate_policy_with_context policy ctx = evaluate_payload (unreadable_payload ctx) policy ctx
