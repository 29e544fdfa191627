-- ===== src/Witness/Policies.antt =====
-- The theorems on policies at concrete inputs.
use sqreen_core.Prelude.{
  inl, inr, arith, false, List, ◌≡◌, refl, ◌≤◌, max, str_eq, true, none, some, [], ◌∷◌, filter,
  Member, All, is_blank,
}
use sqreen_core.Policy.Schema.{ok, err}
use sqreen_core.Policy.Compile.{
  mandatory_baseline, organization, local, CompiledRule, CompiledPolicy, compile_rules,
  compile_each, compile_normalized_rule, compile_predicates, compile_predicate, append_legacy_rules,
  compile_indexed, compile_global_block, check_duplicate_tools, compile_tools, compile_tool_policy,
  compile_tool_block, compile_tool_action, layer_str,
}
use sqreen_core.Policy.Compile.Layered.{compile_layered, layered_rules, compiled_policy}
use sqreen_core.Policy.Validate.{
  validate_config, validate_names, validate_rules, validate_match_keys, validate_match_key,
  validate_unique_names, unique_from,
}
use sqreen_core.Policy.Compose.Tools.{extend_set, merge_tool, lookup, entry, collect}
use sqreen_core.Policy.Compile.Layers.{compile_layered-mandatory}
use sqreen_core.Policy.Authority.{compile_layered-no_weaker}
use sqreen_core.Policy.Compose.{
  compose_effective_policy, overlay_globals_and_tools, respects_mandatory_baseline,
  surface_metadata, overlay_globals_tools_legacy, overlay_mode, overlay_tools, add_rules,
  add_legacy_rules,
}
use sqreen_core.Policy.Compose.Tighten.{Tightens}
use sqreen_core.Policy.Compose.Effective.{
  compose_effective_policy-Tightens, overlay_globals_and_tools-Tightens,
  compose_effective_policy-respects_baseline,
}
use sqreen_core.Policy.Context.{matches}
use sqreen_core.Policy.Matching.{matches-ungranted}
use sqreen_core.Policy.Redact.{
  is_sensitive, has_key, canonicalize_key_name, redact_value_ci, policy_keys_to_canonical_set,
}
use sqreen_core.Policy.Redact.Clean.{IsClean, redact_value_ci-IsClean}
use sqreen_core.Policy.Redact.Kept.{At, here, in_object, redact_value_ci-keeps}
use sqreen_core.Json.{string}
use sqreen_core.Policy.Evaluation.{evaluate_policy_with_context, select_cross_layer_winner}
use sqreen_core.Policy.Evaluation.Winner.{in_layer, winner_within_layer}
use sqreen_core.Policy.Evaluation.Precedence.{Precedes, winner_within_layer-Precedes}
use sqreen_core.Policy.Evaluation.Layers.{
  winner_severity, layer_severity, select_cross_layer_winner-max,
}
use sqreen_core.Policy.Evaluation.Baseline.{
  strictness, only_layer, evaluate_policy_with_context-no_weaker,
}
use sqreen_core.SecurityBaseline.Document.{mandatory_policy_config}
use sqreen_core.Witness.Data.{
  call_value, host, same_text, ctx, deny_etc, allow_all, allow_agent, layered, org_config,
  base_config,
}

evaluate_policy_with_context-no_weaker_example :
    strictness
      (evaluate_policy_with_context host
        (only_layer mandatory_baseline layered)
        ctx).enforced_verdict
    ≤ strictness (evaluate_policy_with_context host layered ctx).enforced_verdict
evaluate_policy_with_context-no_weaker_example =
    evaluate_policy_with_context-no_weaker host mandatory_baseline layered ctx

compose_effective_policy-Tightens_example :
    Tightens mandatory_policy_config
      (compose_effective_policy mandatory_policy_config org_config (some base_config))
compose_effective_policy-Tightens_example =
    compose_effective_policy-Tightens mandatory_policy_config org_config (some base_config)

overlay_globals_and_tools-Tightens_example :
    Tightens mandatory_policy_config
      (overlay_globals_and_tools mandatory_policy_config org_config (some base_config))
overlay_globals_and_tools-Tightens_example =
    overlay_globals_and_tools-Tightens mandatory_policy_config org_config (some base_config)

compose_effective_policy-respects_baseline_example :
    respects_mandatory_baseline mandatory_policy_config
      (compose_effective_policy mandatory_policy_config org_config none)
    ≡ true
compose_effective_policy-respects_baseline_example =
    compose_effective_policy-respects_baseline org_config none

winner_within_layer-Precedes_example :
    (w : CompiledRule) × (winner_within_layer (deny_etc ∷ allow_all ∷ []) ≡ some w)
    × Member w (deny_etc ∷ allow_all ∷ [])
    × All (Precedes w) (deny_etc ∷ allow_all ∷ [])
winner_within_layer-Precedes_example = winner_within_layer-Precedes deny_etc (allow_all ∷ [])

select_cross_layer_winner-max_example :
    winner_severity (select_cross_layer_winner host (deny_etc ∷ allow_all ∷ [])).0
    ≡ max (layer_severity (deny_etc ∷ allow_all ∷ []) mandatory_baseline) (
        max
          (layer_severity (deny_etc ∷ allow_all ∷ []) organization)
          (layer_severity (deny_etc ∷ allow_all ∷ []) local))
select_cross_layer_winner-max_example =
    select_cross_layer_winner-max host (deny_etc ∷ allow_all ∷ [])

matches-ungranted_example :
    matches same_text same_text str_eq
      (record ctx { agent_trust_can_grant_privilege = false })
      allow_agent
    ≡ false
matches-ungranted_example =
    matches-ungranted same_text same_text str_eq
      (record ctx { agent_trust_can_grant_privilege = false }) allow_agent "agent_id" "true"
      (inl refl) (inl refl) refl (((λ h. ground arith), (λ h. ground arith)), tt) refl

redact_value_ci-IsClean_example :
    IsClean
      (policy_keys_to_canonical_set ("Token" ∷ []))
      (redact_value_ci (policy_keys_to_canonical_set ("Token" ∷ [])) call_value)
redact_value_ci-IsClean_example =
    redact_value_ci-IsClean (policy_keys_to_canonical_set ("Token" ∷ [])) call_value

name_kept :
    At
      (policy_keys_to_canonical_set ("Token" ∷ []))
      (string "bash")
      (inr (0, "name") ∷ [])
      call_value
unfolding is_sensitive has_key canonicalize_key_name policy_keys_to_canonical_set
name_kept = in_object 0 _ "name" (string "bash") [] refl refl here

redact_value_ci-keeps_example :
    At
      (policy_keys_to_canonical_set ("Token" ∷ []))
      (string "bash")
      (inr (0, "name") ∷ [])
      (redact_value_ci (policy_keys_to_canonical_set ("Token" ∷ [])) call_value)
redact_value_ci-keeps_example =
    redact_value_ci-keeps (policy_keys_to_canonical_set ("Token" ∷ [])) (string "bash")
      (inr (0, "name") ∷ []) call_value refl name_kept

-- The compiler, which the documents below run
program : Unit {0}
unfolding compile_layered layered_rules compiled_policy validate_config validate_names
    validate_rules validate_match_keys validate_match_key validate_unique_names unique_from
    compile_rules compile_each compile_normalized_rule compile_predicates compile_predicate
    append_legacy_rules compile_indexed compile_global_block check_duplicate_tools compile_tools
    compile_tool_policy compile_tool_block compile_tool_action overlay_globals_and_tools
    surface_metadata overlay_globals_tools_legacy overlay_mode overlay_tools add_rules
    add_legacy_rules extend_set merge_tool lookup entry collect layer_str is_blank
program = tt

compiled : CompiledPolicy
unfolding program
compiled = elim (compile_layered host.regex_valid same_text base_config org_config none) [
  | ok p ↦ p
  | err _ ↦ layered
]

compiled-eq : compile_layered host.regex_valid same_text base_config org_config none ≡ ok compiled
unfolding program compiled
compiled-eq = refl

compile_layered-mandatory_example :
    compile_rules host.regex_valid mandatory_baseline base_config.rules 0
    ≡ ok (filter (in_layer mandatory_baseline) compiled.rules)
compile_layered-mandatory_example =
    compile_layered-mandatory host.regex_valid same_text base_config org_config none compiled
      compiled-eq

baseline_rules : List CompiledRule
unfolding program
baseline_rules = elim (compile_rules host.regex_valid mandatory_baseline base_config.rules 0) [
  | ok rules ↦ rules
  | err _ ↦ []
]

baseline_rules-eq :
    compile_rules host.regex_valid mandatory_baseline base_config.rules 0 ≡ ok baseline_rules
unfolding program baseline_rules
baseline_rules-eq = refl

compile_layered-no_weaker_example :
    strictness
      (evaluate_policy_with_context host
        (record compiled { rules = baseline_rules })
        ctx).enforced_verdict
    ≤ strictness (evaluate_policy_with_context host compiled ctx).enforced_verdict
compile_layered-no_weaker_example =
    compile_layered-no_weaker host base_config org_config none compiled baseline_rules ctx
      compiled-eq baseline_rules-eq
