-- ===== src/Witness/Gateways.antt =====
-- The theorems on the gateway at concrete inputs.
use sqreen_core.Prelude.{◌≡◌, ◌↔◌, ◌≤◌, refl, arith, true, false, not, none, some, [], ◌∷◌, one_of}
use sqreen_core.Policy.Schema.{PolicyMode, RuleEffect}
use sqreen_core.Policy.Compile.{mandatory_baseline, CompiledPolicy}
use sqreen_core.Policy.Evaluation.{
  evaluate_policy_with_context, evaluate_payload, evaluate_readable, unevaluable_evaluation,
  unreadable_payload, matched_rules, select_cross_layer_winner, select_among, verdict_for_rule,
}
use sqreen_core.Policy.Evaluation.Winner.{
  layer_winners, layer_winner, winner_within_layer, sort_rules, insert_sorted, compare_rules,
  strongest,
}
use sqreen_core.Policy.Context.{
  matches, predicate_matches, matches_path_prefix, uses_privilege_sensitive_identity,
}
use sqreen_core.Arguments.{from_canonical_params, params_of_object}
use sqreen_core.Policy.Evaluation.Baseline.{strictness, only_layer}
use sqreen_core.Gateway.Posture.{fail_closed, stale, available, missing}
use sqreen_core.Gateway.Decision.{Decision}
use sqreen_core.Gateway.Failure.{
  Subsystem, SubsystemFailure, default_policy, observe, mode_for, policy_from_env,
  never_allows_on_inspection_failure, token_of,
}
use sqreen_core.Gateway.Failure.Modes.{policy_from_env-never_allows}
use sqreen_core.Gateway.PolicyStage.{evaluate}
use sqreen_core.Gateway.PolicyStage.Unloaded.{empty_stage, asks_development, evaluate-unloaded}
use sqreen_core.Gateway.PolicyStage.Closed.{IsCoherent, evaluate-IsCoherent}
use sqreen_core.Gateway.PolicyStage.Enforced.{
  IsStopped, loaded, evaluate-IsStopped, IsUntouched, evaluate-audit,
}
use sqreen_core.Witness.Data.{
  host, same_text, no_panic, utf8_error, ctx, rule, policy, layered, broken_extension,
}

-- The evaluation, which the examples below run
program : Unit {0}
unfolding uses_privilege_sensitive_identity evaluate_policy_with_context evaluate_payload
    evaluate_readable unevaluable_evaluation unreadable_payload from_canonical_params
    params_of_object matched_rules matches predicate_matches matches_path_prefix
    select_cross_layer_winner select_among layer_winners layer_winner winner_within_layer sort_rules
    insert_sorted compare_rules strongest verdict_for_rule
program = tt

-- A policy in audit mode whose one rule redacts
abbrev audited_policy : CompiledPolicy
audited_policy =
    policy PolicyMode.audit (rule "mask" 10 RuleEffect.redact [] mandatory_baseline 0 ∷ [])

audited-redacts :
    1 ≤ strictness (evaluate_policy_with_context host audited_policy ctx).enforced_verdict
unfolding program
audited-redacts = omega arith

layered-denies :
    3
    ≤ strictness
        (evaluate_policy_with_context host
          (only_layer mandatory_baseline layered)
          ctx).enforced_verdict
unfolding program
layered-denies = omega arith

mode-payload : mode_for default_policy Subsystem.policy_payload ≡ fail_closed
unfolding mode_for
mode-payload = refl

mode-engine : mode_for default_policy Subsystem.policy_engine ≡ fail_closed
unfolding mode_for
mode-engine = refl

abbrev dlp_down : SubsystemFailure
dlp_down = record { subsystem = Subsystem.dlp_scanner; detail = "timeout" }

policy_from_env-never_allows_example :
    never_allows_on_inspection_failure (policy_from_env (some " Monitor") none)
    ≡ not (one_of (token_of (some " Monitor")) ("observe" ∷ "observability" ∷ "monitor" ∷ []))
policy_from_env-never_allows_example = policy_from_env-never_allows (some " Monitor") none

evaluate-unloaded_example :
    let a =
      evaluate host same_text no_panic utf8_error
        (empty_stage missing)
        ctx
        (policy_from_env none (some " Dev")) in
    ((a.decision ≡ Decision.allow) ↔ (asks_development (some " Dev") ≡ true))
    × ((a.decision ≡ Decision.deny) ↔ (asks_development (some " Dev") ≡ false))
evaluate-unloaded_example =
    evaluate-unloaded host same_text no_panic utf8_error missing ctx (some " Dev")

evaluate-IsCoherent_example : IsCoherent observe (
    evaluate host same_text no_panic utf8_error
      (loaded layered broken_extension available)
      ctx
      observe)
evaluate-IsCoherent_example =
    evaluate-IsCoherent host same_text no_panic utf8_error
      (loaded layered broken_extension available) ctx observe

evaluate-IsStopped_example : IsStopped (
    evaluate host same_text no_panic utf8_error
      (loaded layered broken_extension stale)
      ctx
      default_policy)
evaluate-IsStopped_example =
    evaluate-IsStopped host same_text no_panic utf8_error default_policy layered broken_extension
      stale ctx mandatory_baseline refl mode-payload mode-engine layered-denies

evaluate-audit_example : IsUntouched (
    evaluate host same_text no_panic utf8_error
      (loaded audited_policy none available)
      ctx
      default_policy)
evaluate-audit_example =
    evaluate-audit host same_text no_panic utf8_error default_policy audited_policy available ctx
      refl refl audited-redacts
