-- ===== src/Policy/Evaluation/Baseline.antt =====
-- The verdict of a compiled policy (mcp-proxy/src/policy/evaluation.rs): no layer weakens another,
-- and what audit mode leaves in force.
use sqreen_core.Prelude.{
  ℕ, ◌≤◌, ◌≡◌, refl, ap, arith, Bool, true, false, Option, none, some, List, [], ◌∷◌, filter,
  if◌then◌else◌, String, ◌&&◌, not,
}
use sqreen_core.Host.{Host}
use sqreen_core.Policy.Schema.{PolicyMode, RuleEffect, severity}
use sqreen_core.Policy.Compile.{PolicyTrustLayer, CompiledRule, CompiledPolicy}
use sqreen_core.Policy.Context.{PolicyMatchContext, matches}
use sqreen_core.Policy.Evaluation.{
  PolicyVerdict, allow, block, redact, confirm, unevaluable, PolicyEvaluation,
  verdict_for_enforcement, audited, verdict_for_rule, select_cross_layer_winner, unreadable_payload,
  unevaluable_evaluation, matched_rules, verdict_of_winner, evaluate_readable, evaluate_payload,
  evaluate_policy_with_context,
}
use sqreen_core.Policy.Evaluation.Winner.{in_layer}
use sqreen_core.Policy.Evaluation.Layers.{winner_severity, select_cross_layer_winner-no_weaker}

-- How strict a verdict is.
abbrev pub strictness : PolicyVerdict → ℕ
strictness allow = 0
strictness (redact _) = 1
strictness (confirm _) = 2
strictness (block _ _) = 3
strictness (unevaluable _) = 4

-- The policy with the rules of one layer only.
abbrev pub only_layer : PolicyTrustLayer → CompiledPolicy → CompiledPolicy
only_layer layer policy = record policy { rules = filter (in_layer layer) policy.rules }

filter_comm :
    (p q : CompiledRule → Bool) (rs : List CompiledRule)
    → filter p (filter q rs) ≡ filter q (filter p rs)
filter_comm p q [] = refl
filter_comm p q (r ∷ rs) = ground (arith, filter_comm p q rs)

strictness-effect :
    (host : Host) (r : CompiledRule) (ctx : PolicyMatchContext) (keys : List String)
    (e : RuleEffect)
    → r.effect ≡ e
    → strictness (verdict_for_rule host r ctx keys) ≡ severity e
unfolding verdict_for_rule
strictness-effect host r ctx keys RuleEffect.allow h = ground (arith, h)
strictness-effect host r ctx keys RuleEffect.deny h = ground (arith, h)
strictness-effect host r ctx keys RuleEffect.require_approval h = ground (arith, h)
strictness-effect host r ctx keys RuleEffect.redact h = ground (arith, h)

strictness-winner :
    (host : Host) (w : Option CompiledRule) (ctx : PolicyMatchContext) (keys : List String)
    → strictness (verdict_of_winner host w ctx keys) ≡ winner_severity w
strictness-winner host none ctx keys = refl
strictness-winner host (some w) ctx keys = strictness-effect host w ctx keys w.effect refl

strictness-readable :
    (host : Host) (policy : CompiledPolicy) (ctx : PolicyMatchContext)
    → strictness (evaluate_readable host policy ctx).enforced_verdict
      ≡ winner_severity (select_cross_layer_winner host (matched_rules host policy ctx)).0
unfolding evaluate_readable
strictness-readable host policy ctx =
    strictness-winner host (select_cross_layer_winner host (matched_rules host policy ctx)).0 ctx
      policy.redact_keys

readable-no_weaker :
    (host : Host) (layer : PolicyTrustLayer) (policy : CompiledPolicy) (ctx : PolicyMatchContext)
    → strictness (evaluate_readable host (only_layer layer policy) ctx).enforced_verdict
      ≤ strictness (evaluate_readable host policy ctx).enforced_verdict
unfolding matched_rules
readable-no_weaker host layer policy ctx =
    let p = matches host.trim host.to_ascii_lowercase host.is_match ctx in
    let sel = λ (rs : List CompiledRule). winner_severity (select_cross_layer_winner host rs).0 in
    omega (
      arith,
      strictness-readable host policy ctx,
      strictness-readable host (only_layer layer policy) ctx,
      ap sel (filter_comm p (in_layer layer) policy.rules),
      select_cross_layer_winner-no_weaker host layer (matched_rules host policy ctx),
    )

payload-no_weaker :
    (host : Host) (layer : PolicyTrustLayer) (policy : CompiledPolicy) (ctx : PolicyMatchContext)
    (o : Option String)
    → strictness (evaluate_payload host o (only_layer layer policy) ctx).enforced_verdict
      ≤ strictness (evaluate_payload host o policy ctx).enforced_verdict
unfolding evaluate_payload unevaluable_evaluation
payload-no_weaker host layer policy ctx none = readable-no_weaker host layer policy ctx
payload-no_weaker host layer policy ctx (some detail) = omega arith

-- The verdict of a policy on an action is at least as strict as the verdict of its rules of any one
-- layer of trust, the mandatory baseline for one: the rules of the other layers never weaken it.
pub evaluate_policy_with_context-no_weaker :
    (host : Host) (layer : PolicyTrustLayer) (policy : CompiledPolicy) (ctx : PolicyMatchContext)
    → strictness (evaluate_policy_with_context host (only_layer layer policy) ctx).enforced_verdict
      ≤ strictness (evaluate_policy_with_context host policy ctx).enforced_verdict
unfolding evaluate_policy_with_context
evaluate_policy_with_context-no_weaker host layer policy ctx =
    payload-no_weaker host layer policy ctx (unreadable_payload host ctx)

-- Redaction and an unevaluable payload.
abbrev pub is_lasting : PolicyVerdict → Bool
is_lasting (redact _) = true
is_lasting (unevaluable _) = true
is_lasting _ = false

abbrev pub is_audit : PolicyMode → Bool
is_audit PolicyMode.audit = true
is_audit PolicyMode.enforce = false

audited-cases : (v : PolicyVerdict) → audited v ≡ (if is_lasting v then v else allow)
audited-cases allow = refl
audited-cases (block s r) = refl
audited-cases (redact f) = refl
audited-cases (confirm s) = refl
audited-cases (unevaluable s) = refl

mode-cases :
    (m : PolicyMode) (v : PolicyVerdict)
    → elim m [ PolicyMode.enforce ↦ v | PolicyMode.audit ↦ audited v ]
      ≡ (if is_audit m && not (is_lasting v) then allow else v)
mode-cases PolicyMode.enforce v = refl
mode-cases PolicyMode.audit v = ground (arith, audited-cases v)

-- The verdict to enforce is the verdict found, except in audit mode, where a block or a
-- confirmation becomes an allow.
pub verdict_for_enforcement-cases :
    (e : PolicyEvaluation)
    → verdict_for_enforcement e ≡ (
        if is_audit e.mode && not (is_lasting e.enforced_verdict)
        then allow
        else e.enforced_verdict)
unfolding verdict_for_enforcement
verdict_for_enforcement-cases e = mode-cases e.mode e.enforced_verdict
