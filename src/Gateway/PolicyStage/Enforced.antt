-- ===== src/Gateway/PolicyStage/Enforced.antt =====
-- What the policy stage (mcp-proxy/src/gateway/policy_stage.rs) makes of a verdict of the engine, in
-- enforce mode and in audit mode.
use sqreen_core.Prelude.{
  ℕ, String, ◌≡◌, ◌≢◌, refl, ◌≤◌, ◌∙◌, arith, true, Option, none, some, List, [], subst, sym,
}
use sqreen_core.Host.{Host}
use sqreen_core.Policy.Schema.{PolicyMode}
use sqreen_core.Policy.Compile.{PolicyTrustLayer, CompiledPolicy}
use sqreen_core.Policy.Context.{PolicyMatchContext}
use sqreen_core.Policy.Evaluation.{
  PolicyVerdict, PolicyEvaluation, verdict_for_enforcement, audit_explanation,
  evaluate_policy_with_context, evaluate_payload, unevaluable_evaluation, evaluate_readable,
  unreadable_payload,
}
use sqreen_core.Policy.Evaluation.Baseline.{
  strictness, only_layer, evaluate_policy_with_context-no_weaker,
}
use sqreen_core.Gateway.Posture.{fail_closed, PolicyAvailability}
use sqreen_core.Gateway.Decision.{Decision}
use sqreen_core.Gateway.Failure.{
  Subsystem, FailurePolicy, action_of_mode, mode_for, decide, subsystem_failure,
}
use sqreen_core.Gateway.PolicyStage.{
  PolicyAssessment, PolicyStage, Extended, returned, panicked, absorb_failure, apply_extension,
  enforce_verdict, broken, audit_only, assess, assess_caught, evaluate, assessment_from_evaluation,
  blocked_by_policy, evaluate_detailed, policy_version_of, engine_availability,
}

-- The action stops here: it is denied, and no later stage runs.
abbrev pub IsStopped : PolicyAssessment → Type 0
IsStopped a = (a.decision ≡ Decision.deny) × (a.terminal ≡ true)

evaluate_payload-mode :
    (host : Host) (o : Option String) (p : CompiledPolicy) (ctx : PolicyMatchContext)
    → (evaluate_payload host o p ctx).mode ≡ p.mode
unfolding evaluate_payload unevaluable_evaluation evaluate_readable
evaluate_payload-mode host none p ctx = refl
evaluate_payload-mode host (some detail) p ctx = refl

evaluate-mode :
    (host : Host) (p : CompiledPolicy) (ctx : PolicyMatchContext)
    → (evaluate_policy_with_context host p ctx).mode ≡ p.mode
unfolding evaluate_policy_with_context
evaluate-mode host p ctx = evaluate_payload-mode host (unreadable_payload host ctx) p ctx

explanation-none : (e : PolicyEvaluation) → e.mode ≡ PolicyMode.enforce → audit_explanation e ≡ none
unfolding audit_explanation
explanation-none e h = ground (arith, h)

verdict-same :
    (e : PolicyEvaluation)
    → e.mode ≡ PolicyMode.enforce
    → verdict_for_enforcement e ≡ e.enforced_verdict
unfolding verdict_for_enforcement
verdict-same e h = ground (arith, h)

explanation-some :
    (e : PolicyEvaluation)
    → e.mode ≡ PolicyMode.audit
    → 1 ≤ strictness e.enforced_verdict
    → audit_explanation e ≢ none
unfolding audit_explanation
explanation-some e h k = ground (arith, h, k)

module _ (host : Host) (sanitize_detail : String → String)
    (panic_in : CompiledPolicy → PolicyMatchContext → Option String) (utf8_error : List ℕ → String)
    (policy : FailurePolicy) where
  broken-IsStopped :
      (s : Subsystem) (detail : String) (reported : PolicyAvailability) (version : Option String)
      → mode_for policy s ≡ fail_closed
      → IsStopped (broken host sanitize_detail panic_in utf8_error s detail reported policy version)
  unfolding broken absorb_failure decide subsystem_failure action_of_mode
  broken-IsStopped s detail reported version h = ground (arith, h)

  enforce_verdict-IsStopped :
      (stage : PolicyStage) (ctx : PolicyMatchContext) (version : Option String)
      (e : PolicyEvaluation) (v : PolicyVerdict)
      → mode_for policy Subsystem.policy_payload ≡ fail_closed
      → 3 ≤ strictness v
      → IsStopped
          (enforce_verdict host sanitize_detail panic_in utf8_error stage ctx policy version e v)
  unfolding enforce_verdict blocked_by_policy
  enforce_verdict-IsStopped stage ctx version e PolicyVerdict.allow h k = ground (arith, k)
  enforce_verdict-IsStopped stage ctx version e (PolicyVerdict.redact f) h k = ground (arith, k)
  enforce_verdict-IsStopped stage ctx version e (PolicyVerdict.confirm m) h k = ground (arith, k)
  enforce_verdict-IsStopped stage ctx version e (PolicyVerdict.block text rule) h k = (refl, refl)
  enforce_verdict-IsStopped stage ctx version e (PolicyVerdict.unevaluable detail) h k =
      broken-IsStopped Subsystem.policy_payload detail (engine_availability stage) version h

  assess_caught-IsStopped :
      (stage : PolicyStage) (ctx : PolicyMatchContext) (version : Option String)
      (e : PolicyEvaluation)
      → e.mode ≡ PolicyMode.enforce
      → mode_for policy Subsystem.policy_payload ≡ fail_closed
      → 3 ≤ strictness e.enforced_verdict
      → IsStopped (
          assess_caught host sanitize_detail panic_in utf8_error stage ctx policy version
            (returned e))
  unfolding assess_caught assess
  assess_caught-IsStopped stage ctx version e m h k =
      subst
        (λ note.
          IsStopped
            (assess host sanitize_detail panic_in utf8_error stage ctx policy version e note))
        (sym (explanation-none e m))
        (subst
          (λ v.
            IsStopped (
              enforce_verdict host sanitize_detail panic_in utf8_error stage ctx policy version e
                v))
          (sym (verdict-same e m))
          (enforce_verdict-IsStopped stage ctx version e e.enforced_verdict h k))

  evaluate_detailed-IsStopped :
      (stage : PolicyStage) (ctx : PolicyMatchContext) (version : Option String)
      (engine : CompiledPolicy) (layer : PolicyTrustLayer)
      → engine.mode ≡ PolicyMode.enforce
      → mode_for policy Subsystem.policy_payload ≡ fail_closed
      → mode_for policy Subsystem.policy_engine ≡ fail_closed
      → 3
        ≤ strictness
            (evaluate_policy_with_context host (only_layer layer engine) ctx).enforced_verdict
      → IsStopped (
          assess_caught host sanitize_detail panic_in utf8_error stage ctx policy version
            (evaluate_detailed host sanitize_detail panic_in utf8_error engine ctx))
  unfolding evaluate_detailed assess_caught
  evaluate_detailed-IsStopped stage ctx version engine layer m h h' k =
      by_panic (panic_in engine ctx)
    where
      by_panic :
          (o : Option String)
          → IsStopped (
              assess_caught host sanitize_detail panic_in utf8_error stage ctx policy version
                (elim o [
                  | some detail ↦ panicked detail
                  | none ↦ returned (evaluate_policy_with_context host engine ctx)
                ]))
      by_panic (some detail) =
          broken-IsStopped Subsystem.policy_engine detail PolicyAvailability.invalid version h'
      by_panic none =
          assess_caught-IsStopped stage ctx version (evaluate_policy_with_context host engine ctx)
            (evaluate-mode host engine ctx ∙ m) h
            (omega (arith, k, evaluate_policy_with_context-no_weaker host layer engine ctx))

-- A stage with a policy loaded.
abbrev pub loaded :
    CompiledPolicy → Option (String → String → Extended) → PolicyAvailability → PolicyStage
loaded engine extension availability = record {
  engine = some engine;
  extension = extension;
  availability = availability;
}

-- Where a policy is loaded and enforced, and a broken engine or payload fails closed: if the rules
-- of one layer of trust alone, those of the mandatory baseline for one, lead to a block, then the
-- stage denies the action and ends the pipeline, whatever the rules of the other layers, the
-- extension and the runtime do.
pub evaluate-IsStopped :
    (host : Host) (sanitize_detail : String → String)
    (panic_in : CompiledPolicy → PolicyMatchContext → Option String) (utf8_error : List ℕ → String)
    (policy : FailurePolicy) (engine : CompiledPolicy)
    (extension : Option (String → String → Extended)) (availability : PolicyAvailability)
    (ctx : PolicyMatchContext) (layer : PolicyTrustLayer)
    → engine.mode ≡ PolicyMode.enforce
    → mode_for policy Subsystem.policy_payload ≡ fail_closed
    → mode_for policy Subsystem.policy_engine ≡ fail_closed
    → 3
      ≤ strictness
          (evaluate_policy_with_context host (only_layer layer engine) ctx).enforced_verdict
    → IsStopped (
        evaluate host sanitize_detail panic_in utf8_error
          (loaded engine extension availability)
          ctx
          policy)
unfolding evaluate
evaluate-IsStopped host sanitize_detail panic_in utf8_error policy engine extension availability ctx
      layer m h h' k =
    evaluate_detailed-IsStopped host sanitize_detail panic_in utf8_error policy
      (loaded engine extension availability) ctx
      (policy_version_of (loaded engine extension availability)) engine layer m h h' k

-- The action passes as it is, and nothing is said to have failed.
abbrev pub IsUntouched : PolicyAssessment → Type 0
IsUntouched a = (a.decision ≡ Decision.allow) × (a.rewrite ≡ none) × (a.failures ≡ [])

assess-IsUntouched :
    (host : Host) (sanitize_detail : String → String)
    (panic_in : CompiledPolicy → PolicyMatchContext → Option String) (utf8_error : List ℕ → String)
    (policy : FailurePolicy) (stage : PolicyStage) (ctx : PolicyMatchContext)
    (version : Option String) (e : PolicyEvaluation) (note : Option String)
    → stage.extension ≡ none
    → note ≢ none
    → IsUntouched (assess host sanitize_detail panic_in utf8_error stage ctx policy version e note)
unfolding assess audit_only apply_extension assessment_from_evaluation
assess-IsUntouched host sanitize_detail panic_in utf8_error policy stage ctx version e none x h =
    absurd (h refl)
assess-IsUntouched host sanitize_detail panic_in utf8_error policy stage ctx version e (some note) x
      h =
    ground (arith, x)

-- In audit mode, with no extension and no panic: whatever verdict but an allow the engine finds,
-- redaction and an unevaluable payload included, the stage allows the action, leaves the arguments
-- as they are and reports no failure.
pub evaluate-audit :
    (host : Host) (sanitize_detail : String → String)
    (panic_in : CompiledPolicy → PolicyMatchContext → Option String) (utf8_error : List ℕ → String)
    (policy : FailurePolicy) (engine : CompiledPolicy) (availability : PolicyAvailability)
    (ctx : PolicyMatchContext)
    → engine.mode ≡ PolicyMode.audit
    → panic_in engine ctx ≡ none
    → 1 ≤ strictness (evaluate_policy_with_context host engine ctx).enforced_verdict
    → IsUntouched (
        evaluate host sanitize_detail panic_in utf8_error
          (loaded engine none availability)
          ctx
          policy)
unfolding evaluate evaluate_detailed assess_caught
evaluate-audit host sanitize_detail panic_in utf8_error policy engine availability ctx m p k =
    subst
      (λ (o : Option String). IsUntouched (
        assess_caught host sanitize_detail panic_in utf8_error stage ctx policy version (elim o [
          | some detail ↦ panicked detail
          | none ↦ returned (evaluate_policy_with_context host engine ctx)
        ])))
      (sym p)
      (assess-IsUntouched host sanitize_detail panic_in utf8_error policy stage ctx version
        (evaluate_policy_with_context host engine ctx)
        (audit_explanation (evaluate_policy_with_context host engine ctx)) refl
        (explanation-some (evaluate_policy_with_context host engine ctx)
          (evaluate-mode host engine ctx ∙ m) k))
  where
    stage : PolicyStage
    stage = loaded engine none availability

    version : Option String
    version = policy_version_of stage
