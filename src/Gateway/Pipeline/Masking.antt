-- ===== src/Gateway/Pipeline/Masking.antt =====
-- What the pipeline (mcp-proxy/src/gateway/mod.rs) sends on: the masked payload of the risk stage.
use sqreen_core.Prelude.{
  ◌≡◌, arith, subst, sym, String, Bool, true, false, not, ◌&&◌, Option, none, some, if◌then◌else◌,
}
use sqreen_core.Action.{Action}
use sqreen_core.Risk.{RiskAnalysis}
use sqreen_core.Gateway.Decision.{Decision, Stage, EvaluationOutcome, is_allowed}
use sqreen_core.Gateway.Failure.{FailureAction, continue, escalate, refuse}
use sqreen_core.Gateway.PolicyStage.{PolicyAssessment}
use sqreen_core.Gateway.RiskStage.{RiskAssessment, evaluate_risk, assess_risk}
use sqreen_core.Gateway.Approval.Grant.{GrantAuthorization, authorized, unauthorized}
use sqreen_core.Gateway.Approval.Context.{ApprovalContext}
use sqreen_core.Gateway.Pipeline.{
  UserDecision, ApprovalEngine, Gateway, RunState, close, finish, settled, report_failures, absorb,
}
use sqreen_core.Gateway.Pipeline.Env.{Env}
use sqreen_core.Gateway.Pipeline.Approve.{
  with_rewrite, conclude, resolved, ask, after_grants, reused, approve, context_of, lookup_grant,
}
use sqreen_core.Gateway.Pipeline.Run.{
  needs_approval, pass, gated, after_risk, risked, stop, judged, staged, run, unattached, scan,
  assess_policy, assess_risk_of, emit_masking, note_degraded, observed, absorb_policy,
}

-- The outcome carries the payload exactly where it allows.
abbrev pub Carries : Option String → EvaluationOutcome → Type 0
Carries payload o = o.rewritten_arguments ≡ (if is_allowed o.decision then payload else none)

module _ (env : Env) (gw : Gateway) (action : Action) where
  conclude-Carries :
      (s : RunState) (stage : Stage) (risk : RiskAssessment) (pattern : String)
      (user_decision : UserDecision) (d : Decision)
      → Carries risk.sanitized_payload
          (conclude env gw s action stage risk pattern user_decision d).1
  unfolding conclude close with_rewrite finish
  conclude-Carries s stage risk pattern user_decision d = ground arith

  ask-Carries :
      (s : RunState) (risk : RiskAssessment) (context : ApprovalContext) (o : Option ApprovalEngine)
      → Carries risk.sanitized_payload (ask env gw s action risk context o).1
  unfolding ask close finish settled resolved conclude with_rewrite
  ask-Carries s risk context none = ground arith
  ask-Carries s risk context (some engine) = ground arith

  after_grants-Carries :
      (s : RunState) (risk : RiskAssessment) (context : ApprovalContext) (a : GrantAuthorization)
      → Carries risk.sanitized_payload (after_grants env gw s action risk context a).1
  unfolding after_grants
  after_grants-Carries s risk context unauthorized = ask-Carries s risk context gw.approval
  after_grants-Carries s risk context (authorized g) =
      conclude-Carries (reused env gw s action g) Stage.approval risk risk.telemetry_marker
        UserDecision.approved Decision.allow

  pass-Carries :
      (s : RunState) (risk : RiskAssessment)
      → Carries risk.sanitized_payload (pass env gw s action risk).1
  unfolding pass conclude close finish with_rewrite
  pass-Carries s risk = ground arith

  gated-Carries :
      (s : RunState) (policy : PolicyAssessment) (risk : RiskAssessment) (degraded : Bool)
      → Carries risk.sanitized_payload (gated env gw s action policy risk degraded).1
  unfolding gated approve
  gated-Carries s policy risk degraded = by_need (needs_approval env gw policy risk degraded)
    where
      s' : RunState
      s' = note_degraded env gw (emit_masking env gw s action risk risk.dlp_marker) degraded

      by_need :
          (b : Bool)
          → Carries risk.sanitized_payload
              (if b then approve env gw s' action risk else pass env gw s' action risk).1
      by_need true =
          after_grants-Carries (record s' { grants = (lookup_grant env gw s' action).0 }) risk
            (context_of env gw s' action risk) (lookup_grant env gw s' action).1
      by_need false = pass-Carries s' risk

  after_risk-Carries :
      (s : RunState) (policy : PolicyAssessment) (risk : RiskAssessment) (a : FailureAction)
      → Carries risk.sanitized_payload (after_risk env gw s action policy risk a).1
  unfolding after_risk close finish settled
  after_risk-Carries s policy risk continue = gated-Carries s policy risk false
  after_risk-Carries s policy risk escalate = gated-Carries s policy risk true
  after_risk-Carries s policy risk refuse = ground arith

  judged-Carries :
      (s : RunState) (analysis : RiskAnalysis) (policy : PolicyAssessment)
      → policy.terminal ≡ false
      → Carries analysis.sanitized_params (judged env gw s action analysis policy).1
  unfolding judged risked assess_risk_of evaluate_risk assess_risk
  judged-Carries s analysis policy h =
      subst
        (λ b.
          Carries analysis.sanitized_params
            (if b
              then stop env gw reported action policy analysis.score
              else risked env gw reported action policy
                  (assess_risk_of env gw reported action analysis)).1)
        (sym h)
        (after_risk-Carries after.0 policy (assess_risk_of env gw reported action analysis) after.1)
    where
      reported : RunState
      reported =
          (report_failures env.sanitize_detail gw action analysis.score
            (record s { trace = absorb_policy env gw s.trace policy }) policy.failures).0

      risk : RiskAssessment
      risk = assess_risk_of env gw reported action analysis

      after : RunState × FailureAction
      after =
          report_failures env.sanitize_detail gw action risk.score
            (record reported {
              trace = record (absorb reported.trace risk.reasons risk.matched_policies) {
                risk_explanation = some risk.explanation;
              };
            })
            risk.failures

-- Where the policy stage does not end the pipeline and the control plane is not missed, the outcome
-- sends on exactly what the scan of the payload masked, if it allows the action, and rewrites
-- nothing if it does not.
pub run-Carries :
    (env : Env) (gw : Gateway) (s : RunState) (action : Action)
    → (gw.config.require_control_plane && not gw.control_plane_attached) ≡ false
    → (assess_policy env gw s action (scan env gw action)).terminal ≡ false
    → Carries (scan env gw action).sanitized_params (run env gw s action).1
unfolding run staged
run-Carries env gw s action plane h =
    subst
      (λ b.
        Carries (scan env gw action).sanitized_params
          (if b then unattached env gw s action else staged env gw s action (scan env gw action)).1)
      (sym plane)
      (judged-Carries env gw action (observed env gw s action (scan env gw action))
        (scan env gw action) (assess_policy env gw s action (scan env gw action)) h)
