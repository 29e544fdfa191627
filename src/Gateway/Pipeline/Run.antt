-- ===== src/Gateway/Pipeline/Run.antt =====
-- The stages of an evaluation in their order: `AgentExecutionGateway::run` and `evaluate_in_place` of
-- mcp-proxy/src/gateway/mod.rs, cut at its branches as in Approve.
use sqreen_core.Prelude.{
  ℕ, String, ◌&◌, last, Bool, true, false, not, ◌&&◌, ◌||◌, Option, none, some, ◌∷◌, if◌then◌else◌,
}
use sqreen_core.Action.{Action}
use sqreen_core.Risk.{RiskAnalysis, analyze_params}
use sqreen_core.Scoring.{ExplainableRiskScore}
use sqreen_core.Behavior.{BehaviorFinding}
use sqreen_core.Gateway.Decision.{Decision, Stage, ReasonCode, EvaluationOutcome}
use sqreen_core.Gateway.Failure.{
  FailureAction, continue, escalate, refuse, Subsystem, audit_marker, decision_reason,
}
use sqreen_core.Gateway.PolicyStage.{returned, panicked, PolicyAssessment, evaluate}
use sqreen_core.Gateway.RiskStage.{RiskAssessment, scanned, explain, evaluate_risk}
use sqreen_core.Gateway.Pipeline.{
  UserDecision, Trace, Gateway, RunState, close, absorb, emit, report_failures, absorb_signals,
  finish,
}
use sqreen_core.Gateway.Pipeline.Env.{Env}
use sqreen_core.Gateway.Pipeline.Approve.{
  note, record_action, conclude, approve, with_rewrite, detail_or, text_or,
}

module _ (env : Env) (gw : Gateway) where
  -- `run`, where the action needs none
  unfoldable pub pass : RunState → Action → RiskAssessment → RunState × EvaluationOutcome
  unfolding record_action conclude finish with_rewrite
  pass s action risk =
      let s' = record_action env gw s action in
      if gw.config.audit_all_decisions
      then conclude env gw s' action Stage.audit risk "allowed" UserDecision.skipped Decision.allow
      else (
        s',
        with_rewrite risk.sanitized_payload
            (finish gw.failure s'.trace Decision.allow (some risk.score)),
      )

  -- The event of what the scan masked
  unfoldable pub emit_masking : RunState → Action → RiskAssessment → Option String → RunState
  unfolding emit
  emit_masking s action risk none = s
  emit_masking s action risk (some marker) =
      emit env.sanitize_detail gw s action Stage.risk risk.score marker UserDecision.skipped none

  -- The reason of a risk stage that could not do all its work
  unfoldable pub note_degraded : RunState → Bool → RunState
  unfolding note
  note_degraded s false = s
  note_degraded s true =
      note env gw s Stage.risk ReasonCode.degraded_to_approval
        "a risk-stage control could not run, so the action needs an approval rather than an allow"

  abbrev pub requires : Decision → Bool
  requires Decision.require_approval = true
  requires _ = false

  -- `needs_approval`
  unfoldable pub needs_approval : PolicyAssessment → RiskAssessment → Bool → Bool
  needs_approval policy risk degraded =
      risk.requires_approval || degraded || requires policy.decision

  -- `run`, after the failures of the risk stage, where they do not deny
  unfoldable pub gated :
      RunState → Action → PolicyAssessment → RiskAssessment → Bool → RunState × EvaluationOutcome
  unfolding emit_masking note_degraded needs_approval approve pass
  gated s action policy risk degraded =
      let s' = note_degraded (emit_masking s action risk risk.dlp_marker) degraded in
      if needs_approval policy risk degraded
      then approve env gw s' action risk
      else pass s' action risk

  -- `run`, from what the failures of the risk stage ask for on
  unfoldable pub after_risk :
      RunState
      → Action
      → PolicyAssessment
      → RiskAssessment
      → FailureAction
      → RunState × EvaluationOutcome
  unfolding close audit_marker gated
  after_risk s action policy risk continue = gated s action policy risk false
  after_risk s action policy risk escalate = gated s action policy risk true
  after_risk s action policy risk refuse =
      close env.sanitize_detail gw s action Stage.risk risk.score
        (audit_marker Subsystem.dlp_scanner) UserDecision.denied Decision.deny (some risk.score)

  -- `run`, from the assessment of the risk stage on
  unfoldable pub risked :
      RunState → Action → PolicyAssessment → RiskAssessment → RunState × EvaluationOutcome
  unfolding report_failures after_risk
  risked s action policy risk =
      let trace = absorb s.trace risk.reasons risk.matched_policies in
      let reported =
        report_failures env.sanitize_detail gw action risk.score
          (record s { trace = record trace { risk_explanation = some risk.explanation } })
          risk.failures in
      after_risk reported.0 action policy risk reported.1

  -- The event of a policy stage that ends the pipeline: who decided, and the marker
  unfoldable pub terminal_event : PolicyAssessment → Decision → UserDecision × String
  terminal_event policy Decision.allow =
      (UserDecision.skipped, text_or "policy_rewrite" policy.telemetry_marker)
  terminal_event policy _ = (UserDecision.denied, detail_or "policy_block" (last policy.reasons))

  -- `run`, where the policy stage ends the pipeline
  unfoldable pub stop : RunState → Action → PolicyAssessment → ℕ → RunState × EvaluationOutcome
  unfolding terminal_event close
  stop s action policy preliminary =
      let event = terminal_event policy policy.decision in
      let closed =
        close env.sanitize_detail gw s action Stage.policy preliminary event.1 event.0
          policy.decision (some preliminary) in
      (closed.0, record closed.1 { rewritten_arguments = policy.rewrite })

  -- The assessment of the risk stage
  unfoldable pub assess_risk_of : RunState → Action → RiskAnalysis → RiskAssessment
  unfolding evaluate_risk
  assess_risk_of s action analysis =
      evaluate_risk env.sanitize_detail env.show env.host.as_bytes env.host.trim env.parse_u8
        env.threshold_env env.tool_knowledge s.risk action analysis
        (elim gw.policy.engine [ none ↦ none | some engine ↦ some engine.risk_threshold ])

  -- The trace after the policy stage
  unfoldable pub absorb_policy : Trace → PolicyAssessment → Trace
  absorb_policy trace policy = record (absorb trace policy.reasons policy.matched_policies) {
    policy_version = policy.policy_version;
    policy_availability = policy.policy_availability;
    simulated_decision = policy.simulated_decision;
  }

  -- `run`, from the assessment of the policy stage on
  unfoldable pub judged :
      RunState → Action → RiskAnalysis → PolicyAssessment → RunState × EvaluationOutcome
  unfolding absorb_policy report_failures stop risked assess_risk_of
  judged s action analysis policy =
      let reported =
        report_failures env.sanitize_detail gw action analysis.score
          (record s { trace = absorb_policy s.trace policy }) policy.failures in
      if policy.terminal
      then stop reported.0 action policy analysis.score
      else risked reported.0 action policy (assess_risk_of reported.0 action analysis)

  -- `RiskStage::scan`
  unfoldable pub scan : Action → RiskAnalysis
  unfolding scanned analyze_params
  scan action = scanned (elim (env.scan_panic action) [
    | some detail ↦ panicked detail
    | none ↦ returned (
        analyze_params env.scan_string env.host.parse_json env.to_json action.tool_name
          action.canonical_params_json)
  ])

  -- The trace with the signals of the behavior engine
  unfoldable pub observe_behavior : Trace → Option BehaviorFinding → Trace
  unfolding absorb_signals
  observe_behavior trace none = trace
  observe_behavior trace (some finding) = absorb_signals env.sanitize_detail trace finding.signals

  abbrev pub finding_of : Option (Action → BehaviorFinding) → Action → Option BehaviorFinding
  finding_of none action = none
  finding_of (some engine) action = some (engine action)

  -- The explanation of the score before the policy stage
  unfoldable pub explain_action : RunState → Action → RiskAnalysis → ExplainableRiskScore
  unfolding explain
  explain_action s action analysis =
      explain env.sanitize_detail env.show env.host.as_bytes env.host.trim env.parse_u8
        env.threshold_env env.tool_knowledge s.risk action analysis

  -- The assessment of the policy stage
  unfoldable pub assess_policy : RunState → Action → RiskAnalysis → PolicyAssessment
  unfolding evaluate explain_action
  assess_policy s action analysis =
      evaluate env.host env.sanitize_detail env.panic_in env.utf8_error gw.policy
        (env.match_context action (finding_of gw.behavior action)
          (explain_action s action analysis))
        gw.failure

  -- The state before the policy stage: the signals and the explanation are in the trace
  unfoldable pub observed : RunState → Action → RiskAnalysis → RunState
  unfolding observe_behavior explain_action
  observed s action analysis = record s {
    trace = record (observe_behavior s.trace (finding_of gw.behavior action)) {
      risk_explanation = some (explain_action s action analysis);
    };
  }

  -- `run`, after the check of the control plane
  unfoldable pub staged : RunState → Action → RiskAnalysis → RunState × EvaluationOutcome
  unfolding observed assess_policy judged
  staged s action analysis =
      judged (observed s action analysis) action analysis (assess_policy s action analysis)

  -- The state where the control plane is required and not attached
  unfoldable pub detached : RunState → RunState
  unfolding note
  detached s =
      note env gw s Stage.policy ReasonCode.cloud_unavailable
        "control plane is required by configuration but not attached"

  -- `run`, where the control plane is required and not attached
  unfoldable pub unattached : RunState → Action → RunState × EvaluationOutcome
  unfolding detached close audit_marker
  unattached s action =
      close env.sanitize_detail gw (detached s) action Stage.policy 0
        (audit_marker Subsystem.control_plane) UserDecision.denied Decision.deny none

  -- `AgentExecutionGateway::run`, on a state with a new trace
  unfoldable pub run : RunState → Action → RunState × EvaluationOutcome
  unfolding unattached staged scan
  run s action =
      if gw.config.require_control_plane && not gw.control_plane_attached
      then unattached s action
      else staged s action (scan action)

  -- The reason that `evaluate_in_place` puts before the others where the enrichment failed
  unfoldable pub with_identity_error : Option String → EvaluationOutcome → EvaluationOutcome
  unfolding decision_reason
  with_identity_error none outcome = outcome
  with_identity_error (some error) outcome = record outcome {
    reasons =
        decision_reason env.sanitize_detail Stage.identity ReasonCode.identity_enrichment_failed
          ("identity enrichment failed: " & error)
        ∷ outcome.reasons;
  }

  -- `evaluate_in_place`, on an enriched action and the error of its enrichment, if any
  unfoldable pub evaluate_in_place :
      RunState → Action → Option String → RunState × EvaluationOutcome
  unfolding run with_identity_error
  evaluate_in_place s action error =
      let result = run s action in (result.0, with_identity_error error result.1)
