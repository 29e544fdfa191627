-- ===== src/Gateway/Pipeline.antt =====
-- The pipeline of the gateway: the state that its stages share, in mcp-proxy/src/gateway/mod.rs, and
-- the events of mcp-proxy/src/gateway/audit.rs. Identifiers, times and latencies are left out.
pub mod Env
pub mod Approve
pub mod Run
pub mod Audit
pub mod Cleared
pub mod Verdict
pub mod Trail
pub mod Failures
pub mod Masking
use sqreen_core.Prelude.{
  ℕ, String, ◌&◌, Bool, true, false, ◌&&◌, Option, none, some, List, [], ◌∷◌, ◌++◌, map,
  if◌then◌else◌,
}
use sqreen_core.Action.{Action}
use sqreen_core.Scoring.{ExplainableRiskScore, RiskLevel, RiskFactor}
use sqreen_core.Behavior.{BehaviorFinding, BehaviorSignal, signal_str}
use sqreen_core.Gateway.Posture.{PolicyAvailability, available}
use sqreen_core.Gateway.Decision.{
  Decision, Stage, ReasonCode, DecisionReason, PolicySource, MatchedPolicy, matched_policy,
  EvaluationOutcome,
}
use sqreen_core.Gateway.Failure.{
  FailurePolicy, is_closed, decision_reason, SubsystemFailure, FailureAction, continue, severest,
  decide, forced_decision, stage_of, audit_marker,
}
use sqreen_core.Gateway.PolicyStage.{PolicyStage}
use sqreen_core.Gateway.RiskStage.{RiskStage}
use sqreen_core.Gateway.Approval.Grant.{Store}
use sqreen_core.Gateway.Approval.Context.{ApprovalContext}
use sqreen_core.Gateway.Approval.Outcome.{ApprovalOutcome}

-- `UserDecision` of mcp-proxy/src/cloud_client/stub.rs
pub data UserDecision : Type 0 where
  approved denied skipped : UserDecision

-- `GatewayConfig`
pub record GatewayConfig : Type 0 where
  pub audit_all_decisions : Bool
  pub require_control_plane : Bool

-- `AuditEvent`; the action stands for what the event copies of it
pub record AuditEvent : Type 0 where
  pub action : Action
  pub stage : Stage
  pub risk_score : ℕ
  pub risk_level : Option RiskLevel
  pub risk_factors : List RiskFactor
  pub decision : Option Decision
  pub pattern_matched : String
  pub user_decision : UserDecision
  pub reasons : List DecisionReason
  pub matched_policies : List MatchedPolicy
  pub policy_version : Option String

-- `Trace`
pub record Trace : Type 0 where
  pub tool_name : String
  pub reasons : List DecisionReason
  pub matched_policies : List MatchedPolicy
  pub policy_version : Option String
  pub policy_availability : PolicyAvailability
  pub audit_failed : Bool
  pub simulated_decision : Option Decision
  pub risk_explanation : Option ExplainableRiskScore

-- `ApprovalRequest`
pub record ApprovalRequest : Type 0 where
  pub action : Action
  pub risk_score : ℕ
  pub payload : String
  pub justification : String
  pub context : ApprovalContext

-- An `ApprovalEngine`: its name, and what it answers
pub record ApprovalEngine : Type 0 where
  pub name : String
  pub request : ApprovalRequest → ApprovalOutcome

-- `AgentExecutionGateway`, without the state that its operations change; the audit sink is given by
-- the text of its error, if any, on an event after the events before it.
pub record Gateway : Type 0 where
  pub behavior : Option (Action → BehaviorFinding)
  pub policy : PolicyStage
  pub approval : Option ApprovalEngine
  pub audit : List AuditEvent → AuditEvent → Option String
  pub failure : FailurePolicy
  pub config : GatewayConfig
  pub control_plane_attached : Bool

-- What an evaluation changes: its trace, the events that the sink was given, the risk stage with its
-- session, and the store of grants
pub record RunState : Type 0 where
  pub trace : Trace
  pub events : List AuditEvent
  pub risk : RiskStage
  pub grants : Store

-- `Trace::new`
abbrev pub new_trace : Action → Trace
new_trace action = record {
  tool_name = action.tool_name;
  reasons = [];
  matched_policies = [];
  policy_version = none;
  policy_availability = available;
  audit_failed = false;
  simulated_decision = none;
  risk_explanation = none;
}

-- The state in which a run starts
abbrev pub begin : RiskStage → Store → Action → RunState
begin risk grants action = record {
  trace = new_trace action;
  events = [];
  risk = risk;
  grants = grants;
}

-- `Trace::absorb`
abbrev pub absorb : Trace → List DecisionReason → List MatchedPolicy → Trace
absorb trace reasons matched = record trace {
  reasons = trace.reasons ++ reasons;
  matched_policies = trace.matched_policies ++ matched;
}

-- The level and the factors that `with_risk_explanation` and `finish` read
abbrev pub level_of : Option ExplainableRiskScore → Option RiskLevel
level_of none = none
level_of (some explanation) = some explanation.level

abbrev pub factors_of : Option ExplainableRiskScore → List RiskFactor
factors_of none = []
factors_of (some explanation) = explanation.factors

-- The decision that `finish` settles on
unfoldable pub settled : FailurePolicy → Trace → Decision → Decision
settled failure trace decision =
    if trace.audit_failed && is_closed failure.audit_error then Decision.deny else decision

-- `Trace::finish`
unfoldable pub finish : FailurePolicy → Trace → Decision → Option ℕ → EvaluationOutcome
unfolding settled
finish failure trace decision risk_score = record {
  decision = settled failure trace decision;
  reasons = trace.reasons;
  matched_policies = trace.matched_policies;
  risk_score = risk_score;
  risk_level = level_of trace.risk_explanation;
  risk_factors = factors_of trace.risk_explanation;
  policy_version = trace.policy_version;
  policy_availability = trace.policy_availability;
  simulated_decision = trace.simulated_decision;
  tool_name = trace.tool_name;
  rewritten_arguments = none;
}

-- The event of `emit`
unfoldable pub event_of :
    Trace → Action → Stage → ℕ → String → UserDecision → Option Decision → AuditEvent
event_of trace action stage risk_score pattern user_decision decision = record {
  action = action;
  stage = stage;
  risk_score = risk_score;
  risk_level = level_of trace.risk_explanation;
  risk_factors = factors_of trace.risk_explanation;
  decision = decision;
  pattern_matched = pattern;
  user_decision = user_decision;
  reasons = trace.reasons;
  matched_policies = trace.matched_policies;
  policy_version = trace.policy_version;
}

-- `sanitize_detail` is the masking of texts.
module _ (sanitize_detail : String → String) where
  -- `Trace::reason`
  unfoldable pub add_reason : Trace → Stage → ReasonCode → String → Trace
  unfolding decision_reason
  add_reason trace stage code detail = record trace {
    reasons = trace.reasons ++ decision_reason sanitize_detail stage code detail ∷ [];
  }

  -- The trace after the answer of the sink
  unfoldable pub answered : Option String → Trace → Trace
  unfolding add_reason
  answered none trace = trace
  answered (some error) trace =
      record (add_reason trace Stage.audit ReasonCode.audit_delivery_failed
        ("audit sink failed: " & error)) { audit_failed = true }

  -- `AgentExecutionGateway::emit`
  unfoldable pub emit :
      Gateway → RunState → Action → Stage → ℕ → String → UserDecision → Option Decision → RunState
  unfolding event_of answered
  emit gw s action stage risk_score pattern user_decision decision =
      let event = event_of s.trace action stage risk_score pattern user_decision decision in
      record s {
        trace = answered (gw.audit s.events event) s.trace;
        events = s.events ++ event ∷ [];
      }

  -- The end of a branch: `emit` with a decision, and then `finish`
  unfoldable pub close :
      Gateway
      → RunState
      → Action
      → Stage
      → ℕ
      → String
      → UserDecision
      → Decision
      → Option ℕ
      → RunState × EvaluationOutcome
  unfolding emit finish
  close gw s action stage shown_score pattern user_decision decision risk_score =
      let s' = emit gw s action stage shown_score pattern user_decision (some decision) in
      (s', finish gw.failure s'.trace decision risk_score)

  -- The event of one failure
  unfoldable pub report_one : Gateway → Action → ℕ → RunState → SubsystemFailure → RunState
  unfolding emit decide stage_of audit_marker forced_decision
  report_one gw action risk_score s f =
      emit gw s action (stage_of f.subsystem) risk_score (audit_marker f.subsystem)
        UserDecision.skipped (forced_decision (decide gw.failure f))

  -- The loop of `report_failures`, with the severest action so far
  unfoldable pub report_from :
      Gateway
      → Action
      → ℕ
      → List SubsystemFailure
      → RunState
      → FailureAction
      → RunState × FailureAction
  unfolding report_one severest decide
  report_from gw action risk_score [] s worst = (s, worst)
  report_from gw action risk_score (f ∷ fs) s worst =
      report_from gw action risk_score fs (report_one gw action risk_score s f)
        (severest worst (decide gw.failure f))

  -- `AgentExecutionGateway::report_failures`
  unfoldable pub report_failures :
      Gateway → Action → ℕ → RunState → List SubsystemFailure → RunState × FailureAction
  unfolding report_from
  report_failures gw action risk_score s failures =
      report_from gw action risk_score failures s continue

  -- The reasons and the rules that the signals of a finding leave in the trace
  unfoldable pub absorb_signals : Trace → List BehaviorSignal → Trace
  unfolding decision_reason signal_str
  absorb_signals trace signals =
      absorb trace
        (map
          (λ (s : BehaviorSignal).
            decision_reason sanitize_detail Stage.behavior ReasonCode.behavioral_signal s.detail)
          signals)
        (map
          (λ (s : BehaviorSignal).
            matched_policy PolicySource.behavioral_analytics ("behavior." & signal_str s.kind)
              Decision.allow)
          signals)
