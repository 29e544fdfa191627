-- ===== src/Gateway/Pipeline/Approve.antt =====
-- The end of an evaluation that needs an approval: mcp-proxy/src/gateway/mod.rs. The function of the
-- code is cut at its branches, from the last to the first.
use sqreen_core.Prelude.{String, ◌&◌, take_chars, last, Option, none, some, if◌then◌else◌}
use sqreen_core.Action.{Action}
use sqreen_core.Gateway.Decision.{
  Decision, Stage, ReasonCode, DecisionReason, EvaluationOutcome, is_allowed,
}
use sqreen_core.Gateway.Failure.{Subsystem, audit_marker}
use sqreen_core.Gateway.RiskStage.{RiskAssessment, effective_payload, denial_detail, record_session}
use sqreen_core.Gateway.Approval.Grant.{
  ApprovalScope, exact_action, session_tool, ApprovalVerdict, approve_once, deny,
  approve_for_session, approve_until, ApprovalGrant, GrantAuthorization, authorized, unauthorized,
  Store,
}
use sqreen_core.Gateway.Approval.Store.{authorize, record_decision}
use sqreen_core.Gateway.Approval.Mint.{mint_grants_for_verdict}
use sqreen_core.Gateway.Approval.Context.{ApprovalContext, build, render_brief}
use sqreen_core.Gateway.Approval.Outcome.{
  ApprovalOutcome, approved, denied, unavailable, timed_out, is_judgment, as_decision,
}
use sqreen_core.Gateway.Pipeline.{
  ApprovalRequest, UserDecision, ApprovalEngine, Gateway, RunState, add_reason, emit, close,
}
use sqreen_core.Gateway.Pipeline.Env.{Env}

-- `ApprovalVerdict::as_str`
unfoldable pub verdict_str : ApprovalVerdict → String
verdict_str approve_once = "APPROVE_ONCE"
verdict_str deny = "DENY"
verdict_str approve_for_session = "APPROVE_FOR_SESSION"
verdict_str (approve_until _) = "APPROVE_UNTIL"

-- `ApprovalScope::as_str`
unfoldable pub scope_str : ApprovalScope → String
scope_str exact_action = "exact_action"
scope_str session_tool = "session_tool"

-- `UserDecision` of an outcome
unfoldable pub user_decision_of : ApprovalOutcome → UserDecision
user_decision_of (approved _) = UserDecision.approved
user_decision_of denied = UserDecision.denied
user_decision_of unavailable = UserDecision.skipped
user_decision_of timed_out = UserDecision.skipped

abbrev pub detail_or : String → Option DecisionReason → String
detail_or fallback none = fallback
detail_or fallback (some r) = r.detail

abbrev pub text_or : String → Option String → String
text_or fallback none = fallback
text_or fallback (some text) = text

-- `if outcome.is_allowed() { outcome.rewritten_arguments = rewrite; }`
unfoldable pub with_rewrite : Option String → EvaluationOutcome → EvaluationOutcome
with_rewrite rewrite outcome =
    if is_allowed outcome.decision
    then record outcome { rewritten_arguments = rewrite }
    else outcome

module _ (env : Env) (gw : Gateway) where
  unfoldable pub note : RunState → Stage → ReasonCode → String → RunState
  unfolding add_reason
  note s stage code detail = record s {
    trace = add_reason env.sanitize_detail s.trace stage code detail;
  }

  -- `self.risk.record(action)`; the behavior engine of the open core records nothing
  unfoldable pub record_action : RunState → Action → RunState
  unfolding record_session
  record_action s action = record s { risk = record_session s.risk action }

  -- The end of a branch with the payload of the risk stage if it allows
  unfoldable pub conclude :
      RunState
      → Action
      → Stage
      → RiskAssessment
      → String
      → UserDecision
      → Decision
      → RunState × EvaluationOutcome
  unfolding close with_rewrite
  conclude s action stage risk pattern user_decision decision =
      let closed =
        close env.sanitize_detail gw s action stage risk.score pattern user_decision decision
          (some risk.score) in
      (closed.0, with_rewrite risk.sanitized_payload closed.1)

  -- The decision of an approver in the history of the grants
  unfoldable pub with_decision : RunState → ApprovalContext → ApprovalVerdict → RunState
  unfolding record_decision render_brief
  with_decision s context verdict = record s {
    grants =
        record_decision s.grants context.request_id context.binding verdict
          (render_brief env.show env.time context);
  }

  -- The reason of an approval, with the grant that it minted, if any
  unfoldable pub approval_reason :
      RunState → String → ApprovalVerdict → Option ApprovalGrant → RunState
  unfolding note verdict_str scope_str take_chars
  approval_reason s engine verdict none =
      note s Stage.approval ReasonCode.operator_approved
        ("approved via " & engine & " as " & verdict_str verdict)
  approval_reason s engine verdict (some grant) =
      note s Stage.approval ReasonCode.operator_approved (
        "approved via "
        & engine
        & " as "
        & verdict_str verdict
        & " (grant "
        & take_chars 18 grant.token
        & " scope="
        & scope_str grant.scope
        & ")")

  -- `mint_grants_for_verdict` on the store of the gateway
  unfoldable pub minted :
      RunState → ApprovalContext → ApprovalVerdict → Store × Option ApprovalGrant
  unfolding mint_grants_for_verdict
  minted s context verdict =
      mint_grants_for_verdict env.hex_sha256 env.separator env.host.trim env.show env.from_std
        s.grants context verdict env.answered_at

  -- The `match` on the outcome of an approval
  unfoldable pub settle_outcome :
      RunState → ApprovalContext → RiskAssessment → String → ApprovalOutcome → RunState
  unfolding with_decision approval_reason minted note denial_detail
  settle_outcome s context risk engine (approved verdict) =
      let s' = with_decision s context verdict in
      let m = minted s' context verdict in
      approval_reason (record s' { grants = m.0 }) engine verdict m.1
  settle_outcome s context risk engine denied =
      note (with_decision s context deny) Stage.approval ReasonCode.operator_denied
        (denial_detail risk)
  settle_outcome s context risk engine unavailable =
      note s Stage.approval ReasonCode.approval_unavailable ("no approver reachable via " & engine)
  settle_outcome s context risk engine timed_out =
      note s Stage.approval ReasonCode.approval_timed_out
        ("approval via " & engine & " was not answered before its deadline")

  -- The event of an approver that could not answer
  unfoldable pub report_unanswered :
      RunState → Action → RiskAssessment → ApprovalOutcome → Decision → RunState
  unfolding emit is_judgment audit_marker
  report_unanswered s action risk outcome decision =
      if is_judgment outcome
      then s
      else emit env.sanitize_detail gw s action Stage.approval risk.score
          (audit_marker Subsystem.approval) UserDecision.skipped (some decision)

  -- `run`, from the outcome of the approval on
  unfoldable pub resolved :
      RunState
      → Action
      → RiskAssessment
      → ApprovalContext
      → String
      → ApprovalOutcome
      → RunState × EvaluationOutcome
  unfolding record_action settle_outcome report_unanswered as_decision user_decision_of conclude
  resolved s action risk context engine outcome =
      let decision = as_decision outcome gw.failure.approval_unavailable in
      let s' = settle_outcome (record_action s action) context risk engine outcome in
      conclude (report_unanswered s' action risk outcome decision) action Stage.approval risk
        risk.telemetry_marker (user_decision_of outcome) decision

  -- The request to an approval engine; the last reason is the one that triggered it
  unfoldable pub request_of : RunState → Action → RiskAssessment → ApprovalContext → ApprovalRequest
  unfolding denial_detail effective_payload
  request_of s action risk context = record {
    action = action;
    risk_score = risk.score;
    payload = effective_payload risk action.canonical_params_json;
    justification = detail_or (denial_detail risk) (last s.trace.reasons);
    context = context;
  }

  -- The state where no approval engine is configured
  unfoldable pub deferred : RunState → Action → RunState
  unfolding record_action note
  deferred s action =
      note (record_action s action) Stage.approval ReasonCode.approval_deferred
        "approval required and no approval engine is configured to resolve it"

  -- `run`, from the choice of the approval engine on
  unfoldable pub ask :
      RunState
      → Action
      → RiskAssessment
      → ApprovalContext
      → Option ApprovalEngine
      → RunState × EvaluationOutcome
  unfolding deferred close resolved request_of
  ask s action risk context none =
      close env.sanitize_detail gw (deferred s action) action Stage.approval risk.score
        risk.telemetry_marker UserDecision.skipped Decision.require_approval (some risk.score)
  ask s action risk context (some engine) =
      resolved s action risk context engine.name (engine.request (request_of s action risk context))

  -- The state where a grant authorizes the action
  unfoldable pub reused : RunState → Action → ApprovalGrant → RunState
  unfolding record_action note verdict_str scope_str take_chars
  reused s action grant =
      note (record_action s action) Stage.approval ReasonCode.approval_grant_reused (
        "authorized by "
        & verdict_str grant.verdict
        & " grant "
        & take_chars 18 grant.token
        & " (scope="
        & scope_str grant.scope
        & ")")

  -- `run`, from the answer of the grant store on
  unfoldable pub after_grants :
      RunState
      → Action
      → RiskAssessment
      → ApprovalContext
      → GrantAuthorization
      → RunState × EvaluationOutcome
  unfolding reused conclude ask
  after_grants s action risk context unauthorized = ask s action risk context gw.approval
  after_grants s action risk context (authorized grant) =
      conclude (reused s action grant) action Stage.approval risk risk.telemetry_marker
        UserDecision.approved Decision.allow

  -- The lookup of a grant
  unfoldable pub lookup_grant : RunState → Action → Store × GrantAuthorization
  unfolding authorize
  lookup_grant s action =
      authorize env.hex_sha256 env.separator env.host.trim env.show env.from_std s.grants action
        env.now

  -- The context of the request
  unfoldable pub context_of : RunState → Action → RiskAssessment → ApprovalContext
  unfolding build effective_payload
  context_of s action risk =
      build env.show env.sanitize_detail env.hex_sha256 env.separator action
        (effective_payload risk action.canonical_params_json) risk.score (some risk.explanation)
        s.trace.reasons s.trace.matched_policies

  -- `run`, where the action needs an approval
  unfoldable pub approve : RunState → Action → RiskAssessment → RunState × EvaluationOutcome
  unfolding context_of after_grants lookup_grant
  approve s action risk =
      let answer = lookup_grant s action in
      after_grants (record s { grants = answer.0 }) action risk (context_of s action risk) answer.1
