-- ===== src/Gateway/Pipeline/Trail.antt =====
-- Every end of a run is audited (mcp-proxy/src/gateway/mod.rs), from the last stage to the first.
use sqreen_core.Prelude.{
  ℕ, ◌≡◌, refl, arith, String, Bool, true, false, not, ◌&&◌, Option, none, some, List, [], ◌∷◌,
  if◌then◌else◌,
}
use sqreen_core.Action.{Action}
use sqreen_core.Risk.{RiskAnalysis}
use sqreen_core.Behavior.{BehaviorFinding}
use sqreen_core.Gateway.Decision.{Decision, Stage, EvaluationOutcome}
use sqreen_core.Gateway.Failure.{
  FailureAction, continue, escalate, refuse, SubsystemFailure, severest, decide, forced_decision,
  stage_of, audit_marker, Subsystem,
}
use sqreen_core.Gateway.PolicyStage.{PolicyAssessment}
use sqreen_core.Gateway.RiskStage.{RiskStage, RiskAssessment}
use sqreen_core.Gateway.Approval.Grant.{
  Store, ApprovalGrant, GrantAuthorization, authorized, unauthorized,
}
use sqreen_core.Gateway.Approval.Context.{ApprovalContext}
use sqreen_core.Gateway.Approval.Outcome.{
  ApprovalOutcome, approved, denied, unavailable, timed_out, is_judgment, as_decision,
}
use sqreen_core.Gateway.Pipeline.{
  UserDecision, ApprovalEngine, Gateway, RunState, begin, close, add_reason, report_one,
  report_from, report_failures, absorb_signals, finish, settled, absorb,
}
use sqreen_core.Gateway.Pipeline.Env.{Env}
use sqreen_core.Gateway.Pipeline.Approve.{
  deferred, reused, note, record_action, with_rewrite, conclude, with_decision, approval_reason,
  minted, settle_outcome, report_unanswered, resolved, request_of, ask, after_grants, lookup_grant,
  context_of, approve, user_decision_of,
}
use sqreen_core.Gateway.Pipeline.Run.{
  detached, emit_masking, note_degraded, needs_approval, pass, gated, after_risk, risked, stop,
  judged, observed, finding_of, observe_behavior, absorb_policy, staged, run, unattached, scan,
  assess_policy, assess_risk_of, terminal_event,
}
use sqreen_core.Gateway.Pipeline.Cleared.{with_rewrite-decision}
use sqreen_core.Gateway.Pipeline.Audit.{
  refused, refused-is_empty, IsTracked, IsAudited, emit-IsTracked, emit-is_empty, finish-IsAudited,
}

module _ (env : Env) (gw : Gateway) (action : Action) where
  close-IsAudited :
      (s : RunState) (stage : Stage) (shown : ℕ) (pattern : String) (user_decision : UserDecision)
      (d : Decision) (score : Option ℕ) (o : EvaluationOutcome)
      → IsTracked gw s
      → let r = close env.sanitize_detail gw s action stage shown pattern user_decision d score in
        o.decision ≡ r.1.decision → IsAudited gw (r.0, o)
  unfolding close finish
  close-IsAudited s stage shown pattern user_decision d score o t e =
      finish-IsAudited gw
        (close env.sanitize_detail gw s action stage shown pattern user_decision d score).0 o d
        (emit-IsTracked env.sanitize_detail gw s action stage shown pattern user_decision (some d)
          t)
        (emit-is_empty env.sanitize_detail gw s action stage shown pattern user_decision (some d)) e

  conclude-IsAudited :
      (s : RunState) (stage : Stage) (risk : RiskAssessment) (pattern : String)
      (user_decision : UserDecision) (d : Decision)
      → IsTracked gw s
      → IsAudited gw (conclude env gw s action stage risk pattern user_decision d)
  unfolding conclude
  conclude-IsAudited s stage risk pattern user_decision d t =
      close-IsAudited s stage risk.score pattern user_decision d (some risk.score)
        (conclude env gw s action stage risk pattern user_decision d).1 t
        (with_rewrite-decision risk.sanitized_payload
          (close env.sanitize_detail gw s action stage risk.score pattern user_decision d
            (some risk.score)).1)

  settle_outcome-IsTracked :
      (s : RunState) (context : ApprovalContext) (risk : RiskAssessment) (engine : String)
      (o : ApprovalOutcome)
      → IsTracked gw s
      → IsTracked gw (settle_outcome env gw s context risk engine o)
  unfolding settle_outcome with_decision note add_reason approval_reason
  settle_outcome-IsTracked s context risk engine denied t = t
  settle_outcome-IsTracked s context risk engine unavailable t = t
  settle_outcome-IsTracked s context risk engine timed_out t = t
  settle_outcome-IsTracked s context risk engine (approved verdict) t =
      by_grant (minted env gw (with_decision env gw s context verdict) context verdict).1
    where
      by_grant :
          (o : Option ApprovalGrant)
          → IsTracked gw (
              approval_reason env gw
                (record (with_decision env gw s context verdict) {
                  grants =
                      (minted env gw (with_decision env gw s context verdict) context verdict).0;
                })
                engine
                verdict
                o)
      by_grant none = t
      by_grant (some g) = t

  report_unanswered-IsTracked :
      (s : RunState) (risk : RiskAssessment) (o : ApprovalOutcome) (d : Decision)
      → IsTracked gw s
      → IsTracked gw (report_unanswered env gw s action risk o d)
  unfolding report_unanswered is_judgment
  report_unanswered-IsTracked s risk (approved verdict) d t = t
  report_unanswered-IsTracked s risk denied d t = t
  report_unanswered-IsTracked s risk unavailable d t =
      emit-IsTracked env.sanitize_detail gw s action Stage.approval risk.score _
        UserDecision.skipped (some d) t
  report_unanswered-IsTracked s risk timed_out d t =
      emit-IsTracked env.sanitize_detail gw s action Stage.approval risk.score _
        UserDecision.skipped (some d) t

  resolved-IsAudited :
      (s : RunState) (risk : RiskAssessment) (context : ApprovalContext) (engine : String)
      (o : ApprovalOutcome)
      → IsTracked gw s
      → IsAudited gw (resolved env gw s action risk context engine o)
  unfolding resolved record_action
  resolved-IsAudited s risk context engine o t =
      let d = as_decision o gw.failure.approval_unavailable in
      let s' = settle_outcome env gw (record_action env gw s action) context risk engine o in
      conclude-IsAudited (report_unanswered env gw s' action risk o d) Stage.approval risk
        risk.telemetry_marker (user_decision_of o) d
        (report_unanswered-IsTracked s' risk o d
          (settle_outcome-IsTracked (record_action env gw s action) context risk engine o t))

  ask-IsAudited :
      (s : RunState) (risk : RiskAssessment) (context : ApprovalContext) (o : Option ApprovalEngine)
      → IsTracked gw s
      → IsAudited gw (ask env gw s action risk context o)
  unfolding ask deferred record_action note add_reason
  ask-IsAudited s risk context none t =
      close-IsAudited (deferred env gw s action) Stage.approval risk.score risk.telemetry_marker
        UserDecision.skipped Decision.require_approval (some risk.score)
        (ask env gw s action risk context none).1 t refl
  ask-IsAudited s risk context (some engine) t =
      resolved-IsAudited s risk context engine.name
        (engine.request (request_of env gw s action risk context)) t

  after_grants-IsAudited :
      (s : RunState) (risk : RiskAssessment) (context : ApprovalContext) (a : GrantAuthorization)
      → IsTracked gw s
      → IsAudited gw (after_grants env gw s action risk context a)
  unfolding after_grants reused record_action note add_reason
  after_grants-IsAudited s risk context unauthorized t = ask-IsAudited s risk context gw.approval t
  after_grants-IsAudited s risk context (authorized g) t =
      conclude-IsAudited (reused env gw s action g) Stage.approval risk risk.telemetry_marker
        UserDecision.approved Decision.allow t

  approve-IsAudited :
      (s : RunState) (risk : RiskAssessment)
      → IsTracked gw s
      → IsAudited gw (approve env gw s action risk)
  unfolding approve
  approve-IsAudited s risk t =
      after_grants-IsAudited (record s { grants = (lookup_grant env gw s action).0 }) risk
        (context_of env gw s action risk) (lookup_grant env gw s action).1 t

  pass-IsAudited :
      (s : RunState) (risk : RiskAssessment)
      → IsTracked gw s
      → IsAudited gw (pass env gw s action risk)
  unfolding pass record_action finish settled
  pass-IsAudited s risk t = by_config gw.config.audit_all_decisions
    where
      by_config :
          (b : Bool)
          → IsAudited gw (
              if b
              then conclude env gw
                  (record_action env gw s action)
                  action
                  Stage.audit
                  risk
                  "allowed"
                  UserDecision.skipped
                  Decision.allow
              else (
                record_action env gw s action,
                with_rewrite risk.sanitized_payload
                    (finish gw.failure s.trace Decision.allow (some risk.score)),
              ))
      by_config true =
          conclude-IsAudited (record_action env gw s action) Stage.audit risk "allowed"
            UserDecision.skipped Decision.allow t
      by_config false =
          let e =
            with_rewrite-decision risk.sanitized_payload
              (finish gw.failure s.trace Decision.allow (some risk.score)) in
          (
            t,
            (λ c. ground (arith, e, c)),
            (λ n. refused-is_empty gw.audit [] s.events (ground (arith, e, n, t))),
          )

  masked-IsTracked :
      (s : RunState) (risk : RiskAssessment) (marker : Option String) (degraded : Bool)
      → IsTracked gw s
      → IsTracked gw (note_degraded env gw (emit_masking env gw s action risk marker) degraded)
  unfolding note_degraded emit_masking note add_reason
  masked-IsTracked s risk none false t = t
  masked-IsTracked s risk none true t = t
  masked-IsTracked s risk (some marker) false t =
      emit-IsTracked env.sanitize_detail gw s action Stage.risk risk.score marker
        UserDecision.skipped none t
  masked-IsTracked s risk (some marker) true t =
      emit-IsTracked env.sanitize_detail gw s action Stage.risk risk.score marker
        UserDecision.skipped none t

  gated-IsAudited :
      (s : RunState) (policy : PolicyAssessment) (risk : RiskAssessment) (degraded : Bool)
      → IsTracked gw s
      → IsAudited gw (gated env gw s action policy risk degraded)
  unfolding gated
  gated-IsAudited s policy risk degraded t = by_need (needs_approval env gw policy risk degraded)
    where
      s' : RunState
      s' = note_degraded env gw (emit_masking env gw s action risk risk.dlp_marker) degraded

      by_need :
          (b : Bool)
          → IsAudited gw (if b then approve env gw s' action risk else pass env gw s' action risk)
      by_need true = approve-IsAudited s' risk (masked-IsTracked s risk risk.dlp_marker degraded t)
      by_need false = pass-IsAudited s' risk (masked-IsTracked s risk risk.dlp_marker degraded t)

  after_risk-IsAudited :
      (s : RunState) (policy : PolicyAssessment) (risk : RiskAssessment) (a : FailureAction)
      → IsTracked gw s
      → IsAudited gw (after_risk env gw s action policy risk a)
  unfolding after_risk
  after_risk-IsAudited s policy risk continue t = gated-IsAudited s policy risk false t
  after_risk-IsAudited s policy risk escalate t = gated-IsAudited s policy risk true t
  after_risk-IsAudited s policy risk refuse t =
      close-IsAudited s Stage.risk risk.score (audit_marker Subsystem.dlp_scanner)
        UserDecision.denied Decision.deny (some risk.score)
        (after_risk env gw s action policy risk refuse).1 t refl

  report_from-IsTracked :
      (score : ℕ) (fs : List SubsystemFailure) (s : RunState) (worst : FailureAction)
      → IsTracked gw s
      → IsTracked gw (report_from env.sanitize_detail gw action score fs s worst).0
  unfolding report_from report_one
  report_from-IsTracked score [] s worst t = t
  report_from-IsTracked score (f ∷ fs) s worst t =
      report_from-IsTracked score fs (report_one env.sanitize_detail gw action score s f)
        (severest worst (decide gw.failure f))
        (emit-IsTracked env.sanitize_detail gw s action (stage_of f.subsystem) score
          (audit_marker f.subsystem) UserDecision.skipped (forced_decision (decide gw.failure f)) t)

  risked-IsAudited :
      (s : RunState) (policy : PolicyAssessment) (risk : RiskAssessment)
      → IsTracked gw s
      → IsAudited gw (risked env gw s action policy risk)
  unfolding risked report_failures
  risked-IsAudited s policy risk t =
      after_risk-IsAudited reported.0 policy risk reported.1
        (report_from-IsTracked risk.score risk.failures start continue t)
    where
      start : RunState
      start = record s {
        trace = record (absorb s.trace risk.reasons risk.matched_policies) {
          risk_explanation = some risk.explanation;
        };
      }

      reported : RunState × FailureAction
      reported = report_from env.sanitize_detail gw action risk.score risk.failures start continue

  stop-IsAudited :
      (s : RunState) (policy : PolicyAssessment) (score : ℕ)
      → IsTracked gw s
      → IsAudited gw (stop env gw s action policy score)
  unfolding stop
  stop-IsAudited s policy score t =
      let event = terminal_event env gw policy policy.decision in
      close-IsAudited s Stage.policy score event.1 event.0 policy.decision (some score)
        (stop env gw s action policy score).1 t refl

  judged-IsAudited :
      (s : RunState) (analysis : RiskAnalysis) (policy : PolicyAssessment)
      → IsTracked gw s
      → IsAudited gw (judged env gw s action analysis policy)
  unfolding judged report_failures absorb_policy
  judged-IsAudited s analysis policy t = by_end policy.terminal
    where
      start : RunState
      start = record s { trace = absorb_policy env gw s.trace policy }

      reported : RunState
      reported =
          (report_from env.sanitize_detail gw action analysis.score policy.failures start
            continue).0

      tracked : IsTracked gw reported
      tracked = report_from-IsTracked analysis.score policy.failures start continue t

      by_end :
          (b : Bool)
          → IsAudited gw (
              if b
              then stop env gw reported action policy analysis.score
              else risked env gw reported action policy
                  (assess_risk_of env gw reported action analysis))
      by_end true = stop-IsAudited reported policy analysis.score tracked
      by_end false =
          risked-IsAudited reported policy (assess_risk_of env gw reported action analysis) tracked

  observed-IsTracked :
      (s : RunState) (analysis : RiskAnalysis)
      → IsTracked gw s
      → IsTracked gw (observed env gw s action analysis)
  unfolding observed observe_behavior absorb_signals
  observed-IsTracked s analysis t = by_finding gw.behavior
    where
      by_finding :
          (o : Option (Action → BehaviorFinding))
          → (observe_behavior env gw s.trace (finding_of env gw o action)).audit_failed
            ≡ refused gw.audit [] s.events
      by_finding none = t
      by_finding (some engine) = t

-- On every path of an evaluation, the trace of the run knows exactly whether the audit sink refused
-- one of the run's events; where it did and the failure policy closes on a failed audit, the
-- decision is a deny; and where the decision is not an allow, the run gave the sink an event.
pub run-IsAudited :
    (env : Env) (gw : Gateway) (risk : RiskStage) (grants : Store) (action : Action)
    → IsAudited gw (run env gw (begin risk grants action) action)
unfolding run staged unattached detached note add_reason
run-IsAudited env gw risk grants action =
    by_plane (gw.config.require_control_plane && not gw.control_plane_attached)
  where
    s : RunState
    s = begin risk grants action

    by_plane :
        (b : Bool)
        → IsAudited gw
            (if b then unattached env gw s action else staged env gw s action (scan env gw action))
    by_plane true =
        close-IsAudited env gw action (detached env gw s) Stage.policy 0
          (audit_marker Subsystem.control_plane) UserDecision.denied Decision.deny none
          (unattached env gw s action).1 refl refl
    by_plane false =
        judged-IsAudited env gw action (observed env gw s action (scan env gw action))
          (scan env gw action) (assess_policy env gw s action (scan env gw action))
          (observed-IsTracked env gw action s (scan env gw action) refl)
