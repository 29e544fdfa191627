-- ===== src/Gateway/Pipeline/Cleared.antt =====
-- What lets an action pass the stages after the policy (mcp-proxy/src/gateway/mod.rs): lemmas for
-- Verdict, from the last stage to the first.
use sqreen_core.Prelude.{
  ℕ, ◌≡◌, ◌≢◌, ◌⊎◌, inl, inr, refl, arith, subst, String, Bool, true, false, Option, none, some,
  List, [], ◌∷◌, All, if◌then◌else◌,
}
use sqreen_core.Action.{Action}
use sqreen_core.Gateway.Posture.{FailureMode, fail_open, degrade_safely, fail_closed}
use sqreen_core.Gateway.Decision.{Decision, Stage, EvaluationOutcome}
use sqreen_core.Gateway.Failure.{
  FailureAction, continue, escalate, refuse, FailurePolicy, SubsystemFailure, decide, severest,
  mode_for, action_of_mode,
}
use sqreen_core.Gateway.PolicyStage.{PolicyAssessment}
use sqreen_core.Gateway.PolicyStage.Closed.{IsOpen}
use sqreen_core.Gateway.RiskStage.{RiskAssessment}
use sqreen_core.Gateway.Approval.Binding.{from_action, session_approval_safe}
use sqreen_core.Scoring.{medium}
use sqreen_core.Gateway.Approval.Grant.{
  Store, ApprovalVerdict, ApprovalGrant, GrantAuthorization, authorized, unauthorized,
}
use sqreen_core.Gateway.Approval.Authorize.{Authorizes, authorize-Authorizes}
use sqreen_core.Gateway.Approval.Context.{ApprovalContext}
use sqreen_core.Gateway.Approval.Outcome.{
  ApprovalOutcome, approved, denied, unavailable, timed_out, as_decision, unanswered,
}
use sqreen_core.Gateway.Pipeline.{
  UserDecision, Trace, ApprovalRequest, ApprovalEngine, Gateway, RunState, report_one, emit,
  report_from, report_failures, absorb, close, finish, settled,
}
use sqreen_core.Gateway.Pipeline.Env.{Env}
use sqreen_core.Gateway.Pipeline.Approve.{
  context_of, note, with_rewrite, request_of, conclude, resolved, ask, after_grants, lookup_grant,
  approve,
}
use sqreen_core.Gateway.Pipeline.Run.{
  note_degraded, emit_masking, requires, needs_approval, pass, gated, after_risk, risked,
}

finish-allow :
    (failure : FailurePolicy) (trace : Trace) (d : Decision) (score : Option ℕ)
    → (finish failure trace d score).decision ≡ Decision.allow
    → d ≡ Decision.allow
unfolding close finish settled
finish-allow failure trace d score h = ground (arith, h)

pub with_rewrite-decision :
    (rewrite : Option String) (o : EvaluationOutcome)
    → (with_rewrite rewrite o).decision ≡ o.decision
unfolding with_rewrite
with_rewrite-decision rewrite o = ground arith

as_decision-allow :
    (o : ApprovalOutcome) (mode : FailureMode)
    → as_decision o mode ≡ Decision.allow
    → (verdict : ApprovalVerdict) × (o ≡ approved verdict)
unfolding as_decision unanswered
as_decision-allow (approved verdict) mode h = (verdict, refl)
as_decision-allow denied mode h = ground (arith, h)
as_decision-allow unavailable fail_open h = ground (arith, h)
as_decision-allow unavailable degrade_safely h = ground (arith, h)
as_decision-allow unavailable fail_closed h = ground (arith, h)
as_decision-allow timed_out fail_open h = ground (arith, h)
as_decision-allow timed_out degrade_safely h = ground (arith, h)
as_decision-allow timed_out fail_closed h = ground (arith, h)

module _ (env : Env) (gw : Gateway) (action : Action) where
  -- The approval engine of the gateway approved the action.
  abbrev pub IsApproved : Type 0
  IsApproved =
      (engine : ApprovalEngine) × (request : ApprovalRequest) × (verdict : ApprovalVerdict)
      × (gw.approval ≡ some engine)
      × (request.action ≡ action)
      × (engine.request request ≡ approved verdict)

  -- A grant of the store authorizes the action.
  abbrev pub IsGranted : Store → Type 0
  IsGranted grants =
      (g : ApprovalGrant) × Authorizes grants (from_action env.hex_sha256 env.separator action)
        (session_approval_safe action medium) env.now g

  conclude-allow :
      (s : RunState) (stage : Stage) (risk : RiskAssessment) (pattern : String)
      (user_decision : UserDecision) (d : Decision)
      → (conclude env gw s action stage risk pattern user_decision d).1.decision ≡ Decision.allow
      → d ≡ Decision.allow
  unfolding conclude close finish settled with_rewrite
  conclude-allow s stage risk pattern user_decision d h = ground (arith, h)

  resolved-allow :
      (s : RunState) (risk : RiskAssessment) (context : ApprovalContext) (name : String)
      (o : ApprovalOutcome)
      → (resolved env gw s action risk context name o).1.decision ≡ Decision.allow
      → (verdict : ApprovalVerdict) × (o ≡ approved verdict)
  unfolding resolved conclude close finish settled with_rewrite
  resolved-allow s risk context name o h =
      as_decision-allow o gw.failure.approval_unavailable (ground (arith, h))

  ask-allow :
      (s : RunState) (risk : RiskAssessment) (context : ApprovalContext) (o : Option ApprovalEngine)
      → gw.approval ≡ o
      → (ask env gw s action risk context o).1.decision ≡ Decision.allow
      → IsApproved
  unfolding ask close finish settled request_of
  ask-allow s risk context none e h = ground (arith, h)
  ask-allow s risk context (some engine) e h =
      let (verdict, q) =
        resolved-allow s risk context engine.name
          (engine.request (request_of env gw s action risk context)) h in
      (engine, request_of env gw s action risk context, verdict, e, refl, q)

  after_grants-allow :
      (s : RunState) (risk : RiskAssessment) (context : ApprovalContext) (a : GrantAuthorization)
      → (after_grants env gw s action risk context a).1.decision ≡ Decision.allow
      → ((g : ApprovalGrant) × (a ≡ authorized g)) ⊎ IsApproved
  unfolding after_grants
  after_grants-allow s risk context (authorized g) h = inl (g, refl)
  after_grants-allow s risk context unauthorized h =
      inr (ask-allow s risk context gw.approval refl h)

  approve-allow :
      (s : RunState) (risk : RiskAssessment)
      → (approve env gw s action risk).1.decision ≡ Decision.allow
      → IsGranted s.grants ⊎ IsApproved
  unfolding approve lookup_grant
  approve-allow s risk h =
      elim (after_grants-allow (record s { grants = (lookup_grant env gw s action).0 }) risk
        (context_of env gw s action risk) (lookup_grant env gw s action).1 h) [
          | inl (g, e) ↦ inl (
            g,
            authorize-Authorizes env.hex_sha256 env.separator env.host.trim env.show env.from_std
                s.grants action env.now g e,
          )
          | inr a ↦ inr a
        ]

  masked-grants :
      (s : RunState) (risk : RiskAssessment) (marker : Option String) (degraded : Bool)
      → (note_degraded env gw (emit_masking env gw s action risk marker) degraded).grants ≡ s.grants
  unfolding note_degraded emit_masking emit note
  masked-grants s risk none false = refl
  masked-grants s risk none true = refl
  masked-grants s risk (some marker) false = refl
  masked-grants s risk (some marker) true = refl

  gated-allow :
      (s : RunState) (policy : PolicyAssessment) (risk : RiskAssessment) (degraded : Bool)
      → (gated env gw s action policy risk degraded).1.decision ≡ Decision.allow
      → (needs_approval env gw policy risk degraded ≡ false) ⊎ (IsGranted s.grants ⊎ IsApproved)
  unfolding gated
  gated-allow s policy risk degraded h = by_need (needs_approval env gw policy risk degraded) refl h
    where
      s' : RunState
      s' = note_degraded env gw (emit_masking env gw s action risk risk.dlp_marker) degraded

      by_need :
          (b : Bool)
          → needs_approval env gw policy risk degraded ≡ b
          → (if b then approve env gw s' action risk else pass env gw s' action risk).1.decision
            ≡ Decision.allow
          → (needs_approval env gw policy risk degraded ≡ false) ⊎ (IsGranted s.grants ⊎ IsApproved)
      by_need false e k = inl e
      by_need true e k = inr (
          subst (λ g. IsGranted g ⊎ IsApproved) (masked-grants s risk risk.dlp_marker degraded)
            (approve-allow s' risk k))

  severest-continue :
      (a b : FailureAction) → severest a b ≡ continue → (a ≡ continue) × (b ≡ continue)
  unfolding severest
  severest-continue continue b h = (refl, h)
  severest-continue escalate continue h = ground (arith, h)
  severest-continue escalate escalate h = ground (arith, h)
  severest-continue escalate refuse h = ground (arith, h)
  severest-continue refuse b h = ground (arith, h)

  action_of_mode-continue : (m : FailureMode) → action_of_mode m ≡ continue → m ≡ fail_open
  unfolding action_of_mode
  action_of_mode-continue fail_open h = refl
  action_of_mode-continue degrade_safely h = ground (arith, h)
  action_of_mode-continue fail_closed h = ground (arith, h)

  pub report_from-kept :
      (score : ℕ) (fs : List SubsystemFailure) (s : RunState) (worst : FailureAction)
      → let r = report_from env.sanitize_detail gw action score fs s worst in
        (r.0.grants ≡ s.grants) × (r.0.risk ≡ s.risk)
  unfolding report_from report_one emit
  report_from-kept score [] s worst = (refl, refl)
  report_from-kept score (f ∷ fs) s worst =
      report_from-kept score fs (report_one env.sanitize_detail gw action score s f)
        (severest worst (decide gw.failure f))

  report_from-continue :
      (score : ℕ) (fs : List SubsystemFailure) (s : RunState) (worst : FailureAction)
      → (report_from env.sanitize_detail gw action score fs s worst).1 ≡ continue
      → (worst ≡ continue) × All (IsOpen gw.failure) fs
  unfolding report_from decide
  report_from-continue score [] s worst h = (h, tt)
  report_from-continue score (f ∷ fs) s worst h =
      let (w, rest) =
        report_from-continue score fs (report_one env.sanitize_detail gw action score s f)
          (severest worst (decide gw.failure f)) h in
      let (a, b) = severest-continue worst (decide gw.failure f) w in
      (a, (action_of_mode-continue (mode_for gw.failure f.subsystem) b, rest))

  -- What lets the action pass the risk stage: no approval is needed and every control worked or
  -- fails open; or a grant authorizes it; or an approver approved it.
  abbrev pub IsCleared : PolicyAssessment → RiskAssessment → Store → Type 0
  IsCleared policy risk grants =
      ((policy.decision ≡ Decision.allow)
        × (risk.requires_approval ≡ false)
        × All (IsOpen gw.failure) risk.failures)
      ⊎ (IsGranted grants ⊎ IsApproved)

  not_deny-allow :
      (d : Decision) → d ≢ Decision.deny → requires env gw d ≡ false → d ≡ Decision.allow
  not_deny-allow Decision.allow n h = refl
  not_deny-allow Decision.deny n h = absurd (n refl)
  not_deny-allow Decision.require_approval n h = ground (arith, h)

  cleared :
      (s : RunState) (policy : PolicyAssessment) (risk : RiskAssessment) (degraded : Bool)
      → policy.decision ≢ Decision.deny
      → (degraded ≡ false → All (IsOpen gw.failure) risk.failures)
      → (gated env gw s action policy risk degraded).1.decision ≡ Decision.allow
      → IsCleared policy risk s.grants
  unfolding needs_approval
  cleared s policy risk degraded n k h = elim (gated-allow s policy risk degraded h) [
    | inl e ↦ inl (
      not_deny-allow policy.decision n (ground (arith, e)),
      ground (arith, e),
      k (ground (arith, e)),
    )
    | inr c ↦ inr c
  ]

  after_risk-allow :
      (s : RunState) (policy : PolicyAssessment) (risk : RiskAssessment) (a : FailureAction)
      → policy.decision ≢ Decision.deny
      → (a ≡ continue → All (IsOpen gw.failure) risk.failures)
      → (after_risk env gw s action policy risk a).1.decision ≡ Decision.allow
      → IsCleared policy risk s.grants
  unfolding after_risk close finish settled
  after_risk-allow s policy risk continue n k h = cleared s policy risk false n (λ e. k refl) h
  after_risk-allow s policy risk escalate n k h =
      cleared s policy risk true n (λ e. absurd (ground (arith, e))) h
  after_risk-allow s policy risk refuse n k h = ground (arith, h)

  pub risked-allow :
      (s : RunState) (policy : PolicyAssessment) (risk : RiskAssessment)
      → policy.decision ≢ Decision.deny
      → (risked env gw s action policy risk).1.decision ≡ Decision.allow
      → IsCleared policy risk s.grants
  unfolding risked report_failures
  risked-allow s policy risk n h =
      subst (IsCleared policy risk) (report_from-kept risk.score risk.failures start continue).0 (
        after_risk-allow (reported.0) policy risk (reported.1) n
          (λ e. (report_from-continue risk.score risk.failures start continue e).1) h)
    where
      start : RunState
      start = record s {
        trace = record (absorb s.trace risk.reasons risk.matched_policies) {
          risk_explanation = some risk.explanation;
        };
      }

      reported : RunState × FailureAction
      reported = report_from env.sanitize_detail gw action risk.score risk.failures start continue
