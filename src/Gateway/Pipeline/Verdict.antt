-- ===== src/Gateway/Pipeline/Verdict.antt =====
-- Why the pipeline (mcp-proxy/src/gateway/mod.rs) allows an action, and what it never allows.
use sqreen_core.Prelude.{
  ℕ, ◌≡◌, ◌≢◌, ◌⊎◌, inl, inr, refl, arith, ap, subst, Bool, true, false, not, ◌&&◌, All,
  if◌then◌else◌,
}
use sqreen_core.Action.{Action}
use sqreen_core.Risk.{RiskAnalysis}
use sqreen_core.Gateway.Decision.{Decision}
use sqreen_core.Gateway.Failure.{continue}
use sqreen_core.Gateway.PolicyStage.{PolicyAssessment}
use sqreen_core.Gateway.PolicyStage.Closed.{IsOpen, IsCoherent, evaluate-IsCoherent}
use sqreen_core.Gateway.RiskStage.{RiskAssessment}
use sqreen_core.Gateway.Approval.Grant.{Store}
use sqreen_core.Gateway.Pipeline.{
  Gateway, RunState, report_from, report_failures, close, finish, settled,
}
use sqreen_core.Gateway.Pipeline.Env.{Env}
use sqreen_core.Gateway.Pipeline.Run.{
  risked, stop, judged, staged, run, unattached, scan, assess_policy, assess_risk_of, absorb_policy,
  observed,
}
use sqreen_core.Gateway.Pipeline.Cleared.{IsCleared, report_from-kept, risked-allow}

module _ (env : Env) (gw : Gateway) (action : Action) where
  -- The policy stage allows the action and ends the pipeline, with failures only of subsystems that
  -- fail open; or the action is cleared after it.
  abbrev pub IsJustified : PolicyAssessment → RiskAssessment → Store → Type 0
  IsJustified policy risk grants =
      ((policy.terminal ≡ true)
        × (policy.decision ≡ Decision.allow)
        × All (IsOpen gw.failure) policy.failures)
      ⊎ IsCleared env gw action policy risk grants

  assess_risk_of-kept :
      (s t : RunState) (analysis : RiskAnalysis)
      → s.risk ≡ t.risk
      → assess_risk_of env gw s action analysis ≡ assess_risk_of env gw t action analysis
  unfolding assess_risk_of
  assess_risk_of-kept s t analysis h =
      ap (λ r. assess_risk_of env gw (record s { risk = r }) action analysis) h

  stop-allow :
      (s : RunState) (policy : PolicyAssessment) (score : ℕ)
      → (stop env gw s action policy score).1.decision ≡ Decision.allow
      → policy.decision ≡ Decision.allow
  unfolding stop close finish settled
  stop-allow s policy score h = ground (arith, h)

  judged-allow :
      (s : RunState) (analysis : RiskAnalysis) (policy : PolicyAssessment)
      → IsCoherent gw.failure policy
      → (judged env gw s action analysis policy).1.decision ≡ Decision.allow
      → IsJustified policy (assess_risk_of env gw s action analysis) s.grants
  unfolding judged report_failures absorb_policy
  judged-allow s analysis policy coherent h = by_end policy.terminal refl h
    where
      start : RunState
      start = record s { trace = absorb_policy env gw s.trace policy }

      reported : RunState
      reported =
          (report_from env.sanitize_detail gw action analysis.score policy.failures start
            continue).0

      kept : (reported.grants ≡ s.grants) × (reported.risk ≡ s.risk)
      kept = report_from-kept env gw action analysis.score policy.failures start continue

      by_end :
          (b : Bool)
          → policy.terminal ≡ b
          → (if b
              then stop env gw reported action policy analysis.score
              else risked env gw reported action policy
                  (assess_risk_of env gw reported action analysis)).1.decision
            ≡ Decision.allow
          → IsJustified policy (assess_risk_of env gw s action analysis) s.grants
      by_end true e k =
          let d = stop-allow reported policy analysis.score k in
          inl (e, d, coherent.open_failures d)
      by_end false e k =
          let not_deny : policy.decision ≢ Decision.deny =
            λ q. absurd (ground (arith, e, coherent.deny_is_terminal q)) in
          inr (
            subst (IsCleared env gw action policy (assess_risk_of env gw s action analysis)) kept.0
              (subst (λ r. IsCleared env gw action policy r reported.grants)
                (assess_risk_of-kept reported s analysis kept.1)
                (risked-allow env gw action reported policy
                  (assess_risk_of env gw reported action analysis) not_deny k)))

-- Where the pipeline allows an action, the control plane is attached if the configuration requires
-- it, and one of these holds: the policy stage allowed the action and ended the pipeline, every
-- failure behind it being one that the failure policy lets fail open; or the policy stage allowed
-- it, the risk stage asks for no approval, and all its failures are of that kind; or a live grant of
-- the store authorizes the action; or the approval engine approved a request for it.
pub run-IsJustified :
    (env : Env) (gw : Gateway) (s : RunState) (action : Action)
    → (run env gw s action).1.decision ≡ Decision.allow
    → ((gw.config.require_control_plane && not gw.control_plane_attached) ≡ false)
      × IsJustified env gw action
          (assess_policy env gw s action (scan env gw action))
          (assess_risk_of env gw s action (scan env gw action))
          s.grants
unfolding run staged unattached close finish settled assess_policy assess_risk_of observed
run-IsJustified env gw s action h =
    by_plane (gw.config.require_control_plane && not gw.control_plane_attached) refl h
  where
    by_plane :
        (b : Bool)
        → (gw.config.require_control_plane && not gw.control_plane_attached) ≡ b
        → (if b
            then unattached env gw s action
            else staged env gw s action (scan env gw action)).1.decision
          ≡ Decision.allow
        → ((gw.config.require_control_plane && not gw.control_plane_attached) ≡ false)
          × IsJustified env gw action
              (assess_policy env gw s action (scan env gw action))
              (assess_risk_of env gw s action (scan env gw action))
              s.grants
    by_plane true e k = ground (arith, k)
    by_plane false e k = (
      e,
      judged-allow env gw action (observed env gw s action (scan env gw action))
          (scan env gw action) (assess_policy env gw s action (scan env gw action))
          (evaluate-IsCoherent env.host env.sanitize_detail env.panic_in env.utf8_error gw.policy _
            gw.failure)
          k,
    )
