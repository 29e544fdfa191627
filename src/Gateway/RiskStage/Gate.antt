-- ===== src/Gateway/RiskStage/Gate.antt =====
-- The band of an action for which a session approval is offered (mcp-proxy/src/gateway/risk_stage.rs,
-- mcp-proxy/src/gateway/approval/context.rs).
use sqreen_core.Prelude.{
  ℕ, ◌≤◌, ◌<◌, min, max, ◌≡◌, ◌↔◌, refl, arith, Bool, true, false, some, List, [], ◌∷◌, ◌++◌, when,
}
use sqreen_core.Action.{Action}
use sqreen_core.Risk.{RiskAnalysis}
use sqreen_core.Scoring.{
  threat_intel, level_rank, RiskLevel, RiskFactor, ExplainableRiskScore, default_thresholds,
  level_for,
}
use sqreen_core.Scoring.Basic.{
  ToolKnowledge, greatest, content_factor, tool_factors, factors_of, score_action, bucket,
}
use sqreen_core.Gateway.RiskStage.{effective_score}
use sqreen_core.Gateway.Approval.Binding.{session_approval_safe}

greatest-append : (xs ys : List RiskFactor) → greatest (xs ++ ys) ≡ max (greatest xs) (greatest ys)
greatest-append [] ys = omega arith
greatest-append (x ∷ xs) ys = omega (arith, greatest-append xs ys)

content_factor-greatest :
    (analysis : RiskAnalysis) → 50 ≤ analysis.score → 50 ≤ greatest (content_factor (some analysis))
unfolding content_factor bucket
content_factor-greatest analysis h = ground (arith, h)

content-greatest :
    (xs : List RiskFactor) (analysis : RiskAnalysis) (ys : List RiskFactor)
    → 50 ≤ analysis.score
    → 50 ≤ greatest (xs ++ content_factor (some analysis) ++ ys)
content-greatest xs analysis ys h = omega (
  arith,
  greatest-append (xs ++ content_factor (some analysis)) ys,
  greatest-append xs (content_factor (some analysis)),
  content_factor-greatest analysis h,
)

factors_of-content :
    (action : Action) (knowledge : ToolKnowledge) (analysis : RiskAnalysis) (ioc_match : Bool)
    → 50 ≤ analysis.score
    → 50 ≤ greatest (factors_of action knowledge (some analysis) ioc_match)
unfolding factors_of
factors_of-content action knowledge analysis ioc_match h =
    content-greatest (tool_factors action knowledge) analysis
      (when ioc_match (bucket threat_intel 85 "threat-intel indicator matched")) h

below-50 :
    (top points : ℕ)
    → (50 ≤ points → 50 ≤ top)
    → min top 100 < 50
    → min (max (min top 100) points) 100 < 50
below-50 top points h k = grind (arith, h, k)

rank-medium : (score : ℕ) → level_rank (level_for default_thresholds score) ≤ 1 → score < 50
unfolding level_for
rank-medium score h = ground (arith, h)

medium-rank : (score : ℕ) → score < 50 → level_rank (level_for default_thresholds score) ≤ 1
unfolding level_for
medium-rank score h = ground (arith, h)

session_approval_safe-rank :
    (action : Action) (level : RiskLevel)
    → session_approval_safe action level ≡ true
    → level_rank level ≤ 1
unfolding session_approval_safe
session_approval_safe-rank action level h = ground (arith, h)

critical-rank : ¬ (level_rank (level_for default_thresholds 100) ≤ 1)
unfolding level_for
critical-rank h = omega arith

by_chain :
    (explanation : ExplainableRiskScore) (analysis : RiskAnalysis) (anomaly : Bool)
    → level_rank (level_for default_thresholds (effective_score explanation analysis false)) ≤ 1
    → (level_rank (level_for default_thresholds (effective_score explanation analysis anomaly)) ≤ 1)
      ↔ (anomaly ≡ false)
unfolding effective_score
by_chain explanation analysis true h = ((λ k. absurd (critical-rank k)), (λ e. ground arith))
by_chain explanation analysis false h = ((λ _. refl), (λ _. h))

-- With the default bands, where an approval for the session is offered, by the band of the
-- explanation alone: the band of the score that the gateway acts on, which also counts the scan of
-- the payload, is at most medium exactly where the session completes no exfiltration chain.
pub session_approval_safe-effective :
    (action : Action) (knowledge : ToolKnowledge) (analysis : RiskAnalysis)
    (ioc_match anomaly : Bool)
    → let explanation =
        score_action default_thresholds action knowledge (some analysis) ioc_match in
      session_approval_safe action explanation.level ≡ true
      → (level_rank (level_for default_thresholds (effective_score explanation analysis anomaly))
          ≤ 1)
        ↔ (anomaly ≡ false)
unfolding score_action effective_score
session_approval_safe-effective action knowledge analysis ioc_match anomaly h =
    by_chain (score_action default_thresholds action knowledge (some analysis) ioc_match) analysis
      anomaly
      (medium-rank
        (effective_score
          (score_action default_thresholds action knowledge (some analysis) ioc_match) analysis
          false)
        (below-50 (greatest (factors_of action knowledge (some analysis) ioc_match)) analysis.score
          (factors_of-content action knowledge analysis ioc_match)
          (rank-medium (min (greatest (factors_of action knowledge (some analysis) ioc_match)) 100)
            (session_approval_safe-rank action
              (score_action default_thresholds action knowledge (some analysis) ioc_match).level
              h))))
