-- ===== src/Gateway/RiskStage.antt =====
-- The risk stage: mcp-proxy/src/gateway/risk_stage.rs. It scores an action and says whether it needs
-- an approval.
pub mod Gate
pub mod Asked
use sqreen_core.Prelude.{
  ℕ, ◌-◌, min, max, leb, String, ◌&◌, codes, has_infix, when, is_some, Bool, true, false, not, ◌&&◌,
  ◌||◌, Option, none, some, List, [], ◌∷◌, ◌++◌, if◌then◌else◌,
}
use sqreen_core.Action.{Action}
use sqreen_core.Session.{SessionTracker, record_action, verify_action_chain}
use sqreen_core.ThreatIntel.{matches_ioc}
use sqreen_core.Risk.{RiskAnalysis, secret_mask_token, resolve_risk_threshold}
use sqreen_core.Scoring.{
  RiskLevel, RiskFactorKind, behavioral_anomaly, threat_intel, content_secret, same_kind,
  RiskFactor, ExplainableRiskScore, has_factor, RiskLevelThresholds, level_for,
}
use sqreen_core.Scoring.Basic.{ToolKnowledge, score_action}
use sqreen_core.Gateway.Decision.{
  Decision, DecisionReason, Stage, ReasonCode, PolicySource, MatchedPolicy, matched_policy,
}
use sqreen_core.Gateway.Failure.{Subsystem, SubsystemFailure, decision_reason, subsystem_failure}
use sqreen_core.Gateway.PolicyStage.{Caught, returned, panicked}

-- The telemetry markers
abbrev pub telemetry_secret_egress : String
telemetry_secret_egress = "SECRET_EGRESS_MASK"

abbrev pub telemetry_dlp_mask : String
telemetry_dlp_mask = "risk_dlp_mask"

abbrev pub telemetry_risk_threshold : String
telemetry_risk_threshold = "risk_threshold_exceeded"

-- `RiskAssessment`
pub record RiskAssessment : Type 0 where
  pub score : ℕ
  pub level : RiskLevel
  pub threshold : ℕ
  pub requires_approval : Bool
  pub explanation : ExplainableRiskScore
  pub reasons : List DecisionReason
  pub matched_policies : List MatchedPolicy
  pub sanitized_payload : Option String
  pub dlp_marker : Option String
  pub telemetry_marker : String
  pub ioc_match : Bool
  pub anomaly : Bool
  pub failures : List SubsystemFailure

-- `RiskAssessment::effective_payload`
unfoldable pub effective_payload : RiskAssessment → String → String
effective_payload risk original = elim risk.sanitized_payload [
  | none ↦ original
  | some sanitized ↦ sanitized
]

-- `RiskAssessment::denial_detail`
unfoldable pub denial_detail : RiskAssessment → String
denial_detail risk =
    if risk.anomaly
    then "BEHAVIORAL_CHAIN_ANOMALY: operator denied exfiltration-risk tool chain"
    else if risk.ioc_match
    then "THREAT_INTEL_IOC_MATCH: operator denied IOC-tainted tool call"
    else "user denied high-risk tool call"

-- `RiskStage`; the scorer is its bands
pub record RiskStage : Type 0 where
  pub indicators : List (List ℕ)
  pub session : SessionTracker
  pub bands : RiskLevelThresholds

-- What `scan` makes of a scan that ends or panics
unfoldable pub scanned : Caught RiskAnalysis → RiskAnalysis
scanned (returned analysis) = analysis
scanned (panicked _) = record {
  score = 100;
  sanitized_params = none;
  degraded = true;
  masking_failed = false;
}

-- The effective score of `evaluate`
unfoldable pub effective_score : ExplainableRiskScore → RiskAnalysis → Bool → ℕ
effective_score explanation analysis anomaly =
    min (if anomaly then 100 else max explanation.score analysis.score) 100

-- `force_gate`
unfoldable pub force_gate : ExplainableRiskScore → Bool → Bool → Bool
unfolding has_factor
force_gate explanation ioc_match anomaly =
    ioc_match
    || anomaly
    || has_factor explanation behavioral_anomaly
    || has_factor explanation threat_intel

-- `factors.iter().find(…).map(…).unwrap_or(0)`, for the factor of the content
abbrev pub content_points : List RiskFactor → ℕ
content_points [] = 0
content_points (f ∷ fs) =
    if same_kind f.kind content_secret then f.contribution else content_points fs

-- `remediable_masked_secret`
unfoldable pub is_remediable : ExplainableRiskScore → RiskAnalysis → Bool → Bool
unfolding has_factor
is_remediable explanation analysis forced =
    is_some analysis.sanitized_params && has_factor explanation content_secret && not forced

-- `gate_score`, where `saturating_sub` stops at 0
unfoldable pub gate_score : ExplainableRiskScore → RiskAnalysis → Bool → ℕ → ℕ
unfolding is_remediable
gate_score explanation analysis forced score =
    if is_remediable explanation analysis forced
    then explanation.score - content_points explanation.factors
    else score

-- The marker of what the scan masked, if anything
unfoldable pub dlp_marker_of : Option String → Option String
dlp_marker_of none = none
dlp_marker_of (some sanitized) =
    if has_infix (codes secret_mask_token) (codes sanitized)
    then some telemetry_secret_egress
    else some telemetry_dlp_mask

-- `sanitize_detail` is the masking of texts, `show` is `Display` of an integer.
module _ (sanitize_detail : String → String) (show : ℕ → String) where
  abbrev reason : ReasonCode → String → DecisionReason
  unfolding decision_reason
  reason = decision_reason sanitize_detail Stage.risk

  -- The failures that `evaluate` reports
  unfoldable pub scan_failures : String → RiskAnalysis → List SubsystemFailure
  unfolding subsystem_failure
  scan_failures tool_name analysis =
      when analysis.degraded (
        subsystem_failure sanitize_detail Subsystem.risk_scoring (
          "arguments of tool `" & tool_name
          & "` are not valid json; scored by raw-text scan without structural masking"))
      ++ when analysis.masking_failed (
          subsystem_failure sanitize_detail Subsystem.dlp_scanner (
            "sensitive data found in arguments of tool `" & tool_name
            & "` but the masked payload could not be produced"))

  -- The reason of what the scan masked
  unfoldable pub masking_reasons : String → Option String → List DecisionReason
  unfolding reason
  masking_reasons tool_name none = []
  masking_reasons tool_name (some sanitized) =
      (if has_infix (codes secret_mask_token) (codes sanitized)
        then reason ReasonCode.secret_egress_masked
            ("secret value masked in arguments of tool `" & tool_name & "`")
        else reason ReasonCode.sensitive_data_masked
            ("sensitive data masked in arguments of tool `" & tool_name & "`"))
      ∷ []

  -- The reasons of `evaluate`, in the order in which it pushes them
  unfoldable pub risk_reasons :
      String → Option String → Bool → Bool → Bool → ℕ → ℕ → List DecisionReason
  unfolding masking_reasons reason
  risk_reasons tool_name sanitized ioc_match anomaly requires_approval score threshold =
      when ioc_match (
        reason ReasonCode.threat_intel_match
          ("threat-intel indicator matched arguments of tool `" & tool_name & "`"))
      ++ when anomaly (
          reason ReasonCode.behavioral_chain_anomaly
            ("tool `" & tool_name & "` completes an exfiltration-risk chain in this session"))
      ++ masking_reasons tool_name sanitized
      ++ when (requires_approval && not ioc_match && not anomaly) (
          reason ReasonCode.risk_threshold_exceeded (
            "risk score "
            & show score
            & " met threshold "
            & show threshold
            & " for tool `"
            & tool_name
            & "`"))

  -- The rules of `evaluate`, in the order in which it pushes them
  unfoldable pub risk_policies : Option String → Bool → Bool → Bool → List MatchedPolicy
  risk_policies sanitized ioc_match anomaly requires_approval =
      when ioc_match (
        matched_policy PolicySource.threat_intel "threat_intel.indicators"
          Decision.require_approval)
      ++ when anomaly (
          matched_policy PolicySource.behavioral_analytics "behavior.exfiltration_chain"
            Decision.require_approval)
      ++ when (is_some sanitized)
          (matched_policy PolicySource.data_loss_prevention "risk.dlp_scanner" Decision.allow)
      ++ when (requires_approval && not ioc_match && not anomaly) (
          matched_policy PolicySource.risk_threshold "global.risk_threshold"
            Decision.require_approval)

  -- `RiskStage::evaluate`, from the signals, the explanation and the threshold on
  unfoldable pub assess_risk :
      RiskLevelThresholds
      → String
      → RiskAnalysis
      → Bool
      → Bool
      → ExplainableRiskScore
      → ℕ
      → RiskAssessment
  unfolding effective_score force_gate gate_score level_for dlp_marker_of scan_failures risk_reasons
      risk_policies
  assess_risk bands tool_name analysis ioc_match anomaly explanation threshold =
      let score = effective_score explanation analysis anomaly in
      let forced = force_gate explanation ioc_match anomaly in
      let gated = forced || leb threshold (gate_score explanation analysis forced score) in
      record {
        score = score;
        level = level_for bands score;
        threshold = threshold;
        requires_approval = gated;
        explanation = explanation;
        reasons =
            risk_reasons tool_name analysis.sanitized_params ioc_match anomaly gated score
              threshold;
        matched_policies = risk_policies analysis.sanitized_params ioc_match anomaly gated;
        sanitized_payload = analysis.sanitized_params;
        dlp_marker = dlp_marker_of analysis.sanitized_params;
        telemetry_marker =
            if anomaly
            then "BEHAVIORAL_CHAIN_ANOMALY"
            else if ioc_match
            then "THREAT_INTEL_IOC_MATCH"
            else telemetry_risk_threshold;
        ioc_match = ioc_match;
        anomaly = anomaly;
        failures = scan_failures tool_name analysis;
      }

  -- `as_bytes`, `trim` and `parse_u8` are those of the Rust library, `threshold_env` is the variable
  -- MCP_RISK_THRESHOLD, and `tool_knowledge` the classifier's answer.
  module _ (as_bytes : String → List ℕ) (trim : String → String) (parse_u8 : String → Option ℕ)
      (threshold_env : Option String) (tool_knowledge : Action → ToolKnowledge) where
    -- `ThreatIntelMatcher::matches_action`
    unfoldable pub matches_action : RiskStage → Action → Bool
    unfolding matches_ioc
    matches_action stage action =
        matches_ioc stage.indicators (as_bytes action.canonical_params_json)

    -- `RiskStage::explain`
    unfoldable pub explain : RiskStage → Action → RiskAnalysis → ExplainableRiskScore
    unfolding matches_action score_action
    explain stage action analysis =
        score_action stage.bands action (tool_knowledge action) (some analysis)
          (matches_action stage action)

    -- `RiskStage::evaluate`
    unfoldable pub evaluate_risk : RiskStage → Action → RiskAnalysis → Option ℕ → RiskAssessment
    unfolding assess_risk explain matches_action resolve_risk_threshold
    evaluate_risk stage action analysis configured =
        assess_risk stage.bands action.tool_name analysis (matches_action stage action)
          (verify_action_chain stage.session action) (explain stage action analysis)
          (resolve_risk_threshold trim parse_u8 threshold_env configured)

-- `RiskStage::record`
unfoldable pub record_session : RiskStage → Action → RiskStage
unfolding record_action
record_session stage action = record stage { session = record_action stage.session action }
