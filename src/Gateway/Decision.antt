-- ===== src/Gateway/Decision.antt =====
-- The decision model: mcp-proxy/src/gateway/decision.rs. An outcome here leaves out what only
-- annotates it: the identifiers, the timestamp, the latency and the metadata map.
use sqreen_core.Prelude.{
  ℕ, String, ◌&◌, Bool, true, false, Option, none, some, List, first, last, not, if◌then◌else◌,
  ◌&&◌,
}
use sqreen_core.Scoring.{RiskLevel, RiskFactor}
use sqreen_core.Gateway.Posture.{PolicyAvailability}

-- `Decision`
pub data Decision : Type 0 where
  allow deny require_approval : Decision

-- `Decision::as_str`
unfoldable pub decision_str : Decision → String
decision_str allow = "ALLOW"
decision_str deny = "DENY"
decision_str require_approval = "REQUIRE_APPROVAL"

-- `Decision::is_allowed`
abbrev pub is_allowed : Decision → Bool
is_allowed allow = true
is_allowed _ = false

-- `Decision::stops_execution`
unfoldable pub stops_execution : Decision → Bool
stops_execution d = not (is_allowed d)

-- `Stage`
pub data Stage : Type 0 where
  normalization identity policy risk approval behavior enforcement audit : Stage

-- `ReasonCode`
pub data ReasonCode : Type 0 where
  normalization_failed : ReasonCode
  policy_global_block_pattern policy_tool_block_pattern policy_tool_action_block : ReasonCode
  policy_confirmation_required policy_audit_only policy_redaction : ReasonCode
  identity_enrichment_failed : ReasonCode
  policy_unavailable policy_evaluation_failed policy_payload_unreadable : ReasonCode
  extension_block extension_rewrite extension_failed : ReasonCode
  threat_intel_match threat_intel_unavailable : ReasonCode
  behavioral_chain_anomaly behavioral_signal : ReasonCode
  risk_threshold_exceeded risk_scoring_degraded : ReasonCode
  secret_egress_masked sensitive_data_masked dlp_scanner_failed : ReasonCode
  operator_approved operator_denied : ReasonCode
  approval_grant_reused approval_grant_invalid approval_grant_expired : ReasonCode
  approval_unavailable approval_timed_out approval_deferred : ReasonCode
  degraded_to_approval cloud_unavailable audit_delivery_failed internal_error : ReasonCode

-- `ReasonCode::is_rule_prohibition`
unfoldable pub is_rule_prohibition : ReasonCode → Bool
is_rule_prohibition normalization_failed = true
is_rule_prohibition policy_global_block_pattern = true
is_rule_prohibition policy_tool_block_pattern = true
is_rule_prohibition policy_tool_action_block = true
is_rule_prohibition policy_redaction = true
is_rule_prohibition policy_unavailable = true
is_rule_prohibition policy_evaluation_failed = true
is_rule_prohibition policy_payload_unreadable = true
is_rule_prohibition extension_block = true
is_rule_prohibition extension_rewrite = true
is_rule_prohibition extension_failed = true
is_rule_prohibition dlp_scanner_failed = true
is_rule_prohibition cloud_unavailable = true
is_rule_prohibition audit_delivery_failed = true
is_rule_prohibition internal_error = true
is_rule_prohibition _ = false

-- `ReasonCode::is_security_failure`
unfoldable pub is_security_failure : ReasonCode → Bool
is_security_failure normalization_failed = true
is_security_failure policy_unavailable = true
is_security_failure policy_evaluation_failed = true
is_security_failure policy_payload_unreadable = true
is_security_failure extension_failed = true
is_security_failure risk_scoring_degraded = true
is_security_failure dlp_scanner_failed = true
is_security_failure threat_intel_unavailable = true
is_security_failure approval_unavailable = true
is_security_failure approval_timed_out = true
is_security_failure identity_enrichment_failed = true
is_security_failure audit_delivery_failed = true
is_security_failure cloud_unavailable = true
is_security_failure internal_error = true
is_security_failure _ = false

-- `DecisionReason`; `detail` is the sanitized text.
pub record DecisionReason : Type 0 where
  pub stage : Stage
  pub code : ReasonCode
  pub detail : String

-- `PolicySource`
pub data PolicySource : Type 0 where
  local_policy wasm_extension threat_intel behavioral_analytics : PolicySource
  risk_threshold data_loss_prevention : PolicySource

-- `MatchedPolicy`
pub record MatchedPolicy : Type 0 where
  pub source : PolicySource
  pub rule_id : String
  pub version : Option String
  pub effect : Decision

-- `MatchedPolicy::new`
abbrev pub matched_policy : PolicySource → String → Decision → MatchedPolicy
matched_policy source rule_id effect = record {
  source = source;
  rule_id = rule_id;
  version = none;
  effect = effect;
}

-- `EvaluationOutcome`
pub record EvaluationOutcome : Type 0 where
  pub decision : Decision
  pub reasons : List DecisionReason
  pub matched_policies : List MatchedPolicy
  pub risk_score : Option ℕ
  pub risk_level : Option RiskLevel
  pub risk_factors : List RiskFactor
  pub policy_version : Option String
  pub policy_availability : PolicyAvailability
  pub simulated_decision : Option Decision
  pub tool_name : String
  pub rewritten_arguments : Option String

-- `EvaluationOutcome::primary_reason`
unfoldable pub primary_reason : EvaluationOutcome → Option DecisionReason
primary_reason o = if is_allowed o.decision then first o.reasons else last o.reasons

-- `EvaluationOutcome::denied_by_rule`
unfoldable pub denied_by_rule : EvaluationOutcome → Bool
unfolding stops_execution primary_reason is_rule_prohibition
denied_by_rule o =
    stops_execution o.decision
    && elim (primary_reason o) [ none ↦ false | some r ↦ is_rule_prohibition r.code ]

-- `guard::GuardDecision`
pub data GuardDecision : Type 0 where
  allowed : Option String → ℕ → GuardDecision
  blocked : String → ℕ → GuardDecision

abbrev or_zero : Option ℕ → ℕ
or_zero none = 0
or_zero (some n) = n

-- `EvaluationOutcome::into_guard_decision`
unfoldable pub into_guard_decision : EvaluationOutcome → GuardDecision
unfolding primary_reason decision_str
into_guard_decision o =
    if is_allowed o.decision
    then allowed o.rewritten_arguments (or_zero o.risk_score)
    else blocked
        (elim (primary_reason o) [
          | some r ↦ r.detail
          | none ↦ "blocked by " & decision_str o.decision
        ])
        (or_zero o.risk_score)
