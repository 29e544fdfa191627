-- ===== src/Gateway/Failure.antt =====
-- The failure matrix: mcp-proxy/src/gateway/failure.rs. A subsystem reports a failure, and this
-- module alone says what it means for the verdict.
pub mod Modes
use sqreen_core.Prelude.{
  ℕ, String, ◌&◌, Bool, true, false, not, ◌||◌, Option, none, some, List, [], ◌∷◌, filter, all,
  if◌then◌else◌, normalized, one_of,
}
use sqreen_core.Gateway.Decision.{Decision, DecisionReason, ReasonCode, Stage}
use sqreen_core.Gateway.Posture.{
  FailureMode, fail_open, degrade_safely, fail_closed, EnforcementPosture, posture_from_env,
  missing_policy_mode,
}

-- `FailureMode::is_closed`
abbrev pub is_closed : FailureMode → Bool
is_closed fail_closed = true
is_closed _ = false

-- `FailureMode::permits_allow`
abbrev pub permits_allow : FailureMode → Bool
permits_allow fail_open = true
permits_allow _ = false

-- `FailureAction`, in the order of its severity
pub data FailureAction : Type 0 where
  continue escalate refuse : FailureAction

-- `Ord::max` on `FailureAction`
unfoldable pub severest : FailureAction → FailureAction → FailureAction
severest continue b = b
severest escalate continue = escalate
severest escalate b = b
severest refuse b = refuse

-- `FailureMode::action`
unfoldable pub action_of_mode : FailureMode → FailureAction
action_of_mode fail_open = continue
action_of_mode degrade_safely = escalate
action_of_mode fail_closed = refuse

-- `FailureAction::forced_decision`
unfoldable pub forced_decision : FailureAction → Option Decision
forced_decision continue = none
forced_decision escalate = some Decision.require_approval
forced_decision refuse = some Decision.deny

-- `Subsystem`
pub data Subsystem : Type 0 where
  normalization policy_missing policy_engine policy_payload policy_extension : Subsystem
  risk_scoring dlp_scanner threat_intel approval audit control_plane internal : Subsystem

-- `Subsystem::ALL`
abbrev pub all_subsystems : List Subsystem
all_subsystems =
    normalization ∷ policy_missing ∷ policy_engine ∷ policy_payload ∷ policy_extension
    ∷ risk_scoring ∷ dlp_scanner ∷ threat_intel ∷ approval ∷ audit ∷ control_plane ∷ internal ∷ []

-- `Subsystem::as_str`
unfoldable pub subsystem_str : Subsystem → String
subsystem_str normalization = "normalization"
subsystem_str policy_missing = "policy_missing"
subsystem_str policy_engine = "policy_engine"
subsystem_str policy_payload = "policy_payload"
subsystem_str policy_extension = "policy_extension"
subsystem_str risk_scoring = "risk_scoring"
subsystem_str dlp_scanner = "dlp_scanner"
subsystem_str threat_intel = "threat_intel"
subsystem_str approval = "approval"
subsystem_str audit = "audit"
subsystem_str control_plane = "control_plane"
subsystem_str internal = "internal"

-- `Subsystem::stage`
unfoldable pub stage_of : Subsystem → Stage
stage_of normalization = Stage.normalization
stage_of policy_missing = Stage.policy
stage_of policy_engine = Stage.policy
stage_of policy_payload = Stage.policy
stage_of policy_extension = Stage.policy
stage_of risk_scoring = Stage.risk
stage_of dlp_scanner = Stage.risk
stage_of threat_intel = Stage.risk
stage_of approval = Stage.approval
stage_of audit = Stage.audit
stage_of control_plane = Stage.policy
stage_of internal = Stage.enforcement

-- `Subsystem::reason_code`
unfoldable pub reason_code : Subsystem → ReasonCode
reason_code normalization = ReasonCode.normalization_failed
reason_code policy_missing = ReasonCode.policy_unavailable
reason_code policy_engine = ReasonCode.policy_evaluation_failed
reason_code policy_payload = ReasonCode.policy_payload_unreadable
reason_code policy_extension = ReasonCode.extension_failed
reason_code risk_scoring = ReasonCode.risk_scoring_degraded
reason_code dlp_scanner = ReasonCode.dlp_scanner_failed
reason_code threat_intel = ReasonCode.threat_intel_unavailable
reason_code approval = ReasonCode.approval_unavailable
reason_code audit = ReasonCode.audit_delivery_failed
reason_code control_plane = ReasonCode.cloud_unavailable
reason_code internal = ReasonCode.internal_error

-- `Subsystem::audit_marker`
unfoldable pub audit_marker : Subsystem → String
unfolding subsystem_str
audit_marker s = "security_failure:" & subsystem_str s

-- `SubsystemFailure`; `detail` is the sanitized text.
pub record SubsystemFailure : Type 0 where
  pub subsystem : Subsystem
  pub detail : String

-- `sanitize_detail` stands for the masking of operator-facing text.
module _ (sanitize_detail : String → String) where
  -- `DecisionReason::new`
  unfoldable pub decision_reason : Stage → ReasonCode → String → DecisionReason
  decision_reason stage code detail = record {
    stage = stage;
    code = code;
    detail = sanitize_detail detail;
  }

  -- `SubsystemFailure::new`
  unfoldable pub subsystem_failure : Subsystem → String → SubsystemFailure
  subsystem_failure s detail = record { subsystem = s; detail = sanitize_detail detail }

  -- `SubsystemFailure::to_reason`
  unfoldable pub to_reason : SubsystemFailure → DecisionReason
  unfolding decision_reason stage_of reason_code subsystem_str
  to_reason f =
      decision_reason (stage_of f.subsystem) (reason_code f.subsystem)
        (subsystem_str f.subsystem & " unavailable: " & f.detail)

-- `FailurePolicy`
pub record FailurePolicy : Type 0 where
  pub normalization_error : FailureMode
  pub missing_policy : FailureMode
  pub policy_error : FailureMode
  pub policy_payload_unreadable : FailureMode
  pub extension_error : FailureMode
  pub risk_error : FailureMode
  pub dlp_error : FailureMode
  pub threat_intel_error : FailureMode
  pub approval_unavailable : FailureMode
  pub audit_error : FailureMode
  pub cloud_unavailable : FailureMode
  pub internal_error : FailureMode

-- `FailurePolicy::default`
abbrev pub default_policy : FailurePolicy
default_policy = record {
  normalization_error = fail_closed;
  missing_policy = fail_closed;
  policy_error = fail_closed;
  policy_payload_unreadable = fail_closed;
  extension_error = fail_closed;
  risk_error = degrade_safely;
  dlp_error = fail_closed;
  threat_intel_error = degrade_safely;
  approval_unavailable = fail_closed;
  audit_error = fail_open;
  cloud_unavailable = fail_open;
  internal_error = fail_closed;
}

-- `FailurePolicy::strict`
abbrev pub strict : FailurePolicy
strict = record {
  normalization_error = fail_closed;
  missing_policy = fail_closed;
  policy_error = fail_closed;
  policy_payload_unreadable = fail_closed;
  extension_error = fail_closed;
  risk_error = fail_closed;
  dlp_error = fail_closed;
  threat_intel_error = fail_closed;
  approval_unavailable = fail_closed;
  audit_error = fail_closed;
  cloud_unavailable = fail_closed;
  internal_error = fail_closed;
}

-- `FailurePolicy::observe`
abbrev pub observe : FailurePolicy
observe = record {
  normalization_error = fail_open;
  missing_policy = fail_open;
  policy_error = fail_open;
  policy_payload_unreadable = fail_open;
  extension_error = fail_open;
  risk_error = fail_open;
  dlp_error = fail_open;
  threat_intel_error = fail_open;
  approval_unavailable = fail_closed;
  audit_error = fail_open;
  cloud_unavailable = fail_open;
  internal_error = fail_open;
}

abbrev pub observe_words : List String
observe_words = "observe" ∷ "observability" ∷ "monitor" ∷ []

-- The `match` on the preset of `FailurePolicy::from_env`, of the text in lower case
unfoldable pub preset : List ℕ → FailurePolicy
preset token =
    if one_of token ("" ∷ [])
    then default_policy
    else if one_of token ("strict" ∷ [])
    then strict
    else if one_of token ("default" ∷ "balanced" ∷ [])
    then default_policy
    else if one_of token observe_words
    then observe
    else default_policy

-- Does the preset own the mode for a missing policy?
unfoldable pub owns_missing_policy : List ℕ → Bool
owns_missing_policy token = one_of token observe_words || one_of token ("strict" ∷ [])

-- The value of the environment variable, and nothing where it is not set
abbrev pub token_of : Option String → List ℕ
token_of none = []
token_of (some raw) = normalized raw

-- `FailurePolicy::from_env`, of the preset and the posture
unfoldable pub policy_of_token : List ℕ → Option String → FailurePolicy
unfolding preset owns_missing_policy posture_from_env missing_policy_mode
policy_of_token token posture_env =
    if owns_missing_policy token then preset token else record (preset token) {
      missing_policy = missing_policy_mode (posture_from_env posture_env);
    }

-- `FailurePolicy::from_env`, on the values of the two environment variables
unfoldable pub policy_from_env : Option String → Option String → FailurePolicy
unfolding policy_of_token normalized
policy_from_env failure_env posture_env = policy_of_token (token_of failure_env) posture_env

-- `FailurePolicy::for_posture`
unfoldable pub for_posture : EnforcementPosture → FailurePolicy
unfolding missing_policy_mode
for_posture posture = record default_policy { missing_policy = missing_policy_mode posture }

-- `FailurePolicy::mode_for`
unfoldable pub mode_for : FailurePolicy → Subsystem → FailureMode
mode_for p normalization = p.normalization_error
mode_for p policy_missing = p.missing_policy
mode_for p policy_engine = p.policy_error
mode_for p policy_payload = p.policy_payload_unreadable
mode_for p policy_extension = p.extension_error
mode_for p risk_scoring = p.risk_error
mode_for p dlp_scanner = p.dlp_error
mode_for p threat_intel = p.threat_intel_error
mode_for p approval = p.approval_unavailable
mode_for p audit = p.audit_error
mode_for p control_plane = p.cloud_unavailable
mode_for p internal = p.internal_error

-- `FailurePolicy::decide`
unfoldable pub decide : FailurePolicy → SubsystemFailure → FailureAction
unfolding mode_for action_of_mode
decide p failure = action_of_mode (mode_for p failure.subsystem)

-- The subsystems that `never_allows_on_inspection_failure` leaves out
abbrev pub is_exempt : Subsystem → Bool
is_exempt audit = true
is_exempt control_plane = true
is_exempt policy_missing = true
is_exempt _ = false

-- `FailurePolicy::never_allows_on_inspection_failure`
unfoldable pub never_allows_on_inspection_failure : FailurePolicy → Bool
unfolding mode_for
never_allows_on_inspection_failure p =
    all (λ s. not (permits_allow (mode_for p s))) (filter (λ s. not (is_exempt s)) all_subsystems)
