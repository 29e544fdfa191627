-- ===== src/Witness/Pipelines.antt =====
-- The theorems on the pipeline and its parts at concrete inputs: a call of `bash` without a policy,
-- under the failure policy that observes, which an approver lets pass.
use sqreen_core.Prelude.{
  ◌++◌, if◌then◌else◌, str_eq, min, ◌≤◌, ◌+◌, ◌≡◌, inl, ◌↔◌, leb, refl, String, true, false, not,
  ◌&&◌, ◌||◌, is_some, none, some, List, [], ◌∷◌, map, codes, normalized,
}
use sqreen_core.Action.{Action}
use sqreen_core.Session.{new_tracker, normalize_tool_name}
use sqreen_core.Session.Window.{record_all, last_n, record_all-window}
use sqreen_core.ThreatIntel.{from_indicators, merge_remote, matches_ioc}
use sqreen_core.ThreatIntel.Indicators.{merge_remote-matches}
use sqreen_core.Risk.{RiskAnalysis, StringScanFlags, analyze_params, base_tool_risk}
use sqreen_core.Risk.Bounds.{points, any_text, analyze_params-once}
use sqreen_core.Scoring.{
  behavioral_anomaly, RiskFactor, low as level_low, ExplainableRiskScore, level_rank, level_for,
  default_thresholds, unusual_tool, kind_str, parse_kind,
}
use sqreen_core.Scoring.Names.{parse_kind-kind_str}
use sqreen_core.Scoring.Basic.{known, bucket, score_action}
use sqreen_core.Behavior.{BehaviorSignal, exfiltration_chain, high}
use sqreen_core.PolicyStore.{new_store, absent, failed_remote}
use sqreen_core.PolicyStore.Refresh.{refresh_all, IsTruthful, refresh_all-never_drops}
use sqreen_core.Gateway.Decision.{Decision}
use sqreen_core.Gateway.Failure.{observe, Subsystem, SubsystemFailure, refuse, continue}
use sqreen_core.Gateway.PolicyStage.{new_stage}
use sqreen_core.Gateway.RiskStage.{RiskStage, assess_risk, effective_score}
use sqreen_core.Gateway.RiskStage.Gate.{session_approval_safe-effective}
use sqreen_core.Gateway.RiskStage.Asked.{unforced_score, assess_risk-asks, assess_risk-forced}
use sqreen_core.Gateway.Approval.Binding.{session_approval_safe}
use sqreen_core.Gateway.Approval.Grant.{approve_once, Store}
use sqreen_core.Gateway.Approval.Outcome.{approved}
use sqreen_core.Gateway.Pipeline.{Gateway, RunState, begin, report_failures}
use sqreen_core.Gateway.Pipeline.Failures.{
  HasClosed, AllOpen, decisions, expected, report_failures-severest,
}
use sqreen_core.Gateway.Pipeline.Env.{Env}
use sqreen_core.Gateway.Pipeline.Run.{run, scan, assess_policy, assess_risk_of}
use sqreen_core.Gateway.Pipeline.Verdict.{IsJustified, run-IsJustified}
use sqreen_core.Gateway.Pipeline.Audit.{IsAudited}
use sqreen_core.Gateway.Pipeline.Trail.{run-IsAudited}
use sqreen_core.Gateway.Pipeline.Masking.{Carries, run-Carries}
use sqreen_core.Witness.Data.{host, same_text, no_panic, utf8_error, ctx, layered, call_value}
use sqreen_core.Witness.Approvals.{action}

abbrev no_flags : StringScanFlags
no_flags = record { pii = false; luhn = false; entropy = false; secret = false; masked = false }

-- A scanner that takes one text for a secret
abbrev scanner : String → String × StringScanFlags
scanner text =
    if str_eq text "s3cret"
    then ("[MASKED_SECRET_BY_PROXY]", record no_flags { secret = true; masked = true })
    else (text, no_flags)

abbrev env : Env
env = record {
  host = host;
  sanitize_detail = same_text;
  show = λ _. "0";
  parse_u8 = λ _. none;
  to_json = λ _. some "masked";
  threshold_env = none;
  tool_knowledge = λ _. known;
  scan_string = scanner;
  scan_panic = λ _. none;
  panic_in = no_panic;
  utf8_error = utf8_error;
  match_context = λ _ _ _. ctx;
  hex_sha256 = same_text;
  separator = "|";
  from_std = λ d. some d;
  now = 100;
  answered_at = 200;
  time = "now";
}

abbrev gateway : Gateway
unfolding new_stage
gateway = record {
  behavior = none;
  policy = new_stage none none;
  approval = some (record { name = "terminal"; request = λ _. approved approve_once });
  audit = λ _ _. none;
  failure = observe;
  config = record { audit_all_decisions = true; require_control_plane = true };
  control_plane_attached = true;
}

abbrev bash : Action
bash = record action { tool_name = "bash" }

abbrev stage : RiskStage
unfolding new_tracker
stage = record { indicators = []; session = new_tracker 10; bands = default_thresholds }

abbrev no_grants : Store
no_grants = record { seq = 0; by_token = []; session_index = []; exact_index = []; history = [] }

abbrev start : RunState
unfolding stage
start = begin stage no_grants bash

-- The run, which the examples below compute
program : Unit {0}
unfolding run gateway start
program = tt

allowed : (run env gateway start bash).1.decision ≡ Decision.allow
unfolding program
allowed = refl

undecided : (assess_policy env gateway start bash (scan env gateway bash)).terminal ≡ false
unfolding program
undecided = refl

run-IsJustified_example :
    ((gateway.config.require_control_plane && not gateway.control_plane_attached) ≡ false)
    × IsJustified env gateway bash
        (assess_policy env gateway start bash (scan env gateway bash))
        (assess_risk_of env gateway start bash (scan env gateway bash))
        start.grants
run-IsJustified_example = run-IsJustified env gateway start bash allowed

run-IsAudited_example : IsAudited gateway (run env gateway (begin stage no_grants bash) bash)
run-IsAudited_example = run-IsAudited env gateway stage no_grants bash

attached : (gateway.config.require_control_plane && not gateway.control_plane_attached) ≡ false
unfolding gateway
attached = refl

run-Carries_example :
    Carries (scan env gateway bash).sanitized_params (run env gateway start bash).1
run-Carries_example = run-Carries env gateway start bash attached undecided

abbrev tools : List String
tools = "Read_File" ∷ "fetch" ∷ []

record_all-window_example :
    ((record_all (new_tracker 3) tools).history
      ≡ last_n (new_tracker 3).capacity (map normalize_tool_name tools))
    × (5 ≤ (new_tracker 3).capacity)
    × ((new_tracker 3).capacity ≤ 10)
record_all-window_example = record_all-window 3 tools

abbrev signals : List BehaviorSignal
signals =
    record { detector_id = "d"; kind = exfiltration_chain; severity = high; detail = "chain" } ∷ []

analyze_params-once_example :
    let a = analyze_params scanner host.parse_json env.to_json "bash" "{}" in
    (a.score
      ≡ min
          (base_tool_risk "bash"
            + points (any_text scanner (λ (f : StringScanFlags). f.pii) call_value) 30
            + points (any_text scanner (λ (f : StringScanFlags). f.luhn) call_value) 40
            + points (any_text scanner (λ (f : StringScanFlags). f.entropy) call_value) 20
            + points (any_text scanner (λ (f : StringScanFlags). f.secret) call_value) 45)
          100)
    × (a.sanitized_params ≡ none
        → a.masking_failed ≡ false
        → any_text scanner (λ (f : StringScanFlags). f.masked) call_value ≡ false)
analyze_params-once_example =
    analyze_params-once scanner host.parse_json env.to_json "bash" "{}" call_value refl

abbrev clean : RiskAnalysis
clean = record { score = 20; sanitized_params = none; degraded = false; masking_failed = false }

assess_risk-asks_example :
    (assess_risk same_text
      (λ _. "0")
      default_thresholds
      action.tool_name
      clean
      false
      false
      (score_action default_thresholds action known (some clean) false)
      70).requires_approval
    ≡ (false || false || leb 70 (unforced_score action known clean))
assess_risk-asks_example =
    assess_risk-asks same_text (λ _. "0") default_thresholds action known clean false false 70

abbrev odd : RiskFactor
odd = bucket behavioral_anomaly 10 "an odd sequence of calls"

abbrev noted : ExplainableRiskScore
noted = record { score = 10; level = level_low; factors = odd ∷ [] }

assess_risk-forced_example :
    (assess_risk same_text
      (λ _. "0")
      default_thresholds
      "read_file"
      clean
      false
      false
      noted
      70).requires_approval
    ≡ true
unfolding bucket
assess_risk-forced_example =
    assess_risk-forced same_text (λ _. "0") default_thresholds "read_file" clean false false noted
      70 odd (inl refl) (inl refl)

offered :
    session_approval_safe action
      (score_action default_thresholds action known (some clean) false).level
    ≡ true
unfolding session_approval_safe score_action
offered = refl

session_approval_safe-effective_example :
    (level_rank (
        level_for default_thresholds (
          effective_score
            (score_action default_thresholds action known (some clean) false)
            clean
            true))
      ≤ 1)
    ↔ (true ≡ false)
session_approval_safe-effective_example =
    session_approval_safe-effective action known clean false true offered

spelled : normalized " Unusual_Tool " ≡ codes (kind_str unusual_tool)
unfolding normalized kind_str
spelled = refl

parse_kind-kind_str_example : parse_kind " Unusual_Tool " ≡ some unusual_tool
parse_kind-kind_str_example = parse_kind-kind_str unusual_tool " Unusual_Tool " spelled

merge_remote-matches_example :
    matches_ioc
      (merge_remote (from_indicators (codes " Evil.example" ∷ [])) (codes "# none" ∷ []))
      (codes "evil.example/x")
    ≡ (matches_ioc (from_indicators (codes " Evil.example" ∷ [])) (codes "evil.example/x")
        || matches_ioc (from_indicators (codes "# none" ∷ [])) (codes "evil.example/x"))
merge_remote-matches_example =
    merge_remote-matches (codes " Evil.example" ∷ []) (codes "# none" ∷ []) (codes "evil.example/x")

refresh_all-never_drops_example :
    IsTruthful
      (refresh_all (new_store (some layered) 0) ((9, absent) ∷ (20, failed_remote "down") ∷ []))
    × (true ≡ true
        → is_some
            (refresh_all
              (new_store (some layered) 0)
              ((9, absent) ∷ (20, failed_remote "down") ∷ [])).engine
          ≡ true)
refresh_all-never_drops_example =
    refresh_all-never_drops (some layered) 0 ((9, absent) ∷ (20, failed_remote "down") ∷ [])

abbrev failures : List SubsystemFailure
failures =
    record { subsystem = Subsystem.dlp_scanner; detail = "timeout" }
    ∷ record { subsystem = Subsystem.risk_scoring; detail = "panic" }
    ∷ []

report_failures-severest_example :
    (((report_failures same_text gateway action 40 start failures).1 ≡ refuse)
      ↔ HasClosed gateway.failure failures)
    × (((report_failures same_text gateway action 40 start failures).1 ≡ continue)
        ↔ AllOpen gateway.failure failures)
    × (decisions (report_failures same_text gateway action 40 start failures).0.events
        ≡ decisions start.events ++ expected gateway.failure failures)
report_failures-severest_example =
    report_failures-severest same_text gateway action 40 start failures
