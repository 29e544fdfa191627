-- ===== src/Behavior.antt =====
-- Behavioral signals: mcp-proxy/src/behavior/types.rs. The detectors belong to the enterprise build;
-- the engine of the open core (mcp-proxy/src/behavior/stub.rs) finds nothing and records nothing.
pub mod Severity
use sqreen_core.Prelude.{
  ℕ, max, leb, ◌==◌, String, Bool, not, ◌&&◌, Option, none, some, List, [], ◌∷◌, any, is_empty, map,
  codes, trim, to_upper, normalized, one_of, if◌then◌else◌,
}
use sqreen_core.Action.{Action}
use sqreen_core.Scoring.{match_arms}

-- `BehaviorSeverity`
pub data BehaviorSeverity : Type 0 where
  low medium high critical : BehaviorSeverity

-- `BehaviorSeverity::as_str`
unfoldable pub severity_str : BehaviorSeverity → String
severity_str low = "LOW"
severity_str medium = "MEDIUM"
severity_str high = "HIGH"
severity_str critical = "CRITICAL"

-- The arms of `BehaviorSeverity::from_str_lossy`
abbrev pub severity_arms : List (List String × BehaviorSeverity)
severity_arms =
    ("LOW" ∷ [], low)
    ∷ ("MEDIUM" ∷ [], medium)
    ∷ ("HIGH" ∷ [], high)
    ∷ ("CRITICAL" ∷ [], critical)
    ∷ []

-- `BehaviorSeverity::from_str_lossy`
unfoldable pub from_str_lossy : String → Option BehaviorSeverity
unfolding trim to_upper
from_str_lossy value = match_arms (map to_upper (trim (codes value))) severity_arms

-- `BehaviorSeverity::rank`
unfoldable pub severity_rank : BehaviorSeverity → ℕ
severity_rank low = 1
severity_rank medium = 2
severity_rank high = 3
severity_rank critical = 4

-- `BehaviorSignalKind`
pub data BehaviorSignalKind : Type 0 where
  novel_sensitive_directory unknown_tool novel_external_domain : BehaviorSignalKind
  high_volume_reads credential_access destructive_after_reads : BehaviorSignalKind
  action_frequency_deviation production_from_dev_agent exfiltration_chain : BehaviorSignalKind

-- The position of a kind among the variants, by which the derived `==` compares
abbrev pub signal_rank : BehaviorSignalKind → ℕ
signal_rank novel_sensitive_directory = 0
signal_rank unknown_tool = 1
signal_rank novel_external_domain = 2
signal_rank high_volume_reads = 3
signal_rank credential_access = 4
signal_rank destructive_after_reads = 5
signal_rank action_frequency_deviation = 6
signal_rank production_from_dev_agent = 7
signal_rank exfiltration_chain = 8

-- `BehaviorSignalKind::as_str`
unfoldable pub signal_str : BehaviorSignalKind → String
signal_str novel_sensitive_directory = "novel_sensitive_directory"
signal_str unknown_tool = "unknown_tool"
signal_str novel_external_domain = "novel_external_domain"
signal_str high_volume_reads = "high_volume_reads"
signal_str credential_access = "credential_access"
signal_str destructive_after_reads = "destructive_after_reads"
signal_str action_frequency_deviation = "action_frequency_deviation"
signal_str production_from_dev_agent = "production_from_dev_agent"
signal_str exfiltration_chain = "exfiltration_chain"

-- The arms of `BehaviorSignalKind::parse`
abbrev pub signal_arms : List (List String × BehaviorSignalKind)
signal_arms =
    ("novel_sensitive_directory" ∷ [], novel_sensitive_directory)
    ∷ ("unknown_tool" ∷ [], unknown_tool)
    ∷ ("novel_external_domain" ∷ [], novel_external_domain)
    ∷ ("high_volume_reads" ∷ [], high_volume_reads)
    ∷ ("credential_access" ∷ [], credential_access)
    ∷ ("destructive_after_reads" ∷ [], destructive_after_reads)
    ∷ ("action_frequency_deviation" ∷ [], action_frequency_deviation)
    ∷ ("production_from_dev_agent" ∷ [], production_from_dev_agent)
    ∷ ("exfiltration_chain" ∷ [], exfiltration_chain)
    ∷ []

-- `BehaviorSignalKind::parse`
unfoldable pub parse_signal : String → Option BehaviorSignalKind
unfolding normalized
parse_signal value = match_arms (normalized value) signal_arms

-- `BehaviorSignal`, without its evidence
pub record BehaviorSignal : Type 0 where
  pub detector_id : String
  pub kind : BehaviorSignalKind
  pub severity : BehaviorSeverity
  pub detail : String

-- `BehaviorFinding`, without its time
pub record BehaviorFinding : Type 0 where
  pub profile_key : String
  pub signals : List BehaviorSignal
  pub max_severity : BehaviorSeverity

-- `Ord::max` of severities
unfoldable pub worse : BehaviorSeverity → BehaviorSeverity → BehaviorSeverity
unfolding severity_rank
worse a b = if leb (severity_rank a) (severity_rank b) then b else a

-- `iter().map(…).max().unwrap_or(Low)`
unfoldable pub worst : List BehaviorSignal → BehaviorSeverity
unfolding worse
worst [] = low
worst (s ∷ ss) = worse s.severity (worst ss)

-- `BehaviorFinding::from_signals`
unfoldable pub from_signals : String → List BehaviorSignal → BehaviorFinding
unfolding worst
from_signals profile_key signals = record {
  profile_key = profile_key;
  signals = signals;
  max_severity = worst signals;
}

-- `BehaviorFinding::empty`
abbrev pub empty_finding : String → BehaviorFinding
empty_finding profile_key = record { profile_key = profile_key; signals = []; max_severity = low }

-- `BehaviorFinding::has_kind`
unfoldable pub has_kind : BehaviorFinding → BehaviorSignalKind → Bool
has_kind finding kind =
    any (λ (s : BehaviorSignal). signal_rank s.kind == signal_rank kind) finding.signals

-- `BehaviorFinding::severity_at_least`
unfoldable pub severity_at_least : BehaviorFinding → BehaviorSeverity → Bool
unfolding severity_rank
severity_at_least finding floor =
    not (is_empty finding.signals) && leb (severity_rank floor) (severity_rank finding.max_severity)

-- `BehaviorEngine::evaluate` of the open core
abbrev pub evaluate_behavior : Action → BehaviorFinding
evaluate_behavior action = empty_finding action.tool_name
