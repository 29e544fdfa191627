-- ===== src/Scoring.antt =====
-- The types of a risk score: mcp-proxy/src/scoring/types.rs. A score is a u8, a number below 256.
pub mod Names
pub mod Basic
pub mod Bands
use sqreen_core.Prelude.{
  ℕ, leb, ◌==◌, String, Bool, true, Option, none, some, List, [], ◌∷◌, any, map, codes, codes_eq,
  normalized, one_of, trim, to_upper, if◌then◌else◌,
}

-- `RiskLevel`
pub data RiskLevel : Type 0 where
  low medium high critical : RiskLevel

-- The derived order of `RiskLevel`
abbrev pub level_rank : RiskLevel → ℕ
level_rank low = 0
level_rank medium = 1
level_rank high = 2
level_rank critical = 3

-- `RiskLevel::as_str`
unfoldable pub level_str : RiskLevel → String
level_str low = "LOW"
level_str medium = "MEDIUM"
level_str high = "HIGH"
level_str critical = "CRITICAL"

-- `RiskLevel::parse`, of the text in upper case
unfoldable pub parse_level_token : List ℕ → Option RiskLevel
parse_level_token token =
    if one_of token ("LOW" ∷ [])
    then some low
    else if one_of token ("MEDIUM" ∷ [])
    then some medium
    else if one_of token ("HIGH" ∷ [])
    then some high
    else if one_of token ("CRITICAL" ∷ [])
    then some critical
    else none

-- `RiskLevel::parse`
unfoldable pub parse_level : String → Option RiskLevel
unfolding parse_level_token trim to_upper
parse_level value = parse_level_token (map to_upper (trim (codes value)))

-- `RiskFactorKind`
pub data RiskFactorKind : Type 0 where
  secret_access sensitive_resource external_destination unknown_destination : RiskFactorKind
  destructive_action production_environment privileged_credential : RiskFactorKind
  behavioral_anomaly unknown_agent high_volume_action policy_sensitive_operation : RiskFactorKind
  unusual_tool bulk_operation content_secret threat_intel : RiskFactorKind

-- The position of a kind among the variants, by which the derived `==` and order compare
abbrev pub kind_rank : RiskFactorKind → ℕ
kind_rank secret_access = 0
kind_rank sensitive_resource = 1
kind_rank external_destination = 2
kind_rank unknown_destination = 3
kind_rank destructive_action = 4
kind_rank production_environment = 5
kind_rank privileged_credential = 6
kind_rank behavioral_anomaly = 7
kind_rank unknown_agent = 8
kind_rank high_volume_action = 9
kind_rank policy_sensitive_operation = 10
kind_rank unusual_tool = 11
kind_rank bulk_operation = 12
kind_rank content_secret = 13
kind_rank threat_intel = 14

abbrev pub same_kind : RiskFactorKind → RiskFactorKind → Bool
same_kind a b = kind_rank a == kind_rank b

-- `RiskFactorKind::as_str`
unfoldable pub kind_str : RiskFactorKind → String
kind_str secret_access = "secret_access"
kind_str sensitive_resource = "sensitive_resource"
kind_str external_destination = "external_destination"
kind_str unknown_destination = "unknown_destination"
kind_str destructive_action = "destructive_action"
kind_str production_environment = "production_environment"
kind_str privileged_credential = "privileged_credential"
kind_str behavioral_anomaly = "behavioral_anomaly"
kind_str unknown_agent = "unknown_agent"
kind_str high_volume_action = "high_volume_action"
kind_str policy_sensitive_operation = "policy_sensitive_operation"
kind_str unusual_tool = "unusual_tool"
kind_str bulk_operation = "bulk_operation"
kind_str content_secret = "content_secret"
kind_str threat_intel = "threat_intel"

-- The arms of `RiskFactorKind::parse`
abbrev pub kind_arms : List (List String × RiskFactorKind)
kind_arms =
    ("secret_access" ∷ [], secret_access)
    ∷ ("sensitive_resource" ∷ [], sensitive_resource)
    ∷ ("external_destination" ∷ [], external_destination)
    ∷ ("unknown_destination" ∷ [], unknown_destination)
    ∷ ("destructive_action" ∷ [], destructive_action)
    ∷ ("production_environment" ∷ [], production_environment)
    ∷ ("privileged_credential" ∷ [], privileged_credential)
    ∷ ("behavioral_anomaly" ∷ [], behavioral_anomaly)
    ∷ ("unknown_agent" ∷ [], unknown_agent)
    ∷ ("high_volume_action" ∷ [], high_volume_action)
    ∷ ("policy_sensitive_operation" ∷ [], policy_sensitive_operation)
    ∷ ("unusual_tool" ∷ "unknown_tool" ∷ [], unusual_tool)
    ∷ ("bulk_operation" ∷ [], bulk_operation)
    ∷ ("content_secret" ∷ [], content_secret)
    ∷ ("threat_intel" ∷ [], threat_intel)
    ∷ []

-- A `match` on a text with arms of literals, the last of which is `_ => None`
abbrev pub match_arms {ℓ} : {A : Type ℓ} → List ℕ → List (List String × A) → Option A
match_arms token [] = none
match_arms token ((literals, value) ∷ arms) =
    if one_of token literals then some value else match_arms token arms

-- `RiskFactorKind::parse`
unfoldable pub parse_kind : String → Option RiskFactorKind
unfolding normalized
parse_kind value = match_arms (normalized value) kind_arms

-- `RiskFactorKind::is_strong`
unfoldable pub is_strong : RiskFactorKind → Bool
is_strong secret_access = true
is_strong privileged_credential = true
is_strong destructive_action = true
is_strong behavioral_anomaly = true
is_strong content_secret = true
is_strong threat_intel = true
is_strong policy_sensitive_operation = true
is_strong _ = Bool.false

-- `RiskFactor`
pub record RiskFactor : Type 0 where
  pub kind : RiskFactorKind
  pub weight : ℕ
  pub contribution : ℕ
  pub detail : String

-- `ExplainableRiskScore`, without the constant text of its meaning
pub record ExplainableRiskScore : Type 0 where
  pub score : ℕ
  pub level : RiskLevel
  pub factors : List RiskFactor

-- `ExplainableRiskScore::has_factor`
unfoldable pub has_factor : ExplainableRiskScore → RiskFactorKind → Bool
has_factor explanation kind = any (λ (f : RiskFactor). same_kind f.kind kind) explanation.factors

-- `ExplainableRiskScore::factor_kinds`
unfoldable pub factor_kinds : ExplainableRiskScore → List RiskFactorKind
factor_kinds explanation = map (λ (f : RiskFactor). f.kind) explanation.factors

-- `RiskLevelThresholds`
pub record RiskLevelThresholds : Type 0 where
  pub medium : ℕ
  pub high : ℕ
  pub critical : ℕ

-- `RiskLevelThresholds::default`
abbrev pub default_thresholds : RiskLevelThresholds
default_thresholds = record { medium = 25; high = 50; critical = 75 }

-- `RiskLevelThresholds::level_for`
unfoldable pub level_for : RiskLevelThresholds → ℕ → RiskLevel
level_for bands score =
    if leb bands.critical score
    then critical
    else if leb bands.high score
    then high
    else if leb bands.medium score
    then medium
    else low
