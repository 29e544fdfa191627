-- ===== src/Scoring/Names.antt =====
-- The names of factors: the parser of mcp-proxy/src/scoring/types.rs against its printer.
use sqreen_core.Prelude.{◌≡◌, refl, ap, ◌∙◌, String, some, codes, normalized}
use sqreen_core.Scoring.{
  RiskFactorKind, secret_access, sensitive_resource, external_destination, unknown_destination,
  destructive_action, production_environment, privileged_credential, behavioral_anomaly,
  unknown_agent, high_volume_action, policy_sensitive_operation, unusual_tool, bulk_operation,
  content_secret, threat_intel, kind_str, kind_arms, match_arms, parse_kind,
}

match_arms-kind_str : (k : RiskFactorKind) → match_arms (codes (kind_str k)) kind_arms ≡ some k
unfolding kind_str
match_arms-kind_str secret_access = refl
match_arms-kind_str sensitive_resource = refl
match_arms-kind_str external_destination = refl
match_arms-kind_str unknown_destination = refl
match_arms-kind_str destructive_action = refl
match_arms-kind_str production_environment = refl
match_arms-kind_str privileged_credential = refl
match_arms-kind_str behavioral_anomaly = refl
match_arms-kind_str unknown_agent = refl
match_arms-kind_str high_volume_action = refl
match_arms-kind_str policy_sensitive_operation = refl
match_arms-kind_str unusual_tool = refl
match_arms-kind_str bulk_operation = refl
match_arms-kind_str content_secret = refl
match_arms-kind_str threat_intel = refl

-- A text that is the name of a kind of factor, up to case and surrounding white space, is parsed to
-- that kind.
pub parse_kind-kind_str :
    (k : RiskFactorKind) (value : String)
    → normalized value ≡ codes (kind_str k)
    → parse_kind value ≡ some k
unfolding parse_kind
parse_kind-kind_str k value h = ap (λ cs. match_arms cs kind_arms) h ∙ match_arms-kind_str k
