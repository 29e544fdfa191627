-- ===== src/Scoring/Basic.antt =====
-- The scorer of the open core: mcp-proxy/src/scoring/basic.rs. The weights and caps of its
-- configuration are empty types there, so the configuration is the bands of levels. A finding of the
-- behavior engine does not enter the score.
use sqreen_core.Prelude.{
  ℕ, leb, min, max, String, ◌&◌, Bool, true, false, ◌||◌, lowered, one_of, has_any, when, Option,
  none, some, List, [], ◌∷◌, ◌++◌,
}
use sqreen_core.Taxonomy.{
  ActionCategory, delete, deploy, escalate, category_str, secret, credential, touches_resource,
}
use sqreen_core.Action.{Action}
use sqreen_core.Risk.{RiskAnalysis}
use sqreen_core.Scoring.{
  RiskFactorKind, secret_access, destructive_action, policy_sensitive_operation, unusual_tool,
  content_secret, threat_intel, RiskFactor, ExplainableRiskScore, RiskLevelThresholds, level_for,
}

-- `security_baseline::ToolKnowledge`
pub data ToolKnowledge : Type 0 where
  known partially_classified unknown : ToolKnowledge

-- `bucket`
unfoldable pub bucket : RiskFactorKind → ℕ → String → RiskFactor
bucket kind contribution detail = record {
  kind = kind;
  weight = contribution;
  contribution = contribution;
  detail = detail;
}

-- `is_policy_sensitive_tool`
unfoldable pub is_policy_sensitive_tool : String → Bool
unfolding lowered
is_policy_sensitive_tool tool_name =
    one_of (lowered tool_name) (
      "execute_bash" ∷ "run_terminal_cmd" ∷ "shell" ∷ "bash" ∷ "write_file" ∷ "edit_file"
      ∷ "apply_patch" ∷ "delete_file" ∷ "remove_file" ∷ "deploy_release" ∷ "kubectl" ∷ [])
    || has_any (lowered tool_name) ("deploy" ∷ "sudo" ∷ [])

abbrev pub is_destructive : ActionCategory → Bool
is_destructive delete = true
is_destructive deploy = true
is_destructive escalate = true
is_destructive _ = false

-- The factor of what the classifier knows of the tool
unfoldable pub knowledge_factor : String → ToolKnowledge → List RiskFactor
unfolding bucket
knowledge_factor tool unknown =
    bucket unusual_tool 40 ("tool `" & tool & "` is unknown to the classifier") ∷ []
knowledge_factor tool partially_classified =
    bucket unusual_tool 35 ("tool `" & tool & "` is only partially classified from arguments") ∷ []
knowledge_factor tool known = []

-- The factor of the scan of the content
unfoldable pub content_factor : Option RiskAnalysis → List RiskFactor
unfolding bucket
content_factor none = []
content_factor (some content) =
    when (leb 50 content.score)
      (bucket content_secret (min content.score 85) "content scanner flagged sensitive material")

-- The factors of the action and the tool, in the order in which `RiskScoreEngine::score` pushes them
unfoldable pub tool_factors : Action → ToolKnowledge → List RiskFactor
unfolding bucket is_policy_sensitive_tool knowledge_factor category_str touches_resource
tool_factors action knowledge =
    when
      (action.risk.credential_access
        || touches_resource action.resources secret
        || touches_resource action.resources credential)
      (bucket secret_access 80 ("credential/secret material via `" & action.tool_name & "`"))
    ++ when (action.risk.destructive || is_destructive action.category) (
        bucket destructive_action 70
          ("destructive action category `" & category_str action.category & "`"))
    ++ when (is_policy_sensitive_tool action.tool_name) (
        bucket policy_sensitive_operation 75
          ("tool `" & action.tool_name & "` is a high-impact policy-sensitive operation"))
    ++ knowledge_factor action.tool_name knowledge

-- All the factors of `RiskScoreEngine::score`: those of the content and of the indicators come last
unfoldable pub factors_of : Action → ToolKnowledge → Option RiskAnalysis → Bool → List RiskFactor
unfolding bucket tool_factors content_factor
factors_of action knowledge content ioc_match =
    tool_factors action knowledge
    ++ content_factor content
    ++ when ioc_match (bucket threat_intel 85 "threat-intel indicator matched")

-- `factors.iter().map(…).max().unwrap_or(0)`
abbrev pub greatest : List RiskFactor → ℕ
greatest [] = 0
greatest (f ∷ fs) = max f.contribution (greatest fs)

-- `RiskScoreEngine::score`; `tool_knowledge` stands for the answer of the classifier
unfoldable pub score_action :
    RiskLevelThresholds → Action → ToolKnowledge → Option RiskAnalysis → Bool → ExplainableRiskScore
unfolding factors_of level_for
score_action bands action knowledge content ioc_match =
    let factors = factors_of action knowledge content ioc_match in
    record {
      score = min (greatest factors) 100;
      level = level_for bands (min (greatest factors) 100);
      factors = factors;
    }
