-- ===== src/Gateway/Pipeline/Env.antt =====
-- What the pipeline takes from outside the model: the Rust library, serde_json, the clock and the
-- environment, the masking of texts (mcp-proxy/src/gateway/redact.rs), the classifier
-- (mcp-proxy/src/classify.rs), and the match context of an action (mcp-proxy/src/policy/match_ctx.rs).
use sqreen_core.Prelude.{ℕ, String, Option, List}
use sqreen_core.Json.{Value}
use sqreen_core.Host.{Host}
use sqreen_core.Action.{Action}
use sqreen_core.Risk.{StringScanFlags}
use sqreen_core.Scoring.{ExplainableRiskScore}
use sqreen_core.Scoring.Basic.{ToolKnowledge}
use sqreen_core.Behavior.{BehaviorFinding}
use sqreen_core.Policy.Compile.{CompiledPolicy}
use sqreen_core.Policy.Context.{PolicyMatchContext}

pub record Env : Type 0 where
  pub host : Host
  pub sanitize_detail : String → String
  -- `Display` of an integer, and `parse::<u8>`
  pub show : ℕ → String
  pub parse_u8 : String → Option ℕ
  -- `serde_json::to_string`
  pub to_json : Value → Option String
  -- The variable MCP_RISK_THRESHOLD
  pub threshold_env : Option String
  pub tool_knowledge : Action → ToolKnowledge
  pub scan_string : String → String × StringScanFlags
  -- The panic, if any, of a scan and of an evaluation of the policy
  pub scan_panic : Action → Option String
  pub panic_in : CompiledPolicy → PolicyMatchContext → Option String
  pub utf8_error : List ℕ → String
  pub match_context : Action → Option BehaviorFinding → ExplainableRiskScore → PolicyMatchContext
  -- The digest in hexadecimal, the byte 0, and the conversion of durations of chrono
  pub hex_sha256 : String → String
  pub separator : String
  pub from_std : ℕ → Option ℕ
  -- The clock at the lookup of a grant and after the answer of an approver, and the time of a brief
  pub now : ℕ
  pub answered_at : ℕ
  pub time : String
