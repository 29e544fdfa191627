-- ===== src/Action.antt =====
-- The action of an agent: the parts of `AgentAction` (mcp-proxy/src/action.rs) that the stages after
-- the policy read. The fields of the identity and of the security classification stand beside the
-- others, and each of the resource and the destination has its `{:?}` text beside it.
use sqreen_core.Prelude.{ℕ, String, Option, List}
use sqreen_core.Taxonomy.{ActionCategory, ResourceCategory, RiskProfile}

-- `EnvironmentTier`
pub data EnvironmentTier : Type 0 where
  unknown development staging production : EnvironmentTier

-- `{:?}` of an `EnvironmentTier`
abbrev pub debug_tier : EnvironmentTier → String
debug_tier unknown = "Unknown"
debug_tier development = "Development"
debug_tier staging = "Staging"
debug_tier production = "Production"

-- `Resource`
pub data Resource : Type 0 where
  file directory : String → Resource
  command : Option String → String → Resource
  url : String → Option String → Resource
  host : String → Option ℕ → Resource
  database : Option String → Option String → Option String → Option String → Resource
  browser_target : Option String → Option String → Resource
  opaque : String → Resource

-- `Destination`
pub data Destination : Type 0 where
  to_host : String → Option ℕ → Destination
  to_url : String → Option String → Destination
  to_file to_process : String → Destination

-- `AgentAction`: the fields that scoring, approvals and the audit trail read
pub record Action : Type 0 where
  pub tool_name : String
  pub canonical_params_json : String
  pub effective_agent_id : String
  pub user_id : Option String
  pub agent_bound_id : Option String
  pub agent_trust : String
  pub device_id : Option String
  pub organization_id : Option String
  pub session_id : Option String
  pub tier : EnvironmentTier
  pub resource : Option Resource
  pub resource_text : Option String
  pub egress : Option Destination
  pub egress_text : Option String
  pub category : ActionCategory
  pub resources : List ResourceCategory
  pub risk : RiskProfile
