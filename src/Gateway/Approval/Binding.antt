-- ===== src/Gateway/Approval/Binding.antt =====
-- What an approval is bound to: `ActionBinding` and `session_approval_safe` of
-- mcp-proxy/src/gateway/approval/grant.rs, over the fields of an action that they read.
use sqreen_core.Prelude.{
  ltb, String, ◌&◌, str_eq, Bool, true, false, not, ◌||◌, Option, none, some, any, if◌then◌else◌,
}
use sqreen_core.Action.{Action, debug_tier}
use sqreen_core.Taxonomy.{
  ActionCategory, execute, delete, send, authenticate, escalate, deploy, network_request,
  ResourceCategory, credential, secret,
}
use sqreen_core.Scoring.{RiskLevel, level_rank, medium}

-- `ActionBinding`
pub record ActionBinding : Type 0 where
  pub fingerprint : String
  pub args_digest : String
  pub tool_name : String
  pub agent_id : String
  pub agent_bound_id : String
  pub agent_trust : String
  pub device_id : String
  pub organization_id : String
  pub session_id : String
  pub environment : String
  pub resource_digest : String
  pub destination_digest : String

-- `unwrap_or_default`
abbrev or_blank : Option String → String
or_blank none = ""
or_blank (some s) = s

-- `hex_sha256` stands for the digest of the sha2 crate in hexadecimal, and `separator` for the byte
-- 0 between the parts of the material.
module _ (hex_sha256 : String → String) (separator : String) where
  -- The material that `from_action` hashes
  binding_material : String → String → String → Action → String
  binding_material args resource destination action =
      "sqreen.approval.v2"
      & separator
      & action.tool_name
      & separator
      & args
      & separator
      & resource
      & separator
      & destination
      & separator
      & action.effective_agent_id
      & separator
      & or_blank action.agent_bound_id
      & separator
      & action.agent_trust
      & separator
      & or_blank action.device_id
      & separator
      & or_blank action.organization_id
      & separator
      & or_blank action.session_id
      & separator
      & debug_tier action.tier

  -- `ActionBinding::from_action`
  unfoldable pub from_action : Action → ActionBinding
  unfolding binding_material
  from_action action =
      let args = hex_sha256 action.canonical_params_json in
      let resource = hex_sha256 (or_blank action.resource_text) in
      let destination = hex_sha256 (or_blank action.egress_text) in
      record {
        fingerprint = hex_sha256 (binding_material args resource destination action);
        args_digest = args;
        tool_name = action.tool_name;
        agent_id = action.effective_agent_id;
        agent_bound_id = or_blank action.agent_bound_id;
        agent_trust = action.agent_trust;
        device_id = or_blank action.device_id;
        organization_id = or_blank action.organization_id;
        session_id = or_blank action.session_id;
        environment = debug_tier action.tier;
        resource_digest = resource;
        destination_digest = destination;
      }

-- `ActionBinding::session_scope_key`
unfoldable pub session_scope_key : ActionBinding → String
session_scope_key b =
    (if str_eq b.agent_bound_id "" then b.agent_id else b.agent_bound_id)
    & "|"
    & b.device_id
    & "|"
    & b.session_id
    & "|"
    & b.tool_name
    & "|"
    & b.environment

-- The resources that are never session-safe
abbrev pub is_guarded : ResourceCategory → Bool
is_guarded credential = true
is_guarded secret = true
is_guarded _ = false

-- The categories that are never session-safe
abbrev pub is_consequential : ActionCategory → Bool
is_consequential delete = true
is_consequential deploy = true
is_consequential escalate = true
is_consequential execute = true
is_consequential authenticate = true
is_consequential send = true
is_consequential network_request = true
is_consequential _ = false

-- `session_approval_safe`
unfoldable pub session_approval_safe : Action → RiskLevel → Bool
session_approval_safe action level =
    if ltb (level_rank medium) (level_rank level)
    then false
    else if action.risk.destructive || action.risk.external_destination
        || action.risk.credential_access || action.risk.irreversible || action.risk.privileged
    then false
    else if any is_guarded action.resources
    then false
    else not (is_consequential action.category)
