-- ===== src/Gateway/Posture.antt =====
-- Enforcement posture and policy availability: mcp-proxy/src/gateway/posture.rs.
use sqreen_core.Prelude.{
  String, Bool, true, false, not, Option, none, some, [], ◌∷◌, if◌then◌else◌, normalized, one_of,
}

-- `FailureMode` of mcp-proxy/src/gateway/failure.rs, in the order of its severity
pub data FailureMode : Type 0 where
  fail_open degrade_safely fail_closed : FailureMode

-- `EnforcementPosture`
pub data EnforcementPosture : Type 0 where
  development enforcing managed : EnforcementPosture

-- `EnforcementPosture::from_env`, on the value of the environment variable
unfoldable pub posture_from_env : Option String → EnforcementPosture
unfolding normalized
posture_from_env none = enforcing
posture_from_env (some raw) =
    let token = normalized raw in
    if one_of token ("" ∷ [])
    then enforcing
    else if one_of token ("development" ∷ "dev" ∷ "permissive" ∷ [])
    then development
    else if one_of token ("enforcing" ∷ "protected" ∷ [])
    then enforcing
    else if one_of token ("managed" ∷ "fleet" ∷ "enterprise" ∷ [])
    then managed
    else enforcing

-- `EnforcementPosture::allows_missing_policy_passthrough`
abbrev pub allows_missing_policy_passthrough : EnforcementPosture → Bool
allows_missing_policy_passthrough development = true
allows_missing_policy_passthrough _ = false

-- `EnforcementPosture::missing_policy_mode`
unfoldable pub missing_policy_mode : EnforcementPosture → FailureMode
missing_policy_mode p = if allows_missing_policy_passthrough p then fail_open else fail_closed

-- `PolicyAvailability`
pub data PolicyAvailability : Type 0 where
  available missing invalid unreadable stale remote_unavailable : PolicyAvailability

-- `PolicyAvailability::as_str`
unfoldable pub availability_str : PolicyAvailability → String
availability_str available = "AVAILABLE"
availability_str missing = "MISSING"
availability_str invalid = "INVALID"
availability_str unreadable = "UNREADABLE"
availability_str stale = "STALE"
availability_str remote_unavailable = "REMOTE_UNAVAILABLE"

-- `PolicyAvailability::has_engine`
unfoldable pub has_engine : PolicyAvailability → Bool
has_engine available = true
has_engine stale = true
has_engine _ = false

-- `PolicyAvailability::is_unavailable`
unfoldable pub is_unavailable : PolicyAvailability → Bool
unfolding has_engine
is_unavailable a = not (has_engine a)
