-- ===== src/Gateway/Approval/Grant.antt =====
-- Grants, their history and the store: the types of mcp-proxy/src/gateway/approval/grant.rs. Instants
-- are numbers of a clock. An entry of the history leaves out its time and the text of its detail.
use sqreen_core.Prelude.{ℕ, String, Bool, Option, List}
use sqreen_core.Gateway.Approval.Binding.{ActionBinding}

-- `HISTORY_CAP`
abbrev pub history_cap : ℕ
history_cap = 2048

-- `ApprovalScope`
pub data ApprovalScope : Type 0 where
  exact_action session_tool : ApprovalScope

-- `ApprovalVerdict`
pub data ApprovalVerdict : Type 0 where
  approve_once deny approve_for_session : ApprovalVerdict
  approve_until : ℕ → ApprovalVerdict

-- `ApprovalGrant`
pub record ApprovalGrant : Type 0 where
  pub token : String
  pub request_id : String
  pub scope : ApprovalScope
  pub binding : ActionBinding
  pub issued_at : ℕ
  pub expires_at : ℕ
  pub max_uses : Option ℕ
  pub uses : ℕ
  pub consumed : Bool
  pub verdict : ApprovalVerdict

-- `GrantRejectReason`
pub data GrantRejectReason : Type 0 where
  unknown_token expired consumed binding_mismatch args_tampered : GrantRejectReason
  scope_mismatch session_missing : GrantRejectReason

-- `Result<ApprovalGrant, GrantRejectReason>`
pub data Redemption : Type 0 where
  granted : ApprovalGrant → Redemption
  rejected : GrantRejectReason → Redemption

-- `GrantAuthorization`
pub data GrantAuthorization : Type 0 where
  authorized : ApprovalGrant → GrantAuthorization
  unauthorized : GrantAuthorization

-- `ApprovalHistoryEvent`
pub data ApprovalHistoryEvent : Type 0 where
  prompted approved denied grant_issued grant_consumed : ApprovalHistoryEvent
  grant_rejected grant_expired : ApprovalHistoryEvent

-- `ApprovalHistoryEntry`
pub record ApprovalHistoryEntry : Type 0 where
  pub event : ApprovalHistoryEvent
  pub request_id : Option String
  pub token : Option String
  pub scope : Option ApprovalScope
  pub binding_fingerprint : Option String
  pub args_digest : Option String
  pub sanitized_brief : Option String

-- `ApprovalGrantStore` with its `StoreInner`; each operation holds the lock.
pub record Store : Type 0 where
  pub seq : ℕ
  pub by_token : List (String × ApprovalGrant)
  pub session_index : List (String × String)
  pub exact_index : List (String × String)
  pub history : List ApprovalHistoryEntry
