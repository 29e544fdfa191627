-- ===== src/Gateway/Approval/Mint.antt =====
-- The grants that a verdict of an operator mints: `mint_grants_for_verdict` of
-- mcp-proxy/src/gateway/approval/mod.rs, over the fields of the context that it reads.
use sqreen_core.Prelude.{
  ℕ, ◌*◌, ◌^◌, ◌≡◌, arith, String, true, false, Option, none, some, if◌then◌else◌, str_eq,
}
use sqreen_core.Gateway.Approval.Context.{ApprovalContext}
use sqreen_core.Gateway.Approval.Grant.{
  exact_action, session_tool, ApprovalVerdict, approve_once, deny, approve_for_session,
  approve_until, ApprovalGrant, Redemption, granted, rejected, Store,
}
use sqreen_core.Gateway.Approval.Store.{
  issue_session, issue_until, issue_inner, issue_with_expiry, new_grant,
}

-- `DEFAULT_SESSION_TTL`, in nanoseconds
abbrev pub default_session_ttl : ℕ
default_session_ttl = 28800 * 10 ^ 9

-- `store.issue_session(…).ok()`, with the store
abbrev pub of_session : Store × Redemption → Store × Option ApprovalGrant
of_session (s, granted g) = (s, some g)
of_session (s, rejected reason) = (s, none)

-- `Some(store.issue_until(…))`, with the store
abbrev pub of_until : Store × ApprovalGrant → Store × Option ApprovalGrant
of_until (s, g) = (s, some g)

module _ (hex_sha256 : String → String) (separator : String) (trim : String → String)
    (show : ℕ → String) (from_std : ℕ → Option ℕ) where
  -- `mint_grants_for_verdict`
  unfoldable pub mint_grants_for_verdict :
      Store → ApprovalContext → ApprovalVerdict → ℕ → Store × Option ApprovalGrant
  unfolding issue_session issue_until
  mint_grants_for_verdict s context approve_once now = (s, none)
  mint_grants_for_verdict s context deny now = (s, none)
  mint_grants_for_verdict s context approve_for_session now =
      if context.session_approval_eligible
      then of_session (
          issue_session hex_sha256 separator trim show from_std s context.request_id context.binding
            default_session_ttl now)
      else (s, none)
  mint_grants_for_verdict s context (approve_until expires_at) now =
      if context.timed_approval_eligible
      then of_until (
          issue_until hex_sha256 separator trim show from_std s context.request_id context.binding
            expires_at now)
      else (s, none)

  -- What a verdict allows to mint: a grant for the session where that is eligible and there is a
  -- session, or one for the action until an instant where that is eligible.
  abbrev pub IsMinted : ApprovalContext → ApprovalVerdict → ApprovalGrant → Type 0
  IsMinted context approve_once g = ⊥
  IsMinted context deny g = ⊥
  IsMinted context approve_for_session g =
      (context.session_approval_eligible ≡ true)
      × (str_eq (trim context.binding.session_id) "" ≡ false)
      × (g.scope ≡ session_tool)
      × (g.binding ≡ context.binding)
  IsMinted context (approve_until expires_at) g =
      (context.timed_approval_eligible ≡ true)
      × (g.expires_at ≡ expires_at)
      × (g.scope ≡ exact_action)
      × (g.binding ≡ context.binding)

  -- A verdict that mints a grant is one for the session or until an instant; the context is eligible
  -- for it; and the grant is bound to the action of the context, with the scope, and in the second
  -- case the end, of the verdict. To deny and to approve once mint nothing.
  pub mint_grants_for_verdict-IsMinted :
      (s : Store) (context : ApprovalContext) (verdict : ApprovalVerdict) (now : ℕ)
      (g : ApprovalGrant)
      → (mint_grants_for_verdict s context verdict now).1 ≡ some g
      → IsMinted context verdict g
  unfolding mint_grants_for_verdict issue_session issue_until issue_inner issue_with_expiry
      new_grant
  mint_grants_for_verdict-IsMinted s context approve_once now g h = ground (arith, h)
  mint_grants_for_verdict-IsMinted s context deny now g h = ground (arith, h)
  mint_grants_for_verdict-IsMinted s context approve_for_session now g h = ground (arith, h)
  mint_grants_for_verdict-IsMinted s context (approve_until expires_at) now g h = ground (arith, h)
