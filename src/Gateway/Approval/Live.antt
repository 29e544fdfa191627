-- ===== src/Gateway/Approval/Live.antt =====
-- Which grant authorizes an action (mcp-proxy/src/gateway/approval/grant.rs): only one that is in the
-- store, not consumed, not expired, and bound to the action.
use sqreen_core.Prelude.{
  ℕ, ◌<◌, ◌≡◌, ◌↔◌, refl, arith, sym, String, eq_iff, true, false, Option, none, some,
}
use sqreen_core.Gateway.Approval.Binding.{ActionBinding, session_scope_key}
use sqreen_core.Gateway.Approval.Maps.{get}
use sqreen_core.Gateway.Approval.Grant.{
  ApprovalScope, exact_action, session_tool, ApprovalGrant, GrantRejectReason, granted, Store,
}
use sqreen_core.Gateway.Approval.Store.{
  same_scope, check_binding, check_use, used, take_checked, take_found, take_use,
}

-- The grant is bound to the action: to all of it, or to its session and tool.
abbrev pub Covers : ApprovalScope → ApprovalGrant → ActionBinding → Type 0
Covers exact_action g b = g.binding.fingerprint ≡ b.fingerprint
Covers session_tool g b = session_scope_key g.binding ≡ session_scope_key b

-- The grant may be used for the action now.
abbrev pub IsLive : ApprovalGrant → ActionBinding → ℕ → Type 0
IsLive g b now = (g.consumed ≡ false) × (now < g.expires_at) × Covers g.scope g b

granted-injective : {a b : ApprovalGrant} → granted a ≡ granted b → a ≡ b
granted-injective h = cc

check_binding-Covers :
    (scope : ApprovalScope) (g : ApprovalGrant) (b : ActionBinding)
    → (check_binding scope g b ≡ none) ↔ Covers scope g b
unfolding check_binding
check_binding-Covers exact_action g b = ground (arith, eq_iff g.binding.fingerprint b.fingerprint)
check_binding-Covers session_tool g b =
    ground (arith, eq_iff (session_scope_key g.binding) (session_scope_key b))

same_scope-eq_true : (x y : ApprovalScope) → (same_scope x y ≡ true) ↔ (x ≡ y)
same_scope-eq_true exact_action exact_action = (λ _. refl, λ _. refl)
same_scope-eq_true exact_action session_tool = ground arith
same_scope-eq_true session_tool exact_action = ground arith
same_scope-eq_true session_tool session_tool = (λ _. refl, λ _. refl)

check_use-tests :
    (g : ApprovalGrant) (b : ActionBinding) (now : ℕ) (scope : ApprovalScope)
    → (check_use g b now scope ≡ none) ↔ (
        (same_scope g.scope scope ≡ true)
        × (g.consumed ≡ false)
        × (now < g.expires_at)
        × (check_binding g.scope g b ≡ none))
unfolding check_use
check_use-tests g b now scope = ground arith

-- The tests of a use refuse nothing exactly when the grant has the expected scope, is not consumed,
-- has not expired and is bound to the action.
pub check_use-eq_none :
    (g : ApprovalGrant) (b : ActionBinding) (now : ℕ) (scope : ApprovalScope)
    → (check_use g b now scope ≡ none) ↔ ((g.scope ≡ scope) × IsLive g b now)
check_use-eq_none g b now scope = (forward, backward)
  where
    forward : check_use g b now scope ≡ none → (g.scope ≡ scope) × IsLive g b now
    forward h =
        let (s, c, t, k) = (check_use-tests g b now scope).0 h in
        ((same_scope-eq_true g.scope scope).0 s, (c, t, (check_binding-Covers g.scope g b).0 k))

    backward : (g.scope ≡ scope) × IsLive g b now → check_use g b now scope ≡ none
    backward (s, (c, t, k)) =
        (check_use-tests g b now scope).1
          ((same_scope-eq_true g.scope scope).1 s, c, t, (check_binding-Covers g.scope g b).1 k)

-- A use that is granted: the grant of the token is live and of the scope, and comes back used.
abbrev pub Granted : Store → String → ActionBinding → ℕ → ApprovalScope → ApprovalGrant → Type 0
Granted s token b now scope g =
    (old : ApprovalGrant) × (get token s.by_token ≡ some old)
    × (old.scope ≡ scope)
    × IsLive old b now
    × (g ≡ used old)

take_checked-granted :
    (s : Store) (token : String) (old g : ApprovalGrant) (o : Option GrantRejectReason)
    → (take_checked s token old o).1 ≡ granted g
    → (o ≡ none) × (g ≡ used old)
unfolding take_checked
take_checked-granted s token old g none h = (refl, granted-injective (sym h))
take_checked-granted s token old g (some GrantRejectReason.unknown_token) h = ground arith
take_checked-granted s token old g (some GrantRejectReason.expired) h = ground arith
take_checked-granted s token old g (some GrantRejectReason.consumed) h = ground arith
take_checked-granted s token old g (some GrantRejectReason.binding_mismatch) h = ground arith
take_checked-granted s token old g (some GrantRejectReason.args_tampered) h = ground arith
take_checked-granted s token old g (some GrantRejectReason.scope_mismatch) h = ground arith
take_checked-granted s token old g (some GrantRejectReason.session_missing) h = ground arith

take_found-granted :
    (s : Store) (token : String) (o : Option ApprovalGrant) (b : ActionBinding) (now : ℕ)
    (scope : ApprovalScope) (g : ApprovalGrant)
    → (take_found s token o b now scope).1 ≡ granted g
    → (old : ApprovalGrant) × (o ≡ some old)
      × (old.scope ≡ scope)
      × IsLive old b now
      × (g ≡ used old)
unfolding take_found
take_found-granted s token none b now scope g h = ground arith
take_found-granted s token (some old) b now scope g h =
    let (e, u) = take_checked-granted s token old g (check_use old b now scope) h in
    let (q, l) = (check_use-eq_none old b now scope).0 e in (old, refl, q, l, u)

pub take_use-granted :
    (s : Store) (token : String) (b : ActionBinding) (now : ℕ) (scope : ApprovalScope)
    (g : ApprovalGrant)
    → (take_use s token b now scope).1 ≡ granted g
    → Granted s token b now scope g
unfolding take_use
take_use-granted s token b now scope g h =
    take_found-granted s token (get token s.by_token) b now scope g h
