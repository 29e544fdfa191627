-- ===== src/Gateway/Approval/Replay.antt =====
-- Sequences of operations of the store of mcp-proxy/src/gateway/approval/grant.rs: a token that is
-- used up stays so, and the history stays within its bound.
use sqreen_core.Prelude.{
  ℕ, ◌≡◌, ◌≢◌, refl, arith, ap, sym, ◌∙◌, subst, String, true, Option, none, some,
}
use sqreen_core.Scoring.{medium}
use sqreen_core.Action.{Action}
use sqreen_core.Gateway.Approval.Binding.{ActionBinding, from_action, session_approval_safe}
use sqreen_core.Gateway.Approval.Maps.{get, insert, get-insert_self}
use sqreen_core.Gateway.Approval.Grant.{
  ApprovalScope, exact_action, session_tool, ApprovalVerdict, ApprovalGrant, GrantRejectReason,
  consumed, Redemption, granted, rejected, Store,
}
use sqreen_core.Gateway.Approval.Store.{
  push_history, note_event, note_reject, record_decision, check_use, used, take_checked, take_found,
  take_use, authorize, redeem_noted, redeem_found, redeem_binding, redeem, new_token, new_grant,
  issue_with_expiry, same_scope,
}
use sqreen_core.Gateway.Approval.Live.{take_use-granted}
use sqreen_core.Gateway.Approval.Authorize.{put_grant-by_token}
use sqreen_core.Gateway.Approval.Spent.{
  IsSpent, authorize_binding-IsSpent, redeem_found-IsSpent, enter_grant-IsSpent,
}

same_scope_self : (scope : ApprovalScope) → same_scope scope scope ≡ true
same_scope_self exact_action = refl
same_scope_self session_tool = refl

-- A consumed grant is refused for being consumed, whatever the action and the time.
check_use-consumed :
    (g : ApprovalGrant) (b : ActionBinding) (now : ℕ)
    → g.consumed ≡ true
    → check_use g b now g.scope ≡ some consumed
unfolding check_use
check_use-consumed g b now h = ground (arith, h, same_scope_self g.scope)

redeem_found-consumed :
    (s : Store) (token : String) (b : ActionBinding) (now : ℕ) (g : ApprovalGrant)
    → get token s.by_token ≡ some g
    → g.consumed ≡ true
    → (redeem_found s token b now (some g)).1 ≡ rejected consumed
unfolding redeem_found redeem_noted take_use take_found take_checked
redeem_found-consumed s token b now g e c =
    subst
      (λ o.
        (redeem_noted token b g.scope (take_found s token o b now g.scope)).1 ≡ rejected consumed)
      (sym e)
      (subst (λ r. (redeem_noted token b g.scope (take_checked s token g r)).1 ≡ rejected consumed)
        (sym (check_use-consumed g b now c)) refl)

redeem_binding-spent :
    (s : Store) (token : String) (b : ActionBinding) (now : ℕ)
    → IsSpent token s.by_token
    → (redeem_binding s token b now).1 ≡ rejected consumed
unfolding redeem_binding
redeem_binding-spent s token b now (g, e, c) =
    subst (λ o. (redeem_found s token b now o).1 ≡ rejected consumed) (sym e)
      (redeem_found-consumed s token b now g e c)

-- The one use of a grant that has one consumes it.
used-consumed : (g : ApprovalGrant) → g.max_uses ≡ some 1 → (used g).consumed ≡ true
unfolding used
used-consumed g h = ground (arith, h)

used-max_uses : (g : ApprovalGrant) → (used g).max_uses ≡ g.max_uses
unfolding used
used-max_uses g = refl

granted-injective : {a b : ApprovalGrant} → granted a ≡ granted b → a ≡ b
granted-injective h = cc

-- After a use that is granted, the map has the grant that was answered.
take_checked-puts :
    (s : Store) (token : String) (old g : ApprovalGrant) (o : Option GrantRejectReason)
    → (take_checked s token old o).1 ≡ granted g
    → (take_checked s token old o).0.by_token ≡ insert token g s.by_token
unfolding take_checked
take_checked-puts s token old g none h =
    put_grant-by_token s token (used old)
    ∙ ap (λ x. insert token x s.by_token) (granted-injective h)
take_checked-puts s token old g (some GrantRejectReason.unknown_token) h = ground (arith, h)
take_checked-puts s token old g (some GrantRejectReason.expired) h = ground (arith, h)
take_checked-puts s token old g (some GrantRejectReason.consumed) h = ground (arith, h)
take_checked-puts s token old g (some GrantRejectReason.binding_mismatch) h = ground (arith, h)
take_checked-puts s token old g (some GrantRejectReason.args_tampered) h = ground (arith, h)
take_checked-puts s token old g (some GrantRejectReason.scope_mismatch) h = ground (arith, h)
take_checked-puts s token old g (some GrantRejectReason.session_missing) h = ground (arith, h)

take_found-puts :
    (s : Store) (token : String) (o : Option ApprovalGrant) (b : ActionBinding) (now : ℕ)
    (scope : ApprovalScope) (g : ApprovalGrant)
    → (take_found s token o b now scope).1 ≡ granted g
    → (take_found s token o b now scope).0.by_token ≡ insert token g s.by_token
unfolding take_found
take_found-puts s token none b now scope g h = ground (arith, h)
take_found-puts s token (some old) b now scope g h =
    take_checked-puts s token old g (check_use old b now scope) h

redeem_noted-granted :
    (token : String) (b : ActionBinding) (scope : ApprovalScope) (s : Store) (r : Redemption)
    (g : ApprovalGrant)
    → (redeem_noted token b scope (s, r)).1 ≡ granted g
    → (r ≡ granted g) × ((redeem_noted token b scope (s, r)).0.by_token ≡ s.by_token)
unfolding redeem_noted note_event note_reject push_history
redeem_noted-granted token b scope s (granted x) g h = (h, refl)
redeem_noted-granted token b scope s (rejected reason) g h = ground (arith, h)

redeem_found-spends :
    (s : Store) (token : String) (b : ActionBinding) (now : ℕ) (o : Option ApprovalGrant)
    (g : ApprovalGrant)
    → (redeem_found s token b now o).1 ≡ granted g
    → g.max_uses ≡ some 1
    → IsSpent token (redeem_found s token b now o).0.by_token
unfolding redeem_found take_use
redeem_found-spends s token b now none g h m = ground (arith, h)
redeem_found-spends s token b now (some x) g h m =
    let p = take_use s token b now x.scope in
    let (e, q) = redeem_noted-granted token b x.scope p.0 p.1 g h in
    let puts = take_found-puts s token (get token s.by_token) b now x.scope g e in
    let (old, found, scope, live, u) = take_use-granted s token b now x.scope g e in
    subst (IsSpent token) (sym (q ∙ puts)) (
      g,
      get-insert_self token g s.by_token,
      subst (λ (y : ApprovalGrant). y.consumed ≡ true) (sym u)
          (used-consumed old
            (sym (used-max_uses old) ∙ ap (λ (y : ApprovalGrant). y.max_uses) (sym u) ∙ m)),
    )

module _ (hex_sha256 : String → String) (separator : String) (trim : String → String)
    (show : ℕ → String) (from_std : ℕ → Option ℕ) where
  -- One operation of the store that does not issue the token `t` again. `issue_once`,
  -- `issue_session` and `issue_until` all issue by `issue_with_expiry`.
  pub data Step (t : String) : Store → Store → Type 0 where
    issues :
        (s : Store) (request_id : String) (scope : ApprovalScope) (b : ActionBinding)
        (verdict : ApprovalVerdict) (expires_at : ℕ) (max_uses : Option ℕ) (now : ℕ)
        → new_token hex_sha256 separator trim show from_std s request_id b now ≢ t
        → Step t s
            (issue_with_expiry hex_sha256 separator trim show from_std s request_id scope b verdict
              expires_at max_uses now).0
    authorizes :
        (s : Store) (action : Action) (now : ℕ)
        → Step t s (authorize hex_sha256 separator trim show from_std s action now).0
    redeems :
        (s : Store) (token : String) (action : Action) (now : ℕ)
        → Step t s (redeem hex_sha256 separator trim show from_std s token action now).0
    records :
        (s : Store) (request_id : String) (b : ActionBinding) (verdict : ApprovalVerdict)
        (brief : String)
        → Step t s (record_decision s request_id b verdict brief)

  -- Any number of operations
  pub data Steps (t : String) : Store → Store → Type 0 where
    done : (s : Store) → Steps t s s
    next : (s s' s'' : Store) → Step t s s' → Steps t s' s'' → Steps t s s''

  Step-IsSpent :
      (t : String) {s s' : Store} → Step t s s' → IsSpent t s.by_token → IsSpent t s'.by_token
  unfolding issue_with_expiry new_grant note_event push_history authorize redeem redeem_binding
      record_decision
  Step-IsSpent t (issues s request_id scope b verdict expires_at max_uses now h) k =
      enter_grant-IsSpent hex_sha256 separator trim show from_std t s
        (new_grant hex_sha256 separator trim show from_std s request_id scope b verdict expires_at
          max_uses now)
        h k
  Step-IsSpent t (authorizes s action now) k =
      authorize_binding-IsSpent t s (from_action hex_sha256 separator action)
        (session_approval_safe action medium) now k
  Step-IsSpent t (redeems s token action now) k =
      redeem_found-IsSpent t token s (from_action hex_sha256 separator action) now
        (get token s.by_token) k
  Step-IsSpent t (records s request_id b verdict brief) k = k

  Steps-IsSpent :
      (t : String) {s s' : Store} → Steps t s s' → IsSpent t s.by_token → IsSpent t s'.by_token
  Steps-IsSpent t (done s) k = k
  Steps-IsSpent t (next s s' s'' step steps) k = Steps-IsSpent t steps (Step-IsSpent t step k)

  -- A token whose grant has one use and has been redeemed is never redeemed again: after any number
  -- of operations that do not issue the same token anew, `redeem` refuses it as consumed, for every
  -- action and at every time.
  pub redeem-no_replay :
      (s s' : Store) (token : String) (action action' : Action) (now now' : ℕ) (g : ApprovalGrant)
      → (redeem hex_sha256 separator trim show from_std s token action now).1 ≡ granted g
      → g.max_uses ≡ some 1
      → Steps token (redeem hex_sha256 separator trim show from_std s token action now).0 s'
      → (redeem hex_sha256 separator trim show from_std s' token action' now').1 ≡ rejected consumed
  unfolding redeem redeem_binding
  redeem-no_replay s s' token action action' now now' g h m steps =
      redeem_binding-spent s' token (from_action hex_sha256 separator action') now' (
        Steps-IsSpent token steps (
          redeem_found-spends s token (from_action hex_sha256 separator action) now
            (get token s.by_token) g h m))
