-- ===== src/Gateway/Approval/Spent.antt =====
-- No replay, and a bounded history (mcp-proxy/src/gateway/approval/grant.rs): what holds after any
-- sequence of operations of the store.
use sqreen_core.Prelude.{
  ℕ, ◌≡◌, ◌≢◌, inl, inr, refl, arith, ap, sym, ◌∙◌, subst, String, str_eq, eq_iff, Bool, true,
  false, Option, none, some, List, Bool-cases,
}
use sqreen_core.Gateway.Approval.Binding.{ActionBinding, session_scope_key}
use sqreen_core.Gateway.Approval.Maps.{get, insert, get-insert_self, get-insert_ne}
use sqreen_core.Gateway.Approval.Grant.{
  ApprovalScope, exact_action, session_tool, ApprovalGrant, GrantRejectReason, Redemption, granted,
  rejected, GrantAuthorization, authorized, unauthorized, Store,
}
use sqreen_core.Gateway.Approval.Store.{
  push_history, note_event, note_reject, check_use, used, take_checked, take_found, take_use,
  authorize_noted, authorize_by, authorize_session, authorize_binding, redeem_noted, redeem_found,
  enter_grant,
}
use sqreen_core.Gateway.Approval.Live.{check_use-eq_none}
use sqreen_core.Gateway.Approval.Authorize.{put_grant-by_token}

-- The grant of the token is in the map and is consumed.
abbrev pub IsSpent : String → List (String × ApprovalGrant) → Type 0
IsSpent token es = (g : ApprovalGrant) × (get token es ≡ some g) × (g.consumed ≡ true)

insert-IsSpent :
    (token other : String) (g : ApprovalGrant) (es : List (String × ApprovalGrant))
    → (other ≡ token → g.consumed ≡ true)
    → IsSpent token es
    → IsSpent token (insert other g es)
insert-IsSpent token other g es h (x, e, c) = elim (Bool-cases (str_eq token other)) [
  | inl q ↦
      let same = (eq_iff token other).0 q in
      (
        g,
        subst (λ t. get t (insert other g es) ≡ some g) (sym same) (get-insert_self other g es),
        h (sym same),
      )
  | inr q ↦
      (x, get-insert_ne other token g es (λ p. ground (arith, q, (eq_iff token other).1 p)) ∙ e, c)
]

take_checked-IsSpent :
    (s : Store) (token other : String) (g : ApprovalGrant) (o : Option GrantRejectReason)
    → (o ≡ none → other ≢ token)
    → IsSpent token s.by_token
    → IsSpent token (take_checked s other g o).0.by_token
unfolding take_checked
take_checked-IsSpent s token other g none h k =
    subst (IsSpent token) (sym (put_grant-by_token s other (used g)))
      (insert-IsSpent token other (used g) s.by_token (λ p. absurd (h refl p)) k)
take_checked-IsSpent s token other g (some GrantRejectReason.expired) h k =
    subst (IsSpent token) (sym (put_grant-by_token s other (record g { consumed = true })))
      (insert-IsSpent token other (record g { consumed = true }) s.by_token (λ p. refl) k)
take_checked-IsSpent s token other g (some GrantRejectReason.unknown_token) h k = k
take_checked-IsSpent s token other g (some GrantRejectReason.consumed) h k = k
take_checked-IsSpent s token other g (some GrantRejectReason.binding_mismatch) h k = k
take_checked-IsSpent s token other g (some GrantRejectReason.args_tampered) h k = k
take_checked-IsSpent s token other g (some GrantRejectReason.scope_mismatch) h k = k
take_checked-IsSpent s token other g (some GrantRejectReason.session_missing) h k = k

-- A live grant is not the one that is spent.
live-ne :
    (token other : String) (g : ApprovalGrant) (es : List (String × ApprovalGrant))
    → get other es ≡ some g
    → g.consumed ≡ false
    → IsSpent token es
    → other ≢ token
live-ne token other g es e c (x, e', c') p = ground (
  arith,
  c,
  c',
  ap {B = Bool} (λ (o : Option ApprovalGrant). elim o [ none ↦ true | some y ↦ y.consumed ])
      (sym e ∙ ap (λ t. get t es) p ∙ e'),
)

take_found-IsSpent :
    (s : Store) (token other : String) (o : Option ApprovalGrant) (b : ActionBinding) (now : ℕ)
    (scope : ApprovalScope)
    → get other s.by_token ≡ o
    → IsSpent token s.by_token
    → IsSpent token (take_found s other o b now scope).0.by_token
unfolding take_found
take_found-IsSpent s token other none b now scope e k = k
take_found-IsSpent s token other (some g) b now scope e k =
    take_checked-IsSpent s token other g (check_use g b now scope)
      (λ q. live-ne token other g s.by_token e ((check_use-eq_none g b now scope).0 q).1.0 k) k

pub take_use-IsSpent :
    (s : Store) (token other : String) (b : ActionBinding) (now : ℕ) (scope : ApprovalScope)
    → IsSpent token s.by_token
    → IsSpent token (take_use s other b now scope).0.by_token
unfolding take_use
take_use-IsSpent s token other b now scope k =
    take_found-IsSpent s token other (get other s.by_token) b now scope refl k

-- What is the same of all operations: the map stays, but for grants that are spent or new; and the
-- history stays within its bound.
authorize_noted-IsSpent :
    (token other : String) (b : ActionBinding) (s : Store) (r : Redemption)
    → IsSpent token s.by_token
    → IsSpent token (authorize_noted other b (s, r)).0.by_token
unfolding authorize_noted note_event note_reject push_history
authorize_noted-IsSpent token other b s (granted x) k = k
authorize_noted-IsSpent token other b s (rejected reason) k = k

authorize_by-IsSpent :
    (token : String) (s : Store) (o : Option String) (b : ActionBinding) (now : ℕ)
    (scope : ApprovalScope)
    → IsSpent token s.by_token
    → IsSpent token (authorize_by s o b now scope).0.by_token
unfolding authorize_by
authorize_by-IsSpent token s none b now scope k = k
authorize_by-IsSpent token s (some other) b now scope k =
    let p = take_use s other b now scope in
    authorize_noted-IsSpent token other b p.0 p.1 (take_use-IsSpent s token other b now scope k)

authorize_session-IsSpent :
    (token : String) (safe : Bool) (b : ActionBinding) (now : ℕ) (s : Store)
    (r : GrantAuthorization)
    → IsSpent token s.by_token
    → IsSpent token (authorize_session safe b now (s, r)).0.by_token
unfolding authorize_session
authorize_session-IsSpent token safe b now s (authorized g) k = k
authorize_session-IsSpent token false b now s unauthorized k = k
authorize_session-IsSpent token true b now s unauthorized k =
    authorize_by-IsSpent token s (get (session_scope_key b) s.session_index) b now session_tool k

pub authorize_binding-IsSpent :
    (token : String) (s : Store) (b : ActionBinding) (safe : Bool) (now : ℕ)
    → IsSpent token s.by_token
    → IsSpent token (authorize_binding s b safe now).0.by_token
unfolding authorize_binding
authorize_binding-IsSpent token s b safe now k =
    let p = authorize_by s (get b.fingerprint s.exact_index) b now exact_action in
    authorize_session-IsSpent token safe b now p.0 p.1
      (authorize_by-IsSpent token s (get b.fingerprint s.exact_index) b now exact_action k)

redeem_noted-IsSpent :
    (token other : String) (b : ActionBinding) (scope : ApprovalScope) (s : Store) (r : Redemption)
    → IsSpent token s.by_token
    → IsSpent token (redeem_noted other b scope (s, r)).0.by_token
unfolding redeem_noted note_event note_reject push_history
redeem_noted-IsSpent token other b scope s (granted x) k = k
redeem_noted-IsSpent token other b scope s (rejected reason) k = k

pub redeem_found-IsSpent :
    (token other : String) (s : Store) (b : ActionBinding) (now : ℕ) (o : Option ApprovalGrant)
    → IsSpent token s.by_token
    → IsSpent token (redeem_found s other b now o).0.by_token
unfolding redeem_found note_reject note_event push_history
redeem_found-IsSpent token other s b now none k = k
redeem_found-IsSpent token other s b now (some g) k =
    let p = take_use s other b now g.scope in
    redeem_noted-IsSpent token other b g.scope p.0 p.1
      (take_use-IsSpent s token other b now g.scope k)

pub enter_grant-IsSpent :
    (hex_sha256 : String → String) (separator : String) (trim : String → String) (show : ℕ → String)
    (from_std : ℕ → Option ℕ) (token : String) (s : Store) (g : ApprovalGrant)
    → g.token ≢ token
    → IsSpent token s.by_token
    → IsSpent token (enter_grant hex_sha256 separator trim show from_std s g).by_token
unfolding enter_grant
enter_grant-IsSpent hex_sha256 separator trim show from_std token s g h k = by_scope g.scope
  where
    by_scope :
        (scope : ApprovalScope)
        → IsSpent token
            (enter_grant hex_sha256 separator trim show from_std s
              (record g { scope = scope })).by_token
    by_scope exact_action = insert-IsSpent token g.token _ s.by_token (λ p. absurd (h p)) k
    by_scope session_tool = insert-IsSpent token g.token _ s.by_token (λ p. absurd (h p)) k
