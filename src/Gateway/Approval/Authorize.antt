-- ===== src/Gateway/Approval/Authorize.antt =====
-- What `authorize` (mcp-proxy/src/gateway/approval/grant.rs) answers with.
use sqreen_core.Prelude.{
  ℕ, ◌≡◌, ◌≢◌, inl, inr, refl, arith, ap, sym, ◌∙◌, subst, String, str_eq, eq_iff, Bool, true,
  false, Option, none, some, List, Bool-cases,
}
use sqreen_core.Scoring.{medium}
use sqreen_core.Action.{Action}
use sqreen_core.Gateway.Approval.Binding.{
  ActionBinding, session_scope_key, from_action, session_approval_safe,
}
use sqreen_core.Gateway.Approval.Maps.{get, insert, get-insert_self, get-insert_ne}
use sqreen_core.Gateway.Approval.Grant.{
  ApprovalScope, exact_action, session_tool, ApprovalGrant, GrantRejectReason, Redemption, granted,
  rejected, GrantAuthorization, authorized, unauthorized, Store,
}
use sqreen_core.Gateway.Approval.Store.{
  authorize, note_event, note_reject, push_history, check_use, used, put_grant, purge_indexes,
  take_checked, take_found, take_use, authorize_noted, authorize_by, authorize_session,
  authorize_binding,
}
use sqreen_core.Gateway.Approval.Live.{IsLive, Granted, take_use-granted}

pub put_grant-by_token :
    (s : Store) (token : String) (g : ApprovalGrant)
    → (put_grant s token g).by_token ≡ insert token g s.by_token
unfolding put_grant purge_indexes
put_grant-by_token s token g = by_cases g.consumed g.scope
  where
    by_cases :
        (c : Bool) (x : ApprovalScope)
        → (put_grant s token (record g { consumed = c; scope = x })).by_token
          ≡ insert token (record g { consumed = c; scope = x }) s.by_token
    by_cases false x = refl
    by_cases true exact_action = refl
    by_cases true session_tool = refl

-- A grant that is not consumed in the second store stood in the first as well.
abbrev Kept : List (String × ApprovalGrant) → List (String × ApprovalGrant) → Type 0
Kept before after =
    (token : String) (old : ApprovalGrant)
    → get token after ≡ some old
    → old.consumed ≡ false
    → get token before ≡ some old

some-injective : {a b : ApprovalGrant} → some a ≡ some b → a ≡ b
some-injective h = cc

-- To replace a grant by one that is consumed keeps the others.
insert-Kept :
    (token : String) (g : ApprovalGrant) (es : List (String × ApprovalGrant))
    → g.consumed ≡ true
    → Kept es (insert token g es)
insert-Kept token g es c other old h u = elim (Bool-cases (str_eq other token)) [
  | inl e ↦
      let same = (eq_iff other token).0 e in
      let found = subst (λ t. get t (insert token g es) ≡ some old) same h in
      absurd (
        ground (
          arith,
          c,
          u,
          ap (λ (x : ApprovalGrant). x.consumed)
              (some-injective (sym (get-insert_self token g es) ∙ found)),
        ))
  | inr e ↦
      sym (get-insert_ne token other g es (λ q. ground (arith, e, (eq_iff other token).1 q))) ∙ h
]

take_checked-Kept :
    (s : Store) (token : String) (g : ApprovalGrant) (o : Option GrantRejectReason)
    → o ≢ none
    → Kept s.by_token (take_checked s token g o).0.by_token
unfolding take_checked
take_checked-Kept s token g none h = absurd (h refl)
take_checked-Kept s token g (some GrantRejectReason.expired) h =
    subst (Kept s.by_token) (sym (put_grant-by_token s token (record g { consumed = true })))
      (insert-Kept token (record g { consumed = true }) s.by_token refl)
take_checked-Kept s token g (some GrantRejectReason.unknown_token) h = λ t old e u. e
take_checked-Kept s token g (some GrantRejectReason.consumed) h = λ t old e u. e
take_checked-Kept s token g (some GrantRejectReason.binding_mismatch) h = λ t old e u. e
take_checked-Kept s token g (some GrantRejectReason.args_tampered) h = λ t old e u. e
take_checked-Kept s token g (some GrantRejectReason.scope_mismatch) h = λ t old e u. e
take_checked-Kept s token g (some GrantRejectReason.session_missing) h = λ t old e u. e

take_found-Kept :
    (s : Store) (token : String) (o : Option ApprovalGrant) (b : ActionBinding) (now : ℕ)
    (scope : ApprovalScope)
    → ((g : ApprovalGrant) → (take_found s token o b now scope).1 ≢ granted g)
    → Kept s.by_token (take_found s token o b now scope).0.by_token
unfolding take_found take_checked
take_found-Kept s token none b now scope h = λ t old e u. e
take_found-Kept s token (some g) b now scope h =
    take_checked-Kept s token g (check_use g b now scope)
      (λ e. h (used g) (ap (λ o. (take_checked s token g o).1) e))

authorize_noted-authorized :
    (token : String) (b : ActionBinding) (s : Store) (r : Redemption) (g : ApprovalGrant)
    → (authorize_noted token b (s, r)).1 ≡ authorized g
    → r ≡ granted g
unfolding authorize_noted
authorize_noted-authorized token b s (granted x) g h = ground (arith, h)
authorize_noted-authorized token b s (rejected reason) g h = ground (arith, h)

authorize_noted-unauthorized :
    (token : String) (b : ActionBinding) (s : Store) (r : Redemption)
    → (authorize_noted token b (s, r)).1 ≡ unauthorized
    → (g : ApprovalGrant) → r ≢ granted g
unfolding authorize_noted
authorize_noted-unauthorized token b s (granted x) h g = ground (arith, h)
authorize_noted-unauthorized token b s (rejected reason) h g = ground arith

authorize_noted-by_token :
    (token : String) (b : ActionBinding) (s : Store) (r : Redemption)
    → (authorize_noted token b (s, r)).0.by_token ≡ s.by_token
unfolding authorize_noted note_event note_reject push_history
authorize_noted-by_token token b s (granted x) = refl
authorize_noted-by_token token b s (rejected reason) = refl

authorize_by-authorized :
    (s : Store) (o : Option String) (b : ActionBinding) (now : ℕ) (scope : ApprovalScope)
    (g : ApprovalGrant)
    → (authorize_by s o b now scope).1 ≡ authorized g
    → (token : String) × Granted s token b now scope g
unfolding authorize_by
authorize_by-authorized s none b now scope g h = ground (arith, h)
authorize_by-authorized s (some token) b now scope g h =
    let p = take_use s token b now scope in
    (token, take_use-granted s token b now scope g (authorize_noted-authorized token b p.0 p.1 g h))

authorize_by-Kept :
    (s : Store) (o : Option String) (b : ActionBinding) (now : ℕ) (scope : ApprovalScope)
    → (authorize_by s o b now scope).1 ≡ unauthorized
    → Kept s.by_token (authorize_by s o b now scope).0.by_token
unfolding authorize_by take_use
authorize_by-Kept s none b now scope h = λ t old e u. e
authorize_by-Kept s (some token) b now scope h =
    let p = take_use s token b now scope in
    subst (Kept s.by_token) (sym (authorize_noted-by_token token b p.0 p.1)) (
      take_found-Kept s token (get token s.by_token) b now scope
        (authorize_noted-unauthorized token b p.0 p.1 h))

-- The grant was live in the store, and a session grant serves only an action that is session-safe.
abbrev pub Authorizes : Store → ActionBinding → Bool → ℕ → ApprovalGrant → Type 0
Authorizes s b safe now g =
    (token : String) × (old : ApprovalGrant) × (get token s.by_token ≡ some old)
    × IsLive old b now
    × (old.scope ≡ session_tool → safe ≡ true)
    × (g ≡ used old)

authorize_session-Authorizes :
    (s : Store) (safe : Bool) (b : ActionBinding) (now : ℕ) (s' : Store) (r : GrantAuthorization)
    (g : ApprovalGrant)
    → ((x : ApprovalGrant)
        → r ≡ authorized x
        → (token : String) × Granted s token b now exact_action x)
    → (r ≡ unauthorized → Kept s.by_token s'.by_token)
    → (authorize_session safe b now (s', r)).1 ≡ authorized g
    → Authorizes s b safe now g
unfolding authorize_session
authorize_session-Authorizes s safe b now s' (authorized x) g h k e =
    let (token, (old, found, scope, live, u)) = h g e in
    (token, old, found, live, (λ q. absurd (ground (arith, q, scope))), u)
authorize_session-Authorizes s false b now s' unauthorized g h k e = ground (arith, e)
authorize_session-Authorizes s true b now s' unauthorized g h k e =
    let (token, (old, found, scope, live, u)) =
      authorize_by-authorized s' (get (session_scope_key b) s'.session_index) b now session_tool g
        e in
    (token, old, k refl token old found live.0, live, (λ q. refl), u)

authorize_binding-Authorizes :
    (s : Store) (b : ActionBinding) (safe : Bool) (now : ℕ) (g : ApprovalGrant)
    → (authorize_binding s b safe now).1 ≡ authorized g
    → Authorizes s b safe now g
unfolding authorize_binding
authorize_binding-Authorizes s b safe now g h =
    let o = get b.fingerprint s.exact_index in
    let p = authorize_by s o b now exact_action in
    authorize_session-Authorizes s safe b now p.0 p.1 g
      (λ x. authorize_by-authorized s o b now exact_action x)
      (authorize_by-Kept s o b now exact_action) h

-- Where `authorize` answers with a grant, that grant is one of the store, with a use counted; it was
-- not consumed and had not expired; it is bound to the action, or to its session and tool; and in
-- the second case the action is safe for session approval.
pub authorize-Authorizes :
    (hex_sha256 : String → String) (separator : String) (trim : String → String) (show : ℕ → String)
    (from_std : ℕ → Option ℕ) (s : Store) (action : Action) (now : ℕ) (g : ApprovalGrant)
    → (authorize hex_sha256 separator trim show from_std s action now).1 ≡ authorized g
    → Authorizes s
        (from_action hex_sha256 separator action)
        (session_approval_safe action medium)
        now
        g
unfolding authorize
authorize-Authorizes hex_sha256 separator trim show from_std s action now g h =
    authorize_binding-Authorizes s (from_action hex_sha256 separator action)
      (session_approval_safe action medium) now g h
