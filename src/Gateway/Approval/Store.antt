-- ===== src/Gateway/Approval/Store.antt =====
-- The operations of `ApprovalGrantStore`: mcp-proxy/src/gateway/approval/grant.rs. The clock's reading
-- is an argument of each, one for an operation.
use sqreen_core.Prelude.{
  ℕ, ◌*◌, ◌+◌, ◌-◌, ◌%◌, ◌^◌, min, ltb, leb, length, drop, String, ◌&◌, take_chars, str_eq, Bool,
  true, false, not, ◌&&◌, Option, none, some, List, [], ◌∷◌, ◌++◌, if◌then◌else◌,
}
use sqreen_core.Scoring.{medium}
use sqreen_core.Action.{Action}
use sqreen_core.Gateway.Approval.Binding.{
  ActionBinding, from_action, session_scope_key, session_approval_safe,
}
use sqreen_core.Gateway.Approval.Maps.{get, insert, remove}
use sqreen_core.Gateway.Approval.Grant.{
  history_cap, ApprovalScope, exact_action, session_tool, ApprovalVerdict, approve_once, deny,
  approve_for_session, approve_until, ApprovalGrant, GrantRejectReason, unknown_token, expired,
  consumed, binding_mismatch, args_tampered, scope_mismatch, session_missing, Redemption, granted,
  rejected, GrantAuthorization, authorized, unauthorized, ApprovalHistoryEvent, approved, denied,
  grant_issued, grant_consumed, grant_rejected, ApprovalHistoryEntry, Store,
}

-- `push_history`, on the list of entries
unfoldable pub pushed : List ApprovalHistoryEntry → ApprovalHistoryEntry → List ApprovalHistoryEntry
pushed history entry =
    let all = history ++ entry ∷ [] in
    if ltb history_cap (length all) then drop (length all - history_cap) all else all

-- `ApprovalGrantStore::push_history`
unfoldable pub push_history : Store → ApprovalHistoryEntry → Store
unfolding pushed
push_history s entry = record s { history = pushed s.history entry }

-- `note_event`
unfoldable pub note_event :
    Store
    → ApprovalHistoryEvent
    → Option String
    → Option String
    → Option ApprovalScope
    → ActionBinding
    → Store
unfolding push_history
note_event s event request_id token scope binding = push_history s (record {
  event = event;
  request_id = request_id;
  token = token;
  scope = scope;
  binding_fingerprint = some binding.fingerprint;
  args_digest = some binding.args_digest;
  sanitized_brief = none;
})

-- `note_reject_detail`
unfoldable pub note_reject : Store → Option String → ActionBinding → Store
unfolding note_event
note_reject s token binding = note_event s grant_rejected none token none binding

-- `ApprovalGrantStore::record_decision`
unfoldable pub record_decision : Store → String → ActionBinding → ApprovalVerdict → String → Store
unfolding push_history
record_decision s request_id binding verdict brief = push_history s (record {
  event = elim verdict [ deny ↦ denied | _ ↦ approved ];
  request_id = some request_id;
  token = none;
  scope = none;
  binding_fingerprint = some binding.fingerprint;
  args_digest = some binding.args_digest;
  sanitized_brief = some brief;
})

abbrev pub same_scope : ApprovalScope → ApprovalScope → Bool
same_scope exact_action exact_action = true
same_scope session_tool session_tool = true
same_scope _ _ = false

-- The test of the binding in `take_use`, for a grant of one scope
unfoldable pub check_binding :
    ApprovalScope → ApprovalGrant → ActionBinding → Option GrantRejectReason
check_binding exact_action g b =
    if str_eq g.binding.fingerprint b.fingerprint
    then none
    else if not (str_eq g.binding.args_digest b.args_digest)
        && str_eq g.binding.tool_name b.tool_name
        && str_eq g.binding.agent_id b.agent_id
        && str_eq g.binding.session_id b.session_id
    then some args_tampered
    else some binding_mismatch
check_binding session_tool g b =
    if str_eq (session_scope_key g.binding) (session_scope_key b)
    then none
    else some binding_mismatch

-- The tests of `take_use`, in order: why it refuses the grant, if it does
unfoldable pub check_use :
    ApprovalGrant → ActionBinding → ℕ → ApprovalScope → Option GrantRejectReason
unfolding check_binding
check_use g b now scope =
    if not (same_scope g.scope scope)
    then some scope_mismatch
    else if g.consumed
    then some consumed
    else if leb g.expires_at now
    then some expired
    else check_binding g.scope g b

-- `index.get(key).map(|token| token == grant.token).unwrap_or(false)`
abbrev points_to : Option String → String → Bool
points_to none token = false
points_to (some t) token = str_eq t token

-- An index without the entry of the grant
unfoldable pub purged : String → String → List (String × String) → List (String × String)
purged key token index = if points_to (get key index) token then remove key index else index

-- `purge_indexes`
unfoldable pub purge_indexes : Store → ApprovalGrant → Store
unfolding purged
purge_indexes s g = elim g.scope [
  | exact_action ↦ record s { exact_index = purged g.binding.fingerprint g.token s.exact_index }
  | session_tool ↦ record s {
    session_index = purged (session_scope_key g.binding) g.token s.session_index;
  }
]

-- Is the last use taken?
abbrev pub used_up : Option ℕ → ℕ → Bool
used_up none uses = false
used_up (some limit) uses = leb limit uses

-- The grant after a use, by `saturating_add` on a `u32`
unfoldable pub used : ApprovalGrant → ApprovalGrant
used g =
    let uses = min (g.uses + 1) (2 ^ 32 - 1) in
    record g { uses = uses; consumed = if used_up g.max_uses uses then true else g.consumed }

-- The store with the grant of a token replaced, without its entries in the indexes if it is consumed
unfoldable pub put_grant : Store → String → ApprovalGrant → Store
unfolding purge_indexes
put_grant s token g =
    let s' = record s { by_token = insert token g s.by_token } in
    if g.consumed then purge_indexes s' g else s'

-- `take_use`, from the outcome of the tests on
unfoldable pub take_checked :
    Store → String → ApprovalGrant → Option GrantRejectReason → Store × Redemption
unfolding put_grant used
take_checked s token g none = (put_grant s token (used g), granted (used g))
take_checked s token g (some expired) =
    (put_grant s token (record g { consumed = true }), rejected expired)
take_checked s token g (some reason) = (s, rejected reason)

-- `take_use`, from what `get_mut` finds on
unfoldable pub take_found :
    Store → String → Option ApprovalGrant → ActionBinding → ℕ → ApprovalScope → Store × Redemption
unfolding take_checked check_use
take_found s token none b now scope = (s, rejected unknown_token)
take_found s token (some g) b now scope = take_checked s token g (check_use g b now scope)

-- `take_use`
unfoldable pub take_use : Store → String → ActionBinding → ℕ → ApprovalScope → Store × Redemption
unfolding take_found
take_use s token b now scope = take_found s token (get token s.by_token) b now scope

-- `redeem`, from what `take_use` answers on
unfoldable pub redeem_noted :
    String → ActionBinding → ApprovalScope → Store × Redemption → Store × Redemption
unfolding note_event note_reject
redeem_noted token b scope (s, granted g) =
    (note_event s grant_consumed (some g.request_id) (some token) (some scope) b, granted g)
redeem_noted token b scope (s, rejected reason) = (note_reject s (some token) b, rejected reason)

-- `redeem`, from the grant found on
unfoldable pub redeem_found :
    Store → String → ActionBinding → ℕ → Option ApprovalGrant → Store × Redemption
unfolding redeem_noted take_use note_reject
redeem_found s token b now none = (note_reject s none b, rejected unknown_token)
redeem_found s token b now (some g) = redeem_noted token b g.scope (take_use s token b now g.scope)

-- `redeem`, of the binding of the action
unfoldable pub redeem_binding : Store → String → ActionBinding → ℕ → Store × Redemption
unfolding redeem_found
redeem_binding s token b now = redeem_found s token b now (get token s.by_token)

-- One branch of `authorize`, from what `take_use` answers on
unfoldable pub authorize_noted :
    String → ActionBinding → Store × Redemption → Store × GrantAuthorization
unfolding note_event note_reject
authorize_noted token b (s, granted g) =
    (note_event s grant_consumed (some g.request_id) (some g.token) (some g.scope) b, authorized g)
authorize_noted token b (s, rejected reason) = (note_reject s (some token) b, unauthorized)

-- One branch of `authorize`: the grant that an index points to
unfoldable pub authorize_by :
    Store → Option String → ActionBinding → ℕ → ApprovalScope → Store × GrantAuthorization
unfolding authorize_noted take_use
authorize_by s none b now scope = (s, unauthorized)
authorize_by s (some token) b now scope = authorize_noted token b (take_use s token b now scope)

-- The second half of `authorize`
unfoldable pub authorize_session :
    Bool → ActionBinding → ℕ → Store × GrantAuthorization → Store × GrantAuthorization
unfolding authorize_by
authorize_session safe b now (s, authorized g) = (s, authorized g)
authorize_session safe b now (s, unauthorized) =
    if safe
    then authorize_by s (get (session_scope_key b) s.session_index) b now session_tool
    else (s, unauthorized)

-- `authorize`, of the binding of the action and its session safety
unfoldable pub authorize_binding : Store → ActionBinding → Bool → ℕ → Store × GrantAuthorization
unfolding authorize_by authorize_session
authorize_binding s b safe now =
    authorize_session safe b now
      (authorize_by s (get b.fingerprint s.exact_index) b now exact_action)

-- `hex_sha256`, `separator`, `trim` and `show` stand for the digest, the byte 0, `str::trim` and
-- `Display` of an integer, and `from_std` for the conversion of chrono, which may fail.
module _ (hex_sha256 : String → String) (separator : String) (trim : String → String)
    (show : ℕ → String) (from_std : ℕ → Option ℕ) where
  -- `authorize`
  unfoldable pub authorize : Store → Action → ℕ → Store × GrantAuthorization
  unfolding authorize_binding
  authorize s action now =
      authorize_binding s (from_action hex_sha256 separator action)
        (session_approval_safe action medium) now

  -- `redeem`
  unfoldable pub redeem : Store → String → Action → ℕ → Store × Redemption
  unfolding redeem_binding
  redeem s token action now = redeem_binding s token (from_action hex_sha256 separator action) now

  -- The token of `issue_with_expiry`
  unfoldable pub new_token : Store → String → ActionBinding → ℕ → String
  unfolding take_chars
  new_token s request_id b now =
      "apgr_"
      & take_chars 32
          (hex_sha256 (b.fingerprint & ":" & request_id & ":" & show s.seq & ":" & show now))

  -- The grant that `issue_with_expiry` makes
  unfoldable pub new_grant :
      Store
      → String
      → ApprovalScope
      → ActionBinding
      → ApprovalVerdict
      → ℕ
      → Option ℕ
      → ℕ
      → ApprovalGrant
  unfolding new_token
  new_grant s request_id scope b verdict expires_at max_uses now = record {
    token = new_token s request_id b now;
    request_id = request_id;
    scope = scope;
    binding = b;
    issued_at = now;
    expires_at = expires_at;
    max_uses = max_uses;
    uses = 0;
    consumed = false;
    verdict = verdict;
  }

  -- The store of `issue_with_expiry` with the grant in its index and its map
  unfoldable pub enter_grant : Store → ApprovalGrant → Store
  enter_grant s g = elim g.scope [
    | exact_action ↦ record s {
      seq = (s.seq + 1) % 2 ^ 64;
      by_token = insert g.token g s.by_token;
      exact_index = insert g.binding.fingerprint g.token s.exact_index;
    }
    | session_tool ↦ record s {
      seq = (s.seq + 1) % 2 ^ 64;
      by_token = insert g.token g s.by_token;
      session_index = insert (session_scope_key g.binding) g.token s.session_index;
    }
  ]

  -- `issue_with_expiry`
  unfoldable pub issue_with_expiry :
      Store
      → String
      → ApprovalScope
      → ActionBinding
      → ApprovalVerdict
      → ℕ
      → Option ℕ
      → ℕ
      → Store × ApprovalGrant
  unfolding new_grant enter_grant note_event
  issue_with_expiry s request_id scope b verdict expires_at max_uses now =
      let g = new_grant s request_id scope b verdict expires_at max_uses now in
      (note_event (enter_grant s g) grant_issued (some request_id) (some g.token) (some scope) b, g)

  -- `chrono::Duration::from_std(ttl).unwrap_or_else(…)`, in nanoseconds
  abbrev lifetime : Option ℕ → ℕ
  lifetime none = 900 * 10 ^ 9
  lifetime (some d) = d

  -- `issue_inner`
  unfoldable pub issue_inner :
      Store
      → String
      → ApprovalScope
      → ActionBinding
      → ApprovalVerdict
      → ℕ
      → Option ℕ
      → ℕ
      → Store × ApprovalGrant
  unfolding issue_with_expiry
  issue_inner s request_id scope b verdict ttl max_uses now =
      issue_with_expiry s request_id scope b verdict (now + lifetime (from_std ttl)) max_uses now

  -- `issue_once`
  unfoldable pub issue_once : Store → String → ActionBinding → ℕ → ℕ → Store × ApprovalGrant
  unfolding issue_inner
  issue_once s request_id b ttl now =
      issue_inner s request_id exact_action b approve_once ttl (some 1) now

  -- `issue_session`
  unfoldable pub issue_session : Store → String → ActionBinding → ℕ → ℕ → Store × Redemption
  unfolding issue_inner
  issue_session s request_id b ttl now =
      if str_eq (trim b.session_id) ""
      then (s, rejected session_missing)
      else let (s', g) = issue_inner s request_id session_tool b approve_for_session ttl none now in
        (s', granted g)

  -- `issue_until`
  unfoldable pub issue_until : Store → String → ActionBinding → ℕ → ℕ → Store × ApprovalGrant
  unfolding issue_with_expiry
  issue_until s request_id b expires_at now =
      issue_with_expiry s request_id exact_action b (approve_until expires_at) expires_at none now
