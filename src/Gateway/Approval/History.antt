-- ===== src/Gateway/Approval/History.antt =====
-- The bound of the history of the store of mcp-proxy/src/gateway/approval/grant.rs.
use sqreen_core.Prelude.{
  ℕ, ◌-◌, ◌≤◌, ltb, arith, String, Bool, true, false, Option, none, some, List, [], ◌∷◌, ◌++◌,
  length, drop, length-drop, if◌then◌else◌,
}
use sqreen_core.Scoring.{medium}
use sqreen_core.Gateway.Approval.Binding.{
  ActionBinding, session_scope_key, from_action, session_approval_safe,
}
use sqreen_core.Gateway.Approval.Maps.{get}
use sqreen_core.Gateway.Approval.Grant.{
  history_cap, ApprovalScope, exact_action, session_tool, ApprovalGrant, Redemption, granted,
  rejected, GrantAuthorization, authorized, unauthorized, ApprovalHistoryEntry,
  ApprovalHistoryEvent, grant_issued, Store,
}
use sqreen_core.Gateway.Approval.Store.{
  pushed, push_history, note_event, note_reject, record_decision, take_use, authorize_noted,
  authorize_by, authorize_session, authorize_binding, authorize, redeem_noted, redeem_found,
  redeem_binding, redeem, issue_with_expiry, enter_grant, new_grant, new_token,
}
use sqreen_core.Gateway.Approval.Replay.{Step, Steps}

-- The history is within its bound.
abbrev IsBounded : Store → Type 0
IsBounded s = length s.history ≤ history_cap

-- A history stays within its bound when an entry is pushed, whatever it was before.
capped :
    (all : List ApprovalHistoryEntry)
    → length (if ltb history_cap (length all) then drop (length all - history_cap) all else all)
      ≤ history_cap
capped all = ground (arith, length-drop (length all - history_cap) all)

push_history-IsBounded : (s : Store) (e : ApprovalHistoryEntry) → IsBounded (push_history s e)
unfolding push_history pushed
push_history-IsBounded s e = capped (s.history ++ e ∷ [])

note_event-IsBounded :
    (s : Store) (event : ApprovalHistoryEvent) (request_id token : Option String)
    (scope : Option ApprovalScope) (b : ActionBinding)
    → IsBounded (note_event s event request_id token scope b)
unfolding note_event
note_event-IsBounded s event request_id token scope b = push_history-IsBounded s _

authorize_noted-IsBounded :
    (token : String) (b : ActionBinding) (s : Store) (r : Redemption)
    → IsBounded (authorize_noted token b (s, r)).0
unfolding authorize_noted note_event note_reject
authorize_noted-IsBounded token b s (granted g) = push_history-IsBounded s _
authorize_noted-IsBounded token b s (rejected reason) = push_history-IsBounded s _

authorize_by-IsBounded :
    (s : Store) (o : Option String) (b : ActionBinding) (now : ℕ) (scope : ApprovalScope)
    → IsBounded s
    → IsBounded (authorize_by s o b now scope).0
unfolding authorize_by
authorize_by-IsBounded s none b now scope h = h
authorize_by-IsBounded s (some token) b now scope h =
    let p = take_use s token b now scope in authorize_noted-IsBounded token b p.0 p.1

authorize_session-IsBounded :
    (safe : Bool) (b : ActionBinding) (now : ℕ) (s : Store) (r : GrantAuthorization)
    → IsBounded s
    → IsBounded (authorize_session safe b now (s, r)).0
unfolding authorize_session
authorize_session-IsBounded safe b now s (authorized g) h = h
authorize_session-IsBounded false b now s unauthorized h = h
authorize_session-IsBounded true b now s unauthorized h =
    authorize_by-IsBounded s (get (session_scope_key b) s.session_index) b now session_tool h

authorize_binding-IsBounded :
    (s : Store) (b : ActionBinding) (safe : Bool) (now : ℕ)
    → IsBounded s
    → IsBounded (authorize_binding s b safe now).0
unfolding authorize_binding
authorize_binding-IsBounded s b safe now h =
    let p = authorize_by s (get b.fingerprint s.exact_index) b now exact_action in
    authorize_session-IsBounded safe b now p.0 p.1
      (authorize_by-IsBounded s (get b.fingerprint s.exact_index) b now exact_action h)

redeem_noted-IsBounded :
    (token : String) (b : ActionBinding) (scope : ApprovalScope) (s : Store) (r : Redemption)
    → IsBounded (redeem_noted token b scope (s, r)).0
unfolding redeem_noted note_event note_reject
redeem_noted-IsBounded token b scope s (granted g) = push_history-IsBounded s _
redeem_noted-IsBounded token b scope s (rejected reason) = push_history-IsBounded s _

redeem_found-IsBounded :
    (s : Store) (token : String) (b : ActionBinding) (now : ℕ) (o : Option ApprovalGrant)
    → IsBounded (redeem_found s token b now o).0
unfolding redeem_found note_reject note_event
redeem_found-IsBounded s token b now none = push_history-IsBounded s _
redeem_found-IsBounded s token b now (some g) =
    let p = take_use s token b now g.scope in redeem_noted-IsBounded token b g.scope p.0 p.1

module _ (hex_sha256 : String → String) (separator : String) (trim : String → String)
    (show : ℕ → String) (from_std : ℕ → Option ℕ) (t : String) where
  Step-IsBounded :
      {s s' : Store}
      → Step hex_sha256 separator trim show from_std t s s'
      → IsBounded s
      → IsBounded s'
  unfolding authorize redeem redeem_binding issue_with_expiry new_grant record_decision
  Step-IsBounded (Step.issues s request_id scope b verdict expires_at max_uses now h) k =
      note_event-IsBounded
        (enter_grant hex_sha256 separator trim show from_std s (
          new_grant hex_sha256 separator trim show from_std s request_id scope b verdict expires_at
            max_uses now))
        grant_issued (some request_id)
        (some (new_token hex_sha256 separator trim show from_std s request_id b now)) (some scope) b
  Step-IsBounded (Step.authorizes s action now) k =
      authorize_binding-IsBounded s (from_action hex_sha256 separator action)
        (session_approval_safe action medium) now k
  Step-IsBounded (Step.redeems s token action now) k =
      redeem_found-IsBounded s token (from_action hex_sha256 separator action) now
        (get token s.by_token)
  Step-IsBounded (Step.records s request_id b verdict brief) k = push_history-IsBounded s _

  -- From a store whose history has at most 2048 entries, every sequence of operations leads to one
  -- whose history has at most 2048.
  pub Steps-history :
      {s s' : Store}
      → length s.history ≤ history_cap
      → Steps hex_sha256 separator trim show from_std t s s'
      → length s'.history ≤ history_cap
  Steps-history h (Steps.done s) = h
  Steps-history h (Steps.next s s' s'' step steps) = Steps-history (Step-IsBounded step h) steps
