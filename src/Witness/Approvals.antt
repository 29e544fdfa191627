-- ===== src/Witness/Approvals.antt =====
-- The theorems on approval grants at concrete inputs: a grant for one use, redeemed and tried again,
-- and a grant until an instant.
use sqreen_core.Prelude.{
  ◌&◌, ◌≤◌, length, ℕ, ◌≡◌, ◌↔◌, refl, arith, String, true, false, Option, none, some, [], ◌∷◌,
}
use sqreen_core.Taxonomy.{read, filesystem}
use sqreen_core.Scoring.{medium}
use sqreen_core.Action.{Action, development}
use sqreen_core.Gateway.Approval.Binding.{ActionBinding, from_action, session_approval_safe}
use sqreen_core.Gateway.Approval.Maps.{get, insert}
use sqreen_core.Gateway.Approval.Grant.{
  history_cap, exact_action, approve_once, approve_for_session, approve_until, ApprovalGrant,
  consumed, granted, rejected, authorized, Store,
}
use sqreen_core.Gateway.Approval.Store.{
  issue_until, issue_with_expiry, new_grant, new_token, check_use, used, redeem, redeem_binding,
  redeem_found, redeem_noted, take_use, take_found, take_checked, check_binding, authorize,
  authorize_binding, authorize_by, authorize_session, authorize_noted,
}
use sqreen_core.Gateway.Approval.Live.{IsLive, check_use-eq_none}
use sqreen_core.Gateway.Approval.Authorize.{Authorizes, authorize-Authorizes}
use sqreen_core.Gateway.Approval.Replay.{Steps, Step, redeem-no_replay}
use sqreen_core.Gateway.Approval.Context.{ApprovalContext}
use sqreen_core.Gateway.Approval.Outcome.{
  approved, answered, terminal_request, IsOffered, terminal_request-IsOffered,
}
use sqreen_core.Gateway.Approval.Mint.{
  mint_grants_for_verdict, IsMinted, mint_grants_for_verdict-IsMinted,
}
use sqreen_core.Gateway.Approval.History.{Steps-history}
use sqreen_core.Witness.Data.{same_text}

abbrev show : ℕ → String
show _ = "0"

abbrev from_std : ℕ → Option ℕ
from_std d = some d

abbrev pub action : Action
action = record {
  tool_name = "read_file";
  canonical_params_json = "{}";
  effective_agent_id = "agent-1";
  user_id = none;
  agent_bound_id = some "agent-1";
  agent_trust = "bound";
  device_id = none;
  organization_id = none;
  session_id = some "session-1";
  tier = development;
  resource = none;
  resource_text = none;
  egress = none;
  egress_text = none;
  category = read;
  resources = filesystem ∷ [];
  risk = record {
    destructive = false;
    external_destination = false;
    privileged = false;
    credential_access = false;
    sensitive_data_access = false;
    production = false;
    irreversible = false;
    bulk_operation = false;
  };
}

binding : ActionBinding
unfolding from_action
binding = from_action same_text "|" action

grant : ApprovalGrant
unfolding binding
grant = record {
  token = "apgr_1";
  request_id = "req-1";
  scope = exact_action;
  binding = binding;
  issued_at = 100;
  expires_at = 400;
  max_uses = some 1;
  uses = 0;
  consumed = false;
  verdict = approve_once;
}

store : Store
unfolding grant
store = record {
  seq = 1;
  by_token = ("apgr_1", grant) ∷ [];
  session_index = [];
  exact_index = (binding.fingerprint, "apgr_1") ∷ [];
  history = [];
}

-- The operations, which the examples below run
program : Unit {0}
unfolding binding grant store from_action get insert redeem redeem_binding redeem_found redeem_noted
    take_use take_found take_checked check_use check_binding authorize authorize_binding
    authorize_by authorize_session authorize_noted
program = tt

redeem-granted :
    (redeem same_text "|" same_text show from_std store "apgr_1" action 200).1
    ≡ granted (used grant)
unfolding program
redeem-granted = refl

used-grant : (used grant).max_uses ≡ some 1
unfolding used program
used-grant = refl

authorize-granted :
    (authorize same_text "|" same_text show from_std store action 200).1 ≡ authorized (used grant)
unfolding program
authorize-granted = refl

bounded : length store.history ≤ history_cap
unfolding program
bounded = omega arith

check_use-eq_none_example :
    (check_use grant binding 200 exact_action ≡ none)
    ↔ ((grant.scope ≡ exact_action) × IsLive grant binding 200)
check_use-eq_none_example = check_use-eq_none grant binding 200 exact_action

authorize-Authorizes_example :
    Authorizes store
      (from_action same_text "|" action)
      (session_approval_safe action medium)
      200
      (used grant)
authorize-Authorizes_example =
    authorize-Authorizes same_text "|" same_text show from_std store action 200 (used grant)
      authorize-granted

redeem-no_replay_example :
    (redeem same_text "|" same_text show from_std
      (authorize same_text "|" same_text show from_std
        (redeem same_text "|" same_text show from_std store "apgr_1" action 200).0
        action
        210).0
      "apgr_1"
      action
      220).1
    ≡ rejected consumed
redeem-no_replay_example =
    redeem-no_replay same_text "|" same_text show from_std store
      (authorize same_text "|" same_text show from_std
        (redeem same_text "|" same_text show from_std store "apgr_1" action 200).0 action 210).0
      "apgr_1" action action 200 220 (used grant) redeem-granted used-grant
      (Steps.next (redeem same_text "|" same_text show from_std store "apgr_1" action 200).0
        (authorize same_text "|" same_text show from_std
          (redeem same_text "|" same_text show from_std store "apgr_1" action 200).0 action 210).0
        (authorize same_text "|" same_text show from_std
          (redeem same_text "|" same_text show from_std store "apgr_1" action 200).0 action 210).0
        (Step.authorizes (redeem same_text "|" same_text show from_std store "apgr_1" action 200).0
          action 210)
        (Steps.done
          (authorize same_text "|" same_text show from_std
            (redeem same_text "|" same_text show from_std store "apgr_1" action 200).0 action
            210).0))

Steps-history_example :
    length
      (authorize same_text "|" same_text show from_std
        (redeem same_text "|" same_text show from_std store "apgr_1" action 200).0
        action
        210).0.history
    ≤ history_cap
Steps-history_example = Steps-history same_text "|" same_text show from_std "other" bounded (
    Steps.next store (redeem same_text "|" same_text show from_std store "apgr_1" action 200).0
      (authorize same_text "|" same_text show from_std
        (redeem same_text "|" same_text show from_std store "apgr_1" action 200).0 action 210).0
      (Step.redeems store "apgr_1" action 200)
      (Steps.next (redeem same_text "|" same_text show from_std store "apgr_1" action 200).0
        (authorize same_text "|" same_text show from_std
          (redeem same_text "|" same_text show from_std store "apgr_1" action 200).0 action 210).0
        (authorize same_text "|" same_text show from_std
          (redeem same_text "|" same_text show from_std store "apgr_1" action 200).0 action 210).0
        (Step.authorizes (redeem same_text "|" same_text show from_std store "apgr_1" action 200).0
          action 210)
        (Steps.done
          (authorize same_text "|" same_text show from_std
            (redeem same_text "|" same_text show from_std store "apgr_1" action 200).0 action
            210).0)))

context : ApprovalContext
unfolding binding
context = record {
  request_id = "req-2";
  requesting_agent = "agent-1";
  delegated_user = none;
  action = "read_file";
  action_category = "read";
  target_resource = none;
  environment = "development";
  risk_level = medium;
  risk_score = 30;
  risk_reasons = [];
  matched_policies = [];
  destination = none;
  sanitized_arguments = "{}";
  timed_approval_ttl_secs = 900;
  binding = binding;
  session_approval_eligible = false;
  timed_approval_eligible = true;
}

minted : ApprovalGrant
unfolding binding
minted = record {
  token = "apgr_" & "sqreen.approval.v2|read_file|{}|";
  request_id = "req-2";
  scope = exact_action;
  binding = binding;
  issued_at = 300;
  expires_at = 900;
  max_uses = none;
  uses = 0;
  consumed = false;
  verdict = approve_until 900;
}

mint-minted :
    (mint_grants_for_verdict same_text "|" same_text show from_std store context
      (approve_until 900)
      300).1
    ≡ some minted
unfolding program context minted mint_grants_for_verdict issue_until issue_with_expiry new_grant
    new_token
mint-minted = refl

mint_grants_for_verdict-IsMinted_example :
    IsMinted same_text "|" same_text show from_std context (approve_until 900) minted
mint_grants_for_verdict-IsMinted_example =
    mint_grants_for_verdict-IsMinted same_text "|" same_text show from_std store context
      (approve_until 900) 300 minted mint-minted

session_context : ApprovalContext
unfolding context
session_context = record context { session_approval_eligible = true }

answered_session :
    terminal_request (answered " Session") session_context 50 ≡ approved approve_for_session
unfolding session_context terminal_request
answered_session = refl

terminal_request-IsOffered_example :
    IsOffered (answered " Session") session_context 50 approve_for_session
terminal_request-IsOffered_example =
    terminal_request-IsOffered (answered " Session") session_context 50 approve_for_session
      answered_session
