-- ===== src/Gateway/Approval/Outcome.antt =====
-- What an approval engine answers: mcp-proxy/src/gateway/approval/mod.rs.
use sqreen_core.Prelude.{
  ℕ, ◌+◌, ◌*◌, ◌^◌, ◌≡◌, ◌≢◌, refl, arith, ap, sym, String, normalized, one_of, Bool, true, false,
  ◌&&◌, Option, none, some, List, [], ◌∷◌, if◌then◌else◌,
}
use sqreen_core.Gateway.Posture.{FailureMode, fail_open, degrade_safely, fail_closed}
use sqreen_core.Gateway.Decision.{Decision}
use sqreen_core.Gateway.Approval.Grant.{
  ApprovalVerdict, approve_once, deny, approve_for_session, approve_until,
}
use sqreen_core.Gateway.Approval.Context.{ApprovalContext}

-- `ApprovalOutcome`
pub data ApprovalOutcome : Type 0 where
  approved : ApprovalVerdict → ApprovalOutcome
  denied unavailable timed_out : ApprovalOutcome

-- `ApprovalOutcome::is_judgment`
unfoldable pub is_judgment : ApprovalOutcome → Bool
is_judgment (approved _) = true
is_judgment denied = true
is_judgment _ = false

-- `ApprovalOutcome::is_approved`
unfoldable pub is_approved : ApprovalOutcome → Bool
is_approved (approved _) = true
is_approved _ = false

-- What no answer means under the failure mode
unfoldable pub unanswered : FailureMode → Decision
unanswered fail_closed = Decision.deny
unanswered degrade_safely = Decision.require_approval
unanswered fail_open = Decision.require_approval

-- `ApprovalOutcome::as_decision`
unfoldable pub as_decision : ApprovalOutcome → FailureMode → Decision
unfolding unanswered
as_decision (approved _) mode = Decision.allow
as_decision denied mode = Decision.deny
as_decision unavailable mode = unanswered mode
as_decision timed_out mode = unanswered mode

-- `ApprovalOutcome::verdict`
unfoldable pub verdict_of : ApprovalOutcome → Option ApprovalVerdict
verdict_of (approved verdict) = some verdict
verdict_of _ = none

-- `parse_verdict_input`, of the text in lower case; the clock counts nanoseconds
unfoldable pub parse_verdict_token : List ℕ → Bool → Bool → ℕ → ℕ → ApprovalVerdict
parse_verdict_token token session_ok timed_ok ttl_secs now =
    if one_of token ("y" ∷ "yes" ∷ [])
    then approve_once
    else if one_of token ("s" ∷ "session" ∷ []) && session_ok
    then approve_for_session
    else if one_of token ("t" ∷ "timed" ∷ "time" ∷ []) && timed_ok
    then approve_until (now + ttl_secs * 10 ^ 9)
    else deny

-- `parse_verdict_input`
unfoldable pub parse_verdict_input : String → Bool → Bool → ℕ → ℕ → ApprovalVerdict
unfolding parse_verdict_token normalized
parse_verdict_input raw = parse_verdict_token (normalized raw)

-- How the prompt of the terminal ends
pub data Prompt : Type 0 where
  answered : String → Prompt
  broken expired : Prompt

-- `prompt_approval_verdict`, of how the prompt ends
unfoldable pub prompt_approval_verdict : Prompt → Bool → Bool → ℕ → ℕ → Option ApprovalVerdict
unfolding parse_verdict_input
prompt_approval_verdict expired session_ok timed_ok ttl_secs now = some deny
prompt_approval_verdict broken session_ok timed_ok ttl_secs now = none
prompt_approval_verdict (answered raw) session_ok timed_ok ttl_secs now =
    some (parse_verdict_input raw session_ok timed_ok ttl_secs now)

-- The `match` of `TerminalApprovalEngine::request`
unfoldable pub terminal_outcome : Option ApprovalVerdict → ApprovalOutcome
terminal_outcome none = unavailable
terminal_outcome (some deny) = denied
terminal_outcome (some verdict) = approved verdict

-- `TerminalApprovalEngine::request`
unfoldable pub terminal_request : Prompt → ApprovalContext → ℕ → ApprovalOutcome
unfolding terminal_outcome prompt_approval_verdict
terminal_request prompt context now = terminal_outcome (
    prompt_approval_verdict prompt context.session_approval_eligible context.timed_approval_eligible
      context.timed_approval_ttl_secs now)

-- `TimeoutApprovalEngine::request`, of the answer of the inner engine before the deadline, if any
unfoldable pub timeout_request : Option ApprovalOutcome → ApprovalOutcome
timeout_request none = timed_out
timeout_request (some outcome) = outcome

-- Did the operator type one of the words, up to case and the space around it?
abbrev pub Typed : Prompt → List String → Type 0
Typed (answered raw) words = one_of (normalized raw) words ≡ true
Typed broken words = ⊥
Typed expired words = ⊥

-- What an approval with a verdict needs: of the prompt, and of the context at an instant
abbrev pub IsOffered : Prompt → ApprovalContext → ℕ → ApprovalVerdict → Type 0
IsOffered prompt context now approve_once = Typed prompt ("y" ∷ "yes" ∷ [])
IsOffered prompt context now deny = ⊥
IsOffered prompt context now approve_for_session =
    Typed prompt ("s" ∷ "session" ∷ []) × (context.session_approval_eligible ≡ true)
IsOffered prompt context now (approve_until expires_at) =
    Typed prompt ("t" ∷ "timed" ∷ "time" ∷ [])
    × (context.timed_approval_eligible ≡ true)
    × (expires_at ≡ now + context.timed_approval_ttl_secs * 10 ^ 9)

approved-injective : {a b : ApprovalVerdict} → approved a ≡ approved b → a ≡ b
approved-injective h = cc

terminal_outcome-approved :
    (o : Option ApprovalVerdict) (verdict : ApprovalVerdict)
    → terminal_outcome o ≡ approved verdict
    → (o ≡ some verdict) × (verdict ≢ deny)
unfolding terminal_outcome
terminal_outcome-approved none verdict h = ground (arith, h)
terminal_outcome-approved (some approve_once) verdict h =
    let e = approved-injective h in (ap (λ v. some v) e, (λ d. ground (arith, e, d)))
terminal_outcome-approved (some deny) verdict h = ground (arith, h)
terminal_outcome-approved (some approve_for_session) verdict h =
    let e = approved-injective h in (ap (λ v. some v) e, (λ d. ground (arith, e, d)))
terminal_outcome-approved (some (approve_until t)) verdict h =
    let e = approved-injective h in (ap (λ v. some v) e, (λ d. ground (arith, e, d)))

parse_verdict_token-IsOffered :
    (raw : String) (context : ApprovalContext) (now : ℕ) (verdict : ApprovalVerdict)
    → parse_verdict_token
        (normalized raw)
        context.session_approval_eligible
        context.timed_approval_eligible
        context.timed_approval_ttl_secs
        now
      ≡ verdict
    → verdict ≢ deny
    → IsOffered (answered raw) context now verdict
unfolding parse_verdict_token
parse_verdict_token-IsOffered raw context now approve_once h n = ground (arith, h)
parse_verdict_token-IsOffered raw context now deny h n = absurd (n refl)
parse_verdict_token-IsOffered raw context now approve_for_session h n = ground (arith, h)
parse_verdict_token-IsOffered raw context now (approve_until t) h n = ground (arith, h)

some-injective : {a b : ApprovalVerdict} → some a ≡ some b → a ≡ b
some-injective h = cc

-- However the prompt of the terminal ends, it approves only what the operator typed and the context
-- offers: once where the text is `y` or `yes`, for the session where it is `s` or `session` and the
-- action is eligible, and until the end of the context's time where it is `t`, `timed` or `time` and
-- a timed approval is eligible. Another text, a broken prompt and a deadline approve nothing.
pub terminal_request-IsOffered :
    (prompt : Prompt) (context : ApprovalContext) (now : ℕ) (verdict : ApprovalVerdict)
    → terminal_request prompt context now ≡ approved verdict
    → IsOffered prompt context now verdict
unfolding terminal_request prompt_approval_verdict parse_verdict_input
terminal_request-IsOffered expired context now verdict h =
    let (e, n) = terminal_outcome-approved (some deny) verdict h in
    absurd (n (sym (some-injective e)))
terminal_request-IsOffered broken context now verdict h =
    let (e, n) = terminal_outcome-approved none verdict h in ground (arith, e)
terminal_request-IsOffered (answered raw) context now verdict h =
    let (e, n) = terminal_outcome-approved _ verdict h in
    parse_verdict_token-IsOffered raw context now verdict (some-injective e) n
