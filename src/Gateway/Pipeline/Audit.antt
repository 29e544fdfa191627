-- ===== src/Gateway/Pipeline/Audit.antt =====
-- The audit trail of a run (mcp-proxy/src/gateway/mod.rs): the trace knows whether the sink refused
-- an event.
use sqreen_core.Prelude.{
  ℕ, ◌≡◌, ◌≢◌, refl, arith, ap, String, Bool, true, false, ◌&&◌, ◌||◌, is_some, is_empty, Option,
  none, some, List, [], ◌∷◌, ◌++◌,
}
use sqreen_core.Action.{Action}
use sqreen_core.Gateway.Decision.{Decision, Stage, EvaluationOutcome}
use sqreen_core.Gateway.Failure.{is_closed}
use sqreen_core.Gateway.Pipeline.{
  AuditEvent, event_of, UserDecision, Trace, Gateway, RunState, emit, answered, add_reason, settled,
}

-- Did the sink refuse one of the events, which it was given after those before them?
abbrev pub refused :
    (List AuditEvent → AuditEvent → Option String) → List AuditEvent → List AuditEvent → Bool
refused sink before [] = false
refused sink before (e ∷ es) = is_some (sink before e) || refused sink (before ++ e ∷ []) es

pub refused-is_empty :
    (sink : List AuditEvent → AuditEvent → Option String) (before es : List AuditEvent)
    → refused sink before es ≡ true
    → is_empty es ≡ false
refused-is_empty sink before [] h = ground (arith, h)
refused-is_empty sink before (e ∷ es) h = refl

append-nil : (xs : List AuditEvent) → xs ++ [] ≡ xs
append-nil [] = refl
append-nil (x ∷ xs) = ap (λ ys. x ∷ ys) (append-nil xs)

append-cons :
    (xs : List AuditEvent) (y : AuditEvent) (ys : List AuditEvent)
    → (xs ++ y ∷ []) ++ ys ≡ xs ++ y ∷ ys
append-cons [] y ys = refl
append-cons (x ∷ xs) y ys = ap (λ zs. x ∷ zs) (append-cons xs y ys)

refused-snoc :
    (sink : List AuditEvent → AuditEvent → Option String) (before es : List AuditEvent)
    (e : AuditEvent)
    → refused sink before (es ++ e ∷ [])
      ≡ (refused sink before es || is_some (sink (before ++ es) e))
refused-snoc sink before [] e = ground (arith, ap (λ xs. is_some (sink xs e)) (append-nil before))
refused-snoc sink before (x ∷ es) e = ground (
  arith,
  refused-snoc sink (before ++ x ∷ []) es e,
  ap (λ xs. is_some (sink xs e)) (append-cons before x es),
)

-- The trace knows whether the sink refused an event.
abbrev pub IsTracked : Gateway → RunState → Type 0
IsTracked gw s = s.trace.audit_failed ≡ refused gw.audit [] s.events

-- A run that ends with the outcome: its trace is tracked; a refused event denies where the failure
-- policy closes on it; and there is an event unless the action is allowed.
abbrev pub IsAudited : Gateway → RunState × EvaluationOutcome → Type 0
IsAudited gw (s, o) =
    IsTracked gw s
    × ((s.trace.audit_failed && is_closed gw.failure.audit_error) ≡ true
        → o.decision ≡ Decision.deny)
    × (o.decision ≢ Decision.allow → is_empty s.events ≡ false)

answered-audit_failed :
    (sanitize_detail : String → String) (o : Option String) (trace : Trace)
    → (answered sanitize_detail o trace).audit_failed ≡ (trace.audit_failed || is_some o)
unfolding answered add_reason
answered-audit_failed sanitize_detail none trace = ground arith
answered-audit_failed sanitize_detail (some error) trace = ground arith

pub emit-IsTracked :
    (sanitize_detail : String → String) (gw : Gateway) (s : RunState) (action : Action)
    (stage : Stage) (score : ℕ) (pattern : String) (user_decision : UserDecision)
    (d : Option Decision)
    → IsTracked gw s
    → IsTracked gw (emit sanitize_detail gw s action stage score pattern user_decision d)
unfolding emit
emit-IsTracked sanitize_detail gw s action stage score pattern user_decision d h =
    let event = event_of s.trace action stage score pattern user_decision d in
    ground (
      arith,
      answered-audit_failed sanitize_detail (gw.audit s.events event) s.trace,
      refused-snoc gw.audit [] s.events event,
      h,
    )

snoc-is_empty : (xs : List AuditEvent) (y : AuditEvent) → is_empty (xs ++ y ∷ []) ≡ false
snoc-is_empty [] y = refl
snoc-is_empty (x ∷ xs) y = refl

pub emit-is_empty :
    (sanitize_detail : String → String) (gw : Gateway) (s : RunState) (action : Action)
    (stage : Stage) (score : ℕ) (pattern : String) (user_decision : UserDecision)
    (d : Option Decision)
    → is_empty (emit sanitize_detail gw s action stage score pattern user_decision d).events ≡ false
unfolding emit
emit-is_empty sanitize_detail gw s action stage score pattern user_decision d =
    snoc-is_empty s.events (event_of s.trace action stage score pattern user_decision d)

-- An outcome that `finish` settles, on a trace that is tracked and with an event
pub finish-IsAudited :
    (gw : Gateway) (s : RunState) (o : EvaluationOutcome) (d : Decision)
    → IsTracked gw s
    → is_empty s.events ≡ false
    → o.decision ≡ settled gw.failure s.trace d
    → IsAudited gw (s, o)
unfolding settled
finish-IsAudited gw s o d t n e = (t, (λ c. ground (arith, e, c)), (λ _. n))
