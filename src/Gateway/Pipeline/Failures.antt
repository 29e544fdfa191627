-- ===== src/Gateway/Pipeline/Failures.antt =====
-- What the failures of a stage come to: `AgentExecutionGateway::report_failures` of
-- mcp-proxy/src/gateway/mod.rs, by the matrix of mcp-proxy/src/gateway/failure.rs.
use sqreen_core.Prelude.{
  ℕ, ◌≡◌, ◌↔◌, ◌⊎◌, inl, inr, refl, arith, ap, ◌∙◌, sym, String, Option, none, some, List, [], ◌∷◌,
  ◌++◌, map, All,
}
use mathlib.Core.List.{append-nil}
use sqreen_core.Action.{Action}
use sqreen_core.Gateway.Decision.{Decision}
use sqreen_core.Gateway.Posture.{FailureMode, fail_open, degrade_safely, fail_closed}
use sqreen_core.Gateway.Failure.{
  FailurePolicy, SubsystemFailure, FailureAction, continue, refuse, mode_for, decide, severest,
  forced_decision, action_of_mode,
}
use sqreen_core.Gateway.Pipeline.{
  AuditEvent, Gateway, RunState, emit, event_of, report_one, report_from, report_failures,
}

-- The decision of the event of a failure, by the mode of its subsystem
abbrev pub decision_of : FailureMode → Option Decision
decision_of fail_open = none
decision_of degrade_safely = some Decision.require_approval
decision_of fail_closed = some Decision.deny

-- One of the failures is of a subsystem that fails closed.
abbrev pub HasClosed : FailurePolicy → List SubsystemFailure → Type 0
HasClosed policy [] = ⊥
HasClosed policy (f ∷ fs) = (mode_for policy f.subsystem ≡ fail_closed) ⊎ HasClosed policy fs

-- All the failures are of subsystems that fail open.
abbrev pub AllOpen : FailurePolicy → List SubsystemFailure → Type 0
AllOpen policy fs = All (λ (f : SubsystemFailure). mode_for policy f.subsystem ≡ fail_open) fs

abbrev pub decisions : List AuditEvent → List (Option Decision)
decisions = map (λ (e : AuditEvent). e.decision)

abbrev pub expected : FailurePolicy → List SubsystemFailure → List (Option Decision)
expected policy = map (λ (f : SubsystemFailure). decision_of (mode_for policy f.subsystem))

decide-refuse :
    (policy : FailurePolicy) (f : SubsystemFailure) (worst : FailureAction)
    → (severest worst (decide policy f) ≡ refuse)
      ↔ ((worst ≡ refuse) ⊎ (mode_for policy f.subsystem ≡ fail_closed))
unfolding decide severest action_of_mode
decide-refuse policy f worst = by_mode (mode_for policy f.subsystem) worst
  where
    by_mode :
        (m : FailureMode) (worst : FailureAction)
        → (severest worst (action_of_mode m) ≡ refuse) ↔ ((worst ≡ refuse) ⊎ (m ≡ fail_closed))
    by_mode m worst = ground arith

decide-continue :
    (policy : FailurePolicy) (f : SubsystemFailure) (worst : FailureAction)
    → (severest worst (decide policy f) ≡ continue)
      ↔ ((worst ≡ continue) × (mode_for policy f.subsystem ≡ fail_open))
unfolding decide severest action_of_mode
decide-continue policy f worst = by_mode (mode_for policy f.subsystem) worst
  where
    by_mode :
        (m : FailureMode) (worst : FailureAction)
        → (severest worst (action_of_mode m) ≡ continue) ↔ ((worst ≡ continue) × (m ≡ fail_open))
    by_mode m worst = ground arith

decide-decision :
    (policy : FailurePolicy) (f : SubsystemFailure)
    → forced_decision (decide policy f) ≡ decision_of (mode_for policy f.subsystem)
unfolding decide forced_decision action_of_mode
decide-decision policy f = by_mode (mode_for policy f.subsystem)
  where
    by_mode : (m : FailureMode) → forced_decision (action_of_mode m) ≡ decision_of m
    by_mode fail_open = refl
    by_mode degrade_safely = refl
    by_mode fail_closed = refl

-- An equivalence with a sum, put before another
regroup : {A B C D E : Type 0} → (B ↔ (C ⊎ D)) → (A ↔ (B ⊎ E)) → A ↔ (C ⊎ (D ⊎ E))
regroup {A} {B} {C} {D} {E} here rest = ((λ h. out (rest.0 h)), (λ h. rest.1 (back h)))
  where
    out : B ⊎ E → C ⊎ (D ⊎ E)
    out (inl b) = elim (here.0 b) [ inl c ↦ inl c | inr d ↦ inr (inl d) ]
    out (inr e) = inr (inr e)

    back : C ⊎ (D ⊎ E) → B ⊎ E
    back (inl c) = inl (here.1 (inl c))
    back (inr (inl d)) = inl (here.1 (inr d))
    back (inr (inr e)) = inr e

module _ (sanitize_detail : String → String) (gw : Gateway) (action : Action) (score : ℕ) where
  report_from-refuse :
      (fs : List SubsystemFailure) (s : RunState) (worst : FailureAction)
      → ((report_from sanitize_detail gw action score fs s worst).1 ≡ refuse)
        ↔ ((worst ≡ refuse) ⊎ HasClosed gw.failure fs)
  unfolding report_from
  report_from-refuse [] s worst = ((λ h. inl h), (λ h. no_more h))
    where
      no_more : (worst ≡ refuse) ⊎ HasClosed gw.failure [] → worst ≡ refuse
      no_more (inl h) = h
      no_more (inr h) = elim h [ ]
  report_from-refuse (f ∷ fs) s worst = regroup (decide-refuse gw.failure f worst) (
      report_from-refuse fs (report_one sanitize_detail gw action score s f)
        (severest worst (decide gw.failure f)))

  report_from-continue :
      (fs : List SubsystemFailure) (s : RunState) (worst : FailureAction)
      → ((report_from sanitize_detail gw action score fs s worst).1 ≡ continue)
        ↔ ((worst ≡ continue) × AllOpen gw.failure fs)
  unfolding report_from
  report_from-continue [] s worst = ((λ h. (h, tt)), (λ h. h.0))
  report_from-continue (f ∷ fs) s worst =
      let rest =
        report_from-continue fs (report_one sanitize_detail gw action score s f)
          (severest worst (decide gw.failure f)) in
      let here = decide-continue gw.failure f worst in
      (
        (λ h. let k = here.0 (rest.0 h).0 in (k.0, (k.1, (rest.0 h).1))),
        (λ h. rest.1 (here.1 (h.0, h.1.0), h.1.1)),
      )

  decisions-append :
      (es : List AuditEvent) (e : AuditEvent)
      → decisions (es ++ e ∷ []) ≡ decisions es ++ e.decision ∷ []
  decisions-append [] e = refl
  decisions-append (x ∷ es) e = ap (λ l. x.decision ∷ l) (decisions-append es e)

  append-cons :
      (xs : List (Option Decision)) (y : Option Decision) (ys : List (Option Decision))
      → (xs ++ y ∷ []) ++ ys ≡ xs ++ y ∷ ys
  append-cons [] y ys = refl
  append-cons (x ∷ xs) y ys = ap (λ zs. x ∷ zs) (append-cons xs y ys)

  report_one-decision :
      (s : RunState) (f : SubsystemFailure)
      → decisions (report_one sanitize_detail gw action score s f).events
        ≡ decisions s.events ++ decision_of (mode_for gw.failure f.subsystem) ∷ []
  unfolding report_one emit event_of
  report_one-decision s f =
      decisions-append s.events _
      ∙ ap (λ (d : Option Decision). decisions s.events ++ d ∷ []) (decide-decision gw.failure f)

  report_from-decisions :
      (fs : List SubsystemFailure) (s : RunState) (worst : FailureAction)
      → decisions (report_from sanitize_detail gw action score fs s worst).0.events
        ≡ decisions s.events ++ expected gw.failure fs
  unfolding report_from
  report_from-decisions [] s worst = sym (append-nil (decisions s.events))
  report_from-decisions (f ∷ fs) s worst =
      report_from-decisions fs (report_one sanitize_detail gw action score s f)
        (severest worst (decide gw.failure f))
      ∙ ap (λ (l : List (Option Decision)). l ++ expected gw.failure fs) (report_one-decision s f)
      ∙ append-cons (decisions s.events) (decision_of (mode_for gw.failure f.subsystem))
          (expected gw.failure fs)

  -- The failures of a stage refuse the action exactly where one is of a subsystem that fails closed,
  -- and let it go on exactly where all are of subsystems that fail open. Each leaves one event, in
  -- order, which denies where its subsystem fails closed, asks for an approval where it degrades, and
  -- decides nothing where it fails open.
  pub report_failures-severest :
      (s : RunState) (fs : List SubsystemFailure)
      → (((report_failures sanitize_detail gw action score s fs).1 ≡ refuse)
          ↔ HasClosed gw.failure fs)
        × (((report_failures sanitize_detail gw action score s fs).1 ≡ continue)
            ↔ AllOpen gw.failure fs)
        × (decisions (report_failures sanitize_detail gw action score s fs).0.events
            ≡ decisions s.events ++ expected gw.failure fs)
  unfolding report_failures
  report_failures-severest s fs =
      let r = report_from-refuse fs s continue in
      let c = report_from-continue fs s continue in
      (
        ((λ h. pick (r.0 h)), (λ h. r.1 (inr h))),
        ((λ h. (c.0 h).1), (λ h. c.1 (refl, h))),
        report_from-decisions fs s continue,
      )
    where
      pick : (continue ≡ refuse) ⊎ HasClosed gw.failure fs → HasClosed gw.failure fs
      pick (inl e) = ground arith
      pick (inr h) = h
