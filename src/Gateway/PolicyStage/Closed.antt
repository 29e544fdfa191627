-- ===== src/Gateway/PolicyStage/Closed.antt =====
-- The policy stage (mcp-proxy/src/gateway/policy_stage.rs) and broken controls: an action that it
-- allows has no failure behind it but those that the failure policy opens.
use sqreen_core.Prelude.{
  ℕ, ◌&◌, String, ◌≡◌, ◌≢◌, refl, arith, Bool, true, false, not, Option, none, some, List, [], ◌∷◌,
  ◌++◌, All, if◌then◌else◌, subst, sym,
}
use sqreen_core.Host.{Host}
use sqreen_core.Policy.Compile.{CompiledPolicy}
use sqreen_core.Policy.Context.{PolicyMatchContext}
use sqreen_core.Policy.Evaluation.{PolicyVerdict, PolicyEvaluation, audit_explanation}
use sqreen_core.Gateway.Posture.{
  FailureMode, fail_open, degrade_safely, fail_closed, PolicyAvailability,
}
use sqreen_core.Gateway.Decision.{Decision}
use sqreen_core.Gateway.Failure.{
  Subsystem, SubsystemFailure, FailurePolicy, action_of_mode, mode_for, decide, permits_allow,
  subsystem_failure,
}
use sqreen_core.Gateway.PolicyStage.{
  PolicyAssessment, PolicyStage, WasmDecision, Extended, decided, failed, Caught, returned,
  panicked, act_on, absorb_failure, extended, apply_extension, unconfigured, enforce_verdict,
  broken, audit_only, assess, assess_caught, evaluate, assessment_from_evaluation,
  blocked_by_policy, confirmation_required, redacted, evaluate_detailed, engine_availability,
  policy_version_of,
}

-- The failure policy lets the action pass in spite of the failure.
abbrev pub IsOpen : FailurePolicy → SubsystemFailure → Type 0
IsOpen policy f = mode_for policy f.subsystem ≡ fail_open

-- An assessment that allows has open failures only, one that denies ends the pipeline, and only one
-- that allows rewrites the arguments.
pub record IsCoherent (policy : FailurePolicy) (a : PolicyAssessment) : Type 0 where
  pub open_failures : a.decision ≡ Decision.allow → All (IsOpen policy) a.failures
  pub deny_is_terminal : a.decision ≡ Decision.deny → a.terminal ≡ true
  pub rewrite_is_allowed : a.decision ≢ Decision.allow → a.rewrite ≡ none

All-snoc :
    (P : SubsystemFailure → Type 0) (fs : List SubsystemFailure) (f : SubsystemFailure)
    → All P fs
    → P f
    → All P (fs ++ f ∷ [])
All-snoc P [] f h k = (k, tt)
All-snoc P (x ∷ xs) f h k = (h.0, All-snoc P xs f h.1 k)

module _ (sanitize_detail : String → String) (policy : FailurePolicy) where
  -- To absorb a failure keeps an assessment coherent.
  pub absorb_failure-IsCoherent :
      (f : SubsystemFailure) (a : PolicyAssessment)
      → IsCoherent policy a
      → IsCoherent policy (absorb_failure sanitize_detail f policy a)
  unfolding absorb_failure decide action_of_mode
  absorb_failure-IsCoherent f a h = by_mode (mode_for policy f.subsystem) (λ e. e)
    where
      by_mode :
          (m : FailureMode)
          → (m ≡ fail_open → mode_for policy f.subsystem ≡ fail_open)
          → IsCoherent policy (record (act_on sanitize_detail (action_of_mode m) a) {
            reasons = (absorb_failure sanitize_detail f policy a).reasons;
            failures = a.failures ++ f ∷ [];
          })
      by_mode fail_open e = record {
        open_failures = λ d. All-snoc (IsOpen policy) a.failures f (h.open_failures d) (e refl);
        deny_is_terminal = h.deny_is_terminal;
        rewrite_is_allowed = h.rewrite_is_allowed;
      }
      by_mode degrade_safely e = record {
        open_failures = λ d. ground (arith, d);
        deny_is_terminal = λ d. ground (arith, d);
        rewrite_is_allowed = λ d. refl;
      }
      by_mode fail_closed e = record {
        open_failures = λ d. ground (arith, d);
        deny_is_terminal = λ d. refl;
        rewrite_is_allowed = λ d. refl;
      }

  extended-IsCoherent :
      (tool_name : String) (answer : Extended) (a : PolicyAssessment)
      → a.decision ≡ Decision.allow
      → IsCoherent policy a
      → IsCoherent policy (extended sanitize_detail tool_name policy answer a)
  unfolding extended
  extended-IsCoherent tool_name (decided WasmDecision.allow) a e h = h
  extended-IsCoherent tool_name (decided (WasmDecision.block text)) a e h = record {
    open_failures = λ d. ground (arith, d);
    deny_is_terminal = λ d. refl;
    rewrite_is_allowed = λ d. refl;
  }
  extended-IsCoherent tool_name (decided (WasmDecision.rewrite params)) a e h = record {
    open_failures = λ d. h.open_failures e;
    deny_is_terminal = λ d. refl;
    rewrite_is_allowed = λ d. ground (arith, d);
  }
  extended-IsCoherent tool_name (failed error) a e h = absorb_failure-IsCoherent _ a h

  apply_extension-IsCoherent :
      (stage : PolicyStage) (ctx : PolicyMatchContext) (a : PolicyAssessment)
      → a.decision ≡ Decision.allow
      → IsCoherent policy a
      → IsCoherent policy (apply_extension sanitize_detail stage ctx a policy)
  unfolding apply_extension
  apply_extension-IsCoherent stage ctx a e h = by_extension stage.extension
    where
      by_extension :
          (o : Option (String → String → Extended))
          → IsCoherent policy (elim o [
            | none ↦ a
            | some call ↦
                extended sanitize_detail ctx.tool_name policy
                  (call ctx.tool_name ctx.canonical_arguments)
                  a
          ])
      by_extension none = h
      by_extension (some call) = extended-IsCoherent ctx.tool_name _ a e h

  -- An assessment that allows, with no failure yet.
  clean-IsCoherent :
      (a : PolicyAssessment) → a.decision ≡ Decision.allow → a.failures ≡ [] → IsCoherent policy a
  clean-IsCoherent a e f = record {
    open_failures = λ d. subst (All (IsOpen policy)) (sym f) tt;
    deny_is_terminal = λ d. ground (arith, d, e);
    rewrite_is_allowed = λ d. ground (arith, d, e);
  }

  if-IsCoherent :
      (b : Bool) (x y : PolicyAssessment)
      → (b ≡ true → IsCoherent policy x)
      → (b ≡ false → IsCoherent policy y)
      → IsCoherent policy (if b then x else y)
  if-IsCoherent true x y h k = h refl
  if-IsCoherent false x y h k = k refl

  permits_allow-eq_true : (m : FailureMode) → not (permits_allow m) ≡ false → m ≡ fail_open
  permits_allow-eq_true m h = ground arith

  unconfigured-IsCoherent :
      (stage : PolicyStage) (ctx : PolicyMatchContext) (version : Option String)
      → IsCoherent policy (unconfigured sanitize_detail stage ctx policy version)
  unfolding unconfigured subsystem_failure mode_for
  unconfigured-IsCoherent stage ctx version =
      if-IsCoherent (not (permits_allow policy.missing_policy)) _ _
        (λ e. absorb_failure-IsCoherent _ _ (clean-IsCoherent _ refl refl))
        (λ e. apply_extension-IsCoherent stage ctx _ refl (record {
          open_failures = λ d. (permits_allow-eq_true policy.missing_policy e, tt);
          deny_is_terminal = λ d. ground (arith, d);
          rewrite_is_allowed = λ d. refl;
        }))

module _ (host : Host) (sanitize_detail : String → String)
    (panic_in : CompiledPolicy → PolicyMatchContext → Option String) (utf8_error : List ℕ → String)
    (policy : FailurePolicy) where
  broken-IsCoherent :
      (s : Subsystem) (detail : String) (reported : PolicyAvailability) (version : Option String)
      → IsCoherent policy
          (broken host sanitize_detail panic_in utf8_error s detail reported policy version)
  unfolding broken
  broken-IsCoherent s detail reported version =
      absorb_failure-IsCoherent sanitize_detail policy _ _
        (clean-IsCoherent sanitize_detail policy _ refl refl)

  enforce_verdict-IsCoherent :
      (stage : PolicyStage) (ctx : PolicyMatchContext) (version : Option String)
      (e : PolicyEvaluation) (v : PolicyVerdict)
      → IsCoherent policy
          (enforce_verdict host sanitize_detail panic_in utf8_error stage ctx policy version e v)
  unfolding enforce_verdict assessment_from_evaluation blocked_by_policy confirmation_required
      redacted
  enforce_verdict-IsCoherent stage ctx version e PolicyVerdict.allow =
      apply_extension-IsCoherent sanitize_detail policy stage ctx _ refl
        (clean-IsCoherent sanitize_detail policy _ refl refl)
  enforce_verdict-IsCoherent stage ctx version e (PolicyVerdict.block text rule) = record {
    open_failures = λ d. tt;
    deny_is_terminal = λ d. refl;
    rewrite_is_allowed = λ d. refl;
  }
  enforce_verdict-IsCoherent stage ctx version e (PolicyVerdict.confirm message) = record {
    open_failures = λ d. tt;
    deny_is_terminal = λ d. ground (arith, d);
    rewrite_is_allowed = λ d. refl;
  }
  enforce_verdict-IsCoherent stage ctx version e (PolicyVerdict.unevaluable detail) =
      broken-IsCoherent _ _ _ version
  enforce_verdict-IsCoherent stage ctx version e (PolicyVerdict.redact frame) =
      by_text (host.from_utf8 frame)
    where
      by_text :
          (o : Option String)
          → IsCoherent policy (elim o [
            | some rewritten ↦ record (redacted sanitize_detail ctx.tool_name rewritten version e) {
              policy_availability = engine_availability stage;
            }
            | none ↦
                broken host sanitize_detail panic_in utf8_error Subsystem.policy_engine
                  ("redaction produced non-utf8 params: " & utf8_error frame)
                  PolicyAvailability.invalid
                  policy
                  version
          ])
      by_text none = broken-IsCoherent _ _ _ version
      by_text (some rewritten) = clean-IsCoherent sanitize_detail policy _ refl refl

  assess-IsCoherent :
      (stage : PolicyStage) (ctx : PolicyMatchContext) (version : Option String)
      (e : PolicyEvaluation) (note : Option String)
      → IsCoherent policy
          (assess host sanitize_detail panic_in utf8_error stage ctx policy version e note)
  unfolding assess audit_only assessment_from_evaluation
  assess-IsCoherent stage ctx version e none = enforce_verdict-IsCoherent stage ctx version e _
  assess-IsCoherent stage ctx version e (some note) =
      apply_extension-IsCoherent sanitize_detail policy stage ctx _ refl
        (clean-IsCoherent sanitize_detail policy _ refl refl)

  assess_caught-IsCoherent :
      (stage : PolicyStage) (ctx : PolicyMatchContext) (version : Option String)
      (c : Caught PolicyEvaluation)
      → IsCoherent policy
          (assess_caught host sanitize_detail panic_in utf8_error stage ctx policy version c)
  unfolding assess_caught
  assess_caught-IsCoherent stage ctx version (panicked detail) = broken-IsCoherent _ _ _ version
  assess_caught-IsCoherent stage ctx version (returned e) =
      assess-IsCoherent stage ctx version e (audit_explanation e)

-- Whatever the engine, the extension and the host answer, panics and errors included: where the
-- policy stage allows an action, every failure it reports is of a subsystem that the failure policy
-- lets fail open; where it denies, the pipeline stops; and only where it allows does it rewrite the
-- arguments.
pub evaluate-IsCoherent :
    (host : Host) (sanitize_detail : String → String)
    (panic_in : CompiledPolicy → PolicyMatchContext → Option String) (utf8_error : List ℕ → String)
    (stage : PolicyStage) (ctx : PolicyMatchContext) (policy : FailurePolicy)
    → IsCoherent policy (evaluate host sanitize_detail panic_in utf8_error stage ctx policy)
unfolding evaluate
evaluate-IsCoherent host sanitize_detail panic_in utf8_error stage ctx policy =
    by_engine stage.engine
  where
    by_engine :
        (o : Option CompiledPolicy)
        → IsCoherent policy (elim o [
          | none ↦ unconfigured sanitize_detail stage ctx policy (policy_version_of stage)
          | some engine ↦
              assess_caught host sanitize_detail panic_in utf8_error stage ctx policy
                (policy_version_of stage)
                (evaluate_detailed host sanitize_detail panic_in utf8_error engine ctx)
        ])
    by_engine none = unconfigured-IsCoherent sanitize_detail policy stage ctx _
    by_engine (some engine) =
        assess_caught-IsCoherent host sanitize_detail panic_in utf8_error policy stage ctx _ _
