-- ===== src/Gateway/PolicyStage.antt =====
-- The policy stage: mcp-proxy/src/gateway/policy_stage.rs. The declarative engine runs on the
-- context that it builds from the action, which stands for the action here; what the Rust runtime
-- and the Wasm host answer are arguments.
pub mod Closed
pub mod Enforced
pub mod Unloaded
use sqreen_core.Prelude.{
  ℕ, String, ◌&◌, Bool, true, false, not, Option, none, some, List, [], ◌∷◌, ◌++◌, map,
  if◌then◌else◌,
}
use sqreen_core.Host.{Host}
use sqreen_core.Policy.Schema.{PolicyMode, RuleEffect}
use sqreen_core.Policy.Compile.{CompiledPolicy}
use sqreen_core.Policy.Context.{PolicyMatchContext}
use sqreen_core.Policy.Evaluation.{
  BlockedRule, global_block_pattern, tool_block_pattern, MatchedRuleSummary, PolicyVerdict,
  PolicyEvaluation, verdict_for_enforcement, audit_explanation, evaluate_policy_with_context,
}
use sqreen_core.Gateway.Posture.{PolicyAvailability, availability_str}
use sqreen_core.Gateway.Decision.{
  Decision, Stage, ReasonCode, DecisionReason, PolicySource, MatchedPolicy, matched_policy,
}
use sqreen_core.Gateway.Failure.{
  FailureAction, continue, escalate, refuse, Subsystem, SubsystemFailure, FailurePolicy, decide,
  decision_reason, subsystem_failure, to_reason, permits_allow,
}

-- What `catch_stage_panic` returns
pub data Caught {ℓ} (A : Type ℓ) : Type ℓ where
  returned : A → Caught A
  panicked : String → Caught A

-- `WasmDecision`
pub data WasmDecision : Type 0 where
  allow : WasmDecision
  block rewrite : String → WasmDecision

-- What `evaluate_tool_call` returns: a decision, or the text of an error or of a panic
pub data Extended : Type 0 where
  decided : WasmDecision → Extended
  failed : String → Extended

-- `PolicyAssessment`
pub record PolicyAssessment : Type 0 where
  pub decision : Decision
  pub reasons : List DecisionReason
  pub matched_policies : List MatchedPolicy
  pub rewrite : Option String
  pub terminal : Bool
  pub policy_version : Option String
  pub telemetry_marker : Option String
  pub failures : List SubsystemFailure
  pub simulated_decision : Option Decision
  pub policy_availability : PolicyAvailability

-- `PolicyStage`
pub record PolicyStage : Type 0 where
  pub engine : Option CompiledPolicy
  pub extension : Option (String → String → Extended)
  pub availability : PolicyAvailability

-- `PolicyStage::new`
unfoldable pub new_stage : Option CompiledPolicy → Option (String → String → Extended) → PolicyStage
new_stage engine extension = record {
  engine = engine;
  extension = extension;
  availability = elim engine [
    | some _ ↦ PolicyAvailability.available
    | none ↦ PolicyAvailability.missing
  ];
}

-- `PolicyStage::policy_version`
unfoldable pub policy_version_of : PolicyStage → Option String
policy_version_of stage = elim stage.engine [ none ↦ none | some policy ↦ some policy.version ]

-- `PolicyAssessment::proceed`
abbrev pub proceed : Option String → PolicyAssessment
proceed version = record {
  decision = Decision.allow;
  reasons = [];
  matched_policies = [];
  rewrite = none;
  terminal = false;
  policy_version = version;
  telemetry_marker = none;
  failures = [];
  simulated_decision = none;
  policy_availability = PolicyAvailability.available;
}

-- `effect_to_decision`
unfoldable pub effect_to_decision : RuleEffect → Decision
effect_to_decision RuleEffect.deny = Decision.deny
effect_to_decision RuleEffect.require_approval = Decision.require_approval
effect_to_decision RuleEffect.allow = Decision.allow
effect_to_decision RuleEffect.redact = Decision.allow

-- `simulated_decision`
unfoldable pub simulated_decision_of : PolicyVerdict → Decision
simulated_decision_of PolicyVerdict.allow = Decision.allow
simulated_decision_of (PolicyVerdict.redact _) = Decision.allow
simulated_decision_of (PolicyVerdict.block _ _) = Decision.deny
simulated_decision_of (PolicyVerdict.confirm _) = Decision.require_approval
simulated_decision_of (PolicyVerdict.unevaluable _) = Decision.deny

-- The `match` on the rule in `blocked_by_policy`
block_code : BlockedRule → ReasonCode
block_code (global_block_pattern _) = ReasonCode.policy_global_block_pattern
block_code (tool_block_pattern _ _) = ReasonCode.policy_tool_block_pattern
block_code _ = ReasonCode.policy_tool_action_block

-- `assessment_from_evaluation`, whose argument for the verdict the code does not use
unfoldable pub assessment_from_evaluation :
    PolicyEvaluation → PolicyVerdict → Option String → PolicyAssessment
unfolding effect_to_decision
assessment_from_evaluation evaluation _ version = record (proceed version) {
  matched_policies =
      map
        (λ (rule : MatchedRuleSummary).
          record (matched_policy PolicySource.local_policy rule.id
            (effect_to_decision rule.effect)) { version = version })
        evaluation.matched_rules;
}

-- `sanitize_detail` is the masking of texts.
module _ (sanitize_detail : String → String) where
  abbrev reason : Stage → ReasonCode → String → DecisionReason
  unfolding decision_reason
  reason = decision_reason sanitize_detail

  abbrev fails : Subsystem → String → SubsystemFailure
  unfolding subsystem_failure
  fails = subsystem_failure sanitize_detail

  -- The `match` of `absorb_failure` on the action
  abbrev pub act_on : FailureAction → PolicyAssessment → PolicyAssessment
  act_on continue a = a
  act_on escalate a = record a { decision = Decision.require_approval; rewrite = none }
  act_on refuse a = record a {
    decision = Decision.deny;
    terminal = true;
    rewrite = none;
    telemetry_marker = none;
  }

  -- `PolicyAssessment::absorb_failure`
  unfoldable pub absorb_failure :
      SubsystemFailure → FailurePolicy → PolicyAssessment → PolicyAssessment
  unfolding decide to_reason
  absorb_failure f policy a =
      let acted = act_on (decide policy f) a in
      record acted {
        reasons = a.reasons ++ to_reason sanitize_detail f ∷ [];
        failures = a.failures ++ f ∷ [];
      }

  -- `blocked_by_policy`
  unfoldable pub blocked_by_policy :
      String → BlockedRule → Option String → PolicyEvaluation → PolicyAssessment
  unfolding block_code assessment_from_evaluation reason
  blocked_by_policy text rule version evaluation =
      record (assessment_from_evaluation evaluation (PolicyVerdict.block text rule) version) {
        decision = Decision.deny;
        terminal = true;
        reasons = reason Stage.policy (block_code rule) text ∷ [];
      }

  -- `confirmation_required`
  unfoldable pub confirmation_required :
      String → Option String → PolicyEvaluation → PolicyAssessment
  unfolding assessment_from_evaluation reason
  confirmation_required message version evaluation =
      record (assessment_from_evaluation evaluation (PolicyVerdict.confirm message) version) {
        decision = Decision.require_approval;
        terminal = false;
        reasons = reason Stage.policy ReasonCode.policy_confirmation_required message ∷ [];
      }

  -- `redacted`
  unfoldable pub redacted : String → String → Option String → PolicyEvaluation → PolicyAssessment
  unfolding assessment_from_evaluation reason
  redacted tool_name rewritten version evaluation =
      record (assessment_from_evaluation evaluation PolicyVerdict.allow version) {
        decision = Decision.allow;
        terminal = true;
        rewrite = some rewritten;
        telemetry_marker = some "global_redact_keys";
        reasons =
            reason Stage.policy ReasonCode.policy_redaction
              ("global redact keys rewrote arguments for tool `" & tool_name & "`")
            ∷ [];
      }

  -- The `match` of `apply_extension` on what the extension answers
  unfoldable pub extended : String → FailurePolicy → Extended → PolicyAssessment → PolicyAssessment
  unfolding absorb_failure reason fails
  extended tool_name policy (decided WasmDecision.allow) a = a
  extended tool_name policy (decided (WasmDecision.block text)) a = record a {
    decision = Decision.deny;
    terminal = true;
    rewrite = none;
    telemetry_marker = none;
    reasons = a.reasons ++ reason Stage.policy ReasonCode.extension_block ("wasm: " & text) ∷ [];
    matched_policies =
        a.matched_policies
        ++ matched_policy PolicySource.wasm_extension tool_name Decision.deny ∷ [];
  }
  extended tool_name policy (decided (WasmDecision.rewrite params)) a = record a {
    decision = Decision.allow;
    terminal = true;
    rewrite = some params;
    telemetry_marker = some "wasm_rewrite";
    reasons =
        a.reasons
        ++ reason Stage.policy ReasonCode.extension_rewrite
            ("wasm extension rewrote arguments for tool `" & tool_name & "`")
          ∷ [];
    matched_policies =
        a.matched_policies
        ++ matched_policy PolicySource.wasm_extension tool_name Decision.allow ∷ [];
  }
  extended tool_name policy (failed error) a =
      absorb_failure
        (fails Subsystem.policy_extension
          ("extension failed for tool `" & tool_name & "`: " & error))
        policy a

  -- `PolicyStage::apply_extension`
  unfoldable pub apply_extension :
      PolicyStage → PolicyMatchContext → PolicyAssessment → FailurePolicy → PolicyAssessment
  unfolding extended
  apply_extension stage ctx a policy = elim stage.extension [
    | none ↦ a
    | some call ↦ extended ctx.tool_name policy (call ctx.tool_name ctx.canonical_arguments) a
  ]

  -- The state that `unconfigured` reports
  abbrev missing_state : PolicyAvailability → PolicyAvailability
  missing_state PolicyAvailability.available = PolicyAvailability.missing
  missing_state other = other

  -- `PolicyStage::unconfigured`
  unfoldable pub unconfigured :
      PolicyStage → PolicyMatchContext → FailurePolicy → Option String → PolicyAssessment
  unfolding availability_str absorb_failure apply_extension reason fails
  unconfigured stage ctx policy version =
      let state = missing_state stage.availability in
      let detail =
        "policy_unavailable: " & availability_str state & " — no declarative policy is loaded" in
      let start = record (proceed version) { policy_availability = state } in
      if not (permits_allow policy.missing_policy)
      then absorb_failure (fails Subsystem.policy_missing detail) policy start
      else apply_extension stage ctx
          (record start {
            reasons =
                reason Stage.policy ReasonCode.policy_unavailable
                  (detail & " (development posture: FAIL_OPEN — Sqreen is not enforcing a policy)")
                ∷ [];
            failures =
                fails Subsystem.policy_missing
                  "no declarative policy is loaded (development FAIL_OPEN)"
                ∷ [];
          })
          policy

-- `PolicyStage::engine_availability`
unfoldable pub engine_availability : PolicyStage → PolicyAvailability
engine_availability stage = elim stage.availability [
  | PolicyAvailability.stale ↦ PolicyAvailability.stale
  | other ↦ elim stage.engine [ some _ ↦ PolicyAvailability.available | none ↦ other ]
]

-- `panic_in` is the panic, if any, in an evaluation, and `utf8_error` the text of the error of
-- `String::from_utf8`.
module _ (host : Host) (sanitize_detail : String → String)
    (panic_in : CompiledPolicy → PolicyMatchContext → Option String)
    (utf8_error : List ℕ → String) where
  -- `catch_stage_panic(|| engine.evaluate_detailed_with_context(…))`
  unfoldable pub evaluate_detailed : CompiledPolicy → PolicyMatchContext → Caught PolicyEvaluation
  unfolding evaluate_policy_with_context
  evaluate_detailed policy ctx = elim (panic_in policy ctx) [
    | some detail ↦ panicked detail
    | none ↦ returned (evaluate_policy_with_context host policy ctx)
  ]

  -- A failure of the engine or of the payload, absorbed by a fresh assessment
  unfoldable pub broken :
      Subsystem → String → PolicyAvailability → FailurePolicy → Option String → PolicyAssessment
  unfolding absorb_failure subsystem_failure
  broken subsystem detail availability policy version =
      absorb_failure sanitize_detail (subsystem_failure sanitize_detail subsystem detail) policy
        (record (proceed version) { policy_availability = availability })

  -- The `match` of `evaluate` on the verdict
  unfoldable pub enforce_verdict :
      PolicyStage
      → PolicyMatchContext
      → FailurePolicy
      → Option String
      → PolicyEvaluation
      → PolicyVerdict
      → PolicyAssessment
  unfolding apply_extension assessment_from_evaluation blocked_by_policy confirmation_required
      redacted broken engine_availability
  enforce_verdict stage ctx policy version evaluation PolicyVerdict.allow =
      apply_extension sanitize_detail stage ctx
        (record (assessment_from_evaluation evaluation PolicyVerdict.allow version) {
          policy_availability = engine_availability stage;
        })
        policy
  enforce_verdict stage ctx policy version evaluation (PolicyVerdict.block text rule) =
      record (blocked_by_policy sanitize_detail text rule version evaluation) {
        policy_availability = engine_availability stage;
      }
  enforce_verdict stage ctx policy version evaluation (PolicyVerdict.confirm message) =
      record (confirmation_required sanitize_detail message version evaluation) {
        policy_availability = engine_availability stage;
      }
  enforce_verdict stage ctx policy version evaluation (PolicyVerdict.unevaluable detail) =
      broken Subsystem.policy_payload detail (engine_availability stage) policy version
  enforce_verdict stage ctx policy version evaluation (PolicyVerdict.redact frame) =
      elim (host.from_utf8 frame) [
        | some rewritten ↦
            record (redacted sanitize_detail ctx.tool_name rewritten version evaluation) {
              policy_availability = engine_availability stage;
            }
        | none ↦
            broken Subsystem.policy_engine
              ("redaction produced non-utf8 params: " & utf8_error frame) PolicyAvailability.invalid
              policy version
      ]

  -- The branch of `evaluate` for audit mode
  unfoldable pub audit_only :
      PolicyStage
      → PolicyMatchContext
      → FailurePolicy
      → Option String
      → PolicyEvaluation
      → String
      → PolicyAssessment
  unfolding apply_extension assessment_from_evaluation engine_availability simulated_decision_of
      decision_reason verdict_for_enforcement
  audit_only stage ctx policy version evaluation note =
      apply_extension sanitize_detail stage ctx
        (record (assessment_from_evaluation evaluation (verdict_for_enforcement evaluation)
          version) {
            policy_availability = engine_availability stage;
            simulated_decision = some (simulated_decision_of evaluation.enforced_verdict);
            reasons =
                decision_reason sanitize_detail Stage.policy ReasonCode.policy_audit_only note ∷ [];
          })
        policy

  -- `evaluate`, from the evaluation on; `audit_explanation` is `none` outside audit mode
  unfoldable pub assess :
      PolicyStage
      → PolicyMatchContext
      → FailurePolicy
      → Option String
      → PolicyEvaluation
      → Option String
      → PolicyAssessment
  unfolding audit_only enforce_verdict verdict_for_enforcement
  assess stage ctx policy version evaluation (some note) =
      audit_only stage ctx policy version evaluation note
  assess stage ctx policy version evaluation none =
      enforce_verdict stage ctx policy version evaluation (verdict_for_enforcement evaluation)

  -- `PolicyStage::evaluate`, from what the engine returns on
  unfoldable pub assess_caught :
      PolicyStage
      → PolicyMatchContext
      → FailurePolicy
      → Option String
      → Caught PolicyEvaluation
      → PolicyAssessment
  unfolding broken assess audit_explanation
  assess_caught stage ctx policy version (panicked detail) =
      broken Subsystem.policy_engine detail PolicyAvailability.invalid policy version
  assess_caught stage ctx policy version (returned evaluation) =
      assess stage ctx policy version evaluation (audit_explanation evaluation)

  -- `PolicyStage::evaluate`
  unfoldable pub evaluate : PolicyStage → PolicyMatchContext → FailurePolicy → PolicyAssessment
  unfolding policy_version_of unconfigured evaluate_detailed assess_caught
  evaluate stage ctx policy = elim stage.engine [
    | none ↦ unconfigured sanitize_detail stage ctx policy (policy_version_of stage)
    | some engine ↦
        assess_caught stage ctx policy (policy_version_of stage) (evaluate_detailed engine ctx)
  ]
