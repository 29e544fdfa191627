-- ===== src/Gateway/Failure/Modes.antt =====
-- What the failure matrix of mcp-proxy/src/gateway/failure.rs guarantees.
use sqreen_core.Prelude.{
  ℕ, ◌≡◌, ◌≢◌, ◌↔◌, refl, inl, inr, ap, arith, String, Bool, true, false, not, Option, none, some,
  List, [], ◌∷◌, if◌then◌else◌, one_of, Bool-cases, codes, codes_eq, sym, ◌∙◌, subst, ap₂,
  &&-true_left, &&-true_right, ◌==◌,
}
use sqreen_core.Gateway.Decision.{Decision}
use sqreen_core.Gateway.Posture.{
  FailureMode, fail_open, degrade_safely, fail_closed, EnforcementPosture, development,
  posture_from_env, missing_policy_mode, allows_missing_policy_passthrough,
}
use sqreen_core.Gateway.Failure.{
  Subsystem, SubsystemFailure, FailurePolicy, strict, observe_words, preset, owns_missing_policy,
  policy_from_env, policy_of_token, token_of, mode_for, decide, action_of_mode, forced_decision,
  never_allows_on_inspection_failure, is_exempt,
}

-- Under the strict policy a failure of any subsystem forces a deny.
pub decide-strict : (f : SubsystemFailure) → forced_decision (decide strict f) ≡ some Decision.deny
unfolding decide mode_for action_of_mode forced_decision
decide-strict f = go f.subsystem
  where
    go : (s : Subsystem) → forced_decision (action_of_mode (mode_for strict s)) ≡ some Decision.deny
    go Subsystem.normalization = refl
    go Subsystem.policy_missing = refl
    go Subsystem.policy_engine = refl
    go Subsystem.policy_payload = refl
    go Subsystem.policy_extension = refl
    go Subsystem.risk_scoring = refl
    go Subsystem.dlp_scanner = refl
    go Subsystem.threat_intel = refl
    go Subsystem.approval = refl
    go Subsystem.audit = refl
    go Subsystem.control_plane = refl
    go Subsystem.internal = refl

-- A failure forces no decision exactly where its subsystem's mode is to fail open; otherwise the
-- decision it forces is never an allow.
pub decide-forced_decision :
    (p : FailurePolicy) (f : SubsystemFailure)
    → ((forced_decision (decide p f) ≡ none) ↔ (mode_for p f.subsystem ≡ fail_open))
      × (forced_decision (decide p f) ≢ some Decision.allow)
unfolding decide action_of_mode forced_decision
decide-forced_decision p f = go (mode_for p f.subsystem)
  where
    go :
        (m : FailureMode)
        → ((forced_decision (action_of_mode m) ≡ none) ↔ (m ≡ fail_open))
          × (forced_decision (action_of_mode m) ≢ some Decision.allow)
    go fail_open = ground arith
    go degrade_safely = ground arith
    go fail_closed = ground arith

fails_closed :
    (p : FailurePolicy)
    → never_allows_on_inspection_failure p ≡ true
    → (s : Subsystem) → is_exempt s ≡ false
    → mode_for p s ≢ fail_open
unfolding never_allows_on_inspection_failure mode_for
fails_closed p h Subsystem.normalization e = ground arith
fails_closed p h Subsystem.policy_missing e = ground arith
fails_closed p h Subsystem.policy_engine e = ground arith
fails_closed p h Subsystem.policy_payload e = ground arith
fails_closed p h Subsystem.policy_extension e = ground arith
fails_closed p h Subsystem.risk_scoring e = ground arith
fails_closed p h Subsystem.dlp_scanner e = ground arith
fails_closed p h Subsystem.threat_intel e = ground arith
fails_closed p h Subsystem.approval e = ground arith
fails_closed p h Subsystem.audit e = ground arith
fails_closed p h Subsystem.control_plane e = ground arith
fails_closed p h Subsystem.internal e = ground arith

test_holds :
    (p : FailurePolicy)
    → ((s : Subsystem) → is_exempt s ≡ false → mode_for p s ≢ fail_open)
    → never_allows_on_inspection_failure p ≡ true
unfolding never_allows_on_inspection_failure mode_for
test_holds p h = ground (
  arith,
  h Subsystem.normalization refl,
  h Subsystem.policy_engine refl,
  h Subsystem.policy_payload refl,
  h Subsystem.policy_extension refl,
  h Subsystem.risk_scoring refl,
  h Subsystem.dlp_scanner refl,
  h Subsystem.threat_intel refl,
  h Subsystem.approval refl,
  h Subsystem.internal refl,
)

-- The test holds exactly when no subsystem but the audit trail, the control plane and the missing
-- policy fails open.
pub never_allows_on_inspection_failure-eq_true :
    (p : FailurePolicy)
    → (never_allows_on_inspection_failure p ≡ true)
      ↔ ((s : Subsystem) → is_exempt s ≡ false → mode_for p s ≢ fail_open)
never_allows_on_inspection_failure-eq_true p = (fails_closed p, test_holds p)

never_allows-missing :
    (p : FailurePolicy) (m : FailureMode)
    → never_allows_on_inspection_failure (record p { missing_policy = m })
      ≡ never_allows_on_inspection_failure p
unfolding never_allows_on_inspection_failure mode_for
never_allows-missing p m = refl

codes_eq-eq : (a b : List ℕ) → codes_eq a b ≡ true → a ≡ b
codes_eq-eq [] [] h = refl
codes_eq-eq [] (b ∷ bs) h = ground arith
codes_eq-eq (a ∷ as') [] h = ground arith
codes_eq-eq (a ∷ as') (b ∷ bs) h =
    ap₂ ◌∷◌ (ground (arith, &&-true_left (a == b) (codes_eq as' bs) h))
      (codes_eq-eq as' bs (&&-true_right (a == b) (codes_eq as' bs) h))

Observes : List ℕ → Type 0
unfolding preset owns_missing_policy never_allows_on_inspection_failure mode_for
Observes token =
    (owns_missing_policy token ≡ true) × (never_allows_on_inspection_failure (preset token) ≡ false)

never_allows-observe : (token : List ℕ) → one_of token observe_words ≡ true → Observes token
unfolding Observes preset owns_missing_policy never_allows_on_inspection_failure mode_for
never_allows-observe token h = elim (Bool-cases (codes_eq token (codes "observe"))) [
  | inl e ↦ subst Observes (sym (codes_eq-eq token (codes "observe") e)) (refl, refl)
  | inr e ↦ elim (Bool-cases (codes_eq token (codes "observability"))) [
    | inl e' ↦ subst Observes (sym (codes_eq-eq token (codes "observability") e')) (refl, refl)
    | inr e' ↦
        subst Observes (sym (codes_eq-eq token (codes "monitor") (ground (arith, h, e, e'))))
          (refl, refl)
  ]
]

never_allows-other :
    (token : List ℕ)
    → one_of token observe_words ≡ false
    → never_allows_on_inspection_failure (preset token) ≡ true
unfolding preset never_allows_on_inspection_failure mode_for
never_allows-other token h = ground arith

never_allows-if :
    (b : Bool) (p : FailurePolicy) (m : FailureMode)
    → never_allows_on_inspection_failure (if b then p else record p { missing_policy = m })
      ≡ never_allows_on_inspection_failure p
never_allows-if true p m = refl
never_allows-if false p m = never_allows-missing p m

-- Whatever the two environment variables hold, the failure policy lets a subsystem that inspects an
-- action fail open exactly where the first variable holds one of the three words that ask to
-- observe only.
pub policy_from_env-never_allows :
    (failure_env posture_env : Option String)
    → never_allows_on_inspection_failure (policy_from_env failure_env posture_env)
      ≡ not (one_of (token_of failure_env) ("observe" ∷ "observability" ∷ "monitor" ∷ []))
unfolding policy_from_env policy_of_token Observes
policy_from_env-never_allows failure_env posture_env =
    never_allows-if (owns_missing_policy token) (preset token)
      (missing_policy_mode (posture_from_env posture_env))
    ∙ elim (Bool-cases (one_of token observe_words)) [
      | inl h ↦ (never_allows-observe token h).1 ∙ ap not (sym h)
      | inr h ↦ never_allows-other token h ∙ ap not (sym h)
    ]
  where
    token : List ℕ
    token = token_of failure_env

-- An action passes without a policy, under the policies of `from_env` whose first variable is not
-- set, exactly where the second variable chooses the development posture.
pub policy_from_env-missing :
    (posture_env : Option String)
    → (mode_for (policy_from_env none posture_env) Subsystem.policy_missing ≡ fail_open)
      ↔ (posture_from_env posture_env ≡ development)
unfolding policy_from_env policy_of_token mode_for missing_policy_mode
policy_from_env-missing posture_env = go (posture_from_env posture_env)
  where
    go :
        (p : EnforcementPosture)
        → ((if allows_missing_policy_passthrough p then fail_open else fail_closed) ≡ fail_open)
          ↔ (p ≡ development)
    go development = ground arith
    go EnforcementPosture.enforcing = ground arith
    go EnforcementPosture.managed = ground arith
