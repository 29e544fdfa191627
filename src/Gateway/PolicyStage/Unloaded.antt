-- ===== src/Gateway/PolicyStage/Unloaded.antt =====
-- A gateway without a policy, from its environment to the assessment of the policy stage:
-- mcp-proxy/src/gateway/posture.rs, failure.rs and policy_stage.rs.
use sqreen_core.Prelude.{
  ℕ, ◌≡◌, ◌↔◌, refl, arith, ap, sym, subst, String, Bool, true, false, Option, none, some, List, [],
  ◌∷◌, normalized, one_of, if◌then◌else◌,
}
use sqreen_core.Host.{Host}
use sqreen_core.Policy.Compile.{CompiledPolicy}
use sqreen_core.Policy.Context.{PolicyMatchContext}
use sqreen_core.Gateway.Decision.{Decision}
use sqreen_core.Gateway.Posture.{
  FailureMode, fail_open, fail_closed, PolicyAvailability, development, enforcing, managed,
  posture_from_env, missing_policy_mode,
}
use sqreen_core.Gateway.Failure.{
  FailurePolicy, policy_from_env, policy_of_token, preset, owns_missing_policy, default_policy,
  decide, mode_for, action_of_mode, forced_decision,
}
use sqreen_core.Gateway.PolicyStage.{
  PolicyStage, policy_version_of, evaluate, unconfigured, absorb_failure, apply_extension,
}

-- A stage with nothing loaded
abbrev pub empty_stage : PolicyAvailability → PolicyStage
empty_stage availability = record { engine = none; extension = none; availability = availability }

-- Does the variable choose the development posture?
abbrev pub asks_development : Option String → Bool
asks_development none = false
asks_development (some raw) = one_of (normalized raw) ("development" ∷ "dev" ∷ "permissive" ∷ [])

missing-development :
    (posture_env : Option String)
    → missing_policy_mode (posture_from_env posture_env)
      ≡ (if asks_development posture_env then fail_open else fail_closed)
unfolding missing_policy_mode posture_from_env
missing-development none = refl
missing-development (some raw) = by_token (normalized raw)
  where
    by_token :
        (token : List ℕ)
        → missing_policy_mode (
            if one_of token ("" ∷ [])
            then enforcing
            else if one_of token ("development" ∷ "dev" ∷ "permissive" ∷ [])
            then development
            else if one_of token ("enforcing" ∷ "protected" ∷ [])
            then enforcing
            else if one_of token ("managed" ∷ "fleet" ∷ "enterprise" ∷ [])
            then managed
            else enforcing)
          ≡ (if one_of token ("development" ∷ "dev" ∷ "permissive" ∷ [])
              then fail_open
              else fail_closed)
    by_token [] = refl
    by_token (c ∷ cs) = ground arith

default-missing :
    (posture_env : Option String)
    → policy_from_env none posture_env ≡ record default_policy {
      missing_policy = if asks_development posture_env then fail_open else fail_closed;
    }
unfolding policy_from_env policy_of_token preset owns_missing_policy
default-missing posture_env =
    ap (λ (m : FailureMode). record default_policy { missing_policy = m })
      (missing-development posture_env)

by_mode :
    (sanitize_detail : String → String) (availability : PolicyAvailability)
    (ctx : PolicyMatchContext) (version : Option String) (b : Bool)
    → let policy = record default_policy {
      missing_policy = if b then fail_open else fail_closed;
    } in
      let a = unconfigured sanitize_detail (empty_stage availability) ctx policy version in
      ((a.decision ≡ Decision.allow) ↔ (b ≡ true)) × ((a.decision ≡ Decision.deny) ↔ (b ≡ false))
unfolding unconfigured absorb_failure apply_extension decide mode_for action_of_mode forced_decision
by_mode sanitize_detail availability ctx version true = ground arith
by_mode sanitize_detail availability ctx version false = ground arith

-- Where no policy and no extension is loaded and the variable of the failure policy is not set: the
-- policy stage lets an action pass exactly where the variable of the posture holds one of the three
-- words for the development posture, up to case and the space around it, and denies it otherwise.
pub evaluate-unloaded :
    (host : Host) (sanitize_detail : String → String)
    (panic_in : CompiledPolicy → PolicyMatchContext → Option String) (utf8_error : List ℕ → String)
    (availability : PolicyAvailability) (ctx : PolicyMatchContext) (posture_env : Option String)
    → let a =
        evaluate host sanitize_detail panic_in utf8_error
          (empty_stage availability)
          ctx
          (policy_from_env none posture_env) in
      ((a.decision ≡ Decision.allow) ↔ (asks_development posture_env ≡ true))
      × ((a.decision ≡ Decision.deny) ↔ (asks_development posture_env ≡ false))
unfolding evaluate
evaluate-unloaded host sanitize_detail panic_in utf8_error availability ctx posture_env =
    subst
      (λ (policy : FailurePolicy).
        let a =
          evaluate host sanitize_detail panic_in utf8_error (empty_stage availability) ctx policy in
        ((a.decision ≡ Decision.allow) ↔ (asks_development posture_env ≡ true))
        × ((a.decision ≡ Decision.deny) ↔ (asks_development posture_env ≡ false)))
      (sym (default-missing posture_env))
      (by_mode sanitize_detail availability ctx (policy_version_of (empty_stage availability))
        (asks_development posture_env))
