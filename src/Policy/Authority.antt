-- ===== src/Policy/Authority.antt =====
-- The documents and the verdict together: mcp-proxy/src/policy/compile.rs, `compile_layered`, followed
-- by mcp-proxy/src/policy/evaluation.rs.
use sqreen_core.Prelude.{◌≤◌, ◌≡◌, sym, ◌∙◌, subst, Option, List}
use sqreen_core.Host.{Host}
use sqreen_core.Policy.Schema.{PolicyConfig, ok}
use sqreen_core.Policy.Compile.{mandatory_baseline, CompiledRule, CompiledPolicy, compile_rules}
use sqreen_core.Policy.Compile.Trust.{ok-injective}
use sqreen_core.Policy.Compile.Layered.{compile_layered}
use sqreen_core.Policy.Compile.Layers.{compile_layered-mandatory}
use sqreen_core.Policy.Context.{PolicyMatchContext}
use sqreen_core.Policy.Evaluation.{evaluate_policy_with_context}
use sqreen_core.Policy.Evaluation.Baseline.{strictness, evaluate_policy_with_context-no_weaker}

-- If `compile_layered` compiles a baseline, an organization's document and perhaps a local one, then
-- on every action the verdict of the policy is at least as strict as the verdict by the compiled rules
-- of the baseline alone.
pub compile_layered-no_weaker :
    (host : Host) (baseline org : PolicyConfig) (loc : Option PolicyConfig) (p : CompiledPolicy)
    (rules : List CompiledRule) (ctx : PolicyMatchContext)
    → compile_layered host.regex_valid host.trim baseline org loc ≡ ok p
    → compile_rules host.regex_valid mandatory_baseline baseline.rules 0 ≡ ok rules
    → strictness
        (evaluate_policy_with_context host (record p { rules = rules }) ctx).enforced_verdict
      ≤ strictness (evaluate_policy_with_context host p ctx).enforced_verdict
compile_layered-no_weaker host baseline org loc p rules ctx h k =
    subst
      (λ (rs : List CompiledRule).
        strictness
          (evaluate_policy_with_context host (record p { rules = rs }) ctx).enforced_verdict
        ≤ strictness (evaluate_policy_with_context host p ctx).enforced_verdict)
      (ok-injective
        (sym (compile_layered-mandatory host.regex_valid host.trim baseline org loc p h) ∙ k))
      (evaluate_policy_with_context-no_weaker host mandatory_baseline p ctx)
