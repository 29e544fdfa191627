-- ===== src/Policy/Compile/Layered.antt =====
-- The entry points of mcp-proxy/src/policy/compile.rs: one document, or the layers of trust.
use sqreen_core.Prelude.{String, Bool, Option, none, some, List, []}
use sqreen_core.Policy.Schema.{PolicyRule, PolicyConfig, Fallible, ok, ◌>>=◌, ◌>>◌}
use sqreen_core.Policy.Validate.{validate_config}
use sqreen_core.Policy.Compose.{overlay_globals_and_tools}
use sqreen_core.Policy.Compose.Tools.{set_of}
use sqreen_core.Policy.Compile.{
  PolicyTrustLayer, mandatory_baseline, organization, local, CompiledRule, CompiledPolicy, Compiler,
  ◌>>>◌, compile_rules, append_legacy_rules, append_all_rules,
}

-- The `CompiledPolicy` that both entry points build
unfoldable pub compiled_policy : PolicyConfig → List CompiledRule → CompiledPolicy
compiled_policy c rules = record {
  version = c.version;
  schema_version = c.schema_version;
  mode = c.mode;
  rules = rules;
  redact_keys = set_of c.global.redact_keys;
  risk_threshold = c.global.risk_threshold;
}

-- The rules of a local document, if there is one
abbrev pub local_rules : Option PolicyConfig → List PolicyRule
local_rules none = []
local_rules (some c) = c.rules

module _ (regex_valid : String → Bool) (trim : String → String) where
  -- `validate_config` of a local document, if there is one
  abbrev pub validate_local : Option PolicyConfig → Fallible (Unit {0})
  validate_local none = ok tt
  validate_local (some c) = validate_config trim c

  -- `compile_config_with_layer`
  unfoldable pub compile_config_with_layer :
      PolicyConfig → PolicyTrustLayer → Fallible CompiledPolicy
  unfolding compiled_policy
  compile_config_with_layer config layer = do
    validate_config trim config
    rules ← append_all_rules regex_valid layer config 0
    ok (compiled_policy config rules)

  -- The rules that `compile_layered` pushes, in order
  unfoldable pub layered_rules : PolicyConfig → PolicyConfig → Option PolicyConfig → Compiler
  layered_rules baseline org loc =
      compile_rules regex_valid mandatory_baseline baseline.rules
      >>> compile_rules regex_valid organization org.rules
      >>> compile_rules regex_valid local (local_rules loc)
      >>> append_legacy_rules regex_valid organization (overlay_globals_and_tools baseline org loc)

  -- `compile_layered`, over the mandatory baseline
  unfoldable pub compile_layered :
      PolicyConfig → PolicyConfig → Option PolicyConfig → Fallible CompiledPolicy
  unfolding compiled_policy
  compile_layered baseline org loc = do
    validate_config trim org
    validate_local loc
    rules ← layered_rules baseline org loc 0
    ok (compiled_policy (overlay_globals_and_tools baseline org loc) rules)
