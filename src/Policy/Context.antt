-- ===== src/Policy/Context.antt =====
-- The surface that rules match on: mcp-proxy/src/policy/match_ctx.rs, and the identity test of
-- compile.rs. The home directory of the environment and the answers of the identity, taxonomy,
-- risk and behavior fields are values of the context.
use Prim.Native.String.{String}
use text.Mathlib.Text.{starts_with}
use sqreen_core.Prelude.{
  Bool, true, false, not, ◌&&◌, ◌||◌, List, [], ◌∷◌, any, all, is_empty, contains, str_eq,
  if◌then◌else◌,
}
use sqreen_core.Policy.Schema.{RuleEffect}
use sqreen_core.Policy.Compile.{
  Predicate, CompiledRule, field_equals, path_regex, path_prefix, path_not_prefix, payload_regex,
}

-- `PolicyMatchContext`. `matches_field_equals` is the method of that name, and
-- `agent_trust_can_grant_privilege` the value of the other.
pub record PolicyMatchContext : Type 0 where
  pub tool_name : String
  pub canonical_arguments : String
  pub paths : List String
  pub expand_home : String → String
  pub matches_field_equals : String → String → Bool
  pub agent_trust_can_grant_privilege : Bool

-- `matches_path_prefix`
unfoldable pub matches_path_prefix : PolicyMatchContext → String → Bool
matches_path_prefix ctx prefix =
    any (λ path. starts_with path prefix || starts_with (ctx.expand_home path) prefix) ctx.paths

-- `matches_path_not_prefix`
unfoldable pub matches_path_not_prefix : PolicyMatchContext → String → Bool
matches_path_not_prefix ctx prefix =
    not (is_empty ctx.paths)
    && all
        (λ path. not (starts_with path prefix) && not (starts_with (ctx.expand_home path) prefix))
        ctx.paths

-- `agent_id` and the other fields of `uses_privilege_sensitive_identity`
abbrev pub privilege_sensitive_fields : List String
privilege_sensitive_fields =
    "agent_id" ∷ "agent.label" ∷ "user_id" ∷ "user.label" ∷ "session_id" ∷ "session.label"
    ∷ "organization_id" ∷ "device_id" ∷ []

-- `trim` and `to_ascii_lowercase` stand for the methods of `str`, and `is_match` for
-- `Regex::is_match` of the regex crate.
module _ (trim to_ascii_lowercase : String → String) (is_match : String → String → Bool) where
  -- `matches_path_regex`
  unfoldable pub matches_path_regex : PolicyMatchContext → String → Bool
  matches_path_regex ctx pattern =
      any (λ path. is_match pattern path || is_match pattern (ctx.expand_home path)) ctx.paths

  -- `inspection_surface`
  unfoldable pub inspection_surface : String → String → String
  inspection_surface tool_name arguments =
      if str_eq (trim arguments) "null" then tool_name else arguments

  -- The predicates of `CompiledRule::matches`
  unfoldable pub predicate_matches : PolicyMatchContext → Predicate → Bool
  unfolding matches_path_prefix matches_path_not_prefix
  predicate_matches ctx (field_equals field expected) = ctx.matches_field_equals field expected
  predicate_matches ctx (path_regex pattern) = matches_path_regex ctx pattern
  predicate_matches ctx (path_prefix prefix) = matches_path_prefix ctx prefix
  predicate_matches ctx (path_not_prefix prefix) = matches_path_not_prefix ctx prefix
  predicate_matches ctx (payload_regex pattern) =
      is_match pattern (inspection_surface ctx.tool_name ctx.canonical_arguments)

  -- `uses_privilege_sensitive_identity`, of one predicate
  abbrev pub is_privilege_sensitive : Predicate → Bool
  is_privilege_sensitive (field_equals field _) = contains privilege_sensitive_fields (trim field)
  is_privilege_sensitive _ = false

  -- `requires_bound_agent_predicate`, of one predicate
  abbrev pub is_bound_agent : Predicate → Bool
  is_bound_agent (field_equals field expected) =
      let key = trim field in
      let lower = to_ascii_lowercase (trim expected) in
      if contains ("agent.bound_id" ∷ "agent.id" ∷ "agent_bound_id" ∷ []) key
      then not (str_eq (trim expected) "")
      else if contains ("agent.trust" ∷ "agent_trust" ∷ []) key
      then str_eq lower "bound" || str_eq lower "authenticated"
      else false
  is_bound_agent _ = false

  -- `uses_privilege_sensitive_identity`
  unfoldable pub uses_privilege_sensitive_identity : CompiledRule → Bool
  uses_privilege_sensitive_identity rule = any is_privilege_sensitive rule.predicates

  -- `requires_bound_agent_predicate`
  unfoldable pub requires_bound_agent_predicate : CompiledRule → Bool
  requires_bound_agent_predicate rule = any is_bound_agent rule.predicates

  -- `matches!(self.effect, RuleEffect::Allow | RuleEffect::Redact)`
  abbrev pub may_grant : RuleEffect → Bool
  may_grant RuleEffect.allow = true
  may_grant RuleEffect.redact = true
  may_grant _ = false

  -- `CompiledRule::matches`
  unfoldable pub matches : PolicyMatchContext → CompiledRule → Bool
  matches ctx rule =
      if not (is_empty rule.tools) && not (contains rule.tools ctx.tool_name)
      then false
      else if not (all (predicate_matches ctx) rule.predicates)
      then false
      else if may_grant rule.effect
          && (uses_privilege_sensitive_identity rule
              && (not (requires_bound_agent_predicate rule)
                  && not ctx.agent_trust_can_grant_privilege))
      then false
      else true
