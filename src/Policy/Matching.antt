-- ===== src/Policy/Matching.antt =====
-- When a rule applies to an action (mcp-proxy/src/policy/compile.rs, `CompiledRule::matches`).
use sqreen_core.Prelude.{
  ◌≡◌, ◌↔◌, ◌⊎◌, inl, inr, refl, sym, ap, ap₂, ◌∙◌, arith, String, str_eq, Bool, true, false, not,
  if◌then◌else◌, ◌||◌, List, [], ◌∷◌, any, all, All, Member, is_empty, contains,
}
use sqreen_core.Policy.Schema.{RuleEffect}
use sqreen_core.Policy.Compile.{
  CompiledRule, Predicate, field_equals, path_regex, path_prefix, path_not_prefix, payload_regex,
}
use sqreen_core.Policy.Context.{
  PolicyMatchContext, predicate_matches, uses_privilege_sensitive_identity,
  requires_bound_agent_predicate, may_grant, is_bound_agent, is_privilege_sensitive, matches,
}

module _ (trim to_ascii_lowercase : String → String) (is_match : String → String → Bool) where
  -- A rule applies exactly when it names no tool or the tool of the action, all its predicates
  -- hold, and, if it may grant something and tests a field that a caller can choose, it also
  -- demands a bound agent or the agent is trusted.
  pub matches-eq_true :
      (ctx : PolicyMatchContext) (rule : CompiledRule)
      → (matches trim to_ascii_lowercase is_match ctx rule ≡ true) ↔ (
          ((is_empty rule.tools ≡ true) ⊎ (contains rule.tools ctx.tool_name ≡ true))
          × (all (predicate_matches trim to_ascii_lowercase is_match ctx) rule.predicates ≡ true)
          × ((may_grant trim to_ascii_lowercase is_match rule.effect ≡ true)
              → (uses_privilege_sensitive_identity trim to_ascii_lowercase is_match rule ≡ true)
              → (requires_bound_agent_predicate trim to_ascii_lowercase is_match rule ≡ true)
                ⊎ (ctx.agent_trust_can_grant_privilege ≡ true)))
  unfolding matches
  matches-eq_true ctx rule = ground arith

  -- The predicate demands neither a bound agent nor one that is trusted.
  abbrev pub NotBound : Predicate → Type 0
  NotBound (field_equals field expected) =
      (contains ("agent.bound_id" ∷ "agent.id" ∷ "agent_bound_id" ∷ []) (trim field) ≡ true
        → str_eq (trim expected) "" ≡ true)
      × (contains ("agent.trust" ∷ "agent_trust" ∷ []) (trim field) ≡ true
          → (str_eq (to_ascii_lowercase (trim expected)) "bound"
              || str_eq (to_ascii_lowercase (trim expected)) "authenticated")
            ≡ false)
  NotBound _ = Unit

  -- The fields that a caller chooses
  abbrev pub caller_fields : List String
  caller_fields =
      "agent_id" ∷ "agent.label" ∷ "user_id" ∷ "user.label" ∷ "session_id" ∷ "session.label"
      ∷ "organization_id" ∷ "device_id" ∷ []

  or_true : (a b : Bool) → b ≡ true → (a || b) ≡ true
  or_true a b h = ground arith

  grant_of :
      (effect : RuleEffect)
      → (effect ≡ RuleEffect.allow) ⊎ (effect ≡ RuleEffect.redact)
      → may_grant trim to_ascii_lowercase is_match effect ≡ true
  grant_of effect (inl e) = ap (may_grant trim to_ascii_lowercase is_match) e
  grant_of effect (inr e) = ap (may_grant trim to_ascii_lowercase is_match) e

  no_demand :
      (id blank trust trusted : Bool)
      → (id ≡ true → blank ≡ true)
      → (trust ≡ true → trusted ≡ false)
      → (if id then not blank else if trust then trusted else false) ≡ false
  no_demand true blank trust trusted h k = ap not (h refl)
  no_demand false blank true trusted h k = k refl
  no_demand false blank false trusted h k = refl

  NotBound-false :
      (predicate : Predicate)
      → NotBound predicate
      → is_bound_agent trim to_ascii_lowercase is_match predicate ≡ false
  NotBound-false (field_equals field expected) h =
      no_demand (contains ("agent.bound_id" ∷ "agent.id" ∷ "agent_bound_id" ∷ []) (trim field))
        (str_eq (trim expected) "") (contains ("agent.trust" ∷ "agent_trust" ∷ []) (trim field))
        (str_eq (to_ascii_lowercase (trim expected)) "bound"
          || str_eq (to_ascii_lowercase (trim expected)) "authenticated")
        h.0 h.1
  NotBound-false (path_regex _) h = refl
  NotBound-false (path_prefix _) h = refl
  NotBound-false (path_not_prefix _) h = refl
  NotBound-false (payload_regex _) h = refl

  not_bound :
      (predicates : List Predicate)
      → All NotBound predicates
      → any (is_bound_agent trim to_ascii_lowercase is_match) predicates ≡ false
  not_bound [] h = refl
  not_bound (p ∷ ps) h = ap₂ ◌||◌ (NotBound-false p h.0) (not_bound ps h.1)

  sensitive :
      (predicates : List Predicate) (field expected : String)
      → Member (field_equals field expected) predicates
      → contains caller_fields (trim field) ≡ true
      → any (is_privilege_sensitive trim to_ascii_lowercase is_match) predicates ≡ true
  sensitive [] field expected m h = elim m [ ]
  sensitive (p ∷ ps) field expected (inl e) h =
      ap
        (λ q.
          is_privilege_sensitive trim to_ascii_lowercase is_match q
          || any (is_privilege_sensitive trim to_ascii_lowercase is_match) ps)
        (sym e)
      ∙ ap (λ b. b || any (is_privilege_sensitive trim to_ascii_lowercase is_match) ps) h
  sensitive (p ∷ ps) field expected (inr m) h =
      or_true (is_privilege_sensitive trim to_ascii_lowercase is_match p) _
        (sensitive ps field expected m h)

  -- A rule that allows or redacts never applies on the word of the caller alone: where it tests one of
  -- the eight fields that a caller chooses, none of its predicates demands a bound agent or a trusted
  -- one, and the agent is not trusted, the rule does not apply.
  pub matches-ungranted :
      (ctx : PolicyMatchContext) (rule : CompiledRule) (field expected : String)
      → (rule.effect ≡ RuleEffect.allow) ⊎ (rule.effect ≡ RuleEffect.redact)
      → Member (field_equals field expected) rule.predicates
      → contains caller_fields (trim field) ≡ true
      → All NotBound rule.predicates
      → ctx.agent_trust_can_grant_privilege ≡ false
      → matches trim to_ascii_lowercase is_match ctx rule ≡ false
  unfolding matches uses_privilege_sensitive_identity requires_bound_agent_predicate
  matches-ungranted ctx rule field expected e m h b t =
      let named = sensitive rule.predicates field expected m h in
      let unbound = not_bound rule.predicates b in
      let grants = grant_of rule.effect e in ground (arith, named, unbound, grants, t)
