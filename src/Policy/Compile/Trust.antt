-- ===== src/Policy/Compile/Trust.antt =====
-- What the compiler of mcp-proxy/src/policy/compile.rs gives each rule: its number, and its layer.
use sqreen_core.Prelude.{
  ℕ, suc, ◌+◌, ◌≡◌, refl, subst, arith, String, Bool, true, false, List, [], ◌∷◌, ◌++◌, length,
  if◌then◌else◌,
}
use sqreen_core.Policy.Schema.{
  PolicyRule, ToolPolicy, PolicyConfig, PolicyAction, PolicyError, Fallible, ok, err, ◌>>◌,
  >>=-eq-ok,
}
use sqreen_core.Policy.Compile.{
  PolicyTrustLayer, CompiledRule, Compiler, ◌>>>◌, compile_each, compile_indexed,
  compile_normalized_rule, compile_predicates, compile_rules, compile_identity_rule,
  compile_taxonomy_rule, compile_global_block, compile_tool_block, compile_tool_action,
  compile_tool_policy, compile_tools, append_legacy_rules, check_duplicate_tools,
}

-- The rules carry the numbers from `n` on, and all stand in `layer`.
abbrev pub Stamped : (PolicyTrustLayer → Type 0) → ℕ → List CompiledRule → Type 0
Stamped P n [] = Unit
Stamped P n (r ∷ rs) = (r.order ≡ n) × P r.trust_layer × Stamped P (suc n) rs

-- A step of the compiler that stamps what it pushes.
abbrev pub Stamps : (PolicyTrustLayer → Type 0) → Compiler → Type 0
Stamps P m = (n : ℕ) (rs : List CompiledRule) → m n ≡ ok rs → Stamped P n rs

Stamped-append :
    (P : PolicyTrustLayer → Type 0) (n : ℕ) (rs ss : List CompiledRule)
    → Stamped P n rs
    → Stamped P (n + length rs) ss
    → Stamped P n (rs ++ ss)
Stamped-append P n [] ss h k = subst (λ m. Stamped P m ss) (omega arith) k
Stamped-append P n (r ∷ rs) ss (e, p, h) k =
    (e, p, Stamped-append P (suc n) rs ss h (subst (λ m. Stamped P m ss) (omega arith) k))

pub ok-injective {ℓ} : {A : Type ℓ} {a b : A} → ok a ≡ ok b → a ≡ b
ok-injective h = cc

pub Stamps->>> :
    (P : PolicyTrustLayer → Type 0) (m k : Compiler) → Stamps P m → Stamps P k → Stamps P (m >>> k)
Stamps->>> P m k hm hk n rs h =
    let (as', ha, h') = >>=-eq-ok (m n) _ h in
    let (bs, hb, h'') = >>=-eq-ok (k (n + length as')) _ h' in
    subst (Stamped P n) (ok-injective h'')
      (Stamped-append P n as' bs (hm n as' ha) (hk (n + length as') bs hb))

-- What one call stamps, and what a loop of such calls does.
abbrev StampsOne :
    (PolicyTrustLayer → Type 0) → ({A : Type 0} → (A → ℕ → Fallible CompiledRule) → Type 0)
StampsOne P {A} f =
    (x : A) (n : ℕ) (r : CompiledRule) → f x n ≡ ok r → (r.order ≡ n) × P r.trust_layer

Stamps-each :
    (P : PolicyTrustLayer → Type 0) {A : Type 0} (f : A → ℕ → Fallible CompiledRule)
    → StampsOne P f
    → (xs : List A) → Stamps P (compile_each f xs)
unfolding compile_each
Stamps-each P f h [] n rs e = subst (Stamped P n) (ok-injective e) tt
Stamps-each P f h (x ∷ xs) n rs e =
    let (r, hr, e') = >>=-eq-ok (f x n) _ e in
    let (ss, hs, e'') = >>=-eq-ok (compile_each f xs (suc n)) _ e' in
    let (o, p) = h x n r hr in
    subst (Stamped P n) (ok-injective e'') (o, p, Stamps-each P f h xs (suc n) ss hs)

Stamps-indexed :
    (P : PolicyTrustLayer → Type 0) {A : Type 0} (f : A → ℕ → ℕ → CompiledRule)
    → ((x : A) (i n : ℕ) → ((f x i n).order ≡ n) × P (f x i n).trust_layer)
    → (i : ℕ) (xs : List A) → Stamps P (compile_indexed f i xs)
unfolding compile_indexed
Stamps-indexed P f h i [] n rs e = subst (Stamped P n) (ok-injective e) tt
Stamps-indexed P f h i (x ∷ xs) n rs e =
    let (ss, hs, e') = >>=-eq-ok (compile_indexed f (suc i) xs (suc n)) _ e in
    let (o, p) = h x i n in
    subst (Stamped P n) (ok-injective e') (o, p, Stamps-indexed P f h (suc i) xs (suc n) ss hs)

-- The rule that a successful test of a pattern gives.
if-eq-ok :
    (b : Bool) (a r : CompiledRule) (e : PolicyError) → (if b then ok a else err e) ≡ ok r → a ≡ r
if-eq-ok true a r e h = ok-injective h
if-eq-ok false a r e h = cc

module _ (regex_valid : String → Bool) (P : PolicyTrustLayer → Type 0) (layer : PolicyTrustLayer)
    (holds : P layer) where
  -- The rule `r` carries the number `n` and stands in a layer of which `P` holds.
  abbrev IsStamped : ℕ → CompiledRule → Type 0
  IsStamped n r = (r.order ≡ n) × P r.trust_layer

  StampsOne-rule :
      StampsOne P
        (λ (rule : PolicyRule) order. compile_normalized_rule regex_valid rule order layer)
  unfolding compile_normalized_rule
  StampsOne-rule rule n r e =
      let (ps, _, e') = >>=-eq-ok (compile_predicates regex_valid rule.name rule.when) _ e in
      subst (IsStamped n) (ok-injective e') (refl, holds)

  StampsOne-block :
      StampsOne P (λ (pattern : String) order. compile_global_block regex_valid pattern order layer)
  unfolding compile_global_block
  StampsOne-block pattern n r e =
      subst (IsStamped n) (if-eq-ok (regex_valid pattern) _ r _ e) (refl, holds)

  StampsOne-tool :
      (tool : String)
      → StampsOne P
          (λ (pattern : String) order. compile_tool_block regex_valid tool pattern order layer)
  unfolding compile_tool_block
  StampsOne-tool tool pattern n r e =
      subst (IsStamped n) (if-eq-ok (regex_valid pattern) _ r _ e) (refl, holds)

  Stamped-action :
      (tool : ToolPolicy) (a : PolicyAction) (n : ℕ)
      → Stamped P n (compile_tool_action (record tool { action = a }) n layer)
  unfolding compile_tool_action
  Stamped-action tool PolicyAction.allow n = tt
  Stamped-action tool PolicyAction.block n = (refl, holds, tt)
  Stamped-action tool PolicyAction.redact n = (refl, holds, tt)
  Stamped-action tool PolicyAction.confirm n = (refl, holds, tt)

  pub Stamps-compile_rules :
      (rules : List PolicyRule) → Stamps P (compile_rules regex_valid layer rules)
  unfolding compile_rules
  Stamps-compile_rules rules = Stamps-each P _ StampsOne-rule rules

  Stamps-tool : (tool : ToolPolicy) → Stamps P (compile_tool_policy regex_valid layer tool)
  unfolding compile_tool_policy
  Stamps-tool tool =
      Stamps->>> P _ _ (Stamps-each P _ (StampsOne-tool tool.name) tool.block_patterns)
        (λ n rs e. subst (Stamped P n) (ok-injective e) (Stamped-action tool tool.action n))

  Stamps-tools : (tools : List ToolPolicy) → Stamps P (compile_tools regex_valid layer tools)
  unfolding compile_tools
  Stamps-tools [] n rs e = subst (Stamped P n) (ok-injective e) tt
  Stamps-tools (t ∷ ts) n rs e = Stamps->>> P _ _ (Stamps-tool t) (Stamps-tools ts) n rs e

  Stamps-checked :
      (seen : Fallible (Unit {0})) (tools : List ToolPolicy)
      → Stamps P (λ order. seen >> compile_tools regex_valid layer tools order)
  Stamps-checked seen tools n rs e =
      let (_, _, e') = >>=-eq-ok seen (λ _. compile_tools regex_valid layer tools n) e in
      Stamps-tools tools n rs e'

  pub Stamps-append_legacy_rules :
      (config : PolicyConfig) → Stamps P (append_legacy_rules regex_valid layer config)
  unfolding append_legacy_rules compile_identity_rule compile_taxonomy_rule
  Stamps-append_legacy_rules config =
      Stamps->>> P _ _ (Stamps-indexed P _ (λ x i n. (refl, holds)) 0 config.identity_rules) (
        Stamps->>> P _ _ (Stamps-indexed P _ (λ x i n. (refl, holds)) 0 config.taxonomy_rules) (
          Stamps->>> P _ _ (Stamps-each P _ StampsOne-block config.global.block_patterns)
            (Stamps-checked (check_duplicate_tools [] config.tools) config.tools)))
