-- ===== src/Policy/Compile/Layers.antt =====
-- The rules of `compile_layered` (mcp-proxy/src/policy/compile.rs): their numbers, and which of them
-- the mandatory baseline gives.
use sqreen_core.Prelude.{
  ℕ, suc, ◌+◌, ◌≡◌, refl, ap, sym, ap₂, ◌∙◌, subst, arith, String, Bool, false, Option, List, [],
  ◌∷◌, ◌++◌, length, filter, ◌==◌,
}
use sqreen_core.Policy.Schema.{PolicyConfig, ok, >>=-eq-ok}
use sqreen_core.Policy.Validate.{validate_config}
use sqreen_core.Policy.Compose.{overlay_globals_and_tools}
use sqreen_core.Policy.Compile.{
  PolicyTrustLayer, mandatory_baseline, organization, local, rank, CompiledRule, CompiledPolicy,
  Compiler, ◌>>>◌, compile_rules,
}
use sqreen_core.Policy.Compile.Trust.{
  Stamped, Stamps, Stamps->>>, Stamps-compile_rules, Stamps-append_legacy_rules, ok-injective,
}
use sqreen_core.Policy.Compile.Layered.{
  local_rules, validate_local, layered_rules, compiled_policy, compile_layered,
}
use sqreen_core.Policy.Evaluation.Winner.{in_layer}

-- The rules carry the numbers from `n` on.
abbrev pub IsNumbered : ℕ → List CompiledRule → Type 0
IsNumbered n [] = Unit
IsNumbered n (r ∷ rs) = (r.order ≡ n) × IsNumbered (suc n) rs

abbrev IsMandatory : PolicyTrustLayer → Type 0
IsMandatory layer = rank layer ≡ 2

abbrev IsLower : PolicyTrustLayer → Type 0
IsLower layer = (rank layer == 2) ≡ false

IsNumbered-Stamped :
    (P : PolicyTrustLayer → Type 0) (n : ℕ) (rs : List CompiledRule)
    → Stamped P n rs
    → IsNumbered n rs
IsNumbered-Stamped P n [] h = tt
IsNumbered-Stamped P n (r ∷ rs) (e, p, h) = (e, IsNumbered-Stamped P (suc n) rs h)

filter-mandatory :
    (n : ℕ) (rs : List CompiledRule)
    → Stamped IsMandatory n rs
    → filter (in_layer mandatory_baseline) rs ≡ rs
filter-mandatory n [] h = refl
filter-mandatory n (r ∷ rs) (e, p, h) = ground (arith, p, filter-mandatory (suc n) rs h)

filter-lower :
    (n : ℕ) (rs : List CompiledRule)
    → Stamped IsLower n rs
    → filter (in_layer mandatory_baseline) rs ≡ []
filter-lower n [] h = refl
filter-lower n (r ∷ rs) (e, p, h) = ground (arith, p, filter-lower (suc n) rs h)

filter-append :
    (p : CompiledRule → Bool) (rs ss : List CompiledRule)
    → filter p (rs ++ ss) ≡ filter p rs ++ filter p ss
filter-append p [] ss = refl
filter-append p (r ∷ rs) ss = ground (arith, filter-append p rs ss)

append-nil : (rs : List CompiledRule) → rs ++ [] ≡ rs
append-nil [] = refl
append-nil (r ∷ rs) = ap (◌∷◌ r) (append-nil rs)

-- The first part of a sequence is what the filter keeps, if the rest pushes lower rules only.
filter->>> :
    (m k : Compiler)
    → Stamps IsMandatory m
    → Stamps IsLower k
    → (n : ℕ) (rs : List CompiledRule) → (m >>> k) n ≡ ok rs
    → m n ≡ ok (filter (in_layer mandatory_baseline) rs)
filter->>> m k hm hk n rs h =
    let (as', ha, h') = >>=-eq-ok (m n) _ h in
    let (bs, hb, h'') = >>=-eq-ok (k (n + length as')) _ h' in
    ha
    ∙ ap ok (
        sym (
          ap (filter (in_layer mandatory_baseline)) (sym (ok-injective h''))
          ∙ filter-append _ as' bs
          ∙ ap₂ ◌++◌ (filter-mandatory n as' (hm n as' ha)) (filter-lower _ bs (hk _ bs hb))
          ∙ append-nil as'))

-- What `compile_layered` needs to succeed.
compile_layered-ok :
    (regex_valid : String → Bool) (trim : String → String) (baseline org : PolicyConfig)
    (loc : Option PolicyConfig) (p : CompiledPolicy)
    → compile_layered regex_valid trim baseline org loc ≡ ok p
    → layered_rules regex_valid trim baseline org loc 0 ≡ ok p.rules
unfolding compile_layered compiled_policy
compile_layered-ok regex_valid trim baseline org loc p h =
    let (_, _, h') = >>=-eq-ok (validate_config trim org) _ h in
    let (_, _, h'') = >>=-eq-ok (validate_local regex_valid trim loc) _ h' in
    let (rs, hr, e) = >>=-eq-ok (layered_rules regex_valid trim baseline org loc 0) _ h'' in
    subst (λ (q : CompiledPolicy). layered_rules regex_valid trim baseline org loc 0 ≡ ok q.rules)
      (ok-injective e) hr

-- In a policy that `compile_layered` returns, the rules carry the numbers 0, 1, 2 and so on.
pub compile_layered-IsNumbered :
    (regex_valid : String → Bool) (trim : String → String) (baseline org : PolicyConfig)
    (loc : Option PolicyConfig) (p : CompiledPolicy)
    → compile_layered regex_valid trim baseline org loc ≡ ok p
    → IsNumbered 0 p.rules
unfolding layered_rules
compile_layered-IsNumbered regex_valid trim baseline org loc p h =
    let P = λ (l : PolicyTrustLayer). Unit {0} in
    IsNumbered-Stamped P 0 p.rules (
      Stamps->>> P _ _ (Stamps-compile_rules regex_valid P mandatory_baseline tt baseline.rules)
        (Stamps->>> P _ _ (Stamps-compile_rules regex_valid P organization tt org.rules) (
          Stamps->>> P _ _ (Stamps-compile_rules regex_valid P local tt (local_rules loc)) (
            Stamps-append_legacy_rules regex_valid P organization tt
              (overlay_globals_and_tools baseline org loc))))
        0 p.rules (compile_layered-ok regex_valid trim baseline org loc p h))

-- In a policy that `compile_layered` returns, the rules of the mandatory layer are the rules of the
-- baseline document, compiled: neither other document adds one, drops one or changes one.
pub compile_layered-mandatory :
    (regex_valid : String → Bool) (trim : String → String) (baseline org : PolicyConfig)
    (loc : Option PolicyConfig) (p : CompiledPolicy)
    → compile_layered regex_valid trim baseline org loc ≡ ok p
    → compile_rules regex_valid mandatory_baseline baseline.rules 0
      ≡ ok (filter (in_layer mandatory_baseline) p.rules)
unfolding layered_rules
compile_layered-mandatory regex_valid trim baseline org loc p h =
    filter->>> _ _
      (Stamps-compile_rules regex_valid IsMandatory mandatory_baseline refl baseline.rules)
      (Stamps->>> IsLower _ _ (Stamps-compile_rules regex_valid IsLower organization refl org.rules)
        (Stamps->>> IsLower _ _
          (Stamps-compile_rules regex_valid IsLower local refl (local_rules loc))
          (Stamps-append_legacy_rules regex_valid IsLower organization refl
            (overlay_globals_and_tools baseline org loc))))
      0 p.rules (compile_layered-ok regex_valid trim baseline org loc p h)
