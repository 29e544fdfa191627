-- ===== src/Policy/Compose/Effective.antt =====
-- The effective policy document against the mandatory baseline.
use sqreen_core.Prelude.{
  ◌≡◌, refl, ◌∙◌, not, String, eq_iff, true, Option, none, some, List, [], ◌∷◌, all, contains,
  arith, ◌&&◌, Bool, is_some,
}
use sqreen_core.Policy.Schema.{PolicyConfig, ToolPolicy}
use sqreen_core.Policy.Compose.{
  overlay_globals_tools_legacy, overlay_globals_and_tools, compose_effective_policy, is_no_weaker,
  respects_mandatory_baseline,
}
use sqreen_core.Policy.Compose.Tools.{lookup, collect}
use sqreen_core.Policy.Compose.Sets.{IsDistinct}
use sqreen_core.Policy.Compose.Maps.{lookup-collect_distinct}
use sqreen_core.Policy.Compose.Tighten.{Includes, Keeps, Tightens, Tightens-trans, overlay-Tightens}
use sqreen_core.SecurityBaseline.Document.{mandatory_policy_config}

-- Whatever the organization and a local document say, the effective policy keeps every block
-- pattern and redact key of the baseline, does not raise its threshold, does not leave its enforcing
-- mode, and has for each tool of it one with an action as strict and with its patterns.
pub compose_effective_policy-Tightens :
    (baseline organization : PolicyConfig) (local : Option PolicyConfig)
    → Tightens baseline (compose_effective_policy baseline organization local)
unfolding compose_effective_policy
compose_effective_policy-Tightens baseline organization none =
    overlay-Tightens baseline organization
compose_effective_policy-Tightens baseline organization (some local) =
    Tightens-trans (overlay-Tightens baseline organization)
      (overlay-Tightens (overlay_globals_tools_legacy baseline organization) local)

-- Whatever the organization and a local document say, the document from which the legacy rules are
-- compiled keeps every block pattern and redact key of the baseline, does not raise its threshold,
-- does not leave its enforcing mode, and has for each tool of it one with an action as strict and
-- with its patterns.
pub overlay_globals_and_tools-Tightens :
    (baseline organization : PolicyConfig) (local : Option PolicyConfig)
    → Tightens baseline (overlay_globals_and_tools baseline organization local)
unfolding overlay_globals_and_tools compose_effective_policy
overlay_globals_and_tools-Tightens baseline organization none =
    let h = compose_effective_policy-Tightens baseline organization none in
    record {
      patterns = h.patterns;
      keys = h.keys;
      threshold = h.threshold;
      mode = h.mode;
      tools = h.tools;
    }
overlay_globals_and_tools-Tightens baseline organization (some local) =
    let h = compose_effective_policy-Tightens baseline organization (some local) in
    record {
      patterns = h.patterns;
      keys = h.keys;
      threshold = h.threshold;
      mode = h.mode;
      tools = h.tools;
    }

all-Includes : (s t : List String) → Includes s t → all (contains t) s ≡ true
all-Includes [] t h = refl
all-Includes (p ∷ s) t h =
    ground (arith, h p (ground (arith, eq_iff p p)), all-Includes s t (λ q x. h q (ground arith)))

all_no_weaker :
    (ts m : List ToolPolicy)
    → IsDistinct ts
    → ((name : String) (t : ToolPolicy) → lookup name ts ≡ some t → Keeps name t m)
    → all (is_no_weaker m) ts ≡ true
unfolding lookup
all_no_weaker [] m d h = refl
all_no_weaker (t ∷ ts) m d h =
    let (t', e, w) = h t.name t (ground (arith, eq_iff t.name t.name)) in
    ground (
      arith,
      e,
      w.0,
      all_no_weaker ts m d.1 (λ name u x. h name u (ground (arith, x, d.0, eq_iff t.name name))),
    )

respects_of_Tightens :
    (baseline candidate : PolicyConfig)
    → IsDistinct baseline.tools
    → Tightens baseline candidate
    → respects_mandatory_baseline baseline candidate ≡ true
unfolding respects_mandatory_baseline
respects_of_Tightens baseline candidate d h = ground (
  arith,
  h.threshold,
  all-Includes baseline.global.block_patterns candidate.global.block_patterns h.patterns,
  all_no_weaker baseline.tools (collect [] candidate.tools) d
      (λ name t e. h.tools name t (lookup-collect_distinct name baseline.tools d ∙ e)),
)

-- `IsDistinct` as a test
is_distinct : List ToolPolicy → Bool
is_distinct [] = true
is_distinct (t ∷ ts) = not (is_some (lookup t.name ts)) && is_distinct ts

IsDistinct-of_test : (ts : List ToolPolicy) → is_distinct ts ≡ true → IsDistinct ts
unfolding is_distinct
IsDistinct-of_test [] h = tt
IsDistinct-of_test (t ∷ ts) h = (ground arith, IsDistinct-of_test ts (ground arith))

baseline-IsDistinct : IsDistinct mandatory_policy_config.tools
unfolding mandatory_policy_config lookup is_distinct
baseline-IsDistinct = IsDistinct-of_test mandatory_policy_config.tools refl

-- The effective policy passes the program's own test against the mandatory baseline, whatever the
-- organization and a local document say.
pub compose_effective_policy-respects_baseline :
    (organization : PolicyConfig) (local : Option PolicyConfig)
    → respects_mandatory_baseline mandatory_policy_config
        (compose_effective_policy mandatory_policy_config organization local)
      ≡ true
compose_effective_policy-respects_baseline organization local =
    respects_of_Tightens mandatory_policy_config
      (compose_effective_policy mandatory_policy_config organization local) baseline-IsDistinct
      (compose_effective_policy-Tightens mandatory_policy_config organization local)
