-- ===== src/Policy/Compose/Tighten.antt =====
-- The overlay only tightens: what a document demands holds of every overlay over it.
use sqreen_core.Prelude.{
  ◌≡◌, refl, ◌∙◌, eq_iff, ◌≤◌, String, str_eq, true, some, List, [], ◌∷◌, contains, arith,
  Bool-cases, inl, inr,
}
use sqreen_core.Policy.Schema.{PolicyMode, PolicyConfig, ToolPolicy}
use sqreen_core.Policy.Compose.{overlay_tools, overlay_mode, overlay_globals_tools_legacy}
use sqreen_core.Policy.Compose.Tools.{action_severity, set_of, merge_tool, lookup, entry, collect}
use sqreen_core.Policy.Compose.Sets.{
  extend_set-keeps, extend_set-adds, IsDistinct, lookup-entry_self, lookup-entry_ne,
  entry-IsDistinct,
}
use sqreen_core.Policy.Compose.Maps.{collect-IsDistinct, lookup-collect_distinct}

-- The second set has every text of the first.
abbrev pub Includes : List String → List String → Type 0
Includes s t = (p : String) → contains s p ≡ true → contains t p ≡ true

-- A tool whose action is at least as strict, and which blocks at least as much
abbrev pub NoWeaker : ToolPolicy → ToolPolicy → Type 0
NoWeaker t t' =
    (action_severity t.action ≤ action_severity t'.action)
    × Includes t.block_patterns t'.block_patterns

-- The map has a tool of that name that is no weaker.
abbrev pub Keeps : String → ToolPolicy → List ToolPolicy → Type 0
Keeps name t m = (t' : ToolPolicy) × (lookup name m ≡ some t') × NoWeaker t t'

merge_tool-name : (a b : ToolPolicy) → (merge_tool a b).name ≡ a.name
unfolding merge_tool
merge_tool-name a b = refl

NoWeaker-merge_tool : (a b : ToolPolicy) → NoWeaker a (merge_tool a b)
unfolding merge_tool
NoWeaker-merge_tool a b = (
  ground arith,
  λ p h.
      extend_set-keeps (set_of a.block_patterns) b.block_patterns p
        (extend_set-adds [] a.block_patterns p h),
)

NoWeaker-trans : (a b c : ToolPolicy) → NoWeaker a b → NoWeaker b c → NoWeaker a c
NoWeaker-trans a b c h k = (omega arith, λ p x. k.1 p (h.1 p x))

Keeps-trans :
    (name : String) (a b : ToolPolicy) (m : List ToolPolicy)
    → NoWeaker a b
    → Keeps name b m
    → Keeps name a m
Keeps-trans name a b m h (c, e, k) = (c, e, NoWeaker-trans a b c h k)

-- One tool of the overlay merged in
entry-Keeps :
    (name : String) {t : ToolPolicy} (u : ToolPolicy) (m : List ToolPolicy)
    → lookup name m ≡ some t
    → Keeps name t (entry merge_tool u m)
entry-Keeps name {t} u m e = elim (Bool-cases (str_eq u.name name)) [
  | inl same ↦ (
    merge_tool t u,
    ground (arith, eq_iff u.name name, lookup-entry_self merge_tool merge_tool-name u m),
    NoWeaker-merge_tool t u,
  )
  | inr other ↦
      (t, lookup-entry_ne merge_tool merge_tool-name name u m other ∙ e, (omega arith, λ p x. x))
]

overlay_tools-Keeps :
    (ts m : List ToolPolicy) (name : String) (t : ToolPolicy)
    → lookup name m ≡ some t
    → Keeps name t (overlay_tools m ts)
unfolding overlay_tools
overlay_tools-Keeps [] m name t e = (t, e, (omega arith, λ p x. x))
overlay_tools-Keeps (u ∷ ts) m name t e =
    let (t', e', k) = entry-Keeps name {t = t} u m e in
    Keeps-trans name t t' (overlay_tools (entry merge_tool u m) ts) k
      (overlay_tools-Keeps ts (entry merge_tool u m) name t' e')

overlay_tools-IsDistinct : (ts m : List ToolPolicy) → IsDistinct m → IsDistinct (overlay_tools m ts)
unfolding overlay_tools
overlay_tools-IsDistinct [] m d = d
overlay_tools-IsDistinct (u ∷ ts) m d =
    overlay_tools-IsDistinct ts (entry merge_tool u m)
      (entry-IsDistinct merge_tool merge_tool-name u m d)

-- What a document demands holds of another: its patterns and keys are there, its threshold is not
-- raised, an enforcing mode is kept, and each tool of it has one that is no weaker.
pub record Tightens (base merged : PolicyConfig) : Type 0 where
  pub patterns : Includes base.global.block_patterns merged.global.block_patterns
  pub keys : Includes base.global.redact_keys merged.global.redact_keys
  pub threshold : merged.global.risk_threshold ≤ base.global.risk_threshold
  pub mode : base.mode ≡ PolicyMode.enforce → merged.mode ≡ PolicyMode.enforce
  pub tools :
      (name : String) (t : ToolPolicy)
      → lookup name (collect [] base.tools) ≡ some t
      → Keeps name t (collect [] merged.tools)

pub Tightens-trans : {a b c : PolicyConfig} → Tightens a b → Tightens b c → Tightens a c
Tightens-trans {a} {b} {c} h k = record {
  patterns = λ p x. k.patterns p (h.patterns p x);
  keys = λ p x. k.keys p (h.keys p x);
  threshold = omega arith;
  mode = λ e. k.mode (h.mode e);
  tools = λ name t e.
      let (t', e', w) = h.tools name t e in
      Keeps-trans name t t' (collect [] c.tools) w (k.tools name t' e');
}

-- An overlay tightens the document below it.
pub overlay-Tightens :
    (base overlay : PolicyConfig) → Tightens base (overlay_globals_tools_legacy base overlay)
unfolding overlay_globals_tools_legacy overlay_mode
overlay-Tightens base overlay = record {
  patterns = λ p x.
      extend_set-keeps (set_of base.global.block_patterns) overlay.global.block_patterns p
        (extend_set-adds [] base.global.block_patterns p x);
  keys = λ p x.
      extend_set-keeps (set_of base.global.redact_keys) overlay.global.redact_keys p
        (extend_set-adds [] base.global.redact_keys p x);
  threshold = omega arith;
  mode = λ e. ground arith;
  tools = λ name t e.
      let m = overlay_tools (collect [] base.tools) overlay.tools in
      let (t', e', w) = overlay_tools-Keeps overlay.tools (collect [] base.tools) name t e in
      (
        t',
        lookup-collect_distinct name m (
              overlay_tools-IsDistinct overlay.tools (collect [] base.tools)
                (collect-IsDistinct [] base.tools tt))
            ∙ e',
        w,
      );
}
