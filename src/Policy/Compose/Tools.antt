-- ===== src/Policy/Compose/Tools.antt =====
-- The containers of compose.rs: sets of texts, and the map of tools by their names.
use sqreen_core.Prelude.{
  ℕ, leb, String, str_eq, Option, none, some, List, [], ◌∷◌, ◌++◌, contains, if◌then◌else◌,
}
use sqreen_core.Policy.Schema.{PolicyAction, ToolPolicy}

-- `action_severity`
abbrev pub action_severity : PolicyAction → ℕ
action_severity PolicyAction.block = 3
action_severity PolicyAction.confirm = 2
action_severity PolicyAction.redact = 1
action_severity PolicyAction.allow = 0

-- `stricter_action`
abbrev pub stricter_action : PolicyAction → PolicyAction → PolicyAction
stricter_action a b = if leb (action_severity b) (action_severity a) then a else b

-- `HashSet::extend`
unfoldable pub extend_set : List String → List String → List String
extend_set s [] = s
extend_set s (x ∷ xs) = extend_set (if contains s x then s else s ++ x ∷ []) xs

-- `into_iter().collect::<HashSet<_>>()`
abbrev pub set_of : List String → List String
set_of xs = extend_set [] xs

-- `merge_tool`
unfoldable pub merge_tool : ToolPolicy → ToolPolicy → ToolPolicy
merge_tool a b = record {
  name = a.name;
  action = stricter_action a.action b.action;
  block_patterns = extend_set (set_of a.block_patterns) b.block_patterns;
}

-- `HashMap::get`
unfoldable pub lookup : String → List ToolPolicy → Option ToolPolicy
lookup name [] = none
lookup name (t ∷ ts) = if str_eq t.name name then some t else lookup name ts

-- `HashMap::entry`: an old tool is modified by `modify old new`, and a new one is inserted.
unfoldable pub entry :
    (ToolPolicy → ToolPolicy → ToolPolicy) → ToolPolicy → List ToolPolicy → List ToolPolicy
entry modify t [] = t ∷ []
entry modify t (e ∷ es) = if str_eq e.name t.name then modify e t ∷ es else e ∷ entry modify t es

-- `HashMap::insert`
abbrev pub insert : ToolPolicy → List ToolPolicy → List ToolPolicy
insert = entry (λ old new. new)

-- `into_iter().map(…).collect::<HashMap<_, _>>()`, from a map on
unfoldable pub collect : List ToolPolicy → List ToolPolicy → List ToolPolicy
collect m [] = m
collect m (t ∷ ts) = collect (insert t m) ts
