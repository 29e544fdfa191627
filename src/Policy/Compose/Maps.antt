-- ===== src/Policy/Compose/Maps.antt =====
-- What the map of tools answers after a document is collected into it, or merged over it.
use sqreen_core.Prelude.{
  ◌≡◌, refl, String, str_eq, eq_iff, none, some, List, [], ◌∷◌, if◌then◌else◌, arith,
}
use sqreen_core.Policy.Schema.{ToolPolicy}
use sqreen_core.Policy.Compose.Tools.{lookup, entry, insert, collect}
use sqreen_core.Policy.Compose.Sets.{IsDistinct}

pub lookup-name :
    (name : String) (m : List ToolPolicy) (t : ToolPolicy) → lookup name m ≡ some t → t.name ≡ name
unfolding lookup
lookup-name name [] t h = cc
lookup-name name (e ∷ m) t h = ground (arith, lookup-name name m t, eq_iff e.name name)

-- `insert` keeps the key, since it is the key of the new tool that it looked for.
lookup-insert :
    (name : String) (t : ToolPolicy) (m : List ToolPolicy)
    → lookup name (insert t m) ≡ (if str_eq t.name name then some t else lookup name m)
unfolding lookup entry
lookup-insert name t [] = refl
lookup-insert name t (e ∷ m) =
    ground
      (arith, lookup-insert name t m, eq_iff e.name t.name, eq_iff e.name name, eq_iff t.name name)

insert-IsDistinct : (t : ToolPolicy) (m : List ToolPolicy) → IsDistinct m → IsDistinct (insert t m)
unfolding lookup entry
insert-IsDistinct t [] h = (refl, tt)
insert-IsDistinct t (e ∷ m) h = ground (
  arith,
  insert-IsDistinct t m h.1,
  lookup-insert e.name t m,
  eq_iff e.name t.name,
  eq_iff t.name e.name,
)

pub collect-IsDistinct : (m ts : List ToolPolicy) → IsDistinct m → IsDistinct (collect m ts)
unfolding collect
collect-IsDistinct m [] h = h
collect-IsDistinct m (t ∷ ts) h = collect-IsDistinct (insert t m) ts (insert-IsDistinct t m h)

-- Tools of distinct names are found again, before those of the map that they are inserted into.
pub lookup-collect :
    (name : String) (m ts : List ToolPolicy)
    → IsDistinct ts
    → lookup name (collect m ts) ≡ elim (lookup name ts) [ none ↦ lookup name m | some t ↦ some t ]
unfolding collect lookup
lookup-collect name m [] d = refl
lookup-collect name m (t ∷ ts) d =
    ground
      (arith, lookup-collect name (insert t m) ts d.1, lookup-insert name t m, eq_iff t.name name)

pub lookup-collect_distinct :
    (name : String) (ts : List ToolPolicy)
    → IsDistinct ts
    → lookup name (collect [] ts) ≡ lookup name ts
unfolding lookup
lookup-collect_distinct name ts d = ground (arith, lookup-collect name [] ts d)
