-- ===== src/Policy/Compose/Sets.antt =====
-- What the containers of compose.rs keep: no set loses a text, and a map of tools answers for a
-- merged tool with the merge.
use text.Mathlib.TextPositions.{eq_refl}
use sqreen_core.Prelude.{
  ◌≡◌, String, str_eq, eq_iff, true, false, none, some, List, [], ◌∷◌, ◌++◌, contains,
  if◌then◌else◌, arith, Bool-cases, inl, inr,
}
use sqreen_core.Policy.Schema.{ToolPolicy}
use sqreen_core.Policy.Compose.Tools.{extend_set, lookup, entry}

contains-append_left :
    (s t : List String) (p : String) → contains s p ≡ true → contains (s ++ t) p ≡ true
contains-append_left [] t p h = cc
contains-append_left (x ∷ s) t p h = ground (arith, contains-append_left s t p)

-- A set that is extended keeps its texts.
pub extend_set-keeps :
    (s xs : List String) (p : String) → contains s p ≡ true → contains (extend_set s xs) p ≡ true
unfolding extend_set
extend_set-keeps s [] p h = h
extend_set-keeps s (x ∷ xs) p h =
    extend_set-keeps (if contains s x then s else s ++ x ∷ []) xs p
      (ground (arith, contains-append_left s (x ∷ []) p))

contains-append_last : (s : List String) (x : String) → contains (s ++ x ∷ []) x ≡ true
contains-append_last [] x = rw (eq_refl x)
contains-append_last (y ∷ s) x = ground (arith, contains-append_last s x)

contains_head :
    (s : List String) (x p : String)
    → str_eq x p ≡ true
    → contains (if contains s x then s else s ++ x ∷ []) p ≡ true
contains_head s x p h = ground (arith, eq_iff x p, contains-append_last s x)

-- A set that is extended has the new texts.
pub extend_set-adds :
    (s xs : List String) (p : String) → contains xs p ≡ true → contains (extend_set s xs) p ≡ true
unfolding extend_set
extend_set-adds s [] p h = cc
extend_set-adds s (x ∷ xs) p h = elim (Bool-cases (str_eq x p)) [
  | inl here ↦ extend_set-keeps _ xs p (contains_head s x p here)
  | inr other ↦ extend_set-adds (if contains s x then s else s ++ x ∷ []) xs p (ground arith)
]

-- No name occurs twice.
abbrev pub IsDistinct : List ToolPolicy → Type 0
IsDistinct [] = Unit
IsDistinct (t ∷ ts) = (lookup t.name ts ≡ none) × IsDistinct ts

module _ (modify : ToolPolicy → ToolPolicy → ToolPolicy)
    (keeps_name : (a b : ToolPolicy) → (modify a b).name ≡ a.name) where
  pub lookup-entry_self :
      (t : ToolPolicy) (m : List ToolPolicy)
      → lookup t.name (entry modify t m)
        ≡ some (elim (lookup t.name m) [ none ↦ t | some e ↦ modify e t ])
  unfolding lookup entry
  lookup-entry_self t [] = ground (arith, eq_iff t.name t.name)
  lookup-entry_self t (e ∷ m) = ground (arith, keeps_name e t, lookup-entry_self t m)

  pub lookup-entry_ne :
      (name : String) (t : ToolPolicy) (m : List ToolPolicy)
      → str_eq t.name name ≡ false
      → lookup name (entry modify t m) ≡ lookup name m
  unfolding lookup entry
  lookup-entry_ne name t [] h = ground arith
  lookup-entry_ne name t (e ∷ m) h = ground (
    arith,
    keeps_name e t,
    lookup-entry_ne name t m,
    eq_iff e.name t.name,
    eq_iff e.name name,
    eq_iff t.name name,
  )

  pub entry-IsDistinct :
      (t : ToolPolicy) (m : List ToolPolicy) → IsDistinct m → IsDistinct (entry modify t m)
  unfolding lookup entry
  entry-IsDistinct t [] h = ground arith
  entry-IsDistinct t (e ∷ m) h = ground (
    arith,
    keeps_name e t,
    entry-IsDistinct t m h.1,
    lookup-entry_ne e.name t m,
    eq_iff e.name t.name,
    eq_iff t.name e.name,
  )
