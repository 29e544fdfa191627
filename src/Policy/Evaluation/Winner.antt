-- ===== src/Policy/Evaluation/Winner.antt =====
-- Which rule wins: `winner_within_layer` and `select_cross_layer_winner` of
-- mcp-proxy/src/policy/evaluation.rs.
use Prim.Native.String.{compare as compare_str}
use sqreen_core.Prelude.{
  compare, Ordering, compare_ℤ, Bool, ◌&&◌, ◌||◌, ltb, ◌==◌, Option, none, some, List, [], ◌∷◌,
  filter, first, if◌then◌else◌,
}
use sqreen_core.Policy.Schema.{severity}
use sqreen_core.Policy.Compile.{
  PolicyTrustLayer, mandatory_baseline, organization, local, rank, CompiledRule,
}

-- `Ordering::then_with`
abbrev pub then_with : Ordering → Ordering → Ordering
then_with Ordering.eq o = o
then_with Ordering.lt o = Ordering.lt
then_with Ordering.gt o = Ordering.gt

-- The comparison of `winner_within_layer`
unfoldable pub compare_rules : CompiledRule → CompiledRule → Ordering
compare_rules left right = then_with (compare_ℤ right.priority left.priority) (
    then_with (compare (severity right.effect) (severity left.effect))
      (then_with (compare left.order right.order) (compare_str left.name right.name)))

-- `sort_by`, a stable sort
unfoldable pub insert_sorted : CompiledRule → List CompiledRule → List CompiledRule
insert_sorted r [] = r ∷ []
insert_sorted r (x ∷ xs) = elim (compare_rules r x) [
  | Ordering.gt ↦ x ∷ insert_sorted r xs
  | _ ↦ r ∷ x ∷ xs
]

unfoldable pub sort_rules : List CompiledRule → List CompiledRule
sort_rules [] = []
sort_rules (r ∷ rs) = insert_sorted r (sort_rules rs)

-- `winner_within_layer`
unfoldable pub winner_within_layer : List CompiledRule → Option CompiledRule
winner_within_layer rules = first (sort_rules rules)

-- `r.trust_layer == layer`
abbrev pub in_layer : PolicyTrustLayer → CompiledRule → Bool
in_layer layer r = rank r.trust_layer == rank layer

abbrev pub push : Option CompiledRule → List CompiledRule → List CompiledRule
push none ws = ws
push (some w) ws = w ∷ ws

-- The winner among the rules of one layer
unfoldable pub layer_winner : List CompiledRule → PolicyTrustLayer → Option CompiledRule
unfolding winner_within_layer
layer_winner matched layer = winner_within_layer (filter (in_layer layer) matched)

-- The winners of the layers, from the most trusted on
unfoldable pub layer_winners : List CompiledRule → List CompiledRule
layer_winners matched =
    push (layer_winner matched mandatory_baseline)
      (push (layer_winner matched organization) (push (layer_winner matched local) []))

-- One round of the loop for the strongest effect
abbrev pub stronger : CompiledRule → CompiledRule → CompiledRule
stronger best cand =
    if ltb (severity best.effect) (severity cand.effect)
      || (severity cand.effect == severity best.effect
          && ltb (rank best.trust_layer) (rank cand.trust_layer))
    then cand
    else best

-- The strongest of the winners
unfoldable pub strongest : CompiledRule → List CompiledRule → CompiledRule
strongest best [] = best
strongest best (c ∷ cs) = strongest (stronger best c) cs
