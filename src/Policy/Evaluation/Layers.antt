-- ===== src/Policy/Evaluation/Layers.antt =====
-- The winner across the layers of trust (mcp-proxy/src/policy/evaluation.rs,
-- `select_cross_layer_winner`): no layer's rules weaken what another layer demands.
use sqreen_core.Prelude.{
  ℕ, ◌≤◌, max, ◌≡◌, refl, ap, arith, true, false, Option, none, some, List, [], ◌∷◌, filter, first,
  ◌==◌,
}
use sqreen_core.Host.{Host}
use sqreen_core.Policy.Schema.{severity}
use sqreen_core.Policy.Compile.{
  PolicyTrustLayer, mandatory_baseline, organization, local, rank, CompiledRule,
}
use sqreen_core.Policy.Evaluation.{select_among, select_cross_layer_winner}
use sqreen_core.Policy.Evaluation.Winner.{
  in_layer, push, layer_winner, layer_winners, stronger, strongest, winner_within_layer, push,
  sort_rules,
}

-- The severity of a winner's effect, and of no winner that of `allow`.
abbrev pub winner_severity : Option CompiledRule → ℕ
winner_severity none = 0
winner_severity (some w) = severity w.effect

-- What one layer demands.
abbrev pub layer_severity : List CompiledRule → PolicyTrustLayer → ℕ
layer_severity matched layer = winner_severity (layer_winner matched layer)

stronger-max :
    (a b : CompiledRule)
    → severity (stronger a b).effect ≡ max (severity a.effect) (severity b.effect)
stronger-max a b = ground arith

select_among-max :
    (host : Host) (m o l : Option CompiledRule)
    → winner_severity (select_among host (push m (push o (push l [])))).0
      ≡ max (winner_severity m) (max (winner_severity o) (winner_severity l))
unfolding strongest select_among
select_among-max host none none none = refl
select_among-max host none none (some l) = omega arith
select_among-max host none (some o) none = omega arith
select_among-max host none (some o) (some l) = omega (arith, stronger-max o l)
select_among-max host (some m) none none = omega arith
select_among-max host (some m) none (some l) = omega (arith, stronger-max m l)
select_among-max host (some m) (some o) none = omega (arith, stronger-max m o)
select_among-max host (some m) (some o) (some l) =
    omega (arith, stronger-max m o, stronger-max (stronger m o) l)

-- The winner across layers has the strictest effect of the winners of the layers.
pub select_cross_layer_winner-max :
    (host : Host) (matched : List CompiledRule)
    → winner_severity (select_cross_layer_winner host matched).0
      ≡ max
          (layer_severity matched mandatory_baseline)
          (max (layer_severity matched organization) (layer_severity matched local))
unfolding select_cross_layer_winner layer_winners
select_cross_layer_winner-max host matched =
    select_among-max host (layer_winner matched mandatory_baseline)
      (layer_winner matched organization) (layer_winner matched local)

in_layer-other :
    (a b : PolicyTrustLayer) (r : CompiledRule)
    → (rank a == rank b) ≡ false
    → in_layer a r ≡ true
    → in_layer b r ≡ false
in_layer-other a b r h e = ground arith

filter-same :
    (l : PolicyTrustLayer) (rs : List CompiledRule)
    → filter (in_layer l) (filter (in_layer l) rs) ≡ filter (in_layer l) rs
filter-same l [] = refl
filter-same l (r ∷ rs) = ground (arith, filter-same l rs)

filter-other :
    (a b : PolicyTrustLayer) (rs : List CompiledRule)
    → (rank a == rank b) ≡ false
    → filter (in_layer b) (filter (in_layer a) rs) ≡ []
filter-other a b [] h = refl
filter-other a b (r ∷ rs) h = ground (arith, filter-other a b rs h, in_layer-other a b r h)

-- What the rules of one list demand of a layer.
abbrev demands : List CompiledRule → ℕ
demands rules = winner_severity (first (sort_rules rules))

demands-same :
    (l : PolicyTrustLayer) (rs : List CompiledRule)
    → demands (filter (in_layer l) (filter (in_layer l) rs)) ≤ demands (filter (in_layer l) rs)
demands-same l rs = omega (arith, ap demands (filter-same l rs))

demands-other :
    (a b : PolicyTrustLayer) (rs : List CompiledRule)
    → (rank a == rank b) ≡ false
    → demands (filter (in_layer b) (filter (in_layer a) rs)) ≤ demands (filter (in_layer b) rs)
unfolding sort_rules
demands-other a b rs h = omega (arith, ap demands (filter-other a b rs h))

-- The rules of one layer alone demand no more than they do among all the rules.
layer_severity-filter :
    (l k : PolicyTrustLayer) (rs : List CompiledRule)
    → layer_severity (filter (in_layer l) rs) k ≤ layer_severity rs k
unfolding layer_winner winner_within_layer
layer_severity-filter local local rs = demands-same local rs
layer_severity-filter organization organization rs = demands-same organization rs
layer_severity-filter mandatory_baseline mandatory_baseline rs = demands-same mandatory_baseline rs
layer_severity-filter local organization rs = demands-other local organization rs refl
layer_severity-filter local mandatory_baseline rs = demands-other local mandatory_baseline rs refl
layer_severity-filter organization local rs = demands-other organization local rs refl
layer_severity-filter organization mandatory_baseline rs =
    demands-other organization mandatory_baseline rs refl
layer_severity-filter mandatory_baseline local rs = demands-other mandatory_baseline local rs refl
layer_severity-filter mandatory_baseline organization rs =
    demands-other mandatory_baseline organization rs refl

-- Whatever rules the other layers add, the winner across layers is at least as strict as the
-- winner when the rules of one layer stand alone.
pub select_cross_layer_winner-no_weaker :
    (host : Host) (layer : PolicyTrustLayer) (matched : List CompiledRule)
    → winner_severity (select_cross_layer_winner host (filter (in_layer layer) matched)).0
      ≤ winner_severity (select_cross_layer_winner host matched).0
select_cross_layer_winner-no_weaker host layer matched = omega (
  arith,
  select_cross_layer_winner-max host matched,
  select_cross_layer_winner-max host (filter (in_layer layer) matched),
  layer_severity-filter layer mandatory_baseline matched,
  layer_severity-filter layer organization matched,
  layer_severity-filter layer local matched,
)
