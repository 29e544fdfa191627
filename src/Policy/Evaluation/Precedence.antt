-- ===== src/Policy/Evaluation/Precedence.antt =====
-- The rule that wins within a layer (mcp-proxy/src/policy/evaluation.rs, `winner_within_layer`)
-- against the order the documentation gives: priority, then severity, then position.
use sqreen_core.Prelude.{
  ◌≡◌, refl, ◌∙◌, subst, ◌⊎◌, inl, inr, ◌≤◌, ◌<◌, ◌<ℤ◌, pos_part, neg_part, ◌+◌, arith, some, List,
  [], ◌∷◌, first, All, Member, Ordering-cases, Ordering,
}
use sqreen_core.Policy.Schema.{severity}
use sqreen_core.Policy.Compile.{CompiledRule}
use sqreen_core.Policy.Evaluation.Winner.{
  compare_rules, insert_sorted, sort_rules, winner_within_layer,
}

-- The rule `w` goes before `r`: a higher priority, then a stricter effect, then an earlier place.
abbrev pub Precedes : CompiledRule → CompiledRule → Type 0
Precedes w r =
    (r.priority <ℤ w.priority)
    ⊎ ((pos_part r.priority + neg_part w.priority ≡ pos_part w.priority + neg_part r.priority)
        × ((severity r.effect < severity w.effect)
            ⊎ ((severity r.effect ≡ severity w.effect) × (w.order ≤ r.order))))

Precedes-trans : (a b c : CompiledRule) → Precedes a b → Precedes b c → Precedes a c
Precedes-trans a b c h k = ground arith

Precedes-refl : (a : CompiledRule) → Precedes a a
Precedes-refl a = ground arith

compare_rules-gt : (r x : CompiledRule) → compare_rules r x ≡ Ordering.gt → Precedes x r
unfolding compare_rules
compare_rules-gt r x h = ground arith

compare_rules-lt : (r x : CompiledRule) → compare_rules r x ≡ Ordering.lt → Precedes r x
unfolding compare_rules
compare_rules-lt r x h = ground arith

compare_rules-eq : (r x : CompiledRule) → compare_rules r x ≡ Ordering.eq → Precedes r x
unfolding compare_rules
compare_rules-eq r x h = ground arith

-- The head of `sorted` is one of the rules, and precedes all of them.
abbrev IsLeader : List CompiledRule → List CompiledRule → Type 0
IsLeader rules sorted =
    (w : CompiledRule) × (first sorted ≡ some w) × Member w rules × All (Precedes w) rules

All-Precedes :
    (a b : CompiledRule) (rs : List CompiledRule)
    → Precedes a b
    → All (Precedes b) rs
    → All (Precedes a) rs
All-Precedes a b [] h hs = tt
All-Precedes a b (r ∷ rs) h hs = (Precedes-trans a b r h hs.0, All-Precedes a b rs h hs.1)

-- The head after one insertion.
insert_sorted-first :
    (r x : CompiledRule) (xs : List CompiledRule)
    → ((first (insert_sorted r (x ∷ xs)) ≡ some x) × Precedes x r)
      ⊎ ((first (insert_sorted r (x ∷ xs)) ≡ some r) × Precedes r x)
unfolding insert_sorted
insert_sorted-first r x xs = elim (Ordering-cases (compare_rules r x)) [
  | inl c ↦ inl (ground (arith, c), compare_rules-gt r x c)
  | inr (inl c) ↦ inr (ground (arith, c), compare_rules-lt r x c)
  | inr (inr c) ↦ inr (ground (arith, c), compare_rules-eq r x c)
]

some-injective : (a b : CompiledRule) → some a ≡ some b → a ≡ b
some-injective a b h = grind arith

insert_sorted-IsLeader :
    (r : CompiledRule) (rs sorted : List CompiledRule)
    → IsLeader rs sorted
    → IsLeader (r ∷ rs) (insert_sorted r sorted)
insert_sorted-IsLeader r rs [] h = ground (arith, h.1)
insert_sorted-IsLeader r rs (x ∷ xs) (w, e, m, hs) =
    let same = some-injective x w e in
    elim (insert_sorted-first r x xs) [
      | inl (e', h) ↦ (w, e' ∙ e, inr m, (subst (λ v. Precedes v r) same h, hs))
      | inr (e', h) ↦
          (r, e', inl refl, (Precedes-refl r, All-Precedes r w rs (subst (Precedes r) same h) hs))
    ]

sort_rules-IsLeader :
    (r : CompiledRule) (rs : List CompiledRule) → IsLeader (r ∷ rs) (sort_rules (r ∷ rs))
unfolding sort_rules insert_sorted
sort_rules-IsLeader r [] = (r, refl, inl refl, (Precedes-refl r, tt))
sort_rules-IsLeader r (s ∷ rs) =
    insert_sorted-IsLeader r (s ∷ rs) (sort_rules (s ∷ rs)) (sort_rules-IsLeader s rs)

-- Among the rules of a layer, if there are any, `winner_within_layer` picks one of them, and it
-- precedes all the others: by priority, then by the severity of the effect, then by position.
pub winner_within_layer-Precedes :
    (r : CompiledRule) (rs : List CompiledRule)
    → (w : CompiledRule) × (winner_within_layer (r ∷ rs) ≡ some w)
      × Member w (r ∷ rs)
      × All (Precedes w) (r ∷ rs)
unfolding winner_within_layer
winner_within_layer-Precedes r rs = sort_rules-IsLeader r rs
