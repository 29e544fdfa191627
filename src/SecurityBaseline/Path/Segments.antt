-- ===== src/SecurityBaseline/Path/Segments.antt =====
-- The segments of a path in mcp-proxy/src/security_baseline/path.rs: splitting and joining.
use sqreen_core.Prelude.{
  ℕ, Bool, true, false, not, ◌&&◌, ◌==◌, List, [], ◌∷◌, ◌++◌, all, is_empty, starts_with,
  &&-true_left, &&-true_right, ◌≡◌, refl, sym, ap, ◌∙◌, subst, arith,
}
use mathlib.Core.List.{reverse, reverse-cons}
use sqreen_core.SecurityBaseline.Path.{slash, onto_first, split, join_segs}

-- A segment as `split` gives it, and one that can stand on the stack
abbrev pub no_slash : List ℕ → Bool
no_slash seg = all (λ (b : ℕ). not (b == slash)) seg

abbrev pub is_segment : List ℕ → Bool
is_segment seg = no_slash seg && not (is_empty seg)

-- The segments that `split` gives have no slash
onto_first-no_slash :
    (b : ℕ) (segs : List (List ℕ))
    → (b == slash) ≡ false
    → all no_slash segs ≡ true
    → all no_slash (onto_first b segs) ≡ true
onto_first-no_slash b [] n h = ground arith
onto_first-no_slash b (seg ∷ segs) n h = ground arith

pub split-no_slash : (path : List ℕ) → all no_slash (split path) ≡ true
unfolding split
split-no_slash [] = refl
split-no_slash (b ∷ bs) =
    let below = split-no_slash bs in
    let onto = onto_first-no_slash b (split bs) in ground (arith, below, onto)

all-append :
    (p : List ℕ → Bool) (xs ys : List (List ℕ))
    → all p xs ≡ true
    → all p ys ≡ true
    → all p (xs ++ ys) ≡ true
all-append p [] ys h k = k
all-append p (x ∷ xs) ys h k = let rest = all-append p xs ys in ground (arith, rest)

pub all-reverse :
    (p : List ℕ → Bool) (xs : List (List ℕ)) → all p xs ≡ true → all p (reverse xs) ≡ true
all-reverse p [] h = refl
all-reverse p (x ∷ xs) h =
    subst (λ (ys : List (List ℕ)). all p ys ≡ true) (sym (reverse-cons x xs))
      (all-append p (reverse xs) (x ∷ []) (all-reverse p xs (&&-true_right (p x) _ h))
        (ap (λ (b : Bool). b && true) (&&-true_left (p x) _ h)))

-- `split` takes apart what `join` put together
split-segment : (seg : List ℕ) → no_slash seg ≡ true → split seg ≡ seg ∷ []
unfolding split
split-segment [] h = refl
split-segment (b ∷ seg) h = let rest = split-segment seg in ground (arith, rest)

split-first :
    (seg rest : List ℕ) → no_slash seg ≡ true → split (seg ++ slash ∷ rest) ≡ seg ∷ split rest
unfolding split
split-first [] rest h = refl
split-first (b ∷ seg) rest h = let below = split-first seg rest in ground (arith, below)

first-no_slash :
    (seg : List ℕ) (segs : List (List ℕ)) → all is_segment (seg ∷ segs) ≡ true → no_slash seg ≡ true
first-no_slash seg segs h = ground arith

pub split-join :
    (seg : List ℕ) (segs : List (List ℕ))
    → all is_segment (seg ∷ segs) ≡ true
    → split (join_segs (seg ∷ segs)) ≡ seg ∷ segs
unfolding join_segs
split-join seg [] h = split-segment seg (first-no_slash seg [] h)
split-join seg (next ∷ segs) h =
    split-first seg (join_segs (next ∷ segs)) (first-no_slash seg (next ∷ segs) h)
    ∙ ap (λ (rest : List (List ℕ)). seg ∷ rest)
        (split-join next segs (&&-true_right (is_segment seg) _ h))

-- The text of a relative path with a segment neither is empty nor begins at the root
pub join_segs-relative :
    (seg : List ℕ) (segs : List (List ℕ))
    → is_segment seg ≡ true
    → (is_empty (join_segs (seg ∷ segs)) ≡ false)
      × (starts_with (slash ∷ []) (join_segs (seg ∷ segs)) ≡ false)
unfolding join_segs
join_segs-relative [] segs h = ground arith
join_segs-relative (b ∷ seg) [] h = (refl, ground arith)
join_segs-relative (b ∷ seg) (next ∷ segs) h = (refl, ground arith)
