-- ===== src/ThreatIntel/Normalized.antt =====
-- The lines of a matcher (mcp-proxy/src/threat_intel.rs) are normalized: to normalize them again
-- changes nothing.
use sqreen_core.Prelude.{
  ℕ, ◌≡◌, refl, sym, ap, ap₂, ◌∙◌, subst, arith, Bool, true, false, not, ◌&&◌, List, [], ◌∷◌, ◌++◌,
  map, filter, if◌then◌else◌, is_space, trim_start, trim, to_lower, All, codes_eq, &&-true_left,
  &&-true_right,
}
use mathlib.Core.List.{reverse, reverse-cons, reverse-append, reverse-reverse}
use sqreen_core.ThreatIntel.{
  is_indicator, normalized_lines, insert_text, sort_unstable, dedup, text_before, from_indicators,
}

not-true : (b : Bool) → not b ≡ true → b ≡ false
not-true true h = ground arith
not-true false h = refl

and_intro : {a b : Bool} → a ≡ true → b ≡ true → (a && b) ≡ true
and_intro h k = ap₂ ◌&&◌ h k

-- A text that does not begin with a space
abbrev leads : List ℕ → Bool
leads [] = true
leads (c ∷ cs) = not (is_space c)

trim_start-leads : (cs : List ℕ) → leads (trim_start cs) ≡ true
unfolding trim_start
trim_start-leads [] = refl
trim_start-leads (c ∷ cs) = by_space (is_space c) refl (trim_start-leads cs)
  where
    by_space :
        (b : Bool)
        → is_space c ≡ b
        → leads (trim_start cs) ≡ true
        → leads (if b then trim_start cs else c ∷ cs) ≡ true
    by_space true e h = h
    by_space false e h = ap not e

trim_start-same : (cs : List ℕ) → leads cs ≡ true → trim_start cs ≡ cs
unfolding trim_start
trim_start-same [] h = refl
trim_start-same (c ∷ cs) h =
    ap (λ (b : Bool). if b then trim_start cs else c ∷ cs) (not-true (is_space c) h)

trim_start-last :
    (cs : List ℕ) (c : ℕ) → is_space c ≡ false → trim_start (cs ++ c ∷ []) ≡ trim_start cs ++ c ∷ []
unfolding trim_start
trim_start-last [] c h = ap (λ (b : Bool). if b then [] else c ∷ []) h
trim_start-last (x ∷ xs) c h = by_space (is_space x) (trim_start-last xs c h)
  where
    by_space :
        (b : Bool)
        → trim_start (xs ++ c ∷ []) ≡ trim_start xs ++ c ∷ []
        → (if b then trim_start (xs ++ c ∷ []) else x ∷ (xs ++ c ∷ []))
          ≡ (if b then trim_start xs else x ∷ xs) ++ c ∷ []
    by_space true e = e
    by_space false e = refl

-- Cutting the end of a text leaves its beginning.
trim_end-leads : (cs : List ℕ) → leads cs ≡ true → leads (reverse (trim_start (reverse cs))) ≡ true
unfolding trim_start
trim_end-leads [] h = refl
trim_end-leads (c ∷ cs) h =
    subst (λ (l : List ℕ). leads l ≡ true)
      (sym (
        ap (λ (l : List ℕ). reverse (trim_start l)) (reverse-cons c cs)
        ∙ ap reverse (trim_start-last (reverse cs) c (not-true (is_space c) h))
        ∙ reverse-append (trim_start (reverse cs)) (c ∷ [])))
      h

-- A text that neither begins nor ends with a space
abbrev is_tight : List ℕ → Bool
is_tight cs = leads cs && leads (reverse cs)

trim-is_tight : (cs : List ℕ) → is_tight (trim cs) ≡ true
unfolding trim
trim-is_tight cs = and_intro (trim_end-leads (trim_start cs) (trim_start-leads cs)) (
    subst (λ (l : List ℕ). leads l ≡ true)
      (sym (reverse-reverse (trim_start (reverse (trim_start cs)))))
      (trim_start-leads (reverse (trim_start cs))))

tight-trim : (cs : List ℕ) → leads cs ≡ true → leads (reverse cs) ≡ true → trim cs ≡ cs
unfolding trim
tight-trim cs h k =
    ap (λ (l : List ℕ). reverse (trim_start (reverse l))) (trim_start-same cs h)
    ∙ ap reverse (trim_start-same (reverse cs) k)
    ∙ reverse-reverse cs

-- The case of letters does not matter to spaces.
is_space-to_lower : (c : ℕ) → is_space (to_lower c) ≡ is_space c
unfolding is_space to_lower
is_space-to_lower c = ground arith

leads-to_lower : (cs : List ℕ) → leads (map to_lower cs) ≡ leads cs
leads-to_lower [] = refl
leads-to_lower (c ∷ cs) = ap not (is_space-to_lower c)

to_lower_idem : (c : ℕ) → to_lower (to_lower c) ≡ to_lower c
unfolding to_lower
to_lower_idem c = ground arith

lower_idem : (cs : List ℕ) → map to_lower (map to_lower cs) ≡ map to_lower cs
lower_idem [] = refl
lower_idem (c ∷ cs) = ap₂ ◌∷◌ (to_lower_idem c) (lower_idem cs)

is_indicator-to_lower : (cs : List ℕ) → is_indicator (map to_lower cs) ≡ is_indicator cs
unfolding to_lower
is_indicator-to_lower [] = refl
is_indicator-to_lower (c ∷ cs) = ground arith

map_append : (f : ℕ → ℕ) (cs : List ℕ) (c : ℕ) → map f (cs ++ c ∷ []) ≡ map f cs ++ f c ∷ []
map_append f [] c = refl
map_append f (x ∷ xs) c = ap (λ (l : List ℕ). f x ∷ l) (map_append f xs c)

reverse-map : (f : ℕ → ℕ) (cs : List ℕ) → reverse (map f cs) ≡ map f (reverse cs)
reverse-map f [] = refl
reverse-map f (c ∷ cs) =
    reverse-cons (f c) (map f cs)
    ∙ ap (λ (l : List ℕ). l ++ f c ∷ []) (reverse-map f cs)
    ∙ sym (ap (map f) (reverse-cons c cs) ∙ map_append f (reverse cs) c)

-- A line that is normalized already
abbrev pub IsNormal : List ℕ → Type 0
IsNormal line = (trim line ≡ line) × (map to_lower line ≡ line) × (is_indicator line ≡ true)

trim-to_lower : (cs : List ℕ) → trim (map to_lower (trim cs)) ≡ map to_lower (trim cs)
trim-to_lower cs =
    tight-trim (map to_lower (trim cs))
      (leads-to_lower (trim cs) ∙ &&-true_left (leads (trim cs)) _ (trim-is_tight cs))
      (ap leads (reverse-map to_lower (trim cs))
        ∙ leads-to_lower (reverse (trim cs))
        ∙ &&-true_right (leads (trim cs)) _ (trim-is_tight cs))

normalized_lines-IsNormal : (lines : List (List ℕ)) → All IsNormal (normalized_lines lines)
unfolding normalized_lines
normalized_lines-IsNormal [] = tt
normalized_lines-IsNormal (l ∷ ls) =
    by_line (is_indicator (trim l)) refl (normalized_lines-IsNormal ls)
  where
    rest : List (List ℕ)
    rest = filter is_indicator (map trim ls)

    by_line :
        (b : Bool)
        → is_indicator (trim l) ≡ b
        → All IsNormal (map (map to_lower) rest)
        → All IsNormal (map (map to_lower) (if b then trim l ∷ rest else rest))
    by_line true e h =
        ((trim-to_lower l, lower_idem (trim l), is_indicator-to_lower (trim l) ∙ e), h)
    by_line false e h = h

pub normalized_lines-same :
    (lines : List (List ℕ)) → All IsNormal lines → normalized_lines lines ≡ lines
unfolding normalized_lines
normalized_lines-same [] h = refl
normalized_lines-same (l ∷ ls) (n, h) =
    ap
      (λ (x : List ℕ). map (map to_lower) (
        if is_indicator x
        then x ∷ filter is_indicator (map trim ls)
        else filter is_indicator (map trim ls)))
      n.0
    ∙ ap
        (λ (b : Bool).
          map (map to_lower) (
            if b then l ∷ filter is_indicator (map trim ls) else filter is_indicator (map trim ls)))
        n.2
    ∙ ap₂ ◌∷◌ n.1 (normalized_lines-same ls h)

-- Sorting and the removal of repetitions keep what holds of all lines.
module _ (P : List ℕ → Type 0) where
  All-insert_text : (x : List ℕ) (ys : List (List ℕ)) → P x → All P ys → All P (insert_text x ys)
  unfolding insert_text
  All-insert_text x [] p h = (p, tt)
  All-insert_text x (y ∷ ys) p (q, h) = by_order (text_before y x) (All-insert_text x ys p h)
    where
      by_order :
          (b : Bool)
          → All P (insert_text x ys)
          → All P (if b then y ∷ insert_text x ys else x ∷ y ∷ ys)
      by_order true k = (q, k)
      by_order false k = (p, (q, h))

  All-sort_unstable : (xs : List (List ℕ)) → All P xs → All P (sort_unstable xs)
  unfolding sort_unstable
  All-sort_unstable [] h = tt
  All-sort_unstable (x ∷ xs) (p, h) =
      All-insert_text x (sort_unstable xs) p (All-sort_unstable xs h)

  All-dedup : (xs : List (List ℕ)) → All P xs → All P (dedup xs)
  unfolding dedup
  All-dedup [] h = tt
  All-dedup (x ∷ []) h = h
  All-dedup (x ∷ y ∷ ys) (p, h) = by_eq (codes_eq x y) (All-dedup (y ∷ ys) h)
    where
      by_eq :
          (b : Bool)
          → All P (dedup (y ∷ ys))
          → All P (if b then dedup (y ∷ ys) else x ∷ dedup (y ∷ ys))
      by_eq true k = k
      by_eq false k = (p, k)

pub from_indicators-IsNormal : (lines : List (List ℕ)) → All IsNormal (from_indicators lines)
unfolding from_indicators
from_indicators-IsNormal lines =
    All-dedup IsNormal (sort_unstable (normalized_lines lines))
      (All-sort_unstable IsNormal (normalized_lines lines) (normalized_lines-IsNormal lines))
