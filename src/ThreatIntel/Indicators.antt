-- ===== src/ThreatIntel/Indicators.antt =====
-- Which texts the indicators match (mcp-proxy/src/threat_intel.rs).
use sqreen_core.Prelude.{
  ℕ, ◌≡◌, refl, sym, arith, ap, ap₂, ◌∙◌, Bool, true, false, ◌||◌, List, [], ◌∷◌, ◌++◌, map, filter,
  any, codes_eq, is_empty, Bool-cases, inl, inr, trim, to_lower, if◌then◌else◌, ◌==◌, &&-true_left,
  &&-true_right,
}
use sqreen_core.ThreatIntel.Normalized.{normalized_lines-same, from_indicators-IsNormal}
use sqreen_core.ThreatIntel.{
  insert_text, sort_unstable, dedup, is_indicator, normalized_lines, from_indicators, merge_remote,
  matches_ioc, contains_ascii_ci,
}

codes_eq-eq : (a b : List ℕ) → codes_eq a b ≡ true → a ≡ b
codes_eq-eq [] [] h = refl
codes_eq-eq [] (b ∷ bs) h = ground (arith, h)
codes_eq-eq (a ∷ as') [] h = ground (arith, h)
codes_eq-eq (a ∷ as') (b ∷ bs) h =
    ap₂ ◌∷◌ (ground (arith, &&-true_left (a == b) (codes_eq as' bs) h))
      (codes_eq-eq as' bs (&&-true_right (a == b) (codes_eq as' bs) h))

module _ (p : List ℕ → Bool) where
  any-insert_text : (x : List ℕ) (ys : List (List ℕ)) → any p (insert_text x ys) ≡ (p x || any p ys)
  unfolding insert_text
  any-insert_text x [] = refl
  any-insert_text x (y ∷ ys) = ground (arith, any-insert_text x ys)

  any-sort_unstable : (xs : List (List ℕ)) → any p (sort_unstable xs) ≡ any p xs
  unfolding sort_unstable
  any-sort_unstable [] = refl
  any-sort_unstable (x ∷ xs) =
      any-insert_text x (sort_unstable xs) ∙ ap (λ b. p x || b) (any-sort_unstable xs)

  any-dedup : (xs : List (List ℕ)) → any p (dedup xs) ≡ any p xs
  unfolding dedup
  any-dedup [] = refl
  any-dedup (x ∷ []) = refl
  any-dedup (x ∷ y ∷ ys) = elim (Bool-cases (codes_eq x y)) [
    | inl e ↦ ground (arith, e, ap p (codes_eq-eq x y e), any-dedup (y ∷ ys))
    | inr e ↦ ground (arith, e, any-dedup (y ∷ ys))
  ]

  any-append : (xs ys : List (List ℕ)) → any p (xs ++ ys) ≡ (any p xs || any p ys)
  any-append [] ys = refl
  any-append (x ∷ xs) ys = ground (arith, any-append xs ys)

  any-from_indicators :
      (xs : List (List ℕ)) → any p (from_indicators xs) ≡ any p (normalized_lines xs)
  unfolding from_indicators
  any-from_indicators xs =
      any-dedup (sort_unstable (normalized_lines xs)) ∙ any-sort_unstable (normalized_lines xs)

  any-normalized_lines :
      (xs ys : List (List ℕ))
      → any p (normalized_lines (xs ++ ys))
        ≡ (any p (normalized_lines xs) || any p (normalized_lines ys))
  unfolding normalized_lines
  any-normalized_lines [] ys = refl
  any-normalized_lines (x ∷ xs) ys = by_line (is_indicator (trim x)) (any-normalized_lines xs ys)
    where
      lines : List (List ℕ) → List (List ℕ)
      lines zs = map (map to_lower) (filter is_indicator (map trim zs))

      by_line :
          (b : Bool)
          → any p (lines (xs ++ ys)) ≡ (any p (lines xs) || any p (lines ys))
          → any p (
              map (map to_lower) (
                if b
                then trim x ∷ filter is_indicator (map trim (xs ++ ys))
                else filter is_indicator (map trim (xs ++ ys))))
            ≡ (any p (
                  map (map to_lower) (
                    if b
                    then trim x ∷ filter is_indicator (map trim xs)
                    else filter is_indicator (map trim xs)))
                || any p (lines ys))
      by_line true h = ground (arith, h)
      by_line false h = h

matches_ioc-any :
    (indicators : List (List ℕ)) (input : List ℕ)
    → matches_ioc indicators input
      ≡ (if is_empty input then false else any (contains_ascii_ci input) indicators)
unfolding matches_ioc
matches_ioc-any [] [] = refl
matches_ioc-any [] (c ∷ cs) = refl
matches_ioc-any (i ∷ is') [] = refl
matches_ioc-any (i ∷ is') (c ∷ cs) = refl

-- Merging into lines that are read from a file
merged-matches :
    (local remote : List (List ℕ)) (input : List ℕ)
    → matches_ioc (merge_remote local remote) input
      ≡ (matches_ioc (from_indicators local) input || matches_ioc (from_indicators remote) input)
unfolding merge_remote
merged-matches local remote [] = ground (
  arith,
  matches_ioc-any (from_indicators (local ++ remote)) [],
  matches_ioc-any (from_indicators local) [],
  matches_ioc-any (from_indicators remote) [],
)
merged-matches local remote (c ∷ cs) = ground (
  arith,
  matches_ioc-any (from_indicators (local ++ remote)) (c ∷ cs),
  matches_ioc-any (from_indicators local) (c ∷ cs),
  matches_ioc-any (from_indicators remote) (c ∷ cs),
  any-from_indicators (contains_ascii_ci (c ∷ cs)) (local ++ remote),
  any-from_indicators (contains_ascii_ci (c ∷ cs)) local,
  any-from_indicators (contains_ascii_ci (c ∷ cs)) remote,
  any-normalized_lines (contains_ascii_ci (c ∷ cs)) local remote,
)

-- Reading the lines of a matcher again gives a matcher of the same texts.
again-matches :
    (lines : List (List ℕ)) (input : List ℕ)
    → matches_ioc (from_indicators (from_indicators lines)) input
      ≡ matches_ioc (from_indicators lines) input
again-matches lines input =
    matches_ioc-any (from_indicators (from_indicators lines)) input
    ∙ ap (λ (b : Bool). if is_empty input then false else b)
        (any-from_indicators (contains_ascii_ci input) (from_indicators lines)
          ∙ ap (any (contains_ascii_ci input))
              (normalized_lines-same (from_indicators lines) (from_indicators-IsNormal lines)))
    ∙ sym (matches_ioc-any (from_indicators lines) input)

-- A matcher, read from any lines, that merges the lines of a remote feed matches exactly what it
-- matched before and what the matcher of the feed matches: to normalize its lines again, to sort and
-- to remove repetitions lose no detection and add none.
pub merge_remote-matches :
    (local remote : List (List ℕ)) (input : List ℕ)
    → matches_ioc (merge_remote (from_indicators local) remote) input
      ≡ (matches_ioc (from_indicators local) input || matches_ioc (from_indicators remote) input)
merge_remote-matches local remote input =
    merged-matches (from_indicators local) remote input
    ∙ ap (λ (b : Bool). b || matches_ioc (from_indicators remote) input) (again-matches local input)
