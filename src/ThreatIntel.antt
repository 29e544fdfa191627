-- ===== src/ThreatIntel.antt =====
-- Indicators of compromise: the matcher of mcp-proxy/src/threat_intel.rs. Texts are lists of bytes,
-- and white space that is not ASCII stands outside the model of `trim`.
pub mod Normalized
pub mod Indicators
use sqreen_core.Prelude.{
  ℕ, compare, Ordering, ltb, ◌==◌, length, Bool, true, false, ◌||◌, ◌&&◌, List, [], ◌∷◌, ◌++◌, map,
  filter, trim, to_lower, codes_eq, any, not, is_empty, if◌then◌else◌,
}

-- `Ord::cmp` of texts, byte by byte
abbrev pub text_before : List ℕ → List ℕ → Bool
text_before [] [] = false
text_before [] (b ∷ bs) = true
text_before (a ∷ as') [] = false
text_before (a ∷ as') (b ∷ bs) = elim (compare a b) [
  | Ordering.lt ↦ true
  | Ordering.gt ↦ false
  | Ordering.eq ↦ text_before as' bs
]

-- `sort_unstable`, as an insertion sort: equal texts cannot be told apart, so every sort agrees
unfoldable pub insert_text : List ℕ → List (List ℕ) → List (List ℕ)
insert_text x [] = x ∷ []
insert_text x (y ∷ ys) = if text_before y x then y ∷ insert_text x ys else x ∷ y ∷ ys

unfoldable pub sort_unstable : List (List ℕ) → List (List ℕ)
unfolding insert_text
sort_unstable [] = []
sort_unstable (x ∷ xs) = insert_text x (sort_unstable xs)

-- `dedup`: of equal neighbours the first is kept
unfoldable pub dedup : List (List ℕ) → List (List ℕ)
dedup [] = []
dedup (x ∷ []) = x ∷ []
dedup (x ∷ y ∷ ys) = let rest = dedup (y ∷ ys) in if codes_eq x y then rest else x ∷ rest

-- `!line.is_empty() && !line.starts_with('#')`
abbrev pub is_indicator : List ℕ → Bool
is_indicator [] = false
is_indicator (c ∷ cs) = not (c == 35)

-- The lines of `from_indicators` before they are sorted
unfoldable pub normalized_lines : List (List ℕ) → List (List ℕ)
unfolding trim to_lower
normalized_lines lines = map (map to_lower) (filter is_indicator (map trim lines))

-- `ThreatIntelMatcher::from_indicators`, as the list of indicators
unfoldable pub from_indicators : List (List ℕ) → List (List ℕ)
unfolding sort_unstable dedup normalized_lines
from_indicators lines = dedup (sort_unstable (normalized_lines lines))

-- `ThreatIntelMatcher::merge_remote`
unfoldable pub merge_remote : List (List ℕ) → List (List ℕ) → List (List ℕ)
unfolding from_indicators
merge_remote indicators remote = from_indicators (indicators ++ remote)

-- `indicator_count`
abbrev pub indicator_count : List (List ℕ) → ℕ
indicator_count = length

-- Does a text begin with the needle, up to ASCII case? `eq_ignore_ascii_case` on one window
unfoldable pub begins_ci : List ℕ → List ℕ → Bool
unfolding to_lower
begins_ci [] hay = true
begins_ci (n ∷ ns) [] = false
begins_ci (n ∷ ns) (h ∷ hs) = to_lower h == to_lower n && begins_ci ns hs

-- `windows(needle.len()).any(…)`, of a needle that is not empty
unfoldable pub any_window : List ℕ → List ℕ → Bool
unfolding begins_ci
any_window needle [] = begins_ci needle []
any_window needle (h ∷ hs) = begins_ci needle (h ∷ hs) || any_window needle hs

-- `contains_ascii_ci`
unfoldable pub contains_ascii_ci : List ℕ → List ℕ → Bool
unfolding any_window
contains_ascii_ci haystack [] = false
contains_ascii_ci haystack (n ∷ ns) =
    if ltb (length haystack) (length (n ∷ ns)) then false else any_window (n ∷ ns) haystack

-- `ThreatIntelMatcher::matches_ioc`
unfoldable pub matches_ioc : List (List ℕ) → List ℕ → Bool
unfolding contains_ascii_ci
matches_ioc indicators input =
    if is_empty indicators || is_empty input
    then false
    else any (contains_ascii_ci input) indicators
