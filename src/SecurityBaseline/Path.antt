-- ===== src/SecurityBaseline/Path.antt =====
-- The normalization of paths: mcp-proxy/src/security_baseline/path.rs. A text is the list of its bytes.
pub mod Segments
pub mod Collapse
pub mod Meaning
use sqreen_core.Prelude.{
  ℕ, zero, suc, ◌+◌, ◌-◌, ◌*◌, Bool, true, false, not, ◌&&◌, ◌||◌, ◌==◌, leb, Option, none, some,
  List, [], ◌∷◌, ◌++◌, map, any, drop, filter, is_empty, if◌then◌else◌, String, codes, codes_eq,
  starts_with, has_infix, has_any, to_lower,
}
use mathlib.Core.List.{reverse}

-- The bytes `/`, `\` and `%`
abbrev pub slash : ℕ
slash = 47

abbrev pub backslash : ℕ
backslash = 92

abbrev pub percent : ℕ
percent = 37

-- `MAX_PERCENT_DECODE_PASSES`
abbrev pub max_percent_decode_passes : ℕ
max_percent_decode_passes = 2

-- `NormalizedPath`
pub record NormalizedPath : Type 0 where
  pub original : List ℕ
  pub normalized_path : List ℕ
  pub has_traversal : Bool

-- `from_hex`
unfoldable pub from_hex : ℕ → Option ℕ
from_hex b =
    if leb 48 b && leb b 57
    then some (b - 48)
    else if leb 97 b && leb b 102
    then some (b - 97 + 10)
    else if leb 65 b && leb b 70
    then some (b - 65 + 10)
    else none

-- The byte of `(hi << 4) | lo`, of two hexadecimal digits
abbrev pub combined : Option ℕ → Option ℕ → Option ℕ
combined (some hi) (some lo) = some (hi * 16 + lo)
combined _ _ = none

-- The byte that three bytes escape
unfoldable pub unescaped : ℕ → ℕ → ℕ → Option ℕ
unfolding from_hex
unescaped b h l = if b == percent then combined (from_hex h) (from_hex l) else none

-- The loop of `percent_decode_once`: the bytes, and whether one of them was escaped
unfoldable pub decode_bytes : List ℕ → List ℕ × Bool
unfolding unescaped
decode_bytes [] = ([], false)
decode_bytes (b ∷ []) = (b ∷ [], false)
decode_bytes (b ∷ h ∷ []) = (b ∷ h ∷ [], false)
decode_bytes (b ∷ h ∷ l ∷ bs) = elim (unescaped b h l) [
  | some c ↦ (c ∷ (decode_bytes bs).0, true)
  | none ↦ (b ∷ (decode_bytes (h ∷ l ∷ bs)).0, (decode_bytes (h ∷ l ∷ bs)).1)
]

-- `parent_seg`, and the segment of the current directory
abbrev pub parent_seg : List ℕ
parent_seg = 46 ∷ 46 ∷ []

abbrev pub current_seg : List ℕ
current_seg = 46 ∷ []

abbrev pub is_parent : List ℕ → Bool
is_parent seg = codes_eq seg parent_seg

-- The fragments of `looks_like_traversal_once`
abbrev pub traversal_fragments : List String
traversal_fragments =
    "../" ∷ "..\\" ∷ "%2e%2e" ∷ "%252e%252e" ∷ "%2e." ∷ ".%2e" ∷ "%2e%2f" ∷ "%2e%5c" ∷ "..%2f" ∷ []

-- `looks_like_traversal_once`
unfoldable pub looks_like_traversal_once : List ℕ → Bool
unfolding to_lower
looks_like_traversal_once input = has_any (map to_lower input) traversal_fragments

-- `path.split('/')`
abbrev pub onto_first : ℕ → List (List ℕ) → List (List ℕ)
onto_first b [] = (b ∷ []) ∷ []
onto_first b (seg ∷ segs) = (b ∷ seg) ∷ segs

unfoldable pub split : List ℕ → List (List ℕ)
split [] = [] ∷ []
split (b ∷ bs) = if b == slash then [] ∷ split bs else onto_first b (split bs)

-- `stack.join("/")`
unfoldable pub join_segs : List (List ℕ) → List ℕ
join_segs [] = []
join_segs (seg ∷ []) = seg
join_segs (seg ∷ next ∷ segs) = seg ++ slash ∷ join_segs (next ∷ segs)

-- A parent segment on the stack, whose top comes first: does the path begin at the root?
unfoldable pub ascend : Bool → List ℕ → List (List ℕ) → List (List ℕ)
ascend absolute seg [] = if absolute then [] else seg ∷ []
ascend absolute seg (prev ∷ stack) =
    if not (is_parent prev)
    then stack
    else if not absolute
    then seg ∷ prev ∷ stack
    else prev ∷ stack

-- The `match` on one segment
unfoldable pub collapse_seg : Bool → List ℕ → List (List ℕ) → List (List ℕ)
unfolding ascend
collapse_seg absolute seg stack =
    if is_empty seg || codes_eq seg current_seg
    then stack
    else if is_parent seg
    then ascend absolute seg stack
    else seg ∷ stack

-- The loop of `collapse_dot_segments`
unfoldable pub collapse_segs : Bool → List (List ℕ) → List (List ℕ) → List (List ℕ)
unfolding collapse_seg
collapse_segs absolute [] stack = stack
collapse_segs absolute (seg ∷ segs) stack =
    collapse_segs absolute segs (collapse_seg absolute seg stack)

-- The text of the segments that are left
unfoldable pub rendered : Bool → List ℕ → List ℕ
rendered absolute joined =
    let out = if absolute then slash ∷ joined else joined in
    if is_empty out && absolute then slash ∷ [] else if is_empty out then current_seg else out

-- `collapse_dot_segments`
unfoldable pub collapse_dot_segments : List ℕ → List ℕ
unfolding split collapse_segs join_segs rendered
collapse_dot_segments path =
    let absolute = starts_with (slash ∷ []) path in
    rendered absolute (join_segs (reverse (collapse_segs absolute (split path) [])))

-- `String::from_utf8_lossy` is an argument.
module _ (from_utf8_lossy : List ℕ → List ℕ) where
  -- `percent_decode_once`
  unfoldable pub percent_decode_once : List ℕ → Option (List ℕ)
  unfolding decode_bytes
  percent_decode_once input =
      let decoded = decode_bytes input in
      if decoded.1 then some (from_utf8_lossy decoded.0) else none

  -- `looks_like_traversal`
  unfoldable pub looks_like_traversal : List ℕ → Bool
  unfolding looks_like_traversal_once percent_decode_once
  looks_like_traversal input = looks_like_traversal_once input || elim (percent_decode_once input) [
    | some decoded ↦ looks_like_traversal_once decoded
    | none ↦ false
  ]

  -- The passes that are left of the loop of `normalize_path_for_policy_with`
  unfoldable pub decode_passes : ℕ → List ℕ → List ℕ
  unfolding percent_decode_once
  decode_passes zero current = current
  decode_passes (suc n) current = elim (percent_decode_once current) [
    | some next ↦ if codes_eq next current then current else decode_passes n next
    | none ↦ current
  ]

  -- The text before the segments are collapsed
  unfoldable pub decoded_path : List ℕ → List ℕ
  unfolding decode_passes
  decoded_path input = decode_passes max_percent_decode_passes (
      filter (λ (b : ℕ). not (b == 0)) (map (λ (b : ℕ). if b == backslash then slash else b) input))

  -- `normalize_path_for_policy_with`, of which `normalize_path_for_policy` is an instance
  unfoldable pub normalize_path_for_policy : List ℕ → NormalizedPath
  unfolding decoded_path collapse_dot_segments looks_like_traversal
  normalize_path_for_policy input =
      let current = collapse_dot_segments (decoded_path input) in
      record {
        original = input;
        normalized_path = current;
        has_traversal = looks_like_traversal input || looks_like_traversal current;
      }

  -- `expand_home`, with the variable `HOME`
  unfoldable pub expand_home : Option (List ℕ) → List ℕ → List ℕ
  expand_home none path = path
  expand_home (some home) path =
      if starts_with (126 ∷ slash ∷ []) path
      then home ++ slash ∷ drop 2 path
      else if codes_eq path (126 ∷ [])
      then home
      else path

  -- `path_matches_sensitive`, with a pattern as a test
  unfoldable pub path_matches_sensitive : Option (List ℕ) → List ℕ → List (List ℕ → Bool) → Bool
  unfolding normalize_path_for_policy expand_home
  path_matches_sensitive home input patterns =
      let norm = normalize_path_for_policy input in
      any
        (λ (pattern' : List ℕ → Bool).
          pattern' norm.normalized_path
          || pattern' (expand_home home norm.normalized_path)
          || pattern' input
          || pattern' norm.original)
        patterns
