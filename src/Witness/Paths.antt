-- ===== src/Witness/Paths.antt =====
-- The theorems on paths at concrete inputs.
use sqreen_core.Prelude.{ℕ, List, [], ◌∷◌, codes, true, false, starts_with, all, ◌≡◌, ◌⊎◌, refl}
use sqreen_core.SecurityBaseline.Path.{
  slash, split, current_seg, collapse_dot_segments, decoded_path, normalize_path_for_policy,
}
use sqreen_core.SecurityBaseline.Path.Collapse.{
  names_entry, is_absolute, normalize_path_for_policy-rooted,
}
use sqreen_core.SecurityBaseline.Path.Meaning.{reach, climbs_first, collapse_dot_segments-means}

abbrev climbing : List ℕ
climbing = codes "a/../../b/./c"

abbrev as_utf8 : List ℕ → List ℕ
as_utf8 bytes = bytes

abbrev escaped : List ℕ
escaped = codes "/srv/%252e%252e\\.//../etc/./passwd"

escaped-normalized :
    (normalize_path_for_policy as_utf8 escaped).normalized_path ≡ codes "/etc/passwd"
unfolding normalize_path_for_policy collapse_dot_segments decoded_path
escaped-normalized = refl

escaped-rooted : starts_with (slash ∷ []) (decoded_path as_utf8 escaped) ≡ true
unfolding decoded_path
escaped-rooted = refl

normalize_path_for_policy-rooted_example :
    (starts_with (slash ∷ []) (normalize_path_for_policy as_utf8 escaped).normalized_path ≡ true)
    × (all names_entry (split (normalize_path_for_policy as_utf8 escaped).normalized_path) ≡ true)
normalize_path_for_policy-rooted_example =
    normalize_path_for_policy-rooted as_utf8 escaped escaped-rooted

collapse_dot_segments-means_example :
    ((dir : List (List ℕ)) → reach (collapse_dot_segments climbing) dir ≡ reach climbing dir)
    × (is_absolute climbing ≡ false
        → (collapse_dot_segments climbing ≡ current_seg)
          ⊎ (climbs_first (split (collapse_dot_segments climbing)) ≡ true))
collapse_dot_segments-means_example = collapse_dot_segments-means climbing
