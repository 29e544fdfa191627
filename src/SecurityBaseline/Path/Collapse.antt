-- ===== src/SecurityBaseline/Path/Collapse.antt =====
-- What `collapse_dot_segments` of mcp-proxy/src/security_baseline/path.rs leaves of a path.
use sqreen_core.Prelude.{
  ℕ, Bool, true, false, not, ◌&&◌, ◌||◌, List, [], ◌∷◌, ◌++◌, all, is_empty, codes_eq, starts_with,
  ◌≡◌, refl, sym, ap, ◌∙◌, subst, arith, &&-true_left, &&-true_right,
}
use mathlib.Core.List.{reverse, reverse-cons, reverse-reverse}
use sqreen_core.SecurityBaseline.Path.Segments.{
  no_slash, is_segment, split-no_slash, all-reverse, split-join, join_segs-relative,
}
use sqreen_core.SecurityBaseline.Path.{
  slash, current_seg, is_parent, split, join_segs, ascend, collapse_seg, collapse_segs, rendered,
  collapse_dot_segments, decoded_path, normalize_path_for_policy,
}

-- A segment that is neither the current nor the parent directory
abbrev pub is_plain : List ℕ → Bool
is_plain seg = not (is_empty seg) && not (codes_eq seg current_seg) && not (is_parent seg)

-- A stack that collapsing leaves as it is, its top first: plain segments above parents, which only
-- a relative path has
unfoldable pub is_collapsed : Bool → List (List ℕ) → Bool
is_collapsed absolute [] = true
is_collapsed absolute (seg ∷ stack) =
    is_plain seg && is_collapsed absolute stack
    || is_parent seg && not absolute && all is_parent stack

parents-collapsed :
    (stack : List (List ℕ)) → all is_parent stack ≡ true → is_collapsed false stack ≡ true
unfolding is_collapsed
parents-collapsed [] h = refl
parents-collapsed (seg ∷ stack) h = ground arith

collapsed-below :
    (absolute : Bool) (seg : List ℕ) (stack : List (List ℕ))
    → is_collapsed absolute (seg ∷ stack) ≡ true
    → is_collapsed absolute stack ≡ true
unfolding is_collapsed
collapsed-below absolute seg stack h = let below = parents-collapsed stack in ground (arith, below)

ascend-collapsed :
    (absolute : Bool) (seg : List ℕ) (stack : List (List ℕ))
    → is_parent seg ≡ true
    → is_collapsed absolute stack ≡ true
    → is_collapsed absolute (ascend absolute seg stack) ≡ true
unfolding is_collapsed ascend
ascend-collapsed absolute seg [] p h = ground arith
ascend-collapsed absolute seg (prev ∷ stack) p h =
    let below = collapsed-below absolute prev stack h in ground (arith, below)

pub collapse_seg-collapsed :
    (absolute : Bool) (seg : List ℕ) (stack : List (List ℕ))
    → is_collapsed absolute stack ≡ true
    → is_collapsed absolute (collapse_seg absolute seg stack) ≡ true
unfolding is_collapsed collapse_seg
collapse_seg-collapsed absolute seg stack h =
    let up = ascend-collapsed absolute seg stack in ground (arith, up)

collapse_segs-collapsed :
    (absolute : Bool) (segs stack : List (List ℕ))
    → is_collapsed absolute stack ≡ true
    → is_collapsed absolute (collapse_segs absolute segs stack) ≡ true
unfolding collapse_segs
collapse_segs-collapsed absolute [] stack h = h
collapse_segs-collapsed absolute (seg ∷ segs) stack h =
    collapse_segs-collapsed absolute segs (collapse_seg absolute seg stack)
      (collapse_seg-collapsed absolute seg stack h)

-- Segments one after the other
collapse_segs-append :
    (absolute : Bool) (xs ys stack : List (List ℕ))
    → collapse_segs absolute (xs ++ ys) stack
      ≡ collapse_segs absolute ys (collapse_segs absolute xs stack)
unfolding collapse_segs
collapse_segs-append absolute [] ys stack = refl
collapse_segs-append absolute (x ∷ xs) ys stack =
    collapse_segs-append absolute xs ys (collapse_seg absolute x stack)

parent-not_current : (seg : List ℕ) → is_parent seg ≡ true → codes_eq seg current_seg ≡ false
parent-not_current [] h = refl
parent-not_current (x ∷ []) h = ground arith
parent-not_current (x ∷ y ∷ seg) h = ground arith

-- A segment of a collapsed stack goes onto what is below it
collapse_seg-pushes :
    (absolute : Bool) (seg : List ℕ) (stack : List (List ℕ))
    → is_segment seg ≡ true
    → is_collapsed absolute (seg ∷ stack) ≡ true
    → collapse_seg absolute seg stack ≡ seg ∷ stack
unfolding is_collapsed collapse_seg ascend
collapse_seg-pushes absolute seg [] s h =
    let distinct = parent-not_current seg in ground (arith, distinct)
collapse_seg-pushes absolute seg (prev ∷ stack) s h =
    let distinct = parent-not_current seg in ground (arith, distinct)

-- The segments of a collapsed stack, from its bottom on, make the stack again
collapse_segs-restores :
    (absolute : Bool) (stack : List (List ℕ))
    → all is_segment stack ≡ true
    → is_collapsed absolute stack ≡ true
    → collapse_segs absolute (reverse stack) [] ≡ stack
unfolding collapse_segs
collapse_segs-restores absolute [] s h = refl
collapse_segs-restores absolute (seg ∷ stack) s h =
    ap (λ (segs : List (List ℕ)). collapse_segs absolute segs []) (reverse-cons seg stack)
    ∙ collapse_segs-append absolute (reverse stack) (seg ∷ []) []
    ∙ ap (collapse_seg absolute seg) (
        collapse_segs-restores absolute stack (&&-true_right (is_segment seg) _ s)
          (collapsed-below absolute seg stack h))
    ∙ collapse_seg-pushes absolute seg stack (&&-true_left (is_segment seg) _ s) h

-- What stands on the stack are segments
ascend-segments :
    (absolute : Bool) (seg : List ℕ) (stack : List (List ℕ))
    → is_segment seg ≡ true
    → all is_segment stack ≡ true
    → all is_segment (ascend absolute seg stack) ≡ true
unfolding ascend
ascend-segments absolute seg [] n h = ground arith
ascend-segments absolute seg (prev ∷ stack) n h = ground arith

collapse_seg-segments :
    (absolute : Bool) (seg : List ℕ) (stack : List (List ℕ))
    → no_slash seg ≡ true
    → all is_segment stack ≡ true
    → all is_segment (collapse_seg absolute seg stack) ≡ true
unfolding collapse_seg
collapse_seg-segments absolute seg stack n h =
    let up = ascend-segments absolute seg stack in ground (arith, up)

collapse_segs-segments :
    (absolute : Bool) (segs stack : List (List ℕ))
    → all no_slash segs ≡ true
    → all is_segment stack ≡ true
    → all is_segment (collapse_segs absolute segs stack) ≡ true
unfolding collapse_segs
collapse_segs-segments absolute [] stack n h = h
collapse_segs-segments absolute (seg ∷ segs) stack n h =
    collapse_segs-segments absolute segs (collapse_seg absolute seg stack)
      (&&-true_right (no_slash seg) _ n)
      (collapse_seg-segments absolute seg stack (&&-true_left (no_slash seg) _ n) h)

-- The segments of the text of a collapsed stack make the stack again
resplit :
    (absolute : Bool) (segs : List (List ℕ))
    → all is_segment segs ≡ true
    → collapse_segs absolute (split (join_segs segs)) [] ≡ collapse_segs absolute segs []
unfolding collapse_segs collapse_seg split join_segs
resplit absolute [] h = refl
resplit absolute (seg ∷ segs) h =
    ap (λ (all' : List (List ℕ)). collapse_segs absolute all' []) (split-join seg segs h)

-- The text that collapsing makes of the segments of a path
abbrev collapsed_text : Bool → List (List ℕ) → List ℕ
collapsed_text absolute segs =
    rendered absolute (join_segs (reverse (collapse_segs absolute segs [])))

collapsed_text-restores :
    (absolute : Bool) (segs : List (List ℕ))
    → all is_segment segs ≡ true
    → collapse_segs absolute segs [] ≡ reverse segs
    → collapsed_text absolute (split (join_segs segs)) ≡ rendered absolute (join_segs segs)
collapsed_text-restores absolute segs h e =
    ap (λ (stack : List (List ℕ)). rendered absolute (join_segs (reverse stack)))
      (resplit absolute segs h ∙ e)
    ∙ ap (λ (segs' : List (List ℕ)). rendered absolute (join_segs segs')) (reverse-reverse segs)

pub rendered-relative : (out : List ℕ) → is_empty out ≡ false → rendered false out ≡ out
unfolding rendered
rendered-relative out h = ground arith

-- Collapsing the text of a collapsed stack gives the text
recollapse :
    (absolute : Bool) (segs : List (List ℕ))
    → all is_segment segs ≡ true
    → collapse_segs absolute segs [] ≡ reverse segs
    → collapse_dot_segments (rendered absolute (join_segs segs))
      ≡ rendered absolute (join_segs segs)
unfolding collapse_dot_segments split collapse_segs collapse_seg rendered
recollapse true segs h e = collapsed_text-restores true segs h e
recollapse false [] h e = refl
recollapse false (seg ∷ segs) h e =
    let r = join_segs-relative seg segs (&&-true_left (is_segment seg) _ h) in
    let out = rendered-relative (join_segs (seg ∷ segs)) r.0 in
    ap collapse_dot_segments out
    ∙ ap (λ (absolute : Bool). collapsed_text absolute (split (join_segs (seg ∷ segs)))) r.1
    ∙ collapsed_text-restores false (seg ∷ segs) h e

-- The stack that the segments of a path leave, and what is known of it
abbrev pub is_absolute : List ℕ → Bool
is_absolute path = starts_with (slash ∷ []) path

abbrev pub left_of : List ℕ → List (List ℕ)
left_of path = collapse_segs (is_absolute path) (split path) []

pub left_of-segments : (path : List ℕ) → all is_segment (left_of path) ≡ true
left_of-segments path =
    collapse_segs-segments (is_absolute path) (split path) [] (split-no_slash path) refl

pub left_of-collapsed : (path : List ℕ) → is_collapsed (is_absolute path) (left_of path) ≡ true
unfolding is_collapsed
left_of-collapsed path = collapse_segs-collapsed (is_absolute path) (split path) [] refl

-- Collapsing the dot segments of a path twice gives what collapsing them once gives.
pub collapse_dot_segments_idem :
    (path : List ℕ)
    → collapse_dot_segments (collapse_dot_segments path) ≡ collapse_dot_segments path
unfolding collapse_dot_segments
collapse_dot_segments_idem path =
    recollapse (is_absolute path) (reverse (left_of path))
      (all-reverse is_segment (left_of path) (left_of-segments path))
      (collapse_segs-restores (is_absolute path) (left_of path) (left_of-segments path)
          (left_of-collapsed path)
        ∙ sym (reverse-reverse (left_of path)))

-- A collapsed stack of an absolute path has plain segments only
collapsed-plain :
    (stack : List (List ℕ)) → is_collapsed true stack ≡ true → all is_plain stack ≡ true
unfolding is_collapsed
collapsed-plain [] h = refl
collapsed-plain (seg ∷ stack) h = let below = collapsed-plain stack in ground (arith, below)

-- The segments of the text of a collapsed stack of an absolute path
absolute_segments :
    (segs : List (List ℕ))
    → all is_segment segs ≡ true
    → all is_plain segs ≡ true
    → all (λ (seg : List ℕ). is_empty seg || is_plain seg) (split (join_segs segs)) ≡ true
unfolding join_segs split
absolute_segments [] h k = refl
absolute_segments (seg ∷ segs) h k =
    subst
      (λ (all' : List (List ℕ)). all (λ (seg : List ℕ). is_empty seg || is_plain seg) all' ≡ true)
      (sym (split-join seg segs h)) (weaken (seg ∷ segs) k)
  where
    weaken :
        (segs : List (List ℕ))
        → all is_plain segs ≡ true
        → all (λ (seg : List ℕ). is_empty seg || is_plain seg) segs ≡ true
    weaken [] k = refl
    weaken (seg ∷ segs) k = let rest = weaken segs in ground (arith, rest)

-- A segment of a path that does not name the current or the parent directory
abbrev pub names_entry : List ℕ → Bool
names_entry seg = not (codes_eq seg current_seg) && not (is_parent seg)

entries :
    (segs : List (List ℕ))
    → all (λ (seg : List ℕ). is_empty seg || is_plain seg) segs ≡ true
    → all names_entry segs ≡ true
entries [] h = refl
entries ([] ∷ segs) h = let rest = entries segs in ground (arith, rest)
entries ((b ∷ seg) ∷ segs) h = let rest = entries segs in ground (arith, rest)

-- The end of `collapse_dot_segments`, on a path from the root
rooted :
    (absolute : Bool) (stack : List (List ℕ))
    → absolute ≡ true
    → all is_segment stack ≡ true
    → is_collapsed absolute stack ≡ true
    → (starts_with (slash ∷ []) (rendered absolute (join_segs (reverse stack))) ≡ true)
      × (all names_entry (split (rendered absolute (join_segs (reverse stack)))) ≡ true)
unfolding rendered split
rooted true stack a h k = (
  refl,
  entries (split (join_segs (reverse stack))) (
      absolute_segments (reverse stack) (all-reverse is_segment stack h)
        (all-reverse is_plain stack (collapsed-plain stack k))),
)
rooted false stack a h k = ground arith

-- Where the path is absolute once its backslashes, NULs and escapes are gone, the normalized path is
-- absolute, and none of its segments is `.` or `..`: no climb above the root is left in it.
pub normalize_path_for_policy-rooted :
    (from_utf8_lossy : List ℕ → List ℕ) (input : List ℕ)
    → starts_with (slash ∷ []) (decoded_path from_utf8_lossy input) ≡ true
    → (starts_with (slash ∷ []) (normalize_path_for_policy from_utf8_lossy input).normalized_path
        ≡ true)
      × (all names_entry (split (normalize_path_for_policy from_utf8_lossy input).normalized_path)
          ≡ true)
unfolding normalize_path_for_policy collapse_dot_segments
normalize_path_for_policy-rooted from_utf8_lossy input h =
    let path = decoded_path from_utf8_lossy input in
    rooted (is_absolute path) (left_of path) h (left_of-segments path) (left_of-collapsed path)
