-- ===== src/SecurityBaseline/Path/Meaning.antt =====
-- The directory that a path names before and after `collapse_dot_segments` of
-- mcp-proxy/src/security_baseline/path.rs.
use sqreen_core.Prelude.{
  Bool-cases, ℕ, Bool, true, false, not, ◌&&◌, ◌||◌, List, [], ◌∷◌, ◌++◌, all, is_empty,
  if◌then◌else◌, codes_eq, ◌≡◌, ◌⊎◌, inl, inr, refl, sym, ap, ◌∙◌, subst, arith, &&-true_left,
  &&-true_right,
}
use mathlib.Core.List.{reverse, reverse-cons}
use sqreen_core.SecurityBaseline.Path.Segments.{
  is_segment, all-reverse, split-join, join_segs-relative,
}
use sqreen_core.SecurityBaseline.Path.Collapse.{
  is_plain, is_collapsed, is_absolute, left_of, left_of-segments, left_of-collapsed,
  collapse_seg-collapsed, rendered-relative,
}
use sqreen_core.SecurityBaseline.Path.{
  current_seg, is_parent, split, join_segs, ascend, collapse_seg, collapse_segs, rendered,
  collapse_dot_segments,
}

-- A directory is the list of the names on the way to it from the root, the last name first. The
-- parent of the root is the root.
abbrev pub parent_of : List (List ℕ) → List (List ℕ)
parent_of [] = []
parent_of (name ∷ dir) = dir

-- The directory that a segment leads to
abbrev pub enter : List ℕ → List (List ℕ) → List (List ℕ)
enter seg dir =
    if is_empty seg || codes_eq seg current_seg
    then dir
    else if is_parent seg
    then parent_of dir
    else seg ∷ dir

unfoldable pub walk : List (List ℕ) → List (List ℕ) → List (List ℕ)
walk [] dir = dir
walk (seg ∷ segs) dir = walk segs (enter seg dir)

-- Where a path leads from a directory
abbrev pub reach : List ℕ → List (List ℕ) → List (List ℕ)
reach path dir = walk (split path) (if is_absolute path then [] else dir)

walk-last :
    (segs dir : List (List ℕ)) (seg : List ℕ)
    → walk (segs ++ seg ∷ []) dir ≡ enter seg (walk segs dir)
unfolding walk
walk-last [] dir seg = refl
walk-last (s ∷ ss) dir seg = walk-last ss (enter s dir) seg

-- Where the segments of a stack lead
abbrev at : List (List ℕ) → List (List ℕ) → List (List ℕ)
at stack dir = walk (reverse stack) dir

at-cons :
    (seg : List ℕ) (stack dir : List (List ℕ)) → at (seg ∷ stack) dir ≡ enter seg (at stack dir)
at-cons seg stack dir =
    ap (λ (l : List (List ℕ)). walk l dir) (reverse-cons seg stack)
    ∙ walk-last (reverse stack) dir seg

enter-plain : (seg : List ℕ) (dir : List (List ℕ)) → is_plain seg ≡ true → enter seg dir ≡ seg ∷ dir
enter-plain seg dir h = ground arith

enter-parent :
    (seg : List ℕ) (dir : List (List ℕ))
    → (is_empty seg || codes_eq seg current_seg) ≡ false
    → is_parent seg ≡ true
    → enter seg dir ≡ parent_of dir
enter-parent seg dir h k = ground arith

enter-name :
    (seg : List ℕ) (dir : List (List ℕ))
    → (is_empty seg || codes_eq seg current_seg) ≡ false
    → is_parent seg ≡ false
    → enter seg dir ≡ seg ∷ dir
enter-name seg dir h k = ground arith

collapsed-top :
    (absolute : Bool) (prev : List ℕ) (stack : List (List ℕ))
    → is_collapsed absolute (prev ∷ stack) ≡ true
    → ((is_parent prev ≡ false) × (is_plain prev ≡ true))
      ⊎ ((is_parent prev ≡ true) × (absolute ≡ false))
unfolding is_collapsed
collapsed-top absolute prev stack h = ground arith

-- The directory in which a path starts
abbrev Starts : Bool → List (List ℕ) → Type 0
Starts absolute dir = absolute ≡ true → dir ≡ []

at-ascend :
    (absolute : Bool) (seg : List ℕ) (stack dir : List (List ℕ))
    → Starts absolute dir
    → (is_empty seg || codes_eq seg current_seg) ≡ false
    → is_parent seg ≡ true
    → is_collapsed absolute stack ≡ true
    → at (ascend absolute seg stack) dir ≡ enter seg (at stack dir)
unfolding ascend walk
at-ascend true seg [] dir s e p h = s refl ∙ sym (enter-parent seg dir e p ∙ ap parent_of (s refl))
at-ascend false seg [] dir s e p h = refl
at-ascend absolute seg (prev ∷ stack) dir s e p h = by_top (collapsed-top absolute prev stack h)
  where
    by_top :
        ((is_parent prev ≡ false) × (is_plain prev ≡ true))
          ⊎ ((is_parent prev ≡ true) × (absolute ≡ false))
        → at
            (if not (is_parent prev)
              then stack
              else if not absolute
              then seg ∷ prev ∷ stack
              else prev ∷ stack)
            dir
          ≡ enter seg (at (prev ∷ stack) dir)
    by_top (inl (n, plain)) =
        ap
          (λ (b : Bool).
            at (if not b then stack else if not absolute then seg ∷ prev ∷ stack else prev ∷ stack)
              dir)
          n
        ∙ sym (
            ap (enter seg) (at-cons prev stack dir ∙ enter-plain prev (at stack dir) plain)
            ∙ enter-parent seg (prev ∷ at stack dir) e p)
    by_top (inr (y, relative)) =
        ap
          (λ (b : Bool).
            at (if not b then stack else if not absolute then seg ∷ prev ∷ stack else prev ∷ stack)
              dir)
          y
        ∙ ap (λ (b : Bool). at (if not b then seg ∷ prev ∷ stack else prev ∷ stack) dir) relative
        ∙ at-cons seg (prev ∷ stack) dir

at-collapse_seg :
    (absolute : Bool) (seg : List ℕ) (stack dir : List (List ℕ))
    → Starts absolute dir
    → is_collapsed absolute stack ≡ true
    → at (collapse_seg absolute seg stack) dir ≡ enter seg (at stack dir)
unfolding collapse_seg
at-collapse_seg absolute seg stack dir s h =
    by_tests (is_empty seg || codes_eq seg current_seg) (is_parent seg) refl refl
  where
    by_tests :
        (b c : Bool)
        → (is_empty seg || codes_eq seg current_seg) ≡ b
        → is_parent seg ≡ c
        → at (if b then stack else if c then ascend absolute seg stack else seg ∷ stack) dir
          ≡ (if b then at stack dir else if c then parent_of (at stack dir) else seg ∷ at stack dir)
    by_tests true c e p = refl
    by_tests false true e p =
        at-ascend absolute seg stack dir s e p h ∙ enter-parent seg (at stack dir) e p
    by_tests false false e p = at-cons seg stack dir ∙ enter-name seg (at stack dir) e p

at-collapse_segs :
    (absolute : Bool) (segs stack dir : List (List ℕ))
    → Starts absolute dir
    → is_collapsed absolute stack ≡ true
    → at (collapse_segs absolute segs stack) dir ≡ walk segs (at stack dir)
unfolding collapse_segs walk
at-collapse_segs absolute [] stack dir s h = refl
at-collapse_segs absolute (seg ∷ segs) stack dir s h =
    at-collapse_segs absolute segs (collapse_seg absolute seg stack) dir s
      (collapse_seg-collapsed absolute seg stack h)
    ∙ ap (walk segs) (at-collapse_seg absolute seg stack dir s h)

-- The text of a collapsed stack leads where its segments lead.
walk-rendered :
    (absolute : Bool) (segs dir : List (List ℕ))
    → all is_segment segs ≡ true
    → walk (split (rendered absolute (join_segs segs))) dir ≡ walk segs dir
unfolding walk split rendered join_segs
walk-rendered true [] dir h = refl
walk-rendered false [] dir h = refl
walk-rendered true (seg ∷ segs) dir h =
    ap (λ (l : List (List ℕ)). walk l dir) (split-join seg segs h)
walk-rendered false (seg ∷ segs) dir h =
    ap (λ (text : List ℕ). walk (split text) dir)
      (rendered-relative (join_segs (seg ∷ segs))
        (join_segs-relative seg segs (&&-true_left (is_segment seg) _ h)).0)
    ∙ ap (λ (l : List (List ℕ)). walk l dir) (split-join seg segs h)

is_absolute-rendered :
    (absolute : Bool) (segs : List (List ℕ))
    → all is_segment segs ≡ true
    → is_absolute (rendered absolute (join_segs segs)) ≡ absolute
unfolding rendered join_segs
is_absolute-rendered true segs h = refl
is_absolute-rendered false [] h = refl
is_absolute-rendered false (seg ∷ segs) h =
    let r = join_segs-relative seg segs (&&-true_left (is_segment seg) _ h) in
    ap is_absolute (rendered-relative (join_segs (seg ∷ segs)) r.0) ∙ r.1

start_of : (absolute : Bool) (dir : List (List ℕ)) → Starts absolute (if absolute then [] else dir)
start_of true dir h = refl
start_of false dir h = ground arith

collapse_dot_segments-reach :
    (path : List ℕ) (dir : List (List ℕ)) → reach (collapse_dot_segments path) dir ≡ reach path dir
unfolding collapse_dot_segments walk is_collapsed
collapse_dot_segments-reach path dir =
    let absolute = is_absolute path in
    let segs = reverse (left_of path) in
    let from : List (List ℕ) = if absolute then [] else dir in
    let segments = all-reverse is_segment (left_of path) (left_of-segments path) in
    ap (λ (b : Bool). walk (split (collapse_dot_segments path)) (if b then [] else dir))
      (is_absolute-rendered absolute segs segments)
    ∙ walk-rendered absolute segs from segments
    ∙ at-collapse_segs absolute (split path) [] from (start_of absolute dir) refl

-- Segments of which the parents come first, before the names
abbrev pub climbs_first : List (List ℕ) → Bool
climbs_first [] = true
climbs_first (seg ∷ segs) = if is_parent seg then climbs_first segs else all is_plain (seg ∷ segs)

all-last :
    (p : List ℕ → Bool) (segs : List (List ℕ)) (seg : List ℕ)
    → all p segs ≡ true
    → p seg ≡ true
    → all p (segs ++ seg ∷ []) ≡ true
all-last p [] seg h k = ground arith
all-last p (s ∷ ss) seg h k = let rest = all-last p ss seg in ground (arith, rest)

climbs_first-name :
    (segs : List (List ℕ)) (seg : List ℕ)
    → climbs_first segs ≡ true
    → is_plain seg ≡ true
    → climbs_first (segs ++ seg ∷ []) ≡ true
climbs_first-name [] seg h k = ground arith
climbs_first-name (s ∷ ss) seg h k =
    let rest = climbs_first-name ss seg in
    let names = all-last is_plain (s ∷ ss) seg in ground (arith, rest, names)

climbs_first-parents : (segs : List (List ℕ)) → all is_parent segs ≡ true → climbs_first segs ≡ true
climbs_first-parents [] h = refl
climbs_first-parents (s ∷ ss) h = let rest = climbs_first-parents ss in ground (arith, rest)

collapsed-climbs_first :
    (stack : List (List ℕ)) → is_collapsed false stack ≡ true → climbs_first (reverse stack) ≡ true
unfolding is_collapsed
collapsed-climbs_first [] h = refl
collapsed-climbs_first (seg ∷ stack) h =
    subst (λ (l : List (List ℕ)). climbs_first l ≡ true) (sym (reverse-cons seg stack))
      (elim (Bool-cases (is_plain seg && is_collapsed false stack)) [
        | inl e ↦
            climbs_first-name (reverse stack) seg
              (collapsed-climbs_first stack (&&-true_right (is_plain seg) _ e))
              (&&-true_left (is_plain seg) _ e)
        | inr e ↦
            let parents : (is_parent seg && all is_parent stack) ≡ true = ground arith in
            climbs_first-parents (reverse stack ++ seg ∷ []) (
              all-last is_parent (reverse stack) seg
                (all-reverse is_parent stack (&&-true_right (is_parent seg) _ parents))
                (&&-true_left (is_parent seg) _ parents))
      ])

tidy :
    (segs : List (List ℕ))
    → all is_segment segs ≡ true
    → climbs_first segs ≡ true
    → (rendered false (join_segs segs) ≡ current_seg)
      ⊎ (climbs_first (split (rendered false (join_segs segs))) ≡ true)
unfolding rendered join_segs
tidy [] h k = inl refl
tidy (seg ∷ segs) h k = inr (
    ap (λ (text : List ℕ). climbs_first (split text))
      (rendered-relative (join_segs (seg ∷ segs))
        (join_segs-relative seg segs (&&-true_left (is_segment seg) _ h)).0)
    ∙ ap climbs_first (split-join seg segs h)
    ∙ k)

collapse_dot_segments-tidy :
    (path : List ℕ)
    → is_absolute path ≡ false
    → (collapse_dot_segments path ≡ current_seg)
      ⊎ (climbs_first (split (collapse_dot_segments path)) ≡ true)
unfolding collapse_dot_segments
collapse_dot_segments-tidy path h =
    subst
      (λ (b : Bool).
        (rendered b (join_segs (reverse (left_of path))) ≡ current_seg)
        ⊎ (climbs_first (split (rendered b (join_segs (reverse (left_of path))))) ≡ true))
      (sym h)
      (tidy (reverse (left_of path)) (all-reverse is_segment (left_of path) (left_of-segments path))
        (collapsed-climbs_first (left_of path)
          (ap (λ (b : Bool). is_collapsed b (left_of path)) (sym h) ∙ left_of-collapsed path)))

-- From every directory, the collapsed path leads where the path led, links apart. And where the path
-- is relative, the collapsed path is `.`, or its parent segments all come first, before names that
-- are neither empty nor `.` nor `..`.
pub collapse_dot_segments-means :
    (path : List ℕ)
    → ((dir : List (List ℕ)) → reach (collapse_dot_segments path) dir ≡ reach path dir)
      × (is_absolute path ≡ false
          → (collapse_dot_segments path ≡ current_seg)
            ⊎ (climbs_first (split (collapse_dot_segments path)) ≡ true))
collapse_dot_segments-means path =
    (collapse_dot_segments-reach path, collapse_dot_segments-tidy path)
