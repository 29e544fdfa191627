-- ===== src/Session/Window.antt =====
-- The history of a session is a window on all recorded tools (mcp-proxy/src/behavior/session.rs).
use sqreen_core.Prelude.{
  ℕ, zero, suc, ◌-◌, ◌≤◌, ◌≡◌, refl, arith, sym, ap, ◌∙◌, leb, length, drop, min, max,
  length-append, length-drop, String, List, [], ◌∷◌, ◌++◌, map, if◌then◌else◌, Bool-cases, inl, inr,
}
use sqreen_core.Session.{
  SessionTracker, new_tracker, record_tool, recorded, pop_front, normalize_tool_name,
}

-- All recordings of a session, in order
abbrev pub record_all : SessionTracker → List String → SessionTracker
record_all tracker [] = tracker
record_all tracker (tool ∷ tools) = record_all (record_tool tracker tool) tools

-- The last elements of a list, as many as fit
abbrev pub last_n : ℕ → List (List ℕ) → List (List ℕ)
last_n n xs = drop (length xs - n) xs

drop-append : (k : ℕ) (xs ys : List (List ℕ)) → k ≤ length xs → drop k (xs ++ ys) ≡ drop k xs ++ ys
drop-append zero xs ys h = refl
drop-append (suc k) [] ys h = ground (arith, h)
drop-append (suc k) (x ∷ xs) ys h = drop-append k xs ys (omega (arith, h))

drop-nil : (k : ℕ) → drop {A = List ℕ} k [] ≡ []
drop-nil zero = refl
drop-nil (suc k) = refl

pop_front-drop : (xs : List (List ℕ)) → pop_front xs ≡ drop 1 xs
pop_front-drop [] = refl
pop_front-drop (x ∷ xs) = refl

drop-suc : (b : ℕ) (xs : List (List ℕ)) → drop 1 (drop b xs) ≡ drop (suc b) xs
drop-suc zero xs = refl
drop-suc (suc b) [] = refl
drop-suc (suc b) (x ∷ xs) = drop-suc b xs

recorded-last_n :
    (c : ℕ) (xs : List (List ℕ)) (name : List ℕ)
    → 1 ≤ c
    → recorded c (last_n c xs) name ≡ last_n c (xs ++ name ∷ [])
unfolding recorded
recorded-last_n c xs name h = elim (Bool-cases (leb c (length (last_n c xs)))) [
  | inl full ↦
      let fits : c ≤ length xs = ground (arith, full, length-drop (length xs - c) xs, h) in
      ap (λ b. (if b then pop_front (last_n c xs) else last_n c xs) ++ name ∷ []) full
      ∙ ap (λ ys. ys ++ name ∷ []) (pop_front-drop (last_n c xs) ∙ drop-suc (length xs - c) xs)
      ∙ sym (drop-append (suc (length xs - c)) xs (name ∷ []) (ground (arith, fits, h)))
      ∙ ap (λ k. drop k (xs ++ name ∷ [])) {x = suc (length xs - c)}
          (ground (arith, fits, length-append xs (name ∷ [])))
  | inr room ↦
      let short : length xs - c ≡ 0 = ground (arith, room, length-drop (length xs - c) xs) in
      ap (λ b. (if b then pop_front (last_n c xs) else last_n c xs) ++ name ∷ []) room
      ∙ sym (drop-append (length xs - c) xs (name ∷ []) (ground arith))
      ∙ ap (λ k. drop k (xs ++ name ∷ [])) {x = length xs - c}
          (ground (arith, room, length-drop (length xs - c) xs, length-append xs (name ∷ [])))
]

++-assoc_one :
    (xs : List (List ℕ)) (y : List ℕ) (ys : List (List ℕ)) → (xs ++ y ∷ []) ++ ys ≡ xs ++ y ∷ ys
++-assoc_one [] y ys = refl
++-assoc_one (x ∷ xs) y ys = ap (λ zs. x ∷ zs) (++-assoc_one xs y ys)

append-nil : (xs : List (List ℕ)) → xs ++ [] ≡ xs
append-nil [] = refl
append-nil (x ∷ xs) = ap (λ zs. x ∷ zs) (append-nil xs)

record_all-last_n :
    (c : ℕ) (xs : List (List ℕ)) (tools : List String)
    → 1 ≤ c
    → record_all (record { history = last_n c xs; capacity = c }) tools
      ≡ record { history = last_n c (xs ++ map normalize_tool_name tools); capacity = c }
unfolding record_tool
record_all-last_n c xs [] h =
    ap (λ ys. record { history = last_n c ys; capacity = c }) (sym (append-nil xs))
record_all-last_n c xs (tool ∷ tools) h =
    ap (λ ys. record_all (record { history = ys; capacity = c }) tools)
      (recorded-last_n c xs (normalize_tool_name tool) h)
    ∙ record_all-last_n c (xs ++ normalize_tool_name tool ∷ []) tools h
    ∙ ap (λ ys. record { history = last_n c ys; capacity = c })
        (++-assoc_one xs (normalize_tool_name tool) (map normalize_tool_name tools))

-- After any recordings, a new tracker holds exactly the last tools that were recorded, in order, as
-- many as its capacity; and the capacity lies between 5 and 10, whatever was asked for.
pub record_all-window :
    (asked : ℕ) (tools : List String)
    → ((record_all (new_tracker asked) tools).history
        ≡ last_n (new_tracker asked).capacity (map normalize_tool_name tools))
      × (5 ≤ (new_tracker asked).capacity)
      × ((new_tracker asked).capacity ≤ 10)
unfolding new_tracker
record_all-window asked tools = (
  ap (λ (ys : List (List ℕ)). (record_all (record { history = ys; capacity = c }) tools).history)
        (sym (drop-nil (0 - c)))
      ∙ ap (λ (t : SessionTracker). t.history) (record_all-last_n c [] tools (omega arith)),
  omega arith,
  omega arith,
)
  where
    c : ℕ
    c = min (max asked 5) 10
