-- ===== src/Risk/Luhn.antt =====
-- The search for card numbers in one text, of mcp-proxy/src/risk.rs: a text is its code points, and a
-- place in it is what is left of the text from there on.
use sqreen_core.Prelude.{
  ℕ, zero, suc, ◌+◌, ◌-◌, ◌*◌, ◌%◌, Bool, true, false, ◌&&◌, ◌||◌, ◌==◌, leb, ltb, Option, none,
  some, List, [], ◌∷◌, ◌++◌, map, filter, length, codes, if◌then◌else◌, any, when,
}
use mathlib.Core.List.{reverse}

-- `MASK_TOKEN`
abbrev pub mask_token : List ℕ
mask_token = codes "[MASKED_PII_BY_PROXY]"

-- `char::is_ascii_digit`
abbrev pub is_digit : ℕ → Bool
is_digit c = leb 48 c && leb c 57

-- What one digit adds to the sum, by its index from the right
unfoldable pub luhn_value : ℕ → ℕ → ℕ
luhn_value index digit =
    if index % 2 == 1 then (if ltb 9 (digit * 2) then digit * 2 - 9 else digit * 2) else digit

-- The loop of `luhn_checksum`
unfoldable pub luhn_sum : ℕ → List ℕ → ℕ
unfolding luhn_value
luhn_sum index [] = 0
luhn_sum index (digit ∷ digits) = luhn_value index digit + luhn_sum (suc index) digits

-- `luhn_checksum`
unfoldable pub luhn_checksum : List ℕ → Bool
unfolding luhn_sum
luhn_checksum digits = luhn_sum 0 (reverse digits) % 10 == 0

-- `is_luhn_valid`
unfoldable pub is_luhn_valid : List ℕ → Bool
unfolding luhn_checksum
is_luhn_valid text =
    let digits = map (λ (c : ℕ). c - 48) (filter is_digit text) in
    leb 13 (length digits) && leb (length digits) 16 && luhn_checksum digits

-- Does a digit come next?
abbrev pub digit_next : List ℕ → Bool
digit_next [] = false
digit_next (c ∷ cs) = is_digit c

-- The loop of `read_card_candidate`: how many characters it reads, and the digits among them
unfoldable pub read_digits : List ℕ → ℕ × List ℕ
read_digits [] = (0, [])
read_digits (c ∷ cs) =
    let rest = read_digits cs in
    if is_digit c
    then (suc rest.0, c ∷ rest.1)
    else if (c == 45 || c == 32) && digit_next cs
    then (suc rest.0, rest.1)
    else (0, [])

-- `read_card_candidate`
unfoldable pub read_card_candidate : List ℕ → Option (ℕ × List ℕ)
unfolding read_digits
read_card_candidate text =
    let read = read_digits text in
    if leb 13 (length read.1) && leb (length read.1) 16 then some read else none

-- The characters of the card number at a place, if there is one
unfoldable pub card_at : List ℕ → Option ℕ
unfolding read_card_candidate is_luhn_valid
card_at text = elim (read_card_candidate text) [
  | none ↦ none
  | some (read, digits) ↦ if is_luhn_valid digits then some read else none
]

-- The loop of `mask_luhn_sequences`, with the characters of a masked number that are still to come
unfoldable pub mask_from : ℕ → List ℕ → List ℕ × Bool
unfolding card_at
mask_from skip [] = ([], false)
mask_from (suc skip) (c ∷ cs) = mask_from skip cs
mask_from zero (c ∷ cs) = elim (card_at (c ∷ cs)) [
  | none ↦ (c ∷ (mask_from 0 cs).0, (mask_from 0 cs).1)
  | some read ↦ (mask_token ++ (mask_from (read - 1) cs).0, true)
]

-- `mask_luhn_sequences`
unfoldable pub mask_luhn_sequences : List ℕ → List ℕ × Bool
unfolding mask_from
mask_luhn_sequences text = mask_from 0 text

-- A run that `extract_digit_runs` keeps
abbrev pub kept_run : List ℕ → List (List ℕ)
kept_run current = when (leb 13 (length current) && leb (length current) 16) current

-- The loop of `extract_digit_runs`, with the run so far
unfoldable pub digit_runs_from : List ℕ → List ℕ → List (List ℕ)
digit_runs_from [] current = kept_run current
digit_runs_from (c ∷ cs) current =
    if is_digit c
    then digit_runs_from cs (current ++ c ∷ [])
    else kept_run current ++ digit_runs_from cs []

-- `extract_digit_runs`
unfoldable pub extract_digit_runs : List ℕ → List (List ℕ)
unfolding digit_runs_from
extract_digit_runs text = digit_runs_from text []

-- `contains_luhn_sequence`
unfoldable pub contains_luhn_sequence : List ℕ → Bool
unfolding extract_digit_runs is_luhn_valid
contains_luhn_sequence text = any is_luhn_valid (extract_digit_runs text)
