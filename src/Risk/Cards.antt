-- ===== src/Risk/Cards.antt =====
-- What `mask_luhn_sequences` of mcp-proxy/src/risk.rs does to a text with and without a card number.
use sqreen_core.Prelude.{
  suc, ◌&&◌, ◌==◌, not, all, filter, length, leb, map, if◌then◌else◌, ℕ, Bool, true, false, ◌||◌,
  is_some, Option, none, some, List, [], ◌∷◌, ◌≡◌, refl, ap, arith, subst, sym, ◌++◌, ◌-◌,
}
use sqreen_core.Risk.Luhn.{
  is_digit, digit_next, is_luhn_valid, mask_token, card_at, mask_from, mask_luhn_sequences,
}

-- Does a card number begin at some place of the text?
unfoldable pub has_card : List ℕ → Bool
has_card [] = false
has_card (c ∷ cs) = is_some (card_at (c ∷ cs)) || has_card cs

-- What masking makes of a text, by the card number at its first place
abbrev masked_by : ℕ → List ℕ → Option ℕ → List ℕ × Bool
masked_by c cs none = (c ∷ (mask_luhn_sequences cs).0, (mask_luhn_sequences cs).1)
masked_by c cs (some read) = (mask_token ++ (mask_from (read - 1) cs).0, true)

mask_luhn_sequences-place :
    (c : ℕ) (cs : List ℕ) → mask_luhn_sequences (c ∷ cs) ≡ masked_by c cs (card_at (c ∷ cs))
unfolding mask_luhn_sequences mask_from card_at
mask_luhn_sequences-place c cs = refl

masked_by-has_card :
    (c : ℕ) (cs : List ℕ) (found : Option ℕ)
    → ((mask_luhn_sequences cs).1 ≡ has_card cs)
      × (has_card cs ≡ false → (mask_luhn_sequences cs).0 ≡ cs)
    → ((masked_by c cs found).1 ≡ (is_some found || has_card cs))
      × ((is_some found || has_card cs) ≡ false → (masked_by c cs found).0 ≡ c ∷ cs)
masked_by-has_card c cs none below = (below.0, λ h. ap (λ (text : List ℕ). c ∷ text) (below.1 h))
masked_by-has_card c cs (some read) below = (refl, λ h. ground arith)

-- `mask_luhn_sequences` reports that it masked exactly where a card number begins at some place of the
-- text, and otherwise it leaves the text as it is.
pub mask_luhn_sequences-has_card :
    (text : List ℕ)
    → ((mask_luhn_sequences text).1 ≡ has_card text)
      × (has_card text ≡ false → (mask_luhn_sequences text).0 ≡ text)
unfolding mask_luhn_sequences has_card
mask_luhn_sequences-has_card [] = (refl, λ _. refl)
mask_luhn_sequences-has_card (c ∷ cs) =
    subst
      (λ (r : List ℕ × Bool).
        (r.1 ≡ has_card (c ∷ cs)) × (has_card (c ∷ cs) ≡ false → r.0 ≡ c ∷ cs))
      (sym (mask_luhn_sequences-place c cs))
      (masked_by-has_card c cs (card_at (c ∷ cs)) (mask_luhn_sequences-has_card cs))

-- A text of digits, each perhaps behind one dash or space, that ends in a digit
abbrev pub is_card_text : List ℕ → Bool
is_card_text [] = true
is_card_text (c ∷ cs) = (is_digit c || (c == 45 || c == 32) && digit_next cs) && is_card_text cs

-- A text in which no card number goes on
abbrev pub is_past : List ℕ → Bool
is_past [] = true
is_past (c ∷ cs) = not (is_digit c) && not ((c == 45 || c == 32) && digit_next cs)

-- A text without digits, dashes and spaces
abbrev pub is_wording : List ℕ → Bool
is_wording cs = all (λ (c : ℕ). not (is_digit c) && not (c == 45 || c == 32)) cs

-- One step of `read_digits`, by its tests
abbrev read_step : Bool → Bool → ℕ → ℕ × List ℕ → ℕ × List ℕ
read_step digit gap c rest =
    if digit then (suc rest.0, c ∷ rest.1) else if gap then (suc rest.0, rest.1) else (0, [])

-- The digits of a text, as numbers
abbrev pub digit_values : List ℕ → List ℕ
digit_values text = map (λ (c : ℕ). c - 48) (filter is_digit text)

-- `card_at`, by what `read_digits` reads
abbrev valid_of : Option (ℕ × List ℕ) → Option ℕ
valid_of none = none
valid_of (some (n, digits)) = if is_luhn_valid digits then some n else none

abbrev card_of : ℕ × List ℕ → Option ℕ
card_of read =
    valid_of (if leb 13 (length read.1) && leb (length read.1) 16 then some read else none)
