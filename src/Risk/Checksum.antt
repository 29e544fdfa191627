-- ===== src/Risk/Checksum.antt =====
-- What `luhn_checksum` of mcp-proxy/src/risk.rs detects.
use sqreen_core.Prelude.{
  ℕ, suc, ◌+◌, ◌≤◌, true, false, List, [], ◌∷◌, ◌++◌, length, ◌≡◌, ◌≢◌, ap, ◌∙◌, arith,
}
use mathlib.Core.List.{reverse, reverse-cons, reverse-append, append_assoc}
use sqreen_core.Risk.Luhn.{luhn_value, luhn_sum, luhn_checksum}

luhn_sum-append :
    (i : ℕ) (xs ys : List ℕ) → luhn_sum i (xs ++ ys) ≡ luhn_sum i xs + luhn_sum (i + length xs) ys
unfolding luhn_sum
luhn_sum-append i [] ys =
    let at : luhn_sum i ys ≡ luhn_sum (i + 0) ys = ap (λ (k : ℕ). luhn_sum k ys) (omega arith) in
    at ∙ omega arith
luhn_sum-append i (x ∷ xs) ys =
    let below : luhn_sum (suc i) (xs ++ ys)
        ≡ luhn_sum (suc i) xs + luhn_sum (suc i + length xs) ys =
      luhn_sum-append (suc i) xs ys in
    let at : luhn_sum (suc i + length xs) ys ≡ luhn_sum (i + suc (length xs)) ys =
      ap (λ (k : ℕ). luhn_sum k ys) (omega arith) in
    ground (arith, below, at)

-- The index of a digit from the right, and what the digits around it add to the sum
abbrev index_of : List ℕ → ℕ
index_of ys = 0 + length (reverse ys)

abbrev around : List ℕ → List ℕ → ℕ → ℕ
around xs ys after = luhn_sum 0 (reverse ys) + luhn_sum after (reverse xs)

luhn_sum-place :
    (xs ys : List ℕ) (digit : ℕ)
    → luhn_sum 0 (reverse (xs ++ digit ∷ ys))
      ≡ luhn_value (index_of ys) digit + around xs ys (suc (index_of ys))
unfolding luhn_sum
luhn_sum-place xs ys digit =
    ap (luhn_sum 0) (
      reverse-append xs (digit ∷ ys)
      ∙ ap (λ (l : List ℕ). l ++ reverse xs) (reverse-cons digit ys)
      ∙ append_assoc (reverse ys) (digit ∷ []) (reverse xs))
    ∙ luhn_sum-append 0 (reverse ys) (digit ∷ reverse xs)
    ∙ omega arith

luhn_value-digit : (i d : ℕ) → d ≤ 9 → luhn_value i d ≤ 9
unfolding luhn_value
luhn_value-digit i d h = ground arith

luhn_value-injective : (i d e : ℕ) → d ≤ 9 → e ≤ 9 → luhn_value i d ≡ luhn_value i e → d ≡ e
unfolding luhn_value
luhn_value-injective i d e h k q = ground arith

-- Exchanging one digit of a number for another digit makes a valid checksum invalid.
pub luhn_checksum-detects :
    (xs ys : List ℕ) (d e : ℕ)
    → d ≤ 9
    → e ≤ 9
    → d ≢ e
    → luhn_checksum (xs ++ d ∷ ys) ≡ true
    → luhn_checksum (xs ++ e ∷ ys) ≡ false
unfolding luhn_checksum
luhn_checksum-detects xs ys d e h k n v =
    let at_d = luhn_sum-place xs ys d in
    let at_e = luhn_sum-place xs ys e in
    let bound_d = luhn_value-digit (index_of ys) d h in
    let bound_e = luhn_value-digit (index_of ys) e k in
    let distinct = luhn_value-injective (index_of ys) d e h k in
    ground (arith, at_d, at_e, bound_d, bound_e, distinct)
