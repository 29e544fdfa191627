-- ===== src/Witness/Cards.antt =====
-- The theorems on card numbers at concrete inputs.
use sqreen_core.Prelude.{ℕ, List, [], ◌∷◌, ◌++◌, codes, true, false, ◌≡◌, refl, arith, map, ◌-◌}
use sqreen_core.Risk.Luhn.{luhn_checksum, mask_luhn_sequences}
use sqreen_core.Risk.Checksum.{luhn_checksum-detects}

abbrev card_head : List ℕ
card_head = map (λ (c : ℕ). c - 48) (codes "424242424242424")

card-valid : luhn_checksum (card_head ++ 2 ∷ []) ≡ true
unfolding luhn_checksum
card-valid = refl

luhn_checksum-detects_example : luhn_checksum (card_head ++ 3 ∷ []) ≡ false
luhn_checksum-detects_example =
    luhn_checksum-detects card_head [] 2 3 (omega arith) (omega arith) (omega arith) card-valid

abbrev message : List ℕ
message = codes "pay 4242-4242-4242-4242 now"

message-masked : (mask_luhn_sequences message).0 ≡ codes "pay[MASKED_PII_BY_PROXY] now"
unfolding mask_luhn_sequences
message-masked = refl

abbrev card : List ℕ
card = codes "4242-4242-4242-4242"
