-- ===== src/Risk/Bounds.antt =====
-- What the scan of a payload adds up to (mcp-proxy/src/risk.rs).
use sqreen_core.Prelude.{
  ℕ, ◌+◌, min, ◌≡◌, refl, arith, ap, sym, ◌∙◌, subst, String, Bool, true, false, ◌||◌, Option, none,
  some, if◌then◌else◌,
}
use sqreen_core.Json.{
  Value, Items, Fields, null, bool, number, string, array, object, nil, cons, end, field, Parsed,
  parsed, malformed,
}
use sqreen_core.Risk.{
  RiskAnalysis, StringScanFlags, ScanState, fresh, bonus, apply_string_flags, scan_value,
  scan_items, scan_fields, is_missing, analyzed, analyze_raw_params, analyze_params, base_tool_risk,
}

-- The points of a bonus that was added
abbrev pub points : Bool → ℕ → ℕ
points true n = n
points false n = 0

bonus-points :
    (flag seen : Bool) (n : ℕ) → bonus flag seen n + points seen n ≡ points (flag || seen) n
bonus-points true true n = omega arith
bonus-points true false n = omega arith
bonus-points false true n = omega arith
bonus-points false false n = omega arith

-- The points of all bonuses of a state
abbrev pub credit : ScanState → ℕ
credit s =
    points s.pii_detected 30
    + points s.luhn_detected 40
    + points s.entropy_detected 20
    + points s.secret_detected 45

-- Nothing is added but the bonuses that are new.
abbrev IsSettled : ScanState → ScanState → Type 0
IsSettled s s' = s'.score + credit s ≡ s.score + credit s'

apply_string_flags-IsSettled :
    (flags : StringScanFlags) (s : ScanState) → IsSettled s (apply_string_flags flags s)
unfolding apply_string_flags
apply_string_flags-IsSettled flags s = omega (
  arith,
  bonus-points flags.pii s.pii_detected 30,
  bonus-points flags.luhn s.luhn_detected 40,
  bonus-points flags.entropy s.entropy_detected 20,
  bonus-points flags.secret s.secret_detected 45,
)

IsSettled-trans : (a b c : ScanState) → IsSettled a b → IsSettled b c → IsSettled a c
IsSettled-trans a b c h k = omega (arith, h, k)

module _ (scan_string : String → String × StringScanFlags) where
  -- Does a text of the value raise the flag?
  unfoldable mutual
    pub any_text : (StringScanFlags → Bool) → Value → Bool
    any_text flag (string text) = flag (scan_string text).1
    any_text flag (array items) = any_item flag items
    any_text flag (object fields) = any_field flag fields
    any_text flag null = false
    any_text flag (bool b) = false
    any_text flag (number n) = false

    pub any_item : (StringScanFlags → Bool) → Items → Bool
    any_item flag nil = false
    any_item flag (cons v vs) = any_text flag v || any_item flag vs

    pub any_field : (StringScanFlags → Bool) → Fields → Bool
    any_field flag end = false
    any_field flag (field k v fs) = any_text flag v || any_field flag fs

  mutual
    unfolding scan_value scan_items scan_fields

    scan_value-IsSettled : (v : Value) (s : ScanState) → IsSettled s (scan_value scan_string v s).1
    scan_value-IsSettled (string text) s = apply_string_flags-IsSettled (scan_string text).1 s
    scan_value-IsSettled (array items) s = scan_items-IsSettled items s
    scan_value-IsSettled (object fields) s = scan_fields-IsSettled fields s
    scan_value-IsSettled null s = refl
    scan_value-IsSettled (bool b) s = refl
    scan_value-IsSettled (number n) s = refl

    scan_items-IsSettled :
        (vs : Items) (s : ScanState) → IsSettled s (scan_items scan_string vs s).1
    scan_items-IsSettled nil s = refl
    scan_items-IsSettled (cons v vs) s =
        let mid = (scan_value scan_string v s).1 in
        IsSettled-trans s mid (scan_items scan_string vs mid).1 (scan_value-IsSettled v s)
          (scan_items-IsSettled vs mid)

    scan_fields-IsSettled :
        (fs : Fields) (s : ScanState) → IsSettled s (scan_fields scan_string fs s).1
    scan_fields-IsSettled end s = refl
    scan_fields-IsSettled (field k v fs) s =
        let mid = (scan_value scan_string v s).1 in
        IsSettled-trans s mid (scan_fields scan_string fs mid).1 (scan_value-IsSettled v s)
          (scan_fields-IsSettled fs mid)

  -- A flag that each scan of a text adds to a field of the state
  module _ (flag : StringScanFlags → Bool) (seen : ScanState → Bool)
      (step : (flags : StringScanFlags) (s : ScanState)
        → seen (apply_string_flags flags s) ≡ (flag flags || seen s)) where
    mutual
      unfolding scan_value scan_items scan_fields any_text any_item any_field

      scan_value-seen :
          (v : Value) (s : ScanState)
          → seen (scan_value scan_string v s).1 ≡ (any_text flag v || seen s)
      scan_value-seen (string text) s = step (scan_string text).1 s
      scan_value-seen (array items) s = scan_items-seen items s
      scan_value-seen (object fields) s = scan_fields-seen fields s
      scan_value-seen null s = refl
      scan_value-seen (bool b) s = refl
      scan_value-seen (number n) s = refl

      scan_items-seen :
          (vs : Items) (s : ScanState)
          → seen (scan_items scan_string vs s).1 ≡ (any_item flag vs || seen s)
      scan_items-seen nil s = refl
      scan_items-seen (cons v vs) s =
          ground (arith, scan_value-seen v s, scan_items-seen vs (scan_value scan_string v s).1)

      scan_fields-seen :
          (fs : Fields) (s : ScanState)
          → seen (scan_fields scan_string fs s).1 ≡ (any_field flag fs || seen s)
      scan_fields-seen end s = refl
      scan_fields-seen (field k v fs) s =
          ground (arith, scan_value-seen v s, scan_fields-seen fs (scan_value scan_string v s).1)

-- The analysis of a payload that is JSON: its score is that of the tool and one bonus for each kind
-- of finding that some text of the payload has, however often, up to 100; and where it neither masks
-- the payload nor says that it failed to, no text of the payload was to be masked.
pub analyze_params-once :
    (scan_string : String → String × StringScanFlags) (parse_json : String → Parsed)
    (print_json : Value → Option String) (tool_name params_json : String) (v : Value)
    → parse_json params_json ≡ parsed v
    → let a = analyze_params scan_string parse_json print_json tool_name params_json in
      (a.score
        ≡ min
            (base_tool_risk tool_name
              + points (any_text scan_string (λ (f : StringScanFlags). f.pii) v) 30
              + points (any_text scan_string (λ (f : StringScanFlags). f.luhn) v) 40
              + points (any_text scan_string (λ (f : StringScanFlags). f.entropy) v) 20
              + points (any_text scan_string (λ (f : StringScanFlags). f.secret) v) 45)
            100)
      × (a.sanitized_params ≡ none
          → a.masking_failed ≡ false
          → any_text scan_string (λ (f : StringScanFlags). f.masked) v ≡ false)
unfolding analyze_params analyzed apply_string_flags
analyze_params-once scan_string parse_json print_json tool_name params_json v h =
    subst
      (λ (p : Parsed). Statement (elim p [
        | parsed value ↦
            analyzed scan_string parse_json print_json
              (scan_value scan_string value (fresh (base_tool_risk tool_name)))
        | malformed _ ↦ analyze_raw_params scan_string params_json (base_tool_risk tool_name)
      ]))
      (sym h) (ap (λ n. min n 100) total, unmasked (print_json scanned.0) s.masked refl)
  where
    any_of : (StringScanFlags → Bool) → Bool
    any_of flag = any_text scan_string flag v

    scanned : Value × ScanState
    scanned = scan_value scan_string v (fresh (base_tool_risk tool_name))

    s : ScanState
    s = scanned.1

    Statement : RiskAnalysis → Type 0
    Statement a =
        (a.score
          ≡ min
              (base_tool_risk tool_name
                + points (any_of (λ (f : StringScanFlags). f.pii)) 30
                + points (any_of (λ (f : StringScanFlags). f.luhn)) 40
                + points (any_of (λ (f : StringScanFlags). f.entropy)) 20
                + points (any_of (λ (f : StringScanFlags). f.secret)) 45)
              100)
        × (a.sanitized_params ≡ none
            → a.masking_failed ≡ false
            → any_of (λ (f : StringScanFlags). f.masked) ≡ false)

    seen :
        (flag : StringScanFlags → Bool) (state_flag : ScanState → Bool)
        (step : (flags : StringScanFlags) (t : ScanState)
          → state_flag (apply_string_flags flags t) ≡ (flag flags || state_flag t))
        → state_flag (fresh (base_tool_risk tool_name)) ≡ false
        → state_flag s ≡ any_of flag
    seen flag state_flag step e = ground (
      arith,
      scan_value-seen scan_string flag state_flag step v (fresh (base_tool_risk tool_name)),
      e,
    )

    total :
        s.score
        ≡ base_tool_risk tool_name
          + points (any_of (λ (f : StringScanFlags). f.pii)) 30
          + points (any_of (λ (f : StringScanFlags). f.luhn)) 40
          + points (any_of (λ (f : StringScanFlags). f.entropy)) 20
          + points (any_of (λ (f : StringScanFlags). f.secret)) 45
    total = omega (
      arith,
      scan_value-IsSettled scan_string v (fresh (base_tool_risk tool_name)),
      ap (λ b. points b 30) (seen (λ f. f.pii) (λ t. t.pii_detected) (λ f t. refl) refl),
      ap (λ b. points b 40) (seen (λ f. f.luhn) (λ t. t.luhn_detected) (λ f t. refl) refl),
      ap (λ b. points b 20) (seen (λ f. f.entropy) (λ t. t.entropy_detected) (λ f t. refl) refl),
      ap (λ b. points b 45) (seen (λ f. f.secret) (λ t. t.secret_detected) (λ f t. refl) refl),
    )

    unmasked :
        (printed : Option String) (b : Bool)
        → s.masked ≡ b
        → (if b then printed else none) ≡ none
        → (if b
            then is_missing scan_string parse_json print_json (if b then printed else none)
            else false)
          ≡ false
        → any_of (λ (f : StringScanFlags). f.masked) ≡ false
    unmasked printed false e p q = sym (seen (λ f. f.masked) (λ t. t.masked) (λ f t. refl) refl) ∙ e
    unmasked none true e p q = ground (arith, q)
    unmasked (some text) true e p q = ground (arith, p)
