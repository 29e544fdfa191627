-- ===== src/Risk.antt =====
-- The score of a payload: the analysis of mcp-proxy/src/risk.rs. A score is an i32 while it grows;
-- each bonus is added once, so it stays far below 2 ^ 31.
pub mod Luhn
pub mod Bounds
pub mod Cards
pub mod Checksum
use sqreen_core.Prelude.{
  ℕ, ◌+◌, min, leb, String, str_eq, Bool, true, false, not, ◌&&◌, ◌||◌, Option, none, some, List,
  [], ◌∷◌, contains, if◌then◌else◌,
}
use sqreen_core.Json.{
  Value, Items, Fields, null, bool, number, string, array, object, nil, cons, end, field, Parsed,
  parsed, malformed,
}

-- `DEFAULT_RISK_THRESHOLD`
abbrev pub default_risk_threshold : ℕ
default_risk_threshold = 70

abbrev pub pii_risk_bonus : ℕ
pii_risk_bonus = 30

abbrev pub luhn_risk_bonus : ℕ
luhn_risk_bonus = 40

abbrev pub entropy_risk_bonus : ℕ
entropy_risk_bonus = 20

abbrev pub secret_risk_bonus : ℕ
secret_risk_bonus = 45

-- `SECRET_MASK_TOKEN`
abbrev pub secret_mask_token : String
secret_mask_token = "[MASKED_SECRET_BY_PROXY]"

-- `RiskAnalysis`
pub record RiskAnalysis : Type 0 where
  pub score : ℕ
  pub sanitized_params : Option String
  pub degraded : Bool
  pub masking_failed : Bool

-- `StringScanFlags`
pub record StringScanFlags : Type 0 where
  pub pii : Bool
  pub luhn : Bool
  pub entropy : Bool
  pub secret : Bool
  pub masked : Bool

-- `ScanState`, and the score beside it
pub record ScanState : Type 0 where
  pub score : ℕ
  pub masked : Bool
  pub pii_detected : Bool
  pub luhn_detected : Bool
  pub entropy_detected : Bool
  pub secret_detected : Bool

-- `ScanState::default()`, at a score
abbrev pub fresh : ℕ → ScanState
fresh score = record {
  score = score;
  masked = false;
  pii_detected = false;
  luhn_detected = false;
  entropy_detected = false;
  secret_detected = false;
}

-- `base_tool_risk`
unfoldable pub base_tool_risk : String → ℕ
base_tool_risk tool_name =
    if contains ("read_file" ∷ "read_text_file" ∷ "read_media_file" ∷ []) tool_name
    then 20
    else if contains ("write_file" ∷ "edit_file" ∷ "apply_patch" ∷ []) tool_name
    then 60
    else if contains ("execute_bash" ∷ "run_terminal_cmd" ∷ "shell" ∷ "bash" ∷ []) tool_name
    then 75
    else if contains ("fetch" ∷ "web_search" ∷ "browser_navigate" ∷ []) tool_name
    then 45
    else if contains ("delete_file" ∷ "remove_file" ∷ []) tool_name
    then 65
    else 30

-- One bonus of `apply_string_flags`: added where the flag is new
abbrev pub bonus : Bool → Bool → ℕ → ℕ
bonus flag seen points = if flag && not seen then points else 0

-- `apply_string_flags`
unfoldable pub apply_string_flags : StringScanFlags → ScanState → ScanState
apply_string_flags flags s = record {
  score =
      s.score
      + bonus flags.pii s.pii_detected pii_risk_bonus
      + bonus flags.luhn s.luhn_detected luhn_risk_bonus
      + bonus flags.entropy s.entropy_detected entropy_risk_bonus
      + bonus flags.secret s.secret_detected secret_risk_bonus;
  masked = flags.masked || s.masked;
  pii_detected = flags.pii || s.pii_detected;
  luhn_detected = flags.luhn || s.luhn_detected;
  entropy_detected = flags.entropy || s.entropy_detected;
  secret_detected = flags.secret || s.secret_detected;
}

-- `scan_string` stands for the scan of one text.
module _ (scan_string : String → String × StringScanFlags) where
  -- The text that `scan_value` leaves in place
  abbrev pub kept_text : String → String × StringScanFlags → String
  kept_text text (sanitized, flags) = if flags.masked then sanitized else text

  -- `scan_value`
  unfoldable mutual
    unfolding apply_string_flags

    pub scan_value : Value → ScanState → Value × ScanState
    scan_value (string text) s =
        (string (kept_text text (scan_string text)), apply_string_flags (scan_string text).1 s)
    scan_value (array items) s = let r = scan_items items s in (array r.0, r.1)
    scan_value (object fields) s = let r = scan_fields fields s in (object r.0, r.1)
    scan_value null s = (null, s)
    scan_value (bool b) s = (bool b, s)
    scan_value (number n) s = (number n, s)

    pub scan_items : Items → ScanState → Items × ScanState
    scan_items nil s = (nil, s)
    scan_items (cons v vs) s =
        let r = scan_value v s in let rs = scan_items vs r.1 in (cons r.0 rs.0, rs.1)

    pub scan_fields : Fields → ScanState → Fields × ScanState
    scan_fields end s = (end, s)
    scan_fields (field k v fs) s =
        let r = scan_value v s in let rs = scan_fields fs r.1 in (field k r.0 rs.0, rs.1)

  -- `analyze_raw_params`, from the scan of the text on
  unfoldable pub analyze_raw : ℕ → String × StringScanFlags → RiskAnalysis
  unfolding apply_string_flags
  analyze_raw base_score (sanitized, flags) =
      let s = apply_string_flags flags (fresh base_score) in
      record {
        score = min s.score 100;
        sanitized_params = if s.masked then some sanitized else none;
        degraded = true;
        masking_failed = false;
      }

  -- `analyze_raw_params`
  unfoldable pub analyze_raw_params : String → ℕ → RiskAnalysis
  unfolding analyze_raw
  analyze_raw_params params_json base_score = analyze_raw base_score (scan_string params_json)

  -- `print_json` is `serde_json::to_string`, which may fail.
  module _ (parse_json : String → Parsed) (print_json : Value → Option String) where
    abbrev pub is_missing : Option String → Bool
    is_missing none = true
    is_missing (some _) = false

    -- `analyze_params`, of a payload that parsed, from the scan on
    unfoldable pub analyzed : Value × ScanState → RiskAnalysis
    analyzed (value, s) =
        let masked = if s.masked then print_json value else none in
        record {
          score = min s.score 100;
          sanitized_params = masked;
          degraded = false;
          masking_failed = if s.masked then is_missing masked else false;
        }

    -- `analyze_params`
    unfoldable pub analyze_params : String → String → RiskAnalysis
    unfolding base_tool_risk scan_value scan_items scan_fields analyzed analyze_raw_params
    analyze_params tool_name params_json = elim (parse_json params_json) [
      | parsed value ↦ analyzed (scan_value value (fresh (base_tool_risk tool_name)))
      | malformed _ ↦ analyze_raw_params params_json (base_tool_risk tool_name)
    ]

-- `resolve_risk_threshold`, on the value of the environment variable; `trim` and `parse_u8` are those
-- of the Rust library.
module _ (trim : String → String) (parse_u8 : String → Option ℕ) where
  -- `configured.unwrap_or(DEFAULT_RISK_THRESHOLD)`
  abbrev pub configured_threshold : Option ℕ → ℕ
  configured_threshold none = default_risk_threshold
  configured_threshold (some threshold) = threshold

  unfoldable pub resolve_risk_threshold : Option String → Option ℕ → ℕ
  resolve_risk_threshold none configured = configured_threshold configured
  resolve_risk_threshold (some raw) configured =
      if str_eq (trim raw) "" then configured_threshold configured else elim (parse_u8 (trim raw)) [
        | some threshold ↦ threshold
        | none ↦ configured_threshold configured
      ]

-- `SecurityLayerEvaluation`
pub record SecurityLayerEvaluation : Type 0 where
  pub effective_score : ℕ
  pub force_confirmation_gate : Bool
  pub telemetry_marker : Option String

-- `apply_security_layers`; `saturating_add` stops at 255
unfoldable pub apply_security_layers : ℕ → Bool → Bool → SecurityLayerEvaluation
apply_security_layers base_score ioc_match behavioral_anomaly =
    let score = if ioc_match then min (min (base_score + 50) 255) 100 else base_score in
    let marker = if ioc_match then some "THREAT_INTEL_IOC_MATCH" else none in
    record {
      effective_score = if behavioral_anomaly then 100 else score;
      force_confirmation_gate = if behavioral_anomaly then true else ioc_match;
      telemetry_marker = if behavioral_anomaly then some "BEHAVIORAL_CHAIN_ANOMALY" else marker;
    }
