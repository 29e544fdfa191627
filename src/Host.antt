-- ===== src/Host.antt =====
-- What the program takes from libraries that are not part of the repository: the Rust library's
-- texts, serde_json and the regex crate.
use sqreen_core.Prelude.{ℕ, ℤ, String, Bool, Option, List}
use sqreen_core.Json.{Value, Parsed}

pub record Host : Type 0 where
  -- `str::trim`, `str::to_ascii_lowercase`, and `Display` of an `i32`
  pub trim : String → String
  pub to_ascii_lowercase : String → String
  pub show_int : ℤ → String
  -- `str::as_bytes` and `String::from_utf8`
  pub as_bytes : String → List ℕ
  pub from_utf8 : List ℕ → Option String
  -- `Regex::new`, as a test, and `Regex::is_match`
  pub regex_valid : String → Bool
  pub is_match : String → String → Bool
  -- `serde_json::from_str` and `Value::to_string`
  pub parse_json : String → Parsed
  pub print_json : Value → String
