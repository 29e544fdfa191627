-- ===== src/Session.antt =====
-- The history of a session: mcp-proxy/src/behavior/session.rs. The check for a chain of tools that
-- exfiltrates data belongs to the enterprise build; in the open core it answers `false`.
pub mod Window
use sqreen_core.Prelude.{
  ℕ, suc, ◌+◌, ◌-◌, min, max, leb, length, drop, Bool, false, String, normalized, List, [], ◌∷◌,
  ◌++◌, if◌then◌else◌,
}
use sqreen_core.Action.{Action}

-- `DEFAULT_SESSION_CAPACITY`
abbrev pub default_session_capacity : ℕ
default_session_capacity = 10

-- `SessionTracker`, with the names as code points
pub record SessionTracker : Type 0 where
  pub history : List (List ℕ)
  pub capacity : ℕ

-- `SessionTracker::new`: `capacity.clamp(5, DEFAULT_SESSION_CAPACITY)`
unfoldable pub new_tracker : ℕ → SessionTracker
new_tracker capacity = record {
  history = [];
  capacity = min (max capacity 5) default_session_capacity;
}

-- `normalize_tool_name`
unfoldable pub normalize_tool_name : String → List ℕ
unfolding normalized
normalize_tool_name tool_name = normalized tool_name

-- `pop_front`
abbrev pub pop_front : List (List ℕ) → List (List ℕ)
pop_front [] = []
pop_front (x ∷ xs) = xs

-- The history after `record`
unfoldable pub recorded : ℕ → List (List ℕ) → List ℕ → List (List ℕ)
recorded capacity history name =
    (if leb capacity (length history) then pop_front history else history) ++ name ∷ []

-- `SessionTracker::record`
unfoldable pub record_tool : SessionTracker → String → SessionTracker
unfolding recorded normalize_tool_name
record_tool tracker tool_name = record tracker {
  history = recorded tracker.capacity tracker.history (normalize_tool_name tool_name);
}

-- `SessionTracker::record_action`
unfoldable pub record_action : SessionTracker → Action → SessionTracker
unfolding record_tool
record_action tracker action = record_tool tracker action.tool_name

-- `SessionTracker::verify_behavioral_chain` of the open core
abbrev pub verify_behavioral_chain : SessionTracker → String → String → Bool
verify_behavioral_chain tracker current_tool params_json = false

-- `SessionTracker::verify_action_chain`
abbrev pub verify_action_chain : SessionTracker → Action → Bool
verify_action_chain tracker action =
    verify_behavioral_chain tracker action.tool_name action.canonical_params_json
