-- ===== src/Gateway/Approval/Context.antt =====
-- What a reviewer sees: mcp-proxy/src/gateway/approval/context.rs. The context leaves out its time,
-- which the brief takes as a text.
use sqreen_core.Prelude.{
  ℕ, ◌/◌, leb, String, ◌&◌, take_chars, char_count, join, contains, take, when, Bool, not, Option,
  none, some, List, [], ◌∷◌, ◌++◌, map, is_empty, if◌then◌else◌,
}
use sqreen_core.Taxonomy.{category_str}
use sqreen_core.Action.{
  Action, EnvironmentTier, Resource, file, directory, command, url, host, database, browser_target,
  opaque, Destination, to_host, to_url, to_file, to_process,
}
use sqreen_core.Scoring.{RiskLevel, high, level_str, kind_str, RiskFactor, ExplainableRiskScore}
use sqreen_core.Gateway.Decision.{DecisionReason, MatchedPolicy}
use sqreen_core.Gateway.Approval.Binding.{ActionBinding, from_action, session_approval_safe}

-- `ApprovalContext`
pub record ApprovalContext : Type 0 where
  pub request_id : String
  pub requesting_agent : String
  pub delegated_user : Option String
  pub action : String
  pub action_category : String
  pub target_resource : Option String
  pub environment : String
  pub risk_level : RiskLevel
  pub risk_score : ℕ
  pub risk_reasons : List String
  pub matched_policies : List String
  pub destination : Option String
  pub sanitized_arguments : String
  pub binding : ActionBinding
  pub session_approval_eligible : Bool
  pub timed_approval_eligible : Bool
  pub timed_approval_ttl_secs : ℕ

-- `environment_label`
unfoldable pub environment_label : EnvironmentTier → String
environment_label EnvironmentTier.development = "development"
environment_label EnvironmentTier.staging = "staging"
environment_label EnvironmentTier.production = "production"
environment_label EnvironmentTier.unknown = "unknown"

abbrev or_else : String → Option String → String
or_else fallback none = fallback
or_else fallback (some text) = text

abbrev map_text : (String → String) → Option String → Option String
map_text f none = none
map_text f (some text) = some (f text)

-- `DEFAULT_TIMED_APPROVAL`, in seconds
abbrev pub default_timed_approval : ℕ
default_timed_approval = 900

-- `show` is `Display` of an integer.
module _ (show : ℕ → String) where
  -- `{host}:{port}`, or the host alone
  abbrev host_port : String → Option ℕ → String
  host_port name none = name
  host_port name (some port) = name & ":" & show port

  -- `summarize_resource`
  unfoldable pub summarize_resource : Resource → String
  summarize_resource (file path) = path
  summarize_resource (directory path) = path
  summarize_resource (command none raw) = raw
  summarize_resource (command (some name) raw) = name & " (" & raw & ")"
  summarize_resource (url address none) = "url:" & address
  summarize_resource (url address (some name)) = "url:" & name
  summarize_resource (host name port) = host_port name port
  summarize_resource (database system name table statement) =
      "db:" & or_else "?" system & ":" & or_else "?" name & "." & or_else "?" table
  summarize_resource (browser_target address selector) =
      "browser:" & or_else "?" address & " " & or_else "" selector
  summarize_resource (opaque descriptor) = descriptor

  -- `summarize_destination`
  unfoldable pub summarize_destination : Destination → String
  summarize_destination (to_host name port) = host_port name port
  summarize_destination (to_url address none) = address
  summarize_destination (to_url address (some name)) = name
  summarize_destination (to_file path) = "file:" & path
  summarize_destination (to_process line) = "process:" & line

  abbrev resource_summary : Option Resource → Option String
  unfolding summarize_resource
  resource_summary none = none
  resource_summary (some resource) = some (summarize_resource resource)

  abbrev egress_summary : Option Destination → Option String
  unfolding summarize_destination
  egress_summary none = none
  egress_summary (some destination) = some (summarize_destination destination)

  -- `truncate_for_ui`
  unfoldable pub truncate_for_ui : String → ℕ → String
  unfolding take_chars
  truncate_for_ui text max_len =
      if leb (char_count text) max_len then text else take_chars max_len text & "…"

  -- The line of an optional field
  abbrev optional_line : String → Option String → List String
  optional_line label none = []
  optional_line label (some text) = (label & text) ∷ []

  -- The choices of `render_brief`
  unfoldable pub choices : ApprovalContext → List String
  choices context =
      ("[y] APPROVE_ONCE" ∷ "[n] DENY" ∷ [])
      ++ when context.session_approval_eligible "[s] APPROVE_FOR_SESSION"
      ++ when context.timed_approval_eligible
          ("[t] APPROVE for " & show (context.timed_approval_ttl_secs / 60) & "m")

  -- The lines of the reasons
  abbrev reason_lines : List String → List String
  reason_lines [] = []
  reason_lines (r ∷ rs) = "Reasons   :" ∷ map (λ (text : String). "  - " & text) (take 8 (r ∷ rs))

  -- `render_brief`, with the text of the time
  unfoldable pub render_brief : String → ApprovalContext → String
  unfolding choices truncate_for_ui level_str take_chars
  render_brief time context = join "\n" (
      (("Request   : " & context.request_id)
        ∷ ("Time      : " & time)
        ∷ ("Agent     : " & context.requesting_agent)
        ∷ [])
      ++ optional_line "User      : " context.delegated_user
      ++ ("Action    : " & context.action & " (" & context.action_category & ")") ∷ []
      ++ optional_line "Resource  : " context.target_resource
      ++ optional_line "Destination: " context.destination
      ++ (("Environment: " & context.environment)
          ∷ ("Risk      : "
              & level_str context.risk_level
              & " ("
              & show context.risk_score
              & "/100 — ordinal severity, not probability)")
          ∷ [])
      ++ reason_lines context.risk_reasons
      ++ when (not (is_empty context.matched_policies))
          ("Policies  : " & join ", " context.matched_policies)
      ++ ("Arguments :"
          ∷ truncate_for_ui context.sanitized_arguments 400
          ∷ ""
          ∷ ("Binding   : " & take_chars 16 context.binding.fingerprint)
          ∷ ("Decide    : " & join "  " (choices context))
          ∷ []))

  -- `sanitize_detail` is the masking of texts; the digest and the byte 0 are those of the binding.
  module _ (sanitize_detail : String → String) (hex_sha256 : String → String)
      (separator : String) where
    -- The line of a factor
    factor_line : RiskFactor → String
    unfolding kind_str
    factor_line f =
        sanitize_detail (kind_str f.kind & " (+" & show f.contribution & ") — " & f.detail)

    -- The lines of factors, each added where it is not there yet
    unfoldable pub add_factors : List String → List RiskFactor → List String
    unfolding factor_line
    add_factors items [] = items
    add_factors items (f ∷ fs) =
        add_factors (if contains items (factor_line f) then items else items ++ factor_line f ∷ [])
          fs

    -- `risk_reasons` of `build`
    unfoldable pub reasons_of : List DecisionReason → Option ExplainableRiskScore → List String
    unfolding add_factors
    reasons_of reasons none = map (λ (r : DecisionReason). sanitize_detail r.detail) reasons
    reasons_of reasons (some explanation) =
        add_factors (map (λ (r : DecisionReason). sanitize_detail r.detail) reasons)
          explanation.factors

    -- The band that `build` reads
    abbrev pub level_of : Option ExplainableRiskScore → RiskLevel
    level_of none = high
    level_of (some explanation) = explanation.level

    -- `ApprovalContext::build`
    unfoldable pub build :
        Action
        → String
        → ℕ
        → Option ExplainableRiskScore
        → List DecisionReason
        → List MatchedPolicy
        → ApprovalContext
    unfolding from_action take_chars reasons_of session_approval_safe category_str environment_label
        resource_summary egress_summary
    build action sanitized_payload risk_score explanation reasons matched_policies =
        let binding = from_action hex_sha256 separator action in
        let session_ok = session_approval_safe action (level_of explanation) in
        record {
          request_id = "aprq_" & take_chars 24 binding.fingerprint;
          requesting_agent = action.effective_agent_id;
          delegated_user = map_text sanitize_detail action.user_id;
          action = action.tool_name;
          action_category = category_str action.category;
          target_resource = map_text sanitize_detail (resource_summary action.resource);
          environment = environment_label action.tier;
          risk_level = level_of explanation;
          risk_score = risk_score;
          risk_reasons = reasons_of reasons explanation;
          matched_policies =
              map (λ (p : MatchedPolicy). sanitize_detail p.rule_id) matched_policies;
          destination = map_text sanitize_detail (egress_summary action.egress);
          sanitized_arguments = sanitize_detail sanitized_payload;
          binding = binding;
          session_approval_eligible = session_ok;
          timed_approval_eligible = session_ok;
          timed_approval_ttl_secs = default_timed_approval;
        }
