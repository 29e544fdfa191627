-- ===== src/SecurityBaseline/Document.antt =====
-- The mandatory policy document: mcp-proxy/src/security_baseline/mod.rs, with the redact keys of
-- sensitive_keys.rs beside it.
use sqreen_core.Prelude.{ℕ, pos, String, some, List, [], ◌∷◌, ◌++◌, map}
use sqreen_core.Policy.Schema.{
  schema_2026_3, PolicyMode, RuleEffect, PolicyAction, PolicyRule, ToolPolicy, PolicyConfig,
}

-- `CANONICAL_REDACT_KEYS`
abbrev pub canonical_redact_keys : List String
canonical_redact_keys =
    "OPENAI_API_KEY" ∷ "ANTHROPIC_API_KEY" ∷ "STRIPE_SECRET_KEY" ∷ "AWS_SECRET_ACCESS_KEY"
    ∷ "AWS_SESSION_TOKEN" ∷ "AWS_ACCESS_KEY_ID" ∷ "GITHUB_TOKEN" ∷ "GH_TOKEN" ∷ "SLACK_BOT_TOKEN"
    ∷ "SLACK_TOKEN" ∷ "AUTHORIZATION" ∷ "PASSWORD" ∷ "PASSWD" ∷ "SECRET" ∷ "TOKEN" ∷ "ACCESS_TOKEN"
    ∷ "REFRESH_TOKEN" ∷ "API_KEY" ∷ "APIKEY" ∷ "PRIVATE_KEY" ∷ "CLIENT_SECRET" ∷ "COOKIE" ∷ []

-- `push_sensitive_paths`
abbrev pub sensitive_path_patterns : List String
sensitive_path_patterns =
    "\\.\\./\\.\\./" ∷ "%2e%2e" ∷ "%2E%2E" ∷ "%252e%252e" ∷ "%252E%252E" ∷ "~/.ssh/.*" ∷ "\\.ssh/"
    ∷ "~/.aws/.*" ∷ "\\.aws/credentials" ∷ "~/.gnupg/.*" ∷ "/etc/shadow" ∷ "/etc/passwd"
    ∷ "\\.env(\\.|$)" ∷ "id_rsa(\\.|$)" ∷ "id_ed25519(\\.|$)" ∷ "\\.kube/config" ∷ "\\.netrc"
    ∷ "\\.pgpass" ∷ []

-- `dangerous_shell_patterns`
abbrev pub dangerous_shell_patterns : List String
dangerous_shell_patterns =
    "rm\\s+-rf\\s+.*" ∷ "curl.*\\|\\s*sh" ∷ "wget.*\\|\\s*sh" ∷ "chmod\\s+[0-7]{3,4}\\s+.*"
    ∷ "sudo\\s+.*" ∷ "mkfs\\..*" ∷ ":\\(\\)\\{ :\\|:& \\};:" ∷ []

-- `dangerous_network_patterns`
abbrev pub dangerous_network_patterns : List String
dangerous_network_patterns =
    "169\\.254\\.169\\.254" ∷ "metadata\\.google\\.internal" ∷ "file://.*" ∷ []

-- `shell_tool_names`
abbrev pub shell_tool_names : List String
shell_tool_names =
    "execute_bash" ∷ "run_terminal_cmd" ∷ "shell" ∷ "bash" ∷ "sh" ∷ "zsh" ∷ "powershell" ∷ "pwsh"
    ∷ "cmd" ∷ "run_command" ∷ "terminal" ∷ []

-- `filesystem_read_tool_names`
abbrev pub filesystem_read_tool_names : List String
filesystem_read_tool_names =
    "read_file" ∷ "read_text_file" ∷ "read_media_file" ∷ "read_multiple_files" ∷ "get_file_info"
    ∷ "search_files" ∷ []

-- `filesystem_write_tool_names`
abbrev pub filesystem_write_tool_names : List String
filesystem_write_tool_names =
    "write_file" ∷ "edit_file" ∷ "apply_patch" ∷ "create_directory" ∷ "move_file" ∷ []

-- `network_tool_names`
abbrev pub network_tool_names : List String
network_tool_names = "fetch" ∷ "http_request" ∷ "web_fetch" ∷ "curl" ∷ []

-- `tools.push(ToolPolicy { … })` for each name
abbrev tools_with : PolicyAction → List String → List String → List ToolPolicy
tools_with action patterns =
    map (λ name. record { name = name; action = action; block_patterns = patterns })

abbrev baseline_rule : String → ℕ → RuleEffect → String → List (String × String) → PolicyRule
baseline_rule name priority effect description when = record {
  name = name;
  priority = pos priority;
  effect = effect;
  description = some description;
  when = when;
  tools = [];
}

-- `taxonomy_baseline_rules`
abbrev pub taxonomy_baseline_rules : List PolicyRule
taxonomy_baseline_rules =
    baseline_rule "baseline.deny_credential_read" 9000 RuleEffect.deny
      "Deny reads that touch credential/secret resources"
      (("action.read", "true") ∷ ("resource.credential", "true") ∷ [])
    ∷ baseline_rule "baseline.deny_secret_read" 9000 RuleEffect.deny
        "Deny reads classified as secret material"
        (("action.read", "true") ∷ ("resource.secret", "true") ∷ [])
    ∷ baseline_rule "baseline.confirm_shell_execute" 8000 RuleEffect.require_approval
        "Shell/execute actions require approval"
        (("action.execute", "true") ∷ ("resource.filesystem", "true") ∷ [])
    ∷ baseline_rule "baseline.confirm_destructive" 8500 RuleEffect.require_approval
        "Destructive actions require approval" (("risk.destructive", "true") ∷ [])
    ∷ baseline_rule "baseline.confirm_unknown_execute" 8200 RuleEffect.require_approval
        "Unknown tools performing execute require approval"
        (("action.execute", "true") ∷ ("risk.factor.unusual_tool", "true") ∷ [])
    ∷ []

-- `mandatory_policy_config`
unfoldable pub mandatory_policy_config : PolicyConfig
mandatory_policy_config = record {
  version = "baseline-2026.3";
  schema_version = schema_2026_3;
  mode = PolicyMode.enforce;
  rules = taxonomy_baseline_rules;
  global = record {
    redact_keys = canonical_redact_keys;
    risk_threshold = 70;
    block_patterns = sensitive_path_patterns;
  };
  identity_rules = [];
  taxonomy_rules = [];
  tools =
      tools_with PolicyAction.confirm dangerous_shell_patterns shell_tool_names
      ++ tools_with PolicyAction.allow sensitive_path_patterns filesystem_read_tool_names
      ++ tools_with PolicyAction.confirm sensitive_path_patterns filesystem_write_tool_names
      ++ tools_with PolicyAction.allow dangerous_network_patterns network_tool_names;
}
