-- ===== src/Taxonomy.antt =====
-- The vocabulary of actions: mcp-proxy/src/taxonomy.rs.
use sqreen_core.Prelude.{
  ℕ, ◌==◌, String, codes, trim, codes_eq, starts_with, drop, length, Bool, true, false, ◌||◌,
  Option, none, some, List, [], ◌∷◌, any, map, one_of, if◌then◌else◌,
}

-- `ActionCategory`
pub data ActionCategory : Type 0 where
  read write execute delete create modify send query : ActionCategory
  authenticate escalate deploy network_request unknown : ActionCategory

-- `ActionCategory::as_str`
unfoldable pub category_str : ActionCategory → String
category_str read = "read"
category_str write = "write"
category_str execute = "execute"
category_str delete = "delete"
category_str create = "create"
category_str modify = "modify"
category_str send = "send"
category_str query = "query"
category_str authenticate = "authenticate"
category_str escalate = "escalate"
category_str deploy = "deploy"
category_str network_request = "network_request"
category_str unknown = "unknown"

-- `ResourceCategory`
pub data ResourceCategory : Type 0 where
  filesystem credential source_code database cloud_resource network api email : ResourceCategory
  browser secret pii financial_data production_system external_service : ResourceCategory
  unknown : ResourceCategory

-- `ResourceCategory::as_str`
unfoldable pub resource_str : ResourceCategory → String
resource_str filesystem = "filesystem"
resource_str credential = "credential"
resource_str source_code = "source_code"
resource_str database = "database"
resource_str cloud_resource = "cloud_resource"
resource_str network = "network"
resource_str api = "api"
resource_str email = "email"
resource_str browser = "browser"
resource_str secret = "secret"
resource_str pii = "pii"
resource_str financial_data = "financial_data"
resource_str production_system = "production_system"
resource_str external_service = "external_service"
resource_str unknown = "unknown"

-- The position of a category among the variants, by which the derived `==` and order compare
abbrev pub resource_rank : ResourceCategory → ℕ
resource_rank filesystem = 0
resource_rank credential = 1
resource_rank source_code = 2
resource_rank database = 3
resource_rank cloud_resource = 4
resource_rank network = 5
resource_rank api = 6
resource_rank email = 7
resource_rank browser = 8
resource_rank secret = 9
resource_rank pii = 10
resource_rank financial_data = 11
resource_rank production_system = 12
resource_rank external_service = 13
resource_rank unknown = 14

abbrev pub same_resource : ResourceCategory → ResourceCategory → Bool
same_resource a b = resource_rank a == resource_rank b

-- `RiskProfile`
pub record RiskProfile : Type 0 where
  pub destructive : Bool
  pub external_destination : Bool
  pub privileged : Bool
  pub credential_access : Bool
  pub sensitive_data_access : Bool
  pub production : Bool
  pub irreversible : Bool
  pub bulk_operation : Bool

-- `SecurityClassification::touches_resource`
unfoldable pub touches_resource : List ResourceCategory → ResourceCategory → Bool
touches_resource resources category = any (same_resource category) resources

-- `bool::to_string`
abbrev pub bool_str : Bool → String
bool_str true = "true"
bool_str false = "false"

-- `RiskProfile::field`, of a key on code points
unfoldable pub profile_field : RiskProfile → List ℕ → Option String
unfolding trim
profile_field risk name =
    let key = trim name in
    if one_of key ("destructive" ∷ [])
    then some (bool_str risk.destructive)
    else if one_of key ("external_destination" ∷ [])
    then some (bool_str risk.external_destination)
    else if one_of key ("privileged" ∷ [])
    then some (bool_str risk.privileged)
    else if one_of key ("credential_access" ∷ [])
    then some (bool_str risk.credential_access)
    else if one_of key ("sensitive_data_access" ∷ [])
    then some (bool_str risk.sensitive_data_access)
    else if one_of key ("production" ∷ [])
    then some (bool_str risk.production)
    else if one_of key ("irreversible" ∷ [])
    then some (bool_str risk.irreversible)
    else if one_of key ("bulk_operation" ∷ [])
    then some (bool_str risk.bulk_operation)
    else none

-- `TaxonomyMatchContext`
pub record TaxonomyMatchContext : Type 0 where
  pub action : ActionCategory
  pub resources : List ResourceCategory
  pub risk : RiskProfile

-- `strip_prefix`
abbrev pub strip_prefix : String → List ℕ → Option (List ℕ)
strip_prefix prefix cs =
    if starts_with (codes prefix) cs then some (drop (length (codes prefix)) cs) else none

-- `resource.replace('-', "_")`, of one code point
abbrev dash_to_underscore : ℕ → ℕ
dash_to_underscore c = if c == 45 then 95 else c

-- Does the name, as it is or with underscores for dashes, name one of the resources?
unfoldable pub names_resource : List ResourceCategory → List ℕ → Bool
unfolding resource_str
names_resource resources name =
    let expected = map dash_to_underscore name in
    any
      (λ category.
        codes_eq (codes (resource_str category)) expected
        || codes_eq (codes (resource_str category)) name)
      resources

-- `TaxonomyMatchContext::field`, of a trimmed key that starts with neither `risk.` nor `resource.`
unfoldable pub action_field : ActionCategory → List ℕ → Option String
unfolding category_str
action_field category key =
    if one_of key ("action" ∷ [])
    then some (category_str category)
    else elim (strip_prefix "action." key) [
      | some expected ↦ some (bool_str (codes_eq (codes (category_str category)) expected))
      | none ↦ none
    ]

-- `TaxonomyMatchContext::field`, of a trimmed key
unfoldable pub taxonomy_key_field : TaxonomyMatchContext → List ℕ → Option String
unfolding profile_field names_resource action_field
taxonomy_key_field ctx [] = none
taxonomy_key_field ctx (c ∷ cs) = elim (strip_prefix "risk." (c ∷ cs)) [
  | some flag ↦ profile_field ctx.risk flag
  | none ↦ elim (strip_prefix "resource." (c ∷ cs)) [
    | some resource ↦ some (bool_str (names_resource ctx.resources resource))
    | none ↦ action_field ctx.action (c ∷ cs)
  ]
]

-- `TaxonomyMatchContext::field`
unfoldable pub taxonomy_field : TaxonomyMatchContext → String → Option String
unfolding taxonomy_key_field trim
taxonomy_field ctx name = taxonomy_key_field ctx (trim (codes name))
