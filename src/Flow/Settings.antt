-- ===== src/Flow/Settings.antt =====
-- Which services an organization may use, and how: apps/api/src/lib/service-enablement.ts, the
-- catalogue's identifiers of packages/shared/src/supported-services.ts, and the stored MCP servers
-- as packages/database/src/mcp-servers.ts reads them. A tenant's rows are those of its organization.
use authlane.Prelude.{
  String, Bool, ◌&&◌, ◌||◌, Option, none, some, List, [], ◌∷◌, ◌++◌, find, filter, map, is_some,
  if◌then◌else◌, ◌==◌,
}
use authlane.Prelude.Json.{Json, get, as_string, as_record}
use authlane.OAuth.Registry.{includes}
use authlane.OAuth.Trust.{UrlPlatform, McpEndpointTrust, McpEndpointProvenance, is_mcp_server_id}
use authlane.OAuth.Applications.{ProcessEnvironment, platform_oauth_credentials}
use authlane.Flow.Tables.{Service, OrganizationServiceRow, McpServerConnectRow}

abbrev pub supported_service_ids : List String
supported_service_ids =
    "airtable" ∷ "attio" ∷ "discord" ∷ "github" ∷ "gmail" ∷ "google-calendar" ∷ "google-drive"
    ∷ "hubspot" ∷ "jira" ∷ "linear" ∷ "microsoft-calendar" ∷ "microsoft-mail"
    ∷ "microsoft-sharepoint" ∷ "notion" ∷ "pipedrive" ∷ "salesforce" ∷ "slack" ∷ "stripe" ∷ []

-- `demo` is `isDemoServiceEnabled()`.
unfoldable pub allowed_service_ids : Bool → List String
allowed_service_ids demo =
    if demo then supported_service_ids ++ "authlane-demo" ∷ [] else supported_service_ids

abbrev pub is_supported_service_id : Bool → String → Bool
is_supported_service_id demo value =
    includes value supported_service_ids || (value == "authlane-demo" && demo)

unfoldable pub is_connectable_service_id : Bool → String → Bool
is_connectable_service_id demo value = is_supported_service_id demo value || is_mcp_server_id value

pub record TenantServiceSettings : Type 0 where
  pub tool_access_policy : String
  pub oauth_client_id : Option String
  pub oauth_client_secret_id : Option String
  pub custom_scopes : Option (List String)

abbrev pub platform_default_service_settings : TenantServiceSettings
platform_default_service_settings = record {
  tool_access_policy = "read_only";
  oauth_client_id = none;
  oauth_client_secret_id = none;
  custom_scopes = none;
}

unfoldable pub is_platform_default_service : ProcessEnvironment → String → Bool
unfolding platform_oauth_credentials
is_platform_default_service env service_id = is_some (platform_oauth_credentials env service_id)

abbrev pub of_tenant : String → String → OrganizationServiceRow → Bool
of_tenant organization_id service_id row =
    row.organization_id == organization_id && row.service_id == service_id

abbrev settings_of_row : OrganizationServiceRow → TenantServiceSettings
settings_of_row row = record {
  tool_access_policy = row.tool_access_policy;
  oauth_client_id = row.oauth_client_id;
  oauth_client_secret_id = row.oauth_client_secret_id;
  custom_scopes = row.custom_scopes;
}

unfoldable pub read_tenant_service_settings :
    ProcessEnvironment
    → List OrganizationServiceRow
    → String
    → String
    → Option TenantServiceSettings
unfolding is_platform_default_service
read_tenant_service_settings env rows organization_id service_id =
    elim (find (of_tenant organization_id service_id) rows) [
      | some row ↦ if row.enabled then some (settings_of_row row) else none
      | none ↦
          if is_platform_default_service env service_id
          then some platform_default_service_settings
          else none
    ]

-- `tenantServiceJoin` with `serviceEnabledForOrganization`: the condition on a service of the
-- catalogue, joined with the organization's row or with none.
unfoldable pub service_enabled_for_organization :
    ProcessEnvironment → Bool → List OrganizationServiceRow → String → Service → Bool
unfolding is_platform_default_service allowed_service_ids
service_enabled_for_organization env demo rows organization_id service =
    elim (find (of_tenant organization_id service.id) rows) [
      | some row ↦ row.enabled
      | none ↦
          includes service.id (filter (is_platform_default_service env) (allowed_service_ids demo))
    ]

pub record McpServerConnectConfig : Type 0 where
  pub id : String
  pub server_url : String
  pub auth_type : String
  pub enabled : Bool
  pub oauth_client_id : Option String
  pub oauth_client_secret_id : Option String
  pub authorization_endpoint : Option String
  pub token_endpoint : Option String
  pub endpoint_trust : Option McpEndpointTrust
  pub authorization_required : Bool

unfoldable pub read_endpoint_trust : Option String → Option McpEndpointTrust
read_endpoint_trust none = none
read_endpoint_trust (some value) =
    if value == "issuer-declared"
    then some McpEndpointTrust.issuer_declared
    else if value == "server-host"
    then some McpEndpointTrust.server_host
    else none

-- A text of the stored metadata.
unfoldable pub metadata_text : String → Option Json → Option String
unfolding get
metadata_text key none = none
metadata_text key (some metadata) = elim (as_record metadata) [
  | none ↦ none
  | some fs ↦ as_string (get key fs)
]

unfoldable pub to_connect_config : McpServerConnectRow → McpServerConnectConfig
unfolding read_endpoint_trust metadata_text
to_connect_config row = record {
  id = row.id;
  server_url = row.server_url;
  auth_type = row.auth_type;
  enabled = row.enabled;
  oauth_client_id = row.oauth_client_id;
  oauth_client_secret_id = row.oauth_client_secret_id;
  authorization_endpoint = metadata_text "authorizationEndpoint" row.oauth_metadata;
  token_endpoint = metadata_text "tokenEndpoint" row.oauth_metadata;
  endpoint_trust = read_endpoint_trust (metadata_text "endpointTrust" row.oauth_metadata);
  authorization_required = row.authorization_required;
}

unfoldable pub read_mcp_server_connect_config :
    List McpServerConnectRow → String → String → Option McpServerConnectConfig
unfolding to_connect_config
read_mcp_server_connect_config rows organization_id server_id =
    elim (find (λ row. row.id == server_id && row.organization_id == organization_id) rows) [
      | none ↦ none
      | some row ↦ some (to_connect_config row)
    ]

-- `listEnabledMcpServers`, of rows in the order of their names.
unfoldable pub enabled_mcp_servers : List McpServerConnectRow → String → List McpServerConnectConfig
unfolding to_connect_config
enabled_mcp_servers rows organization_id =
    map to_connect_config
      (filter (λ row. row.organization_id == organization_id && row.enabled) rows)

-- `none` where the stored URL cannot be parsed, and the function throws.
unfoldable pub mcp_endpoint_provenance :
    UrlPlatform → McpServerConnectConfig → Option McpEndpointProvenance
mcp_endpoint_provenance p config = elim (p.parse_url config.server_url) [
  | none ↦ none
  | some url ↦ some (record { server_host = url.hostname; trust = config.endpoint_trust })
]
