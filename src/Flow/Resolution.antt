-- ===== src/Flow/Resolution.antt =====
-- apps/api/src/lib/oauth-provider-resolution.ts, which decides whether an authorization can start, and
-- `getOAuthAuthorizationParameters` of packages/shared/src/oauth-endpoints.ts.
use authlane.Prelude.{
  String, Bool, true, false, not, ◌&&◌, ◌||◌, Option, none, some, List, [], ◌∷◌, get_or, or_else,
  is_empty, if◌then◌else◌, ◌==◌, ◌<>◌,
}
use authlane.Prelude.Json.{Json, get, as_string, as_record}
use authlane.OAuth.Registry.{includes}
use authlane.OAuth.Trust.{UrlPlatform, is_trusted_mcp_endpoint}
use authlane.OAuth.Applications.{
  PlatformOauthCredentials, ProcessEnvironment, platform_oauth_credentials,
}
use authlane.OAuth.TokenRequest.{Param, set_param}
use authlane.Flow.Settings.{McpServerConnectConfig, mcp_endpoint_provenance}

pub data AuthorizationRefusal : Type 0 where
  missing_oauth_client missing_authorization_url disabled not_found not_oauth untrusted_endpoint :
      AuthorizationRefusal

pub data Resolution : Type 0 where
  ok : String → String → Resolution
  refused : AuthorizationRefusal → Resolution

-- The endpoints are both there and not empty.
abbrev pub falsy : Option String → Bool
falsy none = true
falsy (some text) = is_empty text

abbrev resolve_endpoints : UrlPlatform → McpServerConnectConfig → String → Resolution
resolve_endpoints p config client_id =
    let endpoint = get_or config.authorization_endpoint "" in
    let token = get_or config.token_endpoint "" in
    let provenance = mcp_endpoint_provenance p config in
    if not (is_trusted_mcp_endpoint p endpoint provenance)
      || not (is_trusted_mcp_endpoint p token provenance)
    then refused AuthorizationRefusal.untrusted_endpoint
    else ok endpoint client_id

-- With the authorization endpoint and the client's id. A stored server URL, which was parsed when it
-- was stored, is taken to parse.
unfoldable pub resolve_mcp_authorization : UrlPlatform → Option McpServerConnectConfig → Resolution
unfolding mcp_endpoint_provenance is_trusted_mcp_endpoint
resolve_mcp_authorization p none = refused AuthorizationRefusal.not_found
resolve_mcp_authorization p (some config) =
    if not config.enabled
    then refused AuthorizationRefusal.disabled
    else if not (config.auth_type == "oauth2")
    then refused AuthorizationRefusal.not_oauth
    else if falsy config.oauth_client_id
    then refused AuthorizationRefusal.missing_oauth_client
    else if falsy config.authorization_endpoint || falsy config.token_endpoint
    then refused AuthorizationRefusal.missing_authorization_url
    else resolve_endpoints p config (get_or config.oauth_client_id "")

pub record BuiltInAuthorizationInput : Type 0 where
  pub service_id : String
  pub auth_type : String
  pub enabled : Bool
  pub config : Json
  pub tenant_oauth_client_id : Option String

unfoldable pub config_text : String → Json → Option String
unfolding get
config_text key config = elim (as_record config) [ none ↦ none | some fs ↦ as_string (get key fs) ]

abbrev pub platform_client_id : Option PlatformOauthCredentials → Option String
platform_client_id none = none
platform_client_id (some credentials) = some credentials.client_id

-- With the raw authorization URL and the client's id.
unfoldable pub resolve_built_in_authorization :
    ProcessEnvironment → BuiltInAuthorizationInput → Resolution
unfolding config_text platform_oauth_credentials
resolve_built_in_authorization env input =
    let url = get_or (config_text "authorization_url" input.config) "" in
    let client =
      or_else input.tenant_oauth_client_id
        (platform_client_id (platform_oauth_credentials env input.service_id)) in
    if not input.enabled
    then refused AuthorizationRefusal.disabled
    else if not (input.auth_type == "oauth2")
    then refused AuthorizationRefusal.not_oauth
    else if is_empty url
    then refused AuthorizationRefusal.missing_authorization_url
    else if falsy client
    then refused AuthorizationRefusal.missing_oauth_client
    else ok url (get_or client "")

pub data NotConnectableReason : Type 0 where
  missing_oauth_client missing_authorization_url disabled : NotConnectableReason

-- `none` is connectable.
unfoldable pub connectability_of : Resolution → Option NotConnectableReason
connectability_of (ok endpoint client_id) = none
connectability_of (refused AuthorizationRefusal.not_oauth) = none
connectability_of (refused AuthorizationRefusal.not_found) = some NotConnectableReason.disabled
connectability_of (refused AuthorizationRefusal.untrusted_endpoint) =
    some NotConnectableReason.missing_authorization_url
connectability_of (refused AuthorizationRefusal.missing_oauth_client) =
    some NotConnectableReason.missing_oauth_client
connectability_of (refused AuthorizationRefusal.missing_authorization_url) =
    some NotConnectableReason.missing_authorization_url
connectability_of (refused AuthorizationRefusal.disabled) = some NotConnectableReason.disabled

-- `texts.join(separator)`.
unfoldable pub join : String → List String → String
join separator [] = ""
join separator (text ∷ []) = text
join separator (text ∷ next ∷ texts) = text <> (separator <> join separator (next ∷ texts))

abbrev scope_params : String → List String → List Param
scope_params service_id scopes =
    if not (service_id == "pipedrive") && not (is_no_scope scopes)
    then record {
      name = "scope";
      value = join (if includes service_id ("linear" ∷ "slack" ∷ []) then "," else " ") scopes;
    }
      ∷ []
    else []
  where
    is_no_scope : List String → Bool
    is_no_scope [] = true
    is_no_scope (scope ∷ rest) = false

unfoldable pub oauth_authorization_parameters : String → List String → List Param
unfolding join
oauth_authorization_parameters service_id scopes =
    let scoped = scope_params service_id scopes in
    let jira =
      if service_id == "jira"
      then set_param "prompt" "consent" (set_param "audience" "api.atlassian.com" scoped)
      else scoped in
    if includes service_id ("gmail" ∷ "google-calendar" ∷ "google-drive" ∷ [])
    then set_param "include_granted_scopes" "true"
        (set_param "prompt" "consent" (set_param "access_type" "offline" jira))
    else jira
