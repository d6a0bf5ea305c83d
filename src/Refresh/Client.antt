-- ===== src/Refresh/Client.antt =====
-- Which client's credentials a refresh uses, and the request's parameters.
use authlane.Prelude.{
  String, Bool, Option, none, some, List, [], ◌∷◌, get_or, or_else, is_empty, is_some,
  if◌then◌else◌,
}
use authlane.Refresh.Types.{OrganizationService, RefreshEnvironment, TokenRefreshData}
use authlane.OAuth.Applications.{PlatformOauthCredentials}
use authlane.OAuth.TokenRequest.{Param, set_param}

abbrev pub own_client_id : Option OrganizationService → Option String
own_client_id none = none
own_client_id (some organization_service) = organization_service.oauth_client_id

abbrev pub own_secret_id : Option OrganizationService → Option String
own_secret_id none = none
own_secret_id (some organization_service) = organization_service.oauth_client_secret_id

abbrev platform_id : Option PlatformOauthCredentials → Option String
platform_id none = none
platform_id (some credentials) = some credentials.client_id

abbrev platform_secret : Option PlatformOauthCredentials → String
platform_secret none = ""
platform_secret (some credentials) = credentials.client_secret

-- `organizationService?.oauthClientId ?? platformCredentials?.clientId ?? null`.
unfoldable pub client_id :
    Option OrganizationService → Option PlatformOauthCredentials → Option String
client_id organization_service platform =
    or_else (own_client_id organization_service) (platform_id platform)

-- The client's secret; `read` is the store's read of an `oauth_client_secret` of the organization,
-- and `none` means that it threw.
unfoldable pub client_secret :
    (String → Option String)
    → Option OrganizationService
    → Option PlatformOauthCredentials
    → Option String
client_secret read organization_service platform =
    let secret_id = get_or (own_secret_id organization_service) "" in
    if is_empty secret_id
    then some (
        if is_empty (get_or (own_client_id organization_service) "")
        then platform_secret platform
        else "")
    else read secret_id

abbrev set_if : String → String → List Param → List Param
set_if name value params = if is_empty value then params else set_param name value params

unfoldable pub token_body : String → Option String → String → List Param
token_body refresh_token client_id' client_secret' = set_if "client_secret" client_secret' (
    set_if "client_id" (get_or client_id' "") (
      record { name = "grant_type"; value = "refresh_token" }
      ∷ record { name = "refresh_token"; value = refresh_token }
      ∷ []))

-- Whether the organization may use the service.
abbrev pub service_enabled : Option OrganizationService → Option PlatformOauthCredentials → Bool
service_enabled none platform = is_some platform
service_enabled (some organization_service) platform = organization_service.enabled

-- The token endpoint, if the service has one and is enabled.
unfoldable pub token_url : {S : Type 0} → RefreshEnvironment S → TokenRefreshData → Option String
token_url env data' = elim (env.service data'.service_id) [
  | none ↦ none
  | some url ↦
      if service_enabled (env.organization_service data'.organization_id data'.service_id)
        (env.platform_credentials data'.service_id)
      then (if is_empty (get_or url "") then none else url)
      else none
]
