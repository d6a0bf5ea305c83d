-- ===== src/Flow/Client.antt =====
-- Who exchanges a code, where, and with what: the client, the token endpoint and the secret that the
-- callback of oauth.ts works out.
use authlane.Prelude.{
  ℕ, String, Bool, true, not, ◌&&◌, ◌||◌, Option, none, some, List, [], ◌∷◌, find, get_or, or_else,
  is_some, is_empty, if◌then◌else◌, ◌==◌,
}
use authlane.Prelude.Json.{Fields}
use authlane.OAuth.Trust.{McpEndpointProvenance, is_mcp_server_id}
use authlane.OAuth.Applications.{PlatformOauthCredentials, platform_oauth_credentials}
use authlane.OAuth.TokenRequest.{Param, set_param, fetch_oauth_token}
use authlane.Flow.Tables.{OauthTransaction, Service}
use authlane.Flow.Settings.{
  TenantServiceSettings, read_tenant_service_settings, read_mcp_server_connect_config,
  mcp_endpoint_provenance,
}
use authlane.Flow.Resolution.{falsy, config_text, platform_client_id}
use authlane.Flow.Types.{FlowEnvironment}

-- Who exchanges the code, and where.
pub record Client : Type 0 where
  pub client_id : Option String
  pub token_url : Option String
  pub client_secret_id : Option String
  pub platform_secret : String
  pub provenance : Option McpEndpointProvenance

abbrev tenant_client_id : Option TenantServiceSettings → Option String
tenant_client_id none = none
tenant_client_id (some settings) = settings.oauth_client_id

abbrev tenant_secret_id : Option TenantServiceSettings → Option String
tenant_secret_id none = none
tenant_secret_id (some settings) = settings.oauth_client_secret_id

abbrev platform_client_secret : Option PlatformOauthCredentials → String
platform_client_secret none = ""
platform_client_secret (some credentials) = credentials.client_secret

abbrev service_token_url : Option Service → Option String
service_token_url none = none
service_token_url (some service) = config_text "token_url" service.config

unfoldable pub token_body : String → String → String → String → String → List Param
token_body code callback_url client_id verifier secret =
    let body =
      record { name = "grant_type"; value = "authorization_code" }
      ∷ record { name = "code"; value = code }
      ∷ record { name = "redirect_uri"; value = callback_url }
      ∷ record { name = "client_id"; value = client_id }
      ∷ record { name = "code_verifier"; value = verifier }
      ∷ [] in
    if is_empty secret then body else set_param "client_secret" secret body

module _ {S : Type 0} (env : FlowEnvironment S) where
  unfoldable pub mcp_client : String → String → Client
  unfolding mcp_endpoint_provenance read_mcp_server_connect_config
  mcp_client organization_id service_id =
      elim (read_mcp_server_connect_config env.mcp_servers organization_id service_id) [
        | none ↦ record {
          client_id = none;
          token_url = none;
          client_secret_id = none;
          platform_secret = "";
          provenance = none;
        }
        | some config ↦ record {
          client_id = config.oauth_client_id;
          token_url = config.token_endpoint;
          client_secret_id = config.oauth_client_secret_id;
          platform_secret = "";
          provenance = mcp_endpoint_provenance env.tokens.urls config;
        }
      ]

  unfoldable pub built_in_client : String → Option Service → Option TenantServiceSettings → Client
  unfolding config_text platform_oauth_credentials
  built_in_client service_id service settings =
      let platform = platform_oauth_credentials env.process service_id in
      record {
        client_id = or_else (tenant_client_id settings) (platform_client_id platform);
        token_url = service_token_url service;
        client_secret_id = tenant_secret_id settings;
        platform_secret =
            if falsy (tenant_client_id settings) then platform_client_secret platform else "";
        provenance = none;
      }

  abbrev pub any_service : String → Option Service
  any_service service_id = find (λ service. service.id == service_id) env.services

  unfoldable pub client_of : String → String → Client
  unfolding mcp_client built_in_client read_tenant_service_settings
  client_of organization_id service_id =
      if is_mcp_server_id service_id
      then mcp_client organization_id service_id
      else built_in_client service_id (any_service service_id) (
          read_tenant_service_settings env.process env.organization_services organization_id
            service_id)

  -- Whether the URL of a stored server parses; where it does not, finding its provenance throws.
  unfoldable pub is_located : String → String → Bool
  unfolding read_mcp_server_connect_config
  is_located organization_id service_id =
      not (is_mcp_server_id service_id)
      || (elim (read_mcp_server_connect_config env.mcp_servers organization_id service_id) [
        | none ↦ true
        | some config ↦ is_some (env.tokens.urls.parse_url config.server_url)
      ])

  -- Whether what a built-in service needs is still there.
  unfoldable pub is_configured : String → String → Bool
  unfolding read_tenant_service_settings
  is_configured organization_id service_id =
      is_mcp_server_id service_id
      || (is_some (any_service service_id)
          && is_some (
              read_tenant_service_settings env.process env.organization_services organization_id
                service_id))

  -- The secret that goes with the client; `none` where reading it throws.
  unfoldable pub secret_of : Client → String → S → Option String
  secret_of client organization_id secrets =
      if falsy client.client_secret_id
      then some client.platform_secret
      else env.store.read secrets (get_or client.client_secret_id "") organization_id
          "oauth_client_secret"

  abbrev pub answer_of : OauthTransaction → Client → String → String → String → Option (ℕ × Fields)
  answer_of t client code verifier secret =
      let client_id = get_or client.client_id "" in
      fetch_oauth_token env.tokens t.service_id (get_or client.token_url "")
        (token_body code t.callback_url client_id verifier secret)
        (record {
          client_id = some client_id;
          client_secret = some secret;
          mcp_provenance = client.provenance;
        })
