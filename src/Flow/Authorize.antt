-- ===== src/Flow/Authorize.antt =====
-- POST /connect/:serviceId/authorize of oauth.ts, with `issueAuthorizationRedirect`.
use authlane.Prelude.{
  ℕ, ◌+◌, min, String, true, not, ◌&&◌, Option, none, some, List, [], ◌∷◌, ◌++◌, find, get_or,
  or_else, if◌then◌else◌, ◌==◌,
}
use authlane.Prelude.Json.{Json, nil, null, bool, num, str, arr, obj, get, as_record}
use authlane.Store.Tables.{ConnectionStatus, Connection}
use authlane.OAuth.Registry.{EndpointKind}
use authlane.OAuth.Trust.{is_mcp_server_id}
use authlane.OAuth.Endpoints.{validate_oauth_endpoint, normalize_oauth_scope_names}
use authlane.OAuth.TokenRequest.{Param, set_param}
use authlane.Flow.Tables.{ConnectSession, OauthTransaction, Service}
use authlane.Flow.Settings.{
  is_connectable_service_id, TenantServiceSettings, read_tenant_service_settings,
  read_mcp_server_connect_config,
}
use authlane.Flow.Resolution.{
  AuthorizationRefusal, Resolution, ok, resolve_mcp_authorization, resolve_built_in_authorization,
  oauth_authorization_parameters,
}
use authlane.Flow.Types.{
  FlowState, FlowEnvironment, AuthorizationUrl, Outcome, answered, threw, Reply, refused,
  authorization, oauth_callback_url,
}
use authlane.Flow.Request.{ConnectRequest, is_formed, session_of}
use authlane.Flow.ApiKey.{of_user, new_connection, upsert_connection}

-- `mcpAuthorizationConflict` and `builtInAuthorizationConflict`, with their statuses.
unfoldable pub mcp_refusal : AuthorizationRefusal → Reply
mcp_refusal AuthorizationRefusal.not_found = refused 404 "Enabled service"
mcp_refusal AuthorizationRefusal.not_oauth = refused 400 "This service does not use OAuth2"
mcp_refusal AuthorizationRefusal.untrusted_endpoint =
    refused 409 "This MCP server has a stored OAuth endpoint Authlane will not use"
mcp_refusal AuthorizationRefusal.disabled = refused 409 "This MCP server is turned off"
mcp_refusal AuthorizationRefusal.missing_oauth_client =
    refused 409 "This MCP server has no OAuth client"
mcp_refusal AuthorizationRefusal.missing_authorization_url =
    refused 409 "This MCP server advertises no https authorization endpoint"

unfoldable pub built_in_refusal : AuthorizationRefusal → Reply
built_in_refusal AuthorizationRefusal.not_found = refused 404 "Enabled service"
built_in_refusal AuthorizationRefusal.not_oauth = refused 400 "This service does not use OAuth2"
built_in_refusal AuthorizationRefusal.untrusted_endpoint =
    refused 409 "The service has an authorization URL Authlane will not use"
built_in_refusal AuthorizationRefusal.disabled =
    refused 409 "The service is turned off for this organization"
built_in_refusal AuthorizationRefusal.missing_oauth_client =
    refused 409 "No OAuth client is configured for the service"
built_in_refusal AuthorizationRefusal.missing_authorization_url =
    refused 409 "The service has no authorization URL in the service catalog"

-- What a connection becomes that is there.
abbrev pub ask_again : ℕ → Connection → Connection
ask_again now c = record c { last_error_code = none; updated_at = now }

unfoldable pub set_params : List Param → List Param → List Param
set_params [] params = params
set_params (p ∷ ps) params = set_params ps (set_param p.name p.value params)

-- `value ??`, for which `null` is as good as absent.
abbrev pub present : Option Json → Option Json
present (some null) = none
present none = none
present (some (bool b)) = some (bool b)
present (some (num n)) = some (num n)
present (some (str s)) = some (str s)
present (some (arr vs)) = some (arr vs)
present (some (obj fs)) = some (obj fs)

-- The scopes of a service's configuration, under a tool access policy.
unfoldable pub configured_scopes : String → Json → Option (List String)
unfolding normalize_oauth_scope_names get
configured_scopes policy config = elim (as_record config) [
  | none ↦ none
  | some fs ↦
      let usual = or_else (present (get "default_scopes" fs)) (present (get "scopes" fs)) in
      let chosen =
        if policy == "read_only"
        then or_else (present (get "read_only_scopes" fs)) usual
        else usual in
      normalize_oauth_scope_names (get_or chosen (arr nil))
]

module _ {S : Type 0} (env : FlowEnvironment S) where
  abbrev pub new_transaction : ConnectSession → String → String → String → OauthTransaction
  new_transaction session service_id connection_id pkce_secret_id = record {
    id = env.transaction_id;
    organization_id = session.organization_id;
    connection_id = connection_id;
    connect_session_id = session.id;
    service_id = service_id;
    state_hash = env.hash_api_key env.state;
    pkce_secret_id = pkce_secret_id;
    callback_url = oauth_callback_url env service_id;
    allowed_origin = session.allowed_origin;
    expires_at = min session.expires_at (env.later + 600000);
    consumed_at = none;
    created_at = env.later;
  }

  abbrev pub asked_connections : ConnectSession → String → List Connection → List Connection
  asked_connections session service_id connections =
      upsert_connection
        (new_connection env.new_id session service_id ConnectionStatus.pending none none env.later)
        (ask_again env.later) connections

  -- The transaction's connection: the one that `asked_connections` has for the user.
  abbrev pub asked_id : ConnectSession → String → List Connection → Option Connection
  asked_id session service_id connections =
      find (of_user session.organization_id session.external_user_id service_id)
        (asked_connections session service_id connections)

  unfoldable pub authorization_url : String → String → String → List Param → AuthorizationUrl
  unfolding oauth_callback_url set_params
  authorization_url service_id endpoint client_id provider_parameters = record {
    endpoint = endpoint;
    params = set_param "code_challenge_method" "S256" (
        set_param "code_challenge" (env.code_challenge env.code_verifier) (
          set_param "state" env.state (
            set_params provider_parameters (
              set_param "response_type" "code" (
                set_param "redirect_uri" (oauth_callback_url env service_id)
                  (set_param "client_id" client_id (env.query_of endpoint)))))));
  }

  unfoldable pub issue_authorization_redirect :
      ConnectSession → String → String → String → List Param → FlowState S → Outcome S
  unfolding upsert_connection authorization_url
  issue_authorization_redirect session service_id endpoint client_id parameters st =
      elim (env.store.put st.secrets session.organization_id "oauth_pkce_verifier"
        env.code_verifier) [
          | none ↦ threw st
          | some put ↦ elim (asked_id session service_id st.connections) [
            | none ↦ threw st
            | some connection ↦
                answered
                  (authorization (authorization_url service_id endpoint client_id parameters))
                  (record st {
                    connections = asked_connections session service_id st.connections;
                    transactions =
                        st.transactions
                        ++ new_transaction session service_id connection.id put.0 ∷ [];
                    secrets = put.1;
                  })
          ]
        ]

  unfoldable pub authorize_mcp : ConnectSession → String → Resolution → FlowState S → Outcome S
  unfolding issue_authorization_redirect mcp_refusal
  authorize_mcp session service_id (ok endpoint client_id) st =
      issue_authorization_redirect session service_id endpoint client_id [] st
  authorize_mcp session service_id (Resolution.refused reason) st = answered (mcp_refusal reason) st

  unfoldable pub authorize_resolved :
      ConnectSession → Service → TenantServiceSettings → Resolution → FlowState S → Outcome S
  unfolding issue_authorization_redirect built_in_refusal configured_scopes validate_oauth_endpoint
      oauth_authorization_parameters
  authorize_resolved session service settings (Resolution.refused reason) st =
      answered (built_in_refusal reason) st
  authorize_resolved session service settings (ok url client_id) st =
      elim (validate_oauth_endpoint env.tokens.urls env.tokens.demo service.id
        EndpointKind.authorization url none) [
          | none ↦ answered (refused 409 "OAuth provider endpoint is not approved") st
          | some endpoint ↦ elim (configured_scopes settings.tool_access_policy service.config) [
            | none ↦ answered (refused 409 "OAuth scopes are not configured safely") st
            | some scopes ↦
                issue_authorization_redirect session service.id endpoint client_id
                  (oauth_authorization_parameters service.id (get_or settings.custom_scopes scopes))
                  st
          ]
        ]

  abbrev pub built_in_resolution : Service → TenantServiceSettings → Resolution
  built_in_resolution service settings = resolve_built_in_authorization env.process (record {
    service_id = service.id;
    auth_type = service.auth_type;
    enabled = true;
    config = service.config;
    tenant_oauth_client_id = settings.oauth_client_id;
  })

  unfoldable pub authorize_built_in :
      ConnectSession → Option Service → Option TenantServiceSettings → FlowState S → Outcome S
  unfolding authorize_resolved resolve_built_in_authorization
  authorize_built_in session none settings st = answered (refused 404 "Enabled service") st
  authorize_built_in session (some service) none st = answered (refused 404 "Enabled service") st
  authorize_built_in session (some service) (some settings) st =
      authorize_resolved session service settings (built_in_resolution service settings) st

  abbrev pub enabled_service : String → Option Service
  enabled_service service_id =
      find (λ service. service.id == service_id && service.enabled) env.services

  unfoldable pub authorize_session : ConnectSession → String → FlowState S → Outcome S
  unfolding authorize_mcp authorize_built_in resolve_mcp_authorization
      read_mcp_server_connect_config read_tenant_service_settings
  authorize_session session service_id st =
      if is_mcp_server_id service_id
      then authorize_mcp session service_id
          (resolve_mcp_authorization env.tokens.urls
            (read_mcp_server_connect_config env.mcp_servers session.organization_id service_id))
          st
      else authorize_built_in session (enabled_service service_id)
          (read_tenant_service_settings env.process env.organization_services
            session.organization_id service_id)
          st

  -- The route; `none` is a body that is no JSON.
  unfoldable pub authorize : Option ConnectRequest → FlowState S → Outcome S
  unfolding is_formed session_of authorize_session is_connectable_service_id
  authorize none st = answered (refused 400 "Request body must be valid JSON") st
  authorize (some request) st =
      if not (is_formed (is_connectable_service_id env.demo) request)
      then answered (refused 401 "A valid connect session is required") st
      else elim (session_of env request st) [
        | none ↦ answered (refused 401 "Connect session is invalid or expired") st
        | some session ↦ authorize_session session request.service_id st
      ]
