-- ===== src/Flow/Redirect.antt =====
-- How an authorization can end, and where it sends a user.
use authlane.Prelude.{
  ℕ, ◌≡◌, ◌⊎◌, inl, inr, refl, String, true, false, Option, none, some, List, [], ◌∷◌, ◌++◌, get_or,
  find-true, eq_iff, and-eq-true, ◌&&◌, Bool-cases, Option-cases, ◌==◌, arith,
}
use authlane.Store.Tables.{Connection}
use authlane.OAuth.Registry.{EndpointKind}
use authlane.OAuth.Trust.{UrlPlatform, is_mcp_server_id, is_trusted_mcp_endpoint}
use authlane.OAuth.Endpoints.{validate_oauth_endpoint}
use authlane.OAuth.TokenRequest.{Param}
use authlane.Flow.Tables.{ConnectSession, Service}
use authlane.Flow.Settings.{
  is_connectable_service_id, TenantServiceSettings, read_tenant_service_settings,
  McpServerConnectConfig, read_mcp_server_connect_config, mcp_endpoint_provenance,
}
use authlane.Flow.Resolution.{
  AuthorizationRefusal, Resolution, ok, falsy, resolve_mcp_authorization,
  oauth_authorization_parameters,
}
use authlane.Flow.Types.{
  FlowState, FlowEnvironment, Outcome, state_of, reply_of, Reply, refused, authorization,
}
use authlane.Flow.Request.{ConnectRequest, is_formed, session_of}
use authlane.Flow.Authorize.{
  configured_scopes, asked_connections, asked_id, new_transaction, authorization_url,
  issue_authorization_redirect, mcp_refusal, built_in_refusal, authorize_mcp, authorize_resolved,
  built_in_resolution, authorize_built_in, enabled_service, authorize_session, authorize,
}

not_resolved :
    (p : UrlPlatform) (endpoint client_id : String)
    → resolve_mcp_authorization p none ≡ ok endpoint client_id
    → ⊥
unfolding resolve_mcp_authorization
not_resolved p endpoint client_id h = ground arith

-- What a resolution that succeeds has checked.
pub resolved_config :
    (p : UrlPlatform) (config : McpServerConnectConfig) (endpoint client_id : String)
    → resolve_mcp_authorization p (some config) ≡ ok endpoint client_id
    → (is_trusted_mcp_endpoint p endpoint (mcp_endpoint_provenance p config) ≡ true)
      × (is_trusted_mcp_endpoint p
            (get_or config.token_endpoint "")
            (mcp_endpoint_provenance p config)
          ≡ true)
      × (config.enabled ≡ true)
      × (config.auth_type ≡ "oauth2")
      × (client_id ≡ get_or config.oauth_client_id "")
      × (falsy config.oauth_client_id ≡ false)
unfolding resolve_mcp_authorization
resolved_config p config endpoint client_id h = ground (arith, eq_iff config.auth_type "oauth2")

module _ {S : Type 0} (env : FlowEnvironment S) where
  -- The state after a redirect was issued.
  abbrev pub issued : ConnectSession → String → Connection → String → S → FlowState S → FlowState S
  issued session service_id connection pkce_secret_id secrets st = record st {
    connections = asked_connections env session service_id st.connections;
    transactions =
        st.transactions ++ new_transaction env session service_id connection.id pkce_secret_id ∷ [];
    secrets = secrets;
  }

  -- A tenant server's two endpoints are trusted under its provenance, a built-in service's endpoint
  -- is approved.
  abbrev pub Approved : String → String → String → Type 0
  Approved organization_id service_id endpoint =
      ((is_mcp_server_id service_id ≡ true)
        × (config : McpServerConnectConfig) × (read_mcp_server_connect_config env.mcp_servers
              organization_id service_id
            ≡ some config)
        × (is_trusted_mcp_endpoint env.tokens.urls endpoint
              (mcp_endpoint_provenance env.tokens.urls config)
            ≡ true)
        × (is_trusted_mcp_endpoint env.tokens.urls (get_or config.token_endpoint "")
              (mcp_endpoint_provenance env.tokens.urls config)
            ≡ true))
      ⊎ ((url : String) × (validate_oauth_endpoint env.tokens.urls env.tokens.demo service_id
              EndpointKind.authorization url none
            ≡ some endpoint))

  enabled_own :
      (service_id : String) (found : Service)
      → enabled_service env service_id ≡ some found
      → found.id ≡ service_id
  enabled_own service_id found e =
      (eq_iff found.id service_id).0
        (and-eq-true _ _ (
          find-true (λ service. service.id == service_id && service.enabled) env.services found
            e)).0

  resolution_checked :
      (organization_id service_id : String)
      → is_mcp_server_id service_id ≡ true
      → (endpoint client_id : String)
      → resolve_mcp_authorization env.tokens.urls
          (read_mcp_server_connect_config env.mcp_servers organization_id service_id)
        ≡ ok endpoint client_id
      → Approved organization_id service_id endpoint
  resolution_checked organization_id service_id e endpoint client_id h =
      elim (Option-cases
        (read_mcp_server_connect_config env.mcp_servers organization_id service_id)) [
          | inl f ↦ absurd (not_resolved env.tokens.urls endpoint client_id (rw f at h))
          | inr (config, f) ↦
              let r = resolved_config env.tokens.urls config endpoint client_id (rw f at h) in
              inl (e, config, f, r.0, r.1)
        ]

  module _ (P : Option Reply → FlowState S → Type 0) (st : FlowState S) where
    abbrev Holds : Outcome S → Type 0
    Holds o = P (reply_of o) (state_of o)

    -- What has to hold of the endings under a session.
    pub record Authorizes (session : ConnectSession) (service_id : String) : Type 0 where
      pub thrown : P none st
      pub no_redirect : (status : ℕ) (text : String) → P (some (refused status text)) st
      pub redirect :
          (endpoint client_id : String) (parameters : List Param) (connection : Connection)
          (pkce_secret_id : String) (secrets : S)
          → Approved session.organization_id service_id endpoint
          → asked_id env session service_id st.connections ≡ some connection
          → P
              (some
                (authorization (authorization_url env service_id endpoint client_id parameters)))
              (issued session service_id connection pkce_secret_id secrets st)

    issue_rule :
        (session : ConnectSession) (service_id endpoint client_id : String)
        (parameters : List Param)
        → Approved session.organization_id service_id endpoint
        → Authorizes session service_id
        → Holds
            (issue_authorization_redirect env session service_id endpoint client_id parameters st)
    unfolding issue_authorization_redirect
    issue_rule session service_id endpoint client_id parameters good h =
        elim (Option-cases (
          env.store.put st.secrets session.organization_id "oauth_pkce_verifier"
            env.code_verifier)) [
              | inl e ↦ rw (e, issue_authorization_redirect) h.thrown
              | inr (put, e) ↦
                  rw (e, issue_authorization_redirect)
                    (elim (Option-cases (asked_id env session service_id st.connections)) [
                      | inl f ↦ rw f h.thrown
                      | inr (connection, f) ↦
                          rw f
                            (h.redirect endpoint client_id parameters connection put.0 put.1 good f)
                    ])
            ]

    mcp_refusal_rule :
        (session : ConnectSession) (service_id : String) (reason : AuthorizationRefusal)
        → Authorizes session service_id
        → P (some (mcp_refusal reason)) st
    unfolding mcp_refusal
    mcp_refusal_rule session service_id AuthorizationRefusal.not_found h = h.no_redirect _ _
    mcp_refusal_rule session service_id AuthorizationRefusal.not_oauth h = h.no_redirect _ _
    mcp_refusal_rule session service_id AuthorizationRefusal.untrusted_endpoint h =
        h.no_redirect _ _
    mcp_refusal_rule session service_id AuthorizationRefusal.disabled h = h.no_redirect _ _
    mcp_refusal_rule session service_id AuthorizationRefusal.missing_oauth_client h =
        h.no_redirect _ _
    mcp_refusal_rule session service_id AuthorizationRefusal.missing_authorization_url h =
        h.no_redirect _ _

    built_in_refusal_rule :
        (session : ConnectSession) (service_id : String) (reason : AuthorizationRefusal)
        → Authorizes session service_id
        → P (some (built_in_refusal reason)) st
    unfolding built_in_refusal
    built_in_refusal_rule session service_id AuthorizationRefusal.not_found h = h.no_redirect _ _
    built_in_refusal_rule session service_id AuthorizationRefusal.not_oauth h = h.no_redirect _ _
    built_in_refusal_rule session service_id AuthorizationRefusal.untrusted_endpoint h =
        h.no_redirect _ _
    built_in_refusal_rule session service_id AuthorizationRefusal.disabled h = h.no_redirect _ _
    built_in_refusal_rule session service_id AuthorizationRefusal.missing_oauth_client h =
        h.no_redirect _ _
    built_in_refusal_rule session service_id AuthorizationRefusal.missing_authorization_url h =
        h.no_redirect _ _

    authorize_mcp_rule :
        (session : ConnectSession) (service_id : String) (resolution : Resolution)
        → ((endpoint client_id : String)
            → resolution ≡ ok endpoint client_id
            → Approved session.organization_id service_id endpoint)
        → Authorizes session service_id
        → Holds (authorize_mcp env session service_id resolution st)
    unfolding authorize_mcp
    authorize_mcp_rule session service_id (ok endpoint client_id) good h =
        issue_rule session service_id endpoint client_id [] (good endpoint client_id refl) h
    authorize_mcp_rule session service_id (Resolution.refused reason) good h =
        mcp_refusal_rule session service_id reason h

    authorize_resolved_rule :
        (session : ConnectSession) (service : Service) (settings : TenantServiceSettings)
        (resolution : Resolution)
        → Authorizes session service.id
        → Holds (authorize_resolved env session service settings resolution st)
    unfolding authorize_resolved
    authorize_resolved_rule session service settings (Resolution.refused reason) h =
        built_in_refusal_rule session service.id reason h
    authorize_resolved_rule session service settings (ok url client_id) h =
        elim (Option-cases (
          validate_oauth_endpoint env.tokens.urls env.tokens.demo service.id
            EndpointKind.authorization url none)) [
              | inl e ↦ rw (e, authorize_resolved) (h.no_redirect _ _)
              | inr (endpoint, e) ↦
                  rw (e, authorize_resolved)
                    (elim (Option-cases
                      (configured_scopes settings.tool_access_policy service.config)) [
                        | inl f ↦ rw f (h.no_redirect _ _)
                        | inr (scopes, f) ↦ rw f (
                            issue_rule session service.id endpoint client_id
                              (oauth_authorization_parameters service.id
                                (get_or settings.custom_scopes scopes))
                              (inr (url, e)) h)
                      ])
            ]

    authorize_built_in_rule :
        (session : ConnectSession) (service_id : String) (service : Option Service)
        (settings : Option TenantServiceSettings)
        → ((found : Service) → service ≡ some found → found.id ≡ service_id)
        → Authorizes session service_id
        → Holds (authorize_built_in env session service settings st)
    unfolding authorize_built_in
    authorize_built_in_rule session service_id none settings own h = h.no_redirect _ _
    authorize_built_in_rule session service_id (some service) none own h = h.no_redirect _ _
    authorize_built_in_rule session service_id (some service) (some settings) own h =
        authorize_resolved_rule session service settings (built_in_resolution env service settings)
          (rw (own service refl) h)

    authorize_session_rule :
        (session : ConnectSession) (service_id : String)
        → Authorizes session service_id
        → Holds (authorize_session env session service_id st)
    unfolding authorize_session
    authorize_session_rule session service_id h = elim (Bool-cases (is_mcp_server_id service_id)) [
      | inl e ↦
          rw (e, authorize_session)
            (authorize_mcp_rule session service_id
              (resolve_mcp_authorization env.tokens.urls
                (read_mcp_server_connect_config env.mcp_servers session.organization_id service_id))
              (resolution_checked session.organization_id service_id e) h)
      | inr e ↦
          rw (e, authorize_session)
            (authorize_built_in_rule session service_id (enabled_service env service_id)
              (read_tenant_service_settings env.process env.organization_services
                session.organization_id service_id)
              (enabled_own service_id) h)
    ]

    -- The endings of an authorization.
    pub authorize_rule :
        (request : ConnectRequest)
        → ((status : ℕ) (text : String) → P (some (refused status text)) st)
        → ((session : ConnectSession)
            → is_formed (is_connectable_service_id env.demo) request ≡ true
            → session_of env request st ≡ some session
            → Authorizes session request.service_id)
        → Holds (authorize env (some request) st)
    unfolding authorize
    authorize_rule request refuse h =
        elim (Bool-cases (is_formed (is_connectable_service_id env.demo) request)) [
          | inr e ↦ rw (e, authorize) (refuse _ _)
          | inl e ↦
              rw (e, authorize)
                (elim (Option-cases (session_of env request st)) [
                  | inl f ↦ rw f (refuse _ _)
                  | inr (session, f) ↦
                      rw f (authorize_session_rule session request.service_id (h session e f))
                ])
        ]
