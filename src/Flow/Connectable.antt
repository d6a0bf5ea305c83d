-- ===== src/Flow/Connectable.antt =====
-- What the catalogue promises, and what the routes then do.
use authlane.Prelude.{
  ◌≡◌, ◌↔◌, refl, inl, inr, String, Bool, true, false, ◌||◌, Option, none, some, eqb, ◌==◌,
  Option-cases, Bool-cases, [], arith,
}
use authlane.Flow.Tables.{ConnectSession}
use authlane.Flow.Settings.{McpServerConnectConfig}
use authlane.Flow.Resolution.{
  AuthorizationRefusal, Resolution, ok, NotConnectableReason, resolve_mcp_authorization,
  connectability_of,
}
use authlane.OAuth.Trust.{UrlPlatform}
use authlane.Flow.Types.{
  FlowState, FlowEnvironment, reply_of, Reply, refused, session_created, key_connected,
  authorization, redirected, disconnected,
}
use authlane.Flow.ApiKey.{api_key_envelope, use_api_key, store_api_key}
use authlane.Flow.Authorize.{issue_authorization_redirect, mcp_refusal, asked_id, authorize_mcp}

-- A refusal because of how the service is set up.
abbrev pub is_conflict : Option Reply → Bool
is_conflict none = false
is_conflict (some (refused status text)) = eqb status 404 || eqb status 409
is_conflict (some (session_created token expires_at)) = false
is_conflict (some key_connected) = false
is_conflict (some (authorization url)) = false
is_conflict (some redirected) = false
is_conflict (some (disconnected done)) = false

module _ {S : Type 0} (env : FlowEnvironment S) where
  issue_no_conflict :
      (session : ConnectSession) (service_id endpoint client_id : String) (st : FlowState S)
      → is_conflict
          (reply_of (issue_authorization_redirect env session service_id endpoint client_id [] st))
        ≡ false
  unfolding issue_authorization_redirect
  issue_no_conflict session service_id endpoint client_id st =
      elim (Option-cases (
        env.store.put st.secrets session.organization_id "oauth_pkce_verifier" env.code_verifier)) [
          | inl e ↦ rw (e, issue_authorization_redirect) refl
          | inr (put, e) ↦
              rw (e, issue_authorization_redirect)
                (elim (Option-cases (asked_id env session service_id st.connections)) [
                  | inl f ↦ rw f refl
                  | inr (connection, f) ↦ rw f refl
                ])
        ]

  api_key_no_conflict :
      (session : ConnectSession) (service_id api_key : String) (st : FlowState S)
      → is_conflict (reply_of (store_api_key env session service_id api_key st)) ≡ false
  unfolding store_api_key
  api_key_no_conflict session service_id api_key st =
      elim (Option-cases (
        env.store.put st.secrets session.organization_id "connection_credentials"
          (env.stringify (api_key_envelope api_key)))) [
            | inl e ↦ rw (e, store_api_key) refl
            | inr (put, e) ↦ rw (e, store_api_key) refl
          ]

  use_api_key_no_conflict :
      (session : ConnectSession) (service_id api_key : String) (server : McpServerConnectConfig)
      (st : FlowState S)
      → server.enabled ≡ true
      → is_conflict (reply_of (use_api_key env session service_id api_key (some server) st)) ≡ false
  unfolding use_api_key
  use_api_key_no_conflict session service_id api_key server st h =
      elim (Bool-cases (server.auth_type == "api_key")) [
        | inl e ↦ rw (h, e, use_api_key) (api_key_no_conflict session service_id api_key st)
        | inr e ↦ rw (h, e, use_api_key) refl
      ]

  resolution_connectable :
      (session : ConnectSession) (service_id : String) (resolution : Resolution) (st : FlowState S)
      → (connectability_of resolution ≡ none)
        ↔ (is_conflict (reply_of (authorize_mcp env session service_id resolution st)) ≡ false)
  unfolding authorize_mcp connectability_of mcp_refusal
  resolution_connectable session service_id (ok endpoint client_id) st =
      (λ h. issue_no_conflict session service_id endpoint client_id st, λ h. refl)
  resolution_connectable session service_id (Resolution.refused reason) st = by_reason reason
    where
      by_reason :
          (reason : AuthorizationRefusal)
          → (connectability_of (Resolution.refused reason) ≡ none)
            ↔ (is_conflict (some (mcp_refusal reason)) ≡ false)
      by_reason AuthorizationRefusal.not_oauth = (λ h. refl, λ h. refl)
      by_reason AuthorizationRefusal.not_found = ground arith
      by_reason AuthorizationRefusal.untrusted_endpoint = ground arith
      by_reason AuthorizationRefusal.disabled = ground arith
      by_reason AuthorizationRefusal.missing_oauth_client = ground arith
      by_reason AuthorizationRefusal.missing_authorization_url = ground arith

connectable_enabled :
    (p : UrlPlatform) (config : McpServerConnectConfig)
    → connectability_of (resolve_mcp_authorization p (some config)) ≡ none
    → config.enabled ≡ true
unfolding resolve_mcp_authorization connectability_of
connectable_enabled p config h = elim (Bool-cases config.enabled) [
  | inl e ↦ e
  | inr e ↦ absurd (not_none (rw (e, resolve_mcp_authorization) at h))
]
  where
    not_none : some NotConnectableReason.disabled ≡ none → ⊥
    not_none k = ground arith

-- A tenant's server that is stored is connectable for the catalogue exactly if an authorization for
-- it is not refused as missing or as set up badly; and if it is connectable, an API key for it is
-- not refused so either.
pub authorize_mcp-connectable :
    {S : Type 0} (env : FlowEnvironment S) (session : ConnectSession) (service_id api_key : String)
    (config : McpServerConnectConfig) (st : FlowState S)
    → let resolution = resolve_mcp_authorization env.tokens.urls (some config) in
      ((connectability_of resolution ≡ none)
        ↔ (is_conflict (reply_of (authorize_mcp env session service_id resolution st)) ≡ false))
      × (connectability_of resolution ≡ none
          → is_conflict (reply_of (use_api_key env session service_id api_key (some config) st))
            ≡ false)
authorize_mcp-connectable env session service_id api_key config st = (
  resolution_connectable env session service_id _ st,
  λ h.
      use_api_key_no_conflict env session service_id api_key config st
        (connectable_enabled env.tokens.urls config h),
)
