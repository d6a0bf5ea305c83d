-- ===== src/System/Frames.antt =====
-- The requests that insert or delete connections, as far as the table of connections is concerned.
use authlane.Prelude.{
  ◌≡◌, inl, inr, String, not, ◌||◌, Option, none, some, List, find, filter, trim, units, is_empty,
  ltb, Bool-cases, Option-cases, ◌==◌,
}
use authlane.Store.Tables.{ConnectionStatus, Connection}
use authlane.OAuth.Trust.{is_mcp_server_id}
use authlane.Connect.Session.{can_perform_destructive_action}
use authlane.Flow.Tables.{ConnectSession}
use authlane.Flow.Settings.{
  is_connectable_service_id, McpServerConnectConfig, read_mcp_server_connect_config,
}
use authlane.Flow.Types.{FlowState, FlowEnvironment, state_of}
use authlane.Flow.Request.{ConnectRequest, is_formed, session_of}
use authlane.Flow.ApiKey.{
  of_user, new_connection, upsert_connection, reconnect, api_key_envelope, store_api_key,
  use_api_key, connect_api_key,
}
use authlane.Flow.Authorize.{asked_connections, authorize}
use authlane.Flow.Redirect.{authorize_rule}
use authlane.Flow.Disconnect.{drop_credential, remove_connection, disconnect}
use authlane.System.Life.{User, owns}

-- The user for whom a session acts on a service.
abbrev pub user_of : ConnectSession → String → User
user_of session service_id = record {
  organization_id = session.organization_id;
  external_user_id = session.external_user_id;
  service_id = service_id;
}

-- The user for whom a request asks, if it has a usable session.
abbrev pub asker :
    {S : Type 0} → FlowEnvironment S → Option ConnectRequest → FlowState S → Option User
asker env none st = none
asker env (some request) st = elim (session_of env request st) [
  | none ↦ none
  | some session ↦ some (user_of session request.service_id)
]

abbrev pub key_asker :
    {S : Type 0} → FlowEnvironment S → Option (ConnectRequest × String) → FlowState S → Option User
key_asker env none st = none
key_asker env (some (request, given)) st = asker env (some request) st

module _ {S : Type 0} (env : FlowEnvironment S) (who : Option User)
    (R : List Connection → List Connection → Type 0) where
  -- What a relation on tables needs to hold of an authorization.
  pub record AskedFor : Type 0 where
    pub same : (connections : List Connection) → R connections connections
    pub asked :
        (session : ConnectSession) (service_id : String) (connections : List Connection)
        → who ≡ some (user_of session service_id)
        → R connections (asked_connections env session service_id connections)

  -- What it needs to hold of a connection with an API key.
  pub record Keyed : Type 0 where
    pub same : (connections : List Connection) → R connections connections
    pub keyed :
        (session : ConnectSession) (service_id secret_id : String) (connections : List Connection)
        → who ≡ some (user_of session service_id)
        → R connections (
            upsert_connection
              (new_connection env.new_id session service_id ConnectionStatus.connected
                (some secret_id)
                (some env.later)
                env.later)
              (reconnect secret_id env.later)
              connections)

  -- What it needs to hold of deletions.
  pub record Deletions : Type 0 where
    pub same : (connections : List Connection) → R connections connections
    pub removed :
        (owner : User) (connections : List Connection)
        → who ≡ some owner
        → R connections (filter (λ c. not (owns owner c)) connections)

  pub authorize_frame :
      AskedFor
      → (request : Option ConnectRequest) (st : FlowState S) → who ≡ asker env request st
      → R st.connections (state_of (authorize env request st)).connections
  unfolding authorize
  authorize_frame frame none st w = (frame.same st.connections)
  authorize_frame frame (some request) st w =
      authorize_rule env (λ reply after. R st.connections after.connections) st request
        (λ status text. (frame.same st.connections))
        (λ session formed admitted. record {
          thrown = (frame.same st.connections);
          no_redirect = λ status text. (frame.same st.connections);
          redirect = λ endpoint client_id parameters connection pkce_secret_id secrets good asked.
              frame.asked session request.service_id st.connections (rw (admitted, asker) at w);
        })

  store_api_key_frame :
      Keyed
      → (session : ConnectSession) (service_id api_key : String) (st : FlowState S)
      → who ≡ some (user_of session service_id)
      → R st.connections (state_of (store_api_key env session service_id api_key st)).connections
  unfolding store_api_key
  store_api_key_frame frame session service_id api_key st w =
      elim (Option-cases (
        env.store.put st.secrets session.organization_id "connection_credentials"
          (env.stringify (api_key_envelope api_key)))) [
            | inl e ↦ rw (e, store_api_key) (frame.same st.connections)
            | inr (put, e) ↦
                rw (e, store_api_key) (frame.keyed session service_id put.0 st.connections w)
          ]

  use_api_key_frame :
      Keyed
      → (session : ConnectSession) (service_id api_key : String)
        (server : Option McpServerConnectConfig) (st : FlowState S)
      → who ≡ some (user_of session service_id)
      → R st.connections
          (state_of (use_api_key env session service_id api_key server st)).connections
  unfolding use_api_key
  use_api_key_frame frame session service_id api_key none st w = (frame.same st.connections)
  use_api_key_frame frame session service_id api_key (some server) st w =
      elim (Bool-cases server.enabled) [
        | inr e ↦ rw (e, use_api_key) (frame.same st.connections)
        | inl e ↦
            rw (e, use_api_key)
              (elim (Bool-cases (server.auth_type == "api_key")) [
                | inr f ↦ rw f (frame.same st.connections)
                | inl f ↦ rw f (store_api_key_frame frame session service_id api_key st w)
              ])
      ]

  pub connect_api_key_frame :
      Keyed
      → (request : Option (ConnectRequest × String)) (st : FlowState S)
      → who ≡ key_asker env request st
      → R st.connections (state_of (connect_api_key env request st)).connections
  unfolding connect_api_key
  connect_api_key_frame frame none st w = (frame.same st.connections)
  connect_api_key_frame frame (some (request, given)) st w =
      elim (Bool-cases (is_formed is_mcp_server_id request)) [
        | inr e ↦ rw (e, connect_api_key) (frame.same st.connections)
        | inl e ↦
            rw (e, connect_api_key)
              (elim (Bool-cases (is_empty (trim given) || ltb 4096 (units (trim given)))) [
                | inl f ↦ rw f (frame.same st.connections)
                | inr f ↦ rw f (elim (Option-cases (session_of env request st)) [
                  | inl g ↦ rw g (frame.same st.connections)
                  | inr (session, g) ↦ rw g (
                      use_api_key_frame frame session request.service_id (trim given)
                        (read_mcp_server_connect_config env.mcp_servers session.organization_id
                          request.service_id)
                        st (rw (g, key_asker, asker) at w))
                ])
              ])
      ]

  remove_connection_frame :
      Deletions
      → (session : ConnectSession) (service_id : String) (st : FlowState S)
      → who ≡ some (user_of session service_id)
      → R st.connections (state_of (remove_connection env session service_id st)).connections
  unfolding remove_connection
  remove_connection_frame frame session service_id st w =
      elim (Option-cases (
        find (of_user session.organization_id session.external_user_id service_id)
          st.connections)) [
            | inl e ↦ rw (e, remove_connection) (frame.same st.connections)
            | inr (removed, e) ↦
                rw (e, remove_connection)
                  (elim (Option-cases (
                    drop_credential env.store session.organization_id removed.credential_secret_id
                      st.secrets)) [
                        | inl f ↦ rw f (frame.same st.connections)
                        | inr (secrets, f) ↦
                            rw f (frame.removed (user_of session service_id) st.connections w)
                      ])
          ]

  pub disconnect_frame :
      Deletions
      → (request : ConnectRequest) (st : FlowState S) → who ≡ asker env (some request) st
      → R st.connections (state_of (disconnect env request st)).connections
  unfolding disconnect
  disconnect_frame frame request st w =
      elim (Bool-cases (is_formed (is_connectable_service_id env.demo) request)) [
        | inr e ↦ rw (e, disconnect) (frame.same st.connections)
        | inl e ↦
            rw (e, disconnect)
              (elim (Option-cases (session_of env request st)) [
                | inl f ↦ rw f (frame.same st.connections)
                | inr (session, f) ↦
                    rw f
                      (elim (Bool-cases (
                        can_perform_destructive_action session.destructive_action_expires_at
                          env.now)) [
                            | inr g ↦ rw g (frame.same st.connections)
                            | inl g ↦ rw g (
                                remove_connection_frame frame session request.service_id st
                                  (rw (f, asker) at w))
                          ])
              ])
      ]
