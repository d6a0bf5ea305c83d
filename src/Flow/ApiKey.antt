-- ===== src/Flow/ApiKey.antt =====
-- POST /connect/:serviceId/api-key: a user's own key for a tenant's MCP server.
use authlane.Prelude.{
  ℕ, String, Bool, not, ◌&&◌, ◌||◌, Option, none, some, List, [], ◌∷◌, ◌++◌, any, ltb, is_empty,
  trim, units, if◌then◌else◌, ◌==◌,
}
use authlane.Prelude.Json.{Json, str, obj, field, end}
use authlane.Store.Tables.{ConnectionStatus, Connection}
use authlane.Store.Rows.{update_where}
use authlane.OAuth.Trust.{is_mcp_server_id}
use authlane.Flow.Tables.{ConnectSession}
use authlane.Flow.Settings.{McpServerConnectConfig, read_mcp_server_connect_config}
use authlane.Flow.Types.{
  FlowState, FlowEnvironment, Outcome, answered, threw, refused, key_connected,
}
use authlane.Flow.Request.{ConnectRequest, is_formed, session_of}

-- The key on which the table of connections is unique.
abbrev pub of_user : String → String → String → Connection → Bool
of_user organization_id user service_id c =
    c.organization_id == organization_id
    && (c.external_user_id == user && c.service_id == service_id)

abbrev pub new_connection :
    String → ConnectSession → String → ConnectionStatus → Option String → Option ℕ → ℕ → Connection
new_connection id session service_id status secret connected_at now = record {
  id = id;
  organization_id = session.organization_id;
  external_user_id = session.external_user_id;
  service_id = service_id;
  status = status;
  credential_secret_id = secret;
  metadata = obj end;
  connected_at = connected_at;
  expires_at = none;
  last_checked_at = none;
  last_error_code = none;
  refresh_lock_token = none;
  refresh_lock_expires_at = none;
  version = 1;
  created_at = now;
  updated_at = now;
}

-- `INSERT … ON CONFLICT (organization, user, service) DO UPDATE`.
unfoldable pub upsert_connection :
    Connection → (Connection → Connection) → List Connection → List Connection
upsert_connection row set connections =
    let same = of_user row.organization_id row.external_user_id row.service_id in
    if any same connections then update_where same set connections else connections ++ row ∷ []

-- What the conflicting row becomes.
abbrev pub reconnect : String → ℕ → Connection → Connection
reconnect secret_id now c = record c {
  status = ConnectionStatus.connected;
  credential_secret_id = some secret_id;
  connected_at = some now;
  last_error_code = none;
  updated_at = now;
}

abbrev pub api_key_envelope : String → Json
api_key_envelope api_key = obj (
    field "api_key" (str api_key) (
      field "placement"
        (obj (
          field "type" (str "header")
            (field "name" (str "Authorization") (field "prefix" (str "Bearer ") end))))
        end))

module _ {S : Type 0} (env : FlowEnvironment S) where
  unfoldable pub store_api_key : ConnectSession → String → String → FlowState S → Outcome S
  unfolding upsert_connection
  store_api_key session service_id api_key st =
      elim (env.store.put st.secrets session.organization_id "connection_credentials"
        (env.stringify (api_key_envelope api_key))) [
          | none ↦ threw st
          | some put ↦ answered key_connected (record st {
            connections =
                upsert_connection
                  (new_connection env.new_id session service_id ConnectionStatus.connected
                    (some put.0) (some env.later) env.later)
                  (reconnect put.0 env.later) st.connections;
            secrets = put.1;
          })
        ]

  unfoldable pub use_api_key :
      ConnectSession → String → String → Option McpServerConnectConfig → FlowState S → Outcome S
  unfolding store_api_key
  use_api_key session service_id api_key none st = answered (refused 404 "Enabled service") st
  use_api_key session service_id api_key (some server) st =
      if not server.enabled
      then answered (refused 404 "Enabled service") st
      else if not (server.auth_type == "api_key")
      then answered (refused 400 "This service is connected with OAuth, not an API key") st
      else store_api_key session service_id api_key st

  -- The route, for the request and the body's `apiKey`, the empty text where it is no text. The
  -- outer `none` is a body that is no JSON.
  unfoldable pub connect_api_key : Option (ConnectRequest × String) → FlowState S → Outcome S
  unfolding is_formed session_of use_api_key read_mcp_server_connect_config
  connect_api_key none st = answered (refused 400 "Request body must be valid JSON") st
  connect_api_key (some (request, given)) st =
      let api_key = trim given in
      if not (is_formed is_mcp_server_id request)
      then answered (refused 401 "A valid connect session is required") st
      else if is_empty api_key || ltb 4096 (units api_key)
      then answered (refused 400 "An API key is required") st
      else elim (session_of env request st) [
        | none ↦ answered (refused 401 "Connect session is invalid or expired") st
        | some session ↦
            use_api_key session request.service_id api_key
              (read_mcp_server_connect_config env.mcp_servers session.organization_id
                request.service_id)
              st
      ]
