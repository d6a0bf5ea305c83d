-- ===== src/Flow/Listing.antt =====
-- POST /connect/session of oauth.ts, what the hosted page lists, with `getEffectiveConnectionStatus`
-- of packages/shared/src/capabilities.ts. Names and branding are left out.
use authlane.Prelude.{
  ℕ, String, Bool, false, ◌&&◌, ◌||◌, Option, none, some, List, [], ◌∷◌, ◌++◌, map, find, filter,
  leb, get_or, is_empty, if◌then◌else◌,
}
use authlane.Store.Tables.{ConnectionStatus, Connection}
use authlane.OAuth.Registry.{includes}
use authlane.Connect.Session.{filter_currently_enabled_services}
use authlane.Flow.Tables.{ConnectSession}
use authlane.Flow.Settings.{
  allowed_service_ids, service_enabled_for_organization, enabled_mcp_servers,
}
use authlane.Flow.Resolution.{falsy}
use authlane.Flow.Types.{FlowState, FlowEnvironment}
use authlane.Flow.Request.{load_connect_session_by_token}
use authlane.Flow.ApiKey.{of_user}

pub data EffectiveStatus : Type 0 where
  disconnected pending connected expired error : EffectiveStatus

abbrev pub is_past : ℕ → Option ℕ → Bool
is_past now none = false
is_past now (some t) = leb t now

abbrev connected_status : ℕ → Option String → Option ℕ → EffectiveStatus
connected_status now secret_id expires_at =
    if falsy secret_id
    then EffectiveStatus.error
    else if is_past now expires_at
    then EffectiveStatus.expired
    else EffectiveStatus.connected

abbrev row_status : ℕ → ConnectionStatus → Option String → Option ℕ → EffectiveStatus
row_status now ConnectionStatus.pending secret_id expires_at = EffectiveStatus.pending
row_status now ConnectionStatus.connected secret_id expires_at =
    connected_status now secret_id expires_at
row_status now ConnectionStatus.expired secret_id expires_at = EffectiveStatus.expired
row_status now ConnectionStatus.error secret_id expires_at = EffectiveStatus.error

unfoldable pub effective_connection_status : Option Connection → ℕ → EffectiveStatus
effective_connection_status none now = EffectiveStatus.disconnected
effective_connection_status (some c) now =
    row_status now c.status c.credential_secret_id c.expires_at

pub record ListedService : Type 0 where
  pub id : String
  pub auth_type : String
  pub status : EffectiveStatus

pub data ListingReply : Type 0 where
  unauthorized : ListingReply
  listed : String → ℕ → List ListedService → ListingReply

module _ {S : Type 0} (env : FlowEnvironment S) where
  -- The services that a session lists, in two parts, with how each is connected.
  unfoldable pub session_services : ConnectSession → List (String × String)
  unfolding service_enabled_for_organization enabled_mcp_servers allowed_service_ids
  session_services session =
      map (λ service. (service.id, service.auth_type))
        (filter
          (λ service.
            service.enabled
            && (includes service.id (allowed_service_ids env.demo)
                && (includes service.id session.allowed_services
                    && service_enabled_for_organization env.process env.demo
                        env.organization_services session.organization_id service)))
          env.services)
      ++ map (λ server. (server.id, server.auth_type))
          (filter (λ server. includes server.id session.allowed_services)
            (enabled_mcp_servers env.mcp_servers session.organization_id))

  abbrev list_service : ConnectSession → List Connection → String × String → ListedService
  list_service session connections service = record {
    id = service.0;
    auth_type = service.1;
    status =
        effective_connection_status
          (find (of_user session.organization_id session.external_user_id service.0) connections)
          env.now;
  }

  abbrev visible : ConnectSession → List ListedService → List String → List ListedService
  visible session services [] = []
  visible session services (id ∷ ids) = services

  unfoldable pub list_session : ConnectSession → FlowState S → List ListedService
  unfolding session_services effective_connection_status filter_currently_enabled_services
  list_session session st =
      let services = session_services session in
      visible session (map (list_service session st.connections) services)
        (filter_currently_enabled_services session.allowed_services (map (λ s. s.0) services))

  -- The route, for the token and the parent origin of the request.
  unfoldable pub connect_session : Option String → Option String → FlowState S → ListingReply
  unfolding load_connect_session_by_token list_session
  connect_session token parent_origin st =
      let given = get_or token "" in
      let origin = get_or parent_origin "" in
      if is_empty given || is_empty origin
      then unauthorized
      else elim (load_connect_session_by_token env st.sessions given origin) [
        | none ↦ unauthorized
        | some session ↦
            listed session.external_user_id session.expires_at (list_session session st)
      ]
