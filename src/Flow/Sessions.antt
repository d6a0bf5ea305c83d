-- ===== src/Flow/Sessions.antt =====
-- POST /connect-sessions of oauth.ts, which makes a session, and `listEnabledServiceIds`.
use authlane.Prelude.{
  ℕ, ◌+◌, ◌*◌, min, max, String, Bool, not, ◌&&◌, ◌||◌, Option, none, some, List, [], ◌∷◌, ◌++◌,
  map, filter, leb, get_or, is_empty, units, if◌then◌else◌, ◌⊎◌, inl, inr, ◌<>◌,
}
use authlane.Prelude.Json.{Json}
use authlane.OAuth.Registry.{includes}
use authlane.Connect.Session.{resolve_allowed_service_snapshot}
use authlane.Flow.Tables.{ConnectSession}
use authlane.Flow.Settings.{
  allowed_service_ids, service_enabled_for_organization, enabled_mcp_servers,
}
use authlane.Flow.Types.{FlowState, FlowEnvironment, Outcome, answered, refused, session_created}
use authlane.Flow.Request.{parse_allowed_origin, parse_recent_reauthentication}

-- The body, with the seconds as the number that they are, or that they are negative.
pub record ConnectSessionBody : Type 0 where
  pub external_user_id : Option String
  pub allowed_services : Json
  pub allowed_origin : Option String
  pub expires_in_seconds : Option ℕ
  pub reauthenticated_at : Option (Option ℕ)

abbrev pub is_valid_user_id : String → Bool
is_valid_user_id id = not (is_empty id) && leb (units id) 255

abbrev pub lifetime_seconds : Option ℕ → ℕ
lifetime_seconds seconds = min (max (get_or seconds 600) 60) 900

abbrev session_problem : String
session_problem =
    "externalUserId, allowedServices, an HTTPS allowedOrigin, and a valid reauthentication timestamp "
    <> "are required"

abbrev pub destructive_until : Option ℕ → ℕ → Option ℕ
destructive_until none expires_at = none
destructive_until (some t) expires_at = some (min expires_at (t + 300000))

module _ {S : Type 0} (env : FlowEnvironment S) where
  -- `listEnabledServiceIds`, of services in the order of their identifiers.
  unfoldable pub list_enabled_service_ids : String → List String
  unfolding service_enabled_for_organization enabled_mcp_servers allowed_service_ids
  list_enabled_service_ids organization_id =
      map (λ service. service.id)
        (filter
          (λ service.
            service.enabled
            && (includes service.id (allowed_service_ids env.demo)
                && service_enabled_for_organization env.process env.demo env.organization_services
                    organization_id service))
          env.services)
      ++ map (λ server. server.id) (enabled_mcp_servers env.mcp_servers organization_id)

  abbrev pub new_session : String → String → List String → String → Option ℕ → ℕ → ConnectSession
  new_session organization_id user services origin reauthenticated_at expires_at = record {
    id = env.new_id;
    organization_id = organization_id;
    external_user_id = user;
    token_hash = env.hash_api_key env.token;
    allowed_services = services;
    allowed_origin = origin;
    expires_at = expires_at;
    destructive_action_expires_at = destructive_until reauthenticated_at expires_at;
    created_at = env.later;
    revoked_at = none;
  }

  -- The session that a body asks for, under the organization of the API key.
  unfoldable pub requested_session : String → ConnectSessionBody → String ⊎ ConnectSession
  unfolding parse_allowed_origin parse_recent_reauthentication resolve_allowed_service_snapshot
      list_enabled_service_ids
  requested_session organization_id body =
      let user = get_or body.external_user_id "" in
      let expires_at = env.now + lifetime_seconds body.expires_in_seconds * 1000 in
      elim (parse_allowed_origin env (get_or body.allowed_origin "")) [
        | none ↦ inl session_problem
        | some origin ↦ elim (parse_recent_reauthentication body.reauthenticated_at env.now) [
          | none ↦ inl session_problem
          | some reauthenticated_at ↦
              if not (is_valid_user_id user) || is_empty origin
              then inl session_problem
              else elim (resolve_allowed_service_snapshot env.before body.allowed_services
                  (list_enabled_service_ids organization_id)) [
                    | none ↦ inl "allowedServices"
                    | some services ↦ inr (
                        new_session organization_id user services origin reauthenticated_at
                          expires_at)
                  ]
        ]
      ]

  unfoldable pub create_connect_session :
      String → Option ConnectSessionBody → FlowState S → Outcome S
  unfolding requested_session
  create_connect_session organization_id none st =
      answered (refused 400 "Request body must be valid JSON") st
  create_connect_session organization_id (some body) st =
      elim (requested_session organization_id body) [
        | inl problem ↦ answered (refused 400 problem) st
        | inr session ↦
            answered (session_created env.token session.expires_at)
              (record st { sessions = st.sessions ++ session ∷ [] })
      ]
