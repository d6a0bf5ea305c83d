-- ===== src/Flow/Request.antt =====
-- How a request is admitted: `loadConnectSession`, `loadConnectSessionByToken`, `parseAllowedOrigin`
-- and `parseRecentReauthentication` of oauth.ts. A request's token is the one that
-- `connectTokenFromRequest` finds in its header; the body's texts are taken to be texts.
use authlane.Prelude.{
  ℕ, ◌+◌, String, Bool, not, ◌&&◌, ◌||◌, Option, none, some, List, find, ltb, leb, get_or, is_some,
  is_empty, if◌then◌else◌, ◌==◌,
}
use authlane.Connect.Session.{ConnectSessionPolicy, is_usable_connect_session, is_valid_service_id}
use authlane.Flow.Tables.{ConnectSession}
use authlane.Flow.Types.{FlowState, FlowEnvironment}

pub record ConnectRequest : Type 0 where
  pub service_id : String
  pub token : Option String
  pub parent_origin : Option String

abbrev pub policy_of : ConnectSession → ConnectSessionPolicy
policy_of session = record {
  expires_at = session.expires_at;
  revoked_at = session.revoked_at;
  allowed_services = session.allowed_services;
  allowed_origin = session.allowed_origin;
}

-- The tests that a route for a service makes first, `accepts` being its own on the service.
unfoldable pub is_formed : (String → Bool) → ConnectRequest → Bool
unfolding is_valid_service_id
is_formed accepts request =
    not (is_empty (get_or request.token ""))
    && (not (is_empty (get_or request.parent_origin ""))
        && (is_valid_service_id request.service_id && accepts request.service_id))

module _ {S : Type 0} (env : FlowEnvironment S) where
  abbrev pub session_with : String → List ConnectSession → Option ConnectSession
  session_with token sessions =
      find (λ session. session.token_hash == env.hash_api_key token) sessions

  unfoldable pub load_connect_session :
      List ConnectSession → String → String → String → Option ConnectSession
  unfolding is_usable_connect_session
  load_connect_session sessions token service_id parent_origin =
      elim (session_with token sessions) [
        | none ↦ none
        | some session ↦
            if is_usable_connect_session (policy_of session) service_id parent_origin env.now
            then some session
            else none
      ]

  unfoldable pub load_connect_session_by_token :
      List ConnectSession → String → String → Option ConnectSession
  load_connect_session_by_token sessions token parent_origin = elim (session_with token sessions) [
    | none ↦ none
    | some session ↦
        if is_some session.revoked_at
          || (leb session.expires_at env.now || not (session.allowed_origin == parent_origin))
        then none
        else some session
  ]

  unfoldable pub parse_allowed_origin : String → Option String
  parse_allowed_origin value = elim (env.tokens.urls.parse_url value) [
    | none ↦ none
    | some url ↦
        let local_development =
          not env.production
          && (url.protocol == "http:"
              && (url.hostname == "localhost" || url.hostname == "127.0.0.1")) in
        if not (url.protocol == "https:") && not local_development then none else some url.origin
  ]

  -- The session under which a request may act on its service.
  unfoldable pub session_of : ConnectRequest → FlowState S → Option ConnectSession
  unfolding load_connect_session
  session_of request st =
      load_connect_session st.sessions (get_or request.token "") request.service_id
        (get_or request.parent_origin "")

-- `false` is the outer `none`. Dates are numbers of milliseconds; one that is not a date, or is before
-- 1970, is `none`.
unfoldable pub parse_recent_reauthentication : Option (Option ℕ) → ℕ → Option (Option ℕ)
parse_recent_reauthentication none now = some none
parse_recent_reauthentication (some none) now = none
parse_recent_reauthentication (some (some t)) now =
    if ltb (now + 30000) t || ltb (t + 300000) now then none else some (some t)
