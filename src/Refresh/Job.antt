-- ===== src/Refresh/Job.antt =====
-- The function `refreshToken`, step by step in its order. A stored secret that is read as JSON is
-- taken to hold texts, as the function writes them.
use authlane.Prelude.{
  ℕ, ◌+◌, ◌*◌, min, String, Bool, true, false, ◌||◌, Option, none, some, List, [], ◌∷◌, ◌++◌, any,
  find, leb, ltb, eqb, get_or, is_some, or_else, is_empty, if◌then◌else◌,
}
use authlane.Prelude.Json.{
  Json, null, bool, num, str, arr, obj, natural, negative, not_finite, Fields, field, end, get,
  as_string,
}
use authlane.Store.Tables.{Connection, new_event}
use authlane.Store.Rows.{update_where}
use authlane.Outbox.Delivery.{response_ok}
use authlane.OAuth.Endpoints.{parse_oauth_provider_context}
use authlane.OAuth.TokenRequest.{Param, FetchOptions, fetch_oauth_token}
use authlane.Refresh.Types.{
  TokenRefreshData, TokenRefreshResult, RefreshEnvironment, RefreshState, Ending, returned, threw,
}
use authlane.Refresh.Lease.{
  can_claim, claim, claim_connections, release_connections, put_error_state, permanent, transient,
  can_commit, commit,
}
use authlane.Refresh.Client.{client_id, client_secret, token_body, token_url}

-- `JSON.parse` of the credentials and its fields: of `null` they cannot be read, and a value that
-- is no object has none.
abbrev pub credential_fields : Json → Option Fields
credential_fields null = none
credential_fields (obj fs) = some fs
credential_fields (bool b) = some end
credential_fields (num n) = some end
credential_fields (str s) = some end
credential_fields (arr vs) = some end

-- The lifetime in seconds, at most a year.
abbrev pub expires_in : Option Json → Option ℕ
expires_in (some (num (natural n))) = if ltb 0 n then some (min n 31536000) else none
expires_in (some (num (negative n))) = none
expires_in (some (num not_finite)) = none
expires_in (some null) = none
expires_in (some (bool b)) = none
expires_in (some (str s)) = none
expires_in (some (arr vs)) = none
expires_in (some (obj fs)) = none
expires_in none = none

-- `JSON.stringify` leaves out what is undefined.
abbrev pub optional : String → Option Json → Fields → Fields
optional key none fs = fs
optional key (some value) fs = field key value fs

abbrev text_json : Option String → Option Json
text_json none = none
text_json (some text) = some (str text)

-- A text that is there and not empty.
abbrev pub full : Option String → Option String
full none = none
full (some text) = if is_empty text then none else some text

abbrev pub expiry : ℕ → Option ℕ → Option ℕ → Option ℕ
expiry now (some seconds) old = some (now + seconds * 1000)
expiry now none old = old

abbrev pub iso : (ℕ → String) → Option ℕ → Option String
iso to_iso none = none
iso to_iso (some t) = some (to_iso t)

-- `text ?? null`.
abbrev pub or_null : Option String → Json
or_null none = null
or_null (some text) = str text

abbrev context_json : Option String → Option Json
context_json none = none
context_json (some api_base_url) = some (obj (field "apiBaseUrl" (str api_base_url) end))

unfoldable pub new_credentials :
    (ℕ → String) → Fields → Fields → String → Option ℕ → Option String → Json
unfolding get
new_credentials to_iso credentials tokens access_token expires_at context = obj (
    field "access_token" (str access_token) (
      optional "refresh_token"
        (or_else (text_json (as_string (get "refresh_token" tokens)))
          (get "refresh_token" credentials))
        (field "token_type"
          (str (
            get_or (as_string (get "token_type" tokens))
              (get_or (full (as_string (get "token_type" credentials))) "Bearer")))
          (optional "scope"
            (or_else (text_json (as_string (get "scope" tokens))) (get "scope" credentials))
            (optional "expires_at"
              (or_else (text_json (iso to_iso expires_at)) (get "expires_at" credentials))
              (optional "provider_context"
                (or_else (context_json context) (get "provider_context" credentials)) end))))))

abbrev pub is_transient_status : ℕ → Bool
is_transient_status status = eqb status 429 || leb 500 status

module _ {S : Type 0} (env : RefreshEnvironment S) (data' : TokenRefreshData)
    (row : Connection) where
  abbrev pub fail_permanently : String → String → RefreshState S → Ending S
  fail_permanently error code st = returned (permanent error) (put_error_state env row code st)

  -- The deletion of a secret that is no longer wanted.
  abbrev delete_secret : String → RefreshState S → Option (RefreshState S)
  delete_secret id st =
      elim (env.store.delete st.secrets id row.organization_id "connection_credentials") [
        | none ↦ none
        | some secrets ↦ some (record st { secrets = secrets })
      ]

  abbrev refreshed_payload : Option ℕ → Json
  refreshed_payload expires_at = obj (
      field "externalUserId" (str row.external_user_id) (
        field "serviceId" (str row.service_id) (
          field "connectionId" (str row.id)
            (field "expiresAt" (or_null (iso env.to_iso expires_at)) end))))

  -- The state after the transaction that stores the new credentials.
  abbrev pub commit_state : String → Option ℕ → RefreshState S → RefreshState S
  commit_state new_id expires_at st = record st {
    connections =
        update_where (can_commit row env.lock_token) (commit new_id expires_at env.later)
          (env.meanwhile st.connections);
    events =
        st.events
        ++ new_event env.event_id env.later row.organization_id "connection.refreshed"
            (refreshed_payload expires_at)
          ∷ [];
  }

  -- The state where the lease was lost: the transaction changes nothing.
  abbrev pub lost_state : RefreshState S → RefreshState S
  lost_state st = record st { connections = env.meanwhile st.connections }

  abbrev pub done_result : Option ℕ → Option ℕ → TokenRefreshResult
  done_result seconds expires_at = record {
    success = true;
    error = none;
    retryable = none;
    expires_at = if is_some seconds then iso env.to_iso expires_at else none;
  }

  -- The new secret is stored: the transaction, and what becomes of the two secrets.
  unfoldable pub commit_refresh : String → String → Option ℕ → Option ℕ → RefreshState S → Ending S
  unfolding can_commit
  commit_refresh old_id new_id seconds expires_at st =
      if any (can_commit row env.lock_token) (env.meanwhile st.connections)
      then elim (delete_secret old_id (commit_state new_id expires_at st)) [
        | none ↦ threw (commit_state new_id expires_at st)
        | some done ↦ returned (done_result seconds expires_at) done
      ]
      else elim (delete_secret new_id (lost_state st)) [
        | none ↦ threw (lost_state st)
        | some done ↦ threw done
      ]

  -- The provider's answer.
  unfoldable pub handle_tokens : String → Fields → Fields → RefreshState S → Ending S
  unfolding commit_refresh new_credentials get
  handle_tokens old_id credentials tokens st =
      let access_token = get_or (as_string (get "access_token" tokens)) "" in
      if is_empty access_token
      then fail_permanently "OAuth provider omitted access token" "OAUTH_REFRESH_INVALID" st
      else let seconds = expires_in (get "expires_in" tokens) in
        let expires_at = expiry env.later seconds row.expires_at in
        elim (parse_oauth_provider_context env.tokens.urls data'.service_id tokens false) [
          | none ↦
              fail_permanently "OAuth provider returned invalid routing metadata"
                "OAUTH_PROVIDER_CONTEXT_INVALID" st
          | some context ↦
              elim (env.store.put st.secrets row.organization_id "connection_credentials" (
                env.stringify (
                  new_credentials env.to_iso credentials tokens access_token expires_at context))) [
                    | none ↦ threw st
                    | some put ↦
                        commit_refresh old_id put.0 seconds expires_at
                          (record st { secrets = put.1 })
                  ]
        ]

  unfoldable pub handle_response : String → Fields → Option (ℕ × Fields) → RefreshState S → Ending S
  unfolding handle_tokens
  handle_response old_id credentials none st =
      returned (transient "OAuth refresh request failed") st
  handle_response old_id credentials (some answer) st =
      if response_ok answer.0
      then handle_tokens old_id credentials answer.1 st
      else if is_transient_status answer.0
      then returned (transient "OAuth provider is temporarily unavailable") st
      else fail_permanently "OAuth provider rejected refresh" "OAUTH_REFRESH_REJECTED" st

  -- What the call gives with its request. No provenance of a tenant's server is given.
  abbrev pub fetch_options : String → FetchOptions
  fetch_options secret = record {
    client_id =
        client_id (env.organization_service data'.organization_id data'.service_id)
          (env.platform_credentials data'.service_id);
    client_secret = some secret;
    mcp_provenance = none;
  }

  abbrev pub refresh_body : String → String → List Param
  refresh_body refresh_token secret =
      token_body refresh_token (fetch_options secret).client_id secret

  -- The answer to the request.
  abbrev pub provider_answer : String → String → String → Option (ℕ × Fields)
  provider_answer url refresh_token secret =
      fetch_oauth_token env.tokens data'.service_id url (refresh_body refresh_token secret)
        (fetch_options secret)

  -- The request, with the refresh token that was found.
  unfoldable pub request_tokens : String → String → Fields → String → RefreshState S → Ending S
  unfolding handle_response client_secret
  request_tokens old_id url credentials refresh_token st =
      let organization_service = env.organization_service data'.organization_id data'.service_id in
      let platform = env.platform_credentials data'.service_id in
      elim (client_secret
        (λ id. env.store.read st.secrets id row.organization_id "oauth_client_secret")
        organization_service platform) [
          | none ↦ threw st
          | some secret ↦
              handle_response old_id credentials (provider_answer url refresh_token secret) st
        ]

  unfoldable pub use_credentials : String → String → Option Fields → RefreshState S → Ending S
  unfolding request_tokens get
  use_credentials old_id url none st = threw st
  use_credentials old_id url (some credentials) st =
      elim (full (as_string (get "refresh_token" credentials))) [
        | none ↦ fail_permanently "No refresh token available" "REFRESH_TOKEN_MISSING" st
        | some refresh_token ↦ request_tokens old_id url credentials refresh_token st
      ]

  -- The credentials as the store gives them: `none` where reading or parsing throws.
  abbrev pub read_credentials : String → RefreshState S → Option Fields
  read_credentials old_id st =
      elim (env.store.read st.secrets old_id row.organization_id "connection_credentials") [
        | none ↦ none
        | some text ↦ elim (env.parse_json text) [
          | none ↦ none
          | some value ↦ credential_fields value
        ]
      ]

  -- The `try` block, for the row that was claimed.
  unfoldable pub refresh_row : RefreshState S → Ending S
  unfolding use_credentials token_url
  refresh_row st = elim (full row.credential_secret_id) [
    | none ↦ fail_permanently "No credentials found" "CREDENTIALS_MISSING" st
    | some old_id ↦ elim (token_url env data') [
      | none ↦ fail_permanently "OAuth provider is not configured" "TOKEN_URL_MISSING" st
      | some url ↦ use_credentials old_id url (read_credentials old_id st) st
    ]
  ]

-- The answer where another run holds the lease.
abbrev pub skipped : TokenRefreshResult
skipped = record { success = true; error = none; retryable = none; expires_at = none }

module _ {S : Type 0} where
  -- The `catch` block.
  abbrev pub caught : Ending S → TokenRefreshResult × RefreshState S
  caught (returned result st) = (result, st)
  caught (threw st) = (transient "Token refresh failed", st)

  -- The `finally` block.
  abbrev pub release_state : RefreshEnvironment S → String → RefreshState S → RefreshState S
  release_state env id st = record st {
    connections = release_connections id env.lock_token (env.afterwards st.connections);
  }

  -- The state after the lease was taken.
  abbrev pub claimed_state :
      RefreshEnvironment S → TokenRefreshData → RefreshState S → RefreshState S
  claimed_state env data' st = record st {
    connections = claim_connections data' env.lock_token env.now st.connections;
  }

  unfoldable pub refresh_token :
      RefreshEnvironment S → TokenRefreshData → RefreshState S → TokenRefreshResult × RefreshState S
  unfolding refresh_row can_claim
  refresh_token env data' st = elim (find (can_claim data' env.now) st.connections) [
    | none ↦ (skipped, st)
    | some found ↦
        let row = claim env.lock_token env.now found in
        let (result, st') = caught (refresh_row env data' row (claimed_state env data' st)) in
        (result, release_state env row.id st')
  ]
