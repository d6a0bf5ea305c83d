-- ===== src/Refresh/Tests.antt =====
-- Runs on concrete tables, and the theorems at concrete inputs.
use authlane.Prelude.{
  ℕ, ◌≡◌, ◌⊎◌, refl, String, false, none, some, [], ◌∷◌, ◌++◌, any, decimal, arith,
}
use authlane.Prelude.Json.{Json, null, str, num, natural, obj, field, end, get}
use authlane.Store.Tables.{ConnectionStatus, Connection, OutboxEvent}
use authlane.Store.Rows.{update_where, Pointwise, count_if-distinct}
use authlane.OAuth.Registry.{oauth_endpoints}
use authlane.OAuth.Trust.{is_trusted_mcp_endpoint}
use authlane.OAuth.Endpoints.{
  allowlist, validate_oauth_endpoint, parse_oauth_provider_context, parse_origin,
}
use authlane.OAuth.TokenRequest.{
  read_chunks, read_limited_json, token_request, sent_request, fetch_oauth_token,
}
use authlane.OAuth.Samples.{token_url_of, token_platform}
use authlane.Refresh.Types.{TokenRefreshData, SecretStore, RefreshEnvironment, RefreshState}
use authlane.Refresh.Lease.{
  can_claim, claim_connections, holds, release_connections, put_error_state, can_commit,
}
use authlane.Refresh.Client.{client_id, client_secret, token_body, token_url}
use authlane.Refresh.Job.{
  new_credentials, commit_refresh, handle_tokens, handle_response, fetch_options, refresh_body,
  provider_answer, request_tokens, use_credentials, refresh_row, refresh_token, claimed_state,
  skipped,
}
use authlane.Refresh.Released.{refresh_token-released, refresh_token-exclusive}
use authlane.Refresh.Fenced.{refresh_token-fenced}
use authlane.Refresh.Changes.{Refreshes, is_final, refresh_token-Refreshes}
use authlane.Refresh.Credentials.{out_of_use, refresh_token-unlisted, provider_answer-tenant_server}

-- A secret store that keeps one text, whatever its name.
abbrev store : SecretStore String
store = record {
  put = λ s organization purpose text. some ("new", text);
  read = λ s id organization purpose. some s;
  delete = λ s id organization purpose. some s;
}

abbrev stored : Json
stored = obj (field "refresh_token" (str "r") end)

abbrev environment : String → ℕ → ℕ → RefreshEnvironment String
environment lock_token now status = record {
  store = store;
  tokens =
      token_platform status
        (obj (field "access_token" (str "a") (field "expires_in" (num (natural 60)) end)));
  parse_json = λ text. some stored;
  stringify = λ json. "{}";
  to_iso = decimal;
  now = now;
  later = now;
  lock_token = lock_token;
  event_id = "e";
  service = λ id. some (some token_url_of);
  organization_service = λ organization service. none;
  platform_credentials =
      λ service. some (record { client_id = "client"; client_secret = "secret" });
  meanwhile = λ connections. connections;
  afterwards = λ connections. connections;
}

abbrev connection : Connection
connection = record {
  id = "c1";
  organization_id = "org";
  external_user_id = "u";
  service_id = "github";
  status = ConnectionStatus.connected;
  credential_secret_id = some "s";
  metadata = null;
  connected_at = some 1;
  expires_at = some 5;
  last_checked_at = none;
  last_error_code = none;
  refresh_lock_token = none;
  refresh_lock_expires_at = none;
  version = 3;
  created_at = 1;
  updated_at = 1;
}

abbrev start : RefreshState String
start = record {
  connections = connection ∷ record connection { id = "c2" } ∷ [];
  events = [];
  secrets = "{}";
}

abbrev job : TokenRefreshData
job = record { connection_id = "c1"; service_id = "github"; organization_id = "org" }

runs : Unit {0}
unfolding refresh_token refresh_row use_credentials request_tokens handle_response handle_tokens
    commit_refresh new_credentials can_claim holds put_error_state can_commit client_id
    client_secret token_body token_url fetch_oauth_token sent_request token_request
    read_limited_json read_chunks validate_oauth_endpoint allowlist oauth_endpoints
    is_trusted_mcp_endpoint parse_oauth_provider_context parse_origin get decimal
runs = tt

-- The provider answers: the credentials are replaced and the lease is released.
refreshes :
    (refresh_token (environment "t" 9 200) job start).1.connections
    ≡ record connection {
      credential_secret_id = some "new";
      connected_at = some 9;
      expires_at = some 60009;
      version = 4;
      updated_at = 9;
    }
      ∷ record connection { id = "c2" }
      ∷ []
unfolding runs
refreshes = refl

-- The provider is down: the connection stays as it was.
stays : (refresh_token (environment "t" 9 503) job start).1.connections ≡ start.connections
unfolding runs
stays = refl

-- The provider refuses: the connection fails.
refuses :
    (refresh_token (environment "t" 9 400) job start).1.connections
    ≡ record connection {
      status = ConnectionStatus.error;
      last_error_code = some "OAUTH_REFRESH_REJECTED";
      version = 4;
      updated_at = 9;
    }
      ∷ record connection { id = "c2" }
      ∷ []
unfolding runs
refuses = refl

refresh_token-released_example :
    any (holds "c1" "t") (refresh_token (environment "t" 9 503) job start).1.connections ≡ false
unfolding holds
refresh_token-released_example = refresh_token-released (environment "t" 9 503) job start refl

refresh_token-exclusive_example :
    refresh_token
      (environment "t2" 100009 200)
      job
      (claimed_state (environment "t" 9 200) job start)
    ≡ (skipped, claimed_state (environment "t" 9 200) job start)
unfolding can_claim
refresh_token-exclusive_example =
    refresh_token-exclusive (environment "t" 9 200) (environment "t2" 100009 200) job job start refl
      (count_if-distinct (λ c. c.id) "c1" start.connections refl) (omega arith) refl

-- Somebody else takes the connection over while the provider answers.
abbrev robbed : RefreshEnvironment String
robbed = record (environment "t" 9 200) { meanwhile = λ connections. [] }

refresh_token-fenced_example :
    let claimed = claim_connections job "t" 9 start.connections in
    let (result, st') = refresh_token robbed job start in
    (result.success ≡ false)
    × (st'.events ≡ [])
    × ((st'.connections ≡ release_connections "c1" "t" claimed)
        ⊎ (st'.connections ≡ release_connections "c1" "t" []))
unfolding can_claim
refresh_token-fenced_example = refresh_token-fenced robbed job start connection refl refl

refresh_token-Refreshes_example :
    let (result, st') = refresh_token (environment "t" 9 400) job start in
    Pointwise (Refreshes "c1" (is_final result)) start.connections st'.connections
refresh_token-Refreshes_example =
    refresh_token-Refreshes (environment "t" 9 400) job start (λ connections. refl)
      (λ connections. refl)

-- A connection to a tenant's server.
abbrev tenant_job : TokenRefreshData
tenant_job = record { connection_id = "c1"; service_id = "mcp-1"; organization_id = "org" }

abbrev tenant_connection : Connection
tenant_connection = record connection { service_id = "mcp-1" }

abbrev tenant_start : RefreshState String
tenant_start = record start { connections = tenant_connection ∷ [] }

abbrev catalog_only : RefreshEnvironment String
catalog_only = record (environment "t" 9 200) { service = λ id. none }

refresh_token-unlisted_example :
    let o = refresh_token catalog_only tenant_job tenant_start in
    (o.0.success ≡ false)
    × (o.0.retryable ≡ some false)
    × (o.1.connections
        ≡ update_where
            (can_claim tenant_job 9)
            (out_of_use "TOKEN_URL_MISSING" catalog_only.later)
            tenant_start.connections)
    × (o.1.secrets ≡ tenant_start.secrets)
    × ((event : OutboxEvent) × (event.event_type ≡ "connection.error")
        × (event.organization_id ≡ tenant_connection.organization_id)
        × (o.1.events ≡ tenant_start.events ++ event ∷ []))
unfolding can_claim
refresh_token-unlisted_example =
    refresh_token-unlisted catalog_only tenant_job tenant_start tenant_connection "s" (λ c. refl)
      (λ c. refl) refl refl refl refl

provider_answer-tenant_server_example :
    (sent_request
        (environment "t" 9 200).tokens
        tenant_job.service_id
        token_url_of
        (refresh_body (environment "t" 9 200) tenant_job tenant_connection "r" "k")
        (fetch_options (environment "t" 9 200) tenant_job tenant_connection "k")
      ≡ none)
    × (provider_answer (environment "t" 9 200) tenant_job tenant_connection token_url_of "r" "k"
        ≡ none)
provider_answer-tenant_server_example =
    provider_answer-tenant_server (environment "t" 9 200) tenant_job tenant_connection token_url_of
      "r" "k" refl
