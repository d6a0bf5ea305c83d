-- ===== src/Flow/Tests.antt =====
-- Runs of the connect flow on concrete tables, and the theorems at concrete inputs.
use authlane.Prelude.{
  ◌≡◌, refl, String, true, false, none, some, [], ◌∷◌, trim, find, units, decimal, arith,
}
use authlane.Prelude.Json.{obj, end, get}
use authlane.Store.Tables.{ConnectionStatus}
use authlane.Store.Rows.{Pointwise}
use authlane.OAuth.Registry.{oauth_endpoints}
use authlane.OAuth.Trust.{is_trusted_mcp_endpoint}
use authlane.OAuth.Endpoints.{
  allowlist, validate_oauth_endpoint, parse_oauth_provider_context, parse_origin, scope_names,
  normalize_oauth_scope_names,
}
use authlane.OAuth.TokenRequest.{
  read_chunks, read_limited_json, token_request, sent_request, fetch_oauth_token,
}
use authlane.OAuth.Applications.{underscored, platform_oauth_credentials}
use authlane.Connect.Session.{
  is_usable_connect_session, is_service_text, is_valid_service_id, can_perform_destructive_action,
  resolve_allowed_service_snapshot,
}
use authlane.Refresh.Job.{new_credentials}
use authlane.Flow.Tables.{ConnectSession}
use authlane.Flow.Settings.{
  allowed_service_ids, is_connectable_service_id, is_platform_default_service,
  read_tenant_service_settings, service_enabled_for_organization, enabled_mcp_servers,
  McpServerConnectConfig, read_endpoint_trust, metadata_text, to_connect_config,
  read_mcp_server_connect_config, mcp_endpoint_provenance,
}
use authlane.Flow.Resolution.{
  resolve_mcp_authorization, config_text, resolve_built_in_authorization, connectability_of, join,
  oauth_authorization_parameters,
}
use authlane.Flow.Types.{
  FlowState, FlowEnvironment, AuthorizationUrl, answered, state_of, reply_of, refused,
  authorization, redirected, public_api_base, oauth_callback_url,
}
use authlane.Flow.Request.{
  load_connect_session, load_connect_session_by_token, parse_allowed_origin, is_formed, session_of,
  parse_recent_reauthentication,
}
use authlane.Flow.Sessions.{
  list_enabled_service_ids, new_session, requested_session, create_connect_session,
}
use authlane.Flow.ApiKey.{of_user, upsert_connection, store_api_key, use_api_key, connect_api_key}
use authlane.Flow.Authorize.{
  mcp_refusal, built_in_refusal, set_params, configured_scopes, authorization_url,
  issue_authorization_redirect, authorize_mcp, authorize_resolved, authorize_built_in,
  authorize_session, authorize,
}
use authlane.Flow.Client.{
  token_body, mcp_client, built_in_client, client_of, is_configured, secret_of,
}
use authlane.Flow.Callback.{
  is_well_formed, is_redeemable, drop_replaced, commit_callback, handle_tokens, handle_answer,
  exchange, complete, redeem, callback,
}
use authlane.Flow.Disconnect.{
  drop_credential, remove_connection, disconnect, drop_credentials, expire_connections_for_service,
}
use authlane.Flow.Listing.{
  EffectiveStatus, effective_connection_status, session_services, list_session, listed,
  connect_session,
}
use authlane.Flow.SingleUse.{callback-refused}
use authlane.Flow.Binding.{Redeems, callback-Redeems}
use authlane.Flow.Redirect.{Approved}
use authlane.Flow.Issued.{param, authorize-Approved}
use authlane.Flow.Own.{Owns, callback-own}
use authlane.Flow.Told.{Tells, callback-Tells}
use authlane.Flow.Revoked.{Disconnected, disconnect-Disconnected}
use authlane.Flow.Lifetimes.{IsGranted, requested_session-IsGranted}
use authlane.Flow.Connectable.{is_conflict, authorize_mcp-connectable}
use authlane.Flow.Samples.{environment, session, other_connection, start, request, query, body}

runs : Unit {0}
unfolding authorize authorize_session authorize_built_in authorize_resolved authorize_mcp
    issue_authorization_redirect authorization_url configured_scopes set_params built_in_refusal
    mcp_refusal upsert_connection connect_api_key use_api_key store_api_key create_connect_session
    requested_session list_enabled_service_ids is_formed session_of load_connect_session
    load_connect_session_by_token parse_allowed_origin parse_recent_reauthentication public_api_base
    oauth_callback_url callback redeem complete exchange handle_answer handle_tokens commit_callback
    drop_replaced is_redeemable is_well_formed token_body mcp_client built_in_client client_of
    is_configured secret_of disconnect remove_connection drop_credential drop_credentials
    expire_connections_for_service connect_session list_session session_services
    effective_connection_status resolve_mcp_authorization config_text resolve_built_in_authorization
    connectability_of join oauth_authorization_parameters allowed_service_ids
    is_connectable_service_id is_platform_default_service read_tenant_service_settings
    service_enabled_for_organization enabled_mcp_servers read_endpoint_trust metadata_text
    to_connect_config read_mcp_server_connect_config mcp_endpoint_provenance underscored
    platform_oauth_credentials is_usable_connect_session is_service_text is_valid_service_id
    can_perform_destructive_action resolve_allowed_service_snapshot new_credentials read_chunks
    read_limited_json token_request sent_request fetch_oauth_token allowlist validate_oauth_endpoint
    parse_oauth_provider_context parse_origin scope_names normalize_oauth_scope_names
    is_trusted_mcp_endpoint oauth_endpoints get units decimal trim
runs = tt

abbrev env : FlowEnvironment String
env = environment 1000 "state" 200

-- The state once the user was sent to the provider.
abbrev asked : FlowState String
asked = state_of (authorize env (some request) start)

url : AuthorizationUrl
unfolding runs
url = elim (reply_of (authorize env (some request) start)) [
  | some (authorization u) ↦ u
  | _ ↦ record { endpoint = ""; params = [] }
]

sends : reply_of (authorize env (some request) start) ≡ some (authorization url)
unfolding url
sends = refl

-- The provider's answer connects the user, and leaves the other one as it was.
connects :
    (reply_of (callback env query asked) ≡ some redirected)
    × ((find (of_user "org" "u" "github") (state_of (callback env query asked)).connections)
        ≡ some (record other_connection {
          id = "new";
          external_user_id = "u";
          credential_secret_id = some "secret";
          metadata = obj end;
          connected_at = some 1000;
          expires_at = some 61000;
          version = 2;
          created_at = 1000;
          updated_at = 1000;
        }))
unfolding runs
connects = (refl, refl)

-- A failing exchange leaves a new connection in error, and the other one connected.
fails :
    (reply_of (callback (environment 1000 "state" 400) query asked)
      ≡ some (refused 400 "Provider rejected the token exchange"))
    × ((find
          (of_user "org" "u" "github")
          (state_of (callback (environment 1000 "state" 400) query asked)).connections)
        ≡ some (record other_connection {
          id = "new";
          external_user_id = "u";
          status = ConnectionStatus.error;
          credential_secret_id = none;
          metadata = obj end;
          connected_at = none;
          expires_at = none;
          last_error_code = some "OAUTH_TOKEN_EXCHANGE_FAILED";
          version = 1;
          created_at = 1000;
          updated_at = 1000;
        }))
unfolding runs
fails = (refl, refl)

-- The hosted page lists the service, once connected.
lists :
    connect_session env
      (some "acs")
      (some "https://app.example")
      (state_of (callback env query asked))
    ≡ listed "u" 900000
        (record { id = "github"; auth_type = "oauth2"; status = EffectiveStatus.connected } ∷ [])
unfolding runs
lists = refl

callback-refused_example :
    let after = state_of (callback env query asked) in
    (text : String) × (callback (environment 2000 "other" 200) query after
      ≡ answered (refused 400 text) after)
unfolding runs
callback-refused_example =
    callback-refused env (environment 2000 "other" 200) query query asked (omega arith) refl refl
      refl refl

callback-Redeems_example :
    Pointwise
      (Redeems env query asked)
      asked.connections
      (state_of (callback env query asked)).connections
unfolding runs
callback-Redeems_example = callback-Redeems env query asked (λ connections. refl) refl

callback-own_example :
    (s : ConnectSession) × (session_of env request start ≡ some s)
    × Pointwise
        (Owns 1000 s "github")
        asked.connections
        (state_of (callback env query asked)).connections
unfolding runs url
callback-own_example =
    callback-own env env request query start url refl tt refl (λ connections. refl) refl

authorize-Approved_example :
    (s : ConnectSession) × (session_of env request start ≡ some s)
    × Approved env s.organization_id "github" url.endpoint
    × (param "state" url.params ≡ some (record { name = "state"; value = "state" }))
    × (param "code_challenge" url.params
        ≡ some (record { name = "code_challenge"; value = env.code_challenge "verifier" }))
    × (param "code_challenge_method" url.params
        ≡ some (record { name = "code_challenge_method"; value = "S256" }))
unfolding runs url
authorize-Approved_example = authorize-Approved env request start url refl

callback-Tells_example :
    let o = callback env query asked in Tells env query asked (reply_of o) (state_of o).events
callback-Tells_example = callback-Tells env query asked

disconnect-Disconnected_example :
    (s : ConnectSession) × (session_of env request asked ≡ some s)
    × (can_perform_destructive_action s.destructive_action_expires_at 1000 ≡ true)
    × Disconnected s "github" asked (state_of (disconnect env request asked))
unfolding runs
disconnect-Disconnected_example = disconnect-Disconnected env request asked true refl

requested_session-IsGranted_example :
    IsGranted env "org"
      (new_session env "org" "u" ("github" ∷ []) "https://github.com" (some 1000) 901000)
unfolding runs
requested_session-IsGranted_example = requested_session-IsGranted env "org" body _ refl

-- A tenant's server that takes keys.
abbrev server : McpServerConnectConfig
server = record {
  id = "mcp-1";
  server_url = "https://github.com/mcp";
  auth_type = "api_key";
  enabled = true;
  oauth_client_id = none;
  oauth_client_secret_id = none;
  authorization_endpoint = none;
  token_endpoint = none;
  endpoint_trust = none;
  authorization_required = false;
}

authorize_mcp-connectable_example :
    is_conflict (reply_of (use_api_key env session "mcp-1" "key" (some server) start)) ≡ false
unfolding runs
authorize_mcp-connectable_example =
    (authorize_mcp-connectable env session "mcp-1" "key" server start).1 refl
