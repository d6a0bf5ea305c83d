-- ===== src/Refresh/Credentials.antt =====
-- Whose credentials a refresh presents, and connections to a tenant's own servers.
use authlane.Prelude.{
  ℕ, ◌+◌, ◌≡◌, refl, inl, inr, String, Bool, true, false, not, ◌&&◌, Option, none, some, List, [],
  ◌∷◌, ◌++◌, find, all, any, is_empty, find-true, eq_iff, eq_refl, and-eq-true, ◌==◌, Bool-cases,
  Option-cases, arith,
}
use authlane.Store.Tables.{ConnectionStatus, Connection, OutboxEvent}
use authlane.Store.Rows.{update_where}
use authlane.Store.Keyed.{any-find}
use authlane.OAuth.Applications.{PlatformOauthCredentials}
use authlane.OAuth.Trust.{is_mcp_server_id, is_trusted_mcp_endpoint}
use authlane.OAuth.Endpoints.{validate_oauth_endpoint}
use authlane.OAuth.TokenRequest.{sent_request, fetch_oauth_token}
use authlane.Refresh.Types.{TokenRefreshData, OrganizationService, RefreshEnvironment, RefreshState}
use authlane.Refresh.Lease.{
  can_claim, claim, claim_connections, is_text, holds, release, put_error, put_error_state,
}
use authlane.Refresh.Client.{client_id, client_secret, token_url}
use authlane.Refresh.Job.{
  full, fetch_options, refresh_body, provider_answer, refresh_row, refresh_token,
}

-- An organization with an application of its own presents that one, and the secret that goes with
-- it does not depend on the platform's application.
client_secret-own :
    (read : String → Option String) (organization_service : OrganizationService) (own : String)
    (platform platform' : Option PlatformOauthCredentials)
    → organization_service.oauth_client_id ≡ some own
    → is_empty own ≡ false
    → (client_id (some organization_service) platform ≡ some own)
      × (client_secret read (some organization_service) platform
          ≡ client_secret read (some organization_service) platform')
unfolding client_id client_secret
client_secret-own read organization_service own platform platform' h k = (rw h refl, rw (h, k) refl)

-- A row that is put out of use: in the error state, without a lease, all else as it was.
abbrev pub out_of_use : String → ℕ → Connection → Connection
out_of_use code now c = record {
  id = c.id;
  organization_id = c.organization_id;
  external_user_id = c.external_user_id;
  service_id = c.service_id;
  status = ConnectionStatus.error;
  credential_secret_id = c.credential_secret_id;
  metadata = c.metadata;
  connected_at = c.connected_at;
  expires_at = c.expires_at;
  last_checked_at = c.last_checked_at;
  last_error_code = some code;
  refresh_lock_token = none;
  refresh_lock_expires_at = none;
  version = c.version + 1;
  created_at = c.created_at;
  updated_at = now;
}

-- A token that no row has.
abbrev pub is_new_token : String → List Connection → Bool
is_new_token lock_token connections =
    all (λ c. not (is_text lock_token c.refresh_lock_token)) connections

module _ (data' : TokenRefreshData) (lock_token : String) (now : ℕ) where
  holds-claim :
      (c : Connection)
      → can_claim data' now c ≡ true
      → holds data'.connection_id lock_token (claim lock_token now c) ≡ true
  unfolding can_claim holds
  holds-claim c h =
      rw ((and-eq-true (c.id == data'.connection_id) _ h).0, holds, eq_refl lock_token) refl

  any-holds :
      (connections : List Connection)
      → any (can_claim data' now) connections ≡ true
      → any
          (holds data'.connection_id lock_token)
          (claim_connections data' lock_token now connections)
        ≡ true
  any-holds (c ∷ rest) h = elim (Bool-cases (can_claim data' now c)) [
    | inl e ↦ rw (e, holds-claim c e) refl
    | inr e ↦ rw e (ground (arith, any-holds rest (rw e at h)))
  ]
  any-holds [] h = absurd (ground arith)

  and_false : (b : Bool) → (b && false) ≡ false
  and_false true = refl
  and_false false = refl

  not-holds :
      (c : Connection)
      → not (is_text lock_token c.refresh_lock_token) ≡ true
      → holds data'.connection_id lock_token c ≡ false
  unfolding holds
  not-holds c h = ground arith

  put_error-claimed :
      (code : String) (later : ℕ) (connections : List Connection)
      → is_new_token lock_token connections ≡ true
      → let held = holds data'.connection_id lock_token in
        update_where held release (
          update_where held
            (put_error code later)
            (claim_connections data' lock_token now connections))
        ≡ update_where (can_claim data' now) (out_of_use code later) connections
  unfolding holds
  put_error-claimed code later [] h = refl
  put_error-claimed code later (c ∷ rest) h =
      let k = and-eq-true (not (is_text lock_token c.refresh_lock_token)) _ h in
      let tail = put_error-claimed code later rest k.1 in
      elim (Bool-cases (can_claim data' now c)) [
        | inl e ↦ rw (e, holds-claim c e, tail, and_false (c.id == data'.connection_id)) refl
        | inr e ↦ rw (e, not-holds c k.0, tail) (rw (not-holds c k.0) refl)
      ]

-- The connection to a service that the table of services does not have, as a tenant's own server,
-- fails for good at its first refresh: while nobody else writes and the lease's token is new, the
-- claimed row is put into the error state with its credentials kept, no other row changes, and the
-- tenant is told.
pub refresh_token-unlisted :
    {S : Type 0} (env : RefreshEnvironment S) (data' : TokenRefreshData) (st : RefreshState S)
    (found : Connection) (old_id : String)
    → ((connections : List Connection) → env.meanwhile connections ≡ connections)
    → ((connections : List Connection) → env.afterwards connections ≡ connections)
    → is_new_token env.lock_token st.connections ≡ true
    → find (can_claim data' env.now) st.connections ≡ some found
    → full found.credential_secret_id ≡ some old_id
    → env.service data'.service_id ≡ none
    → let o = refresh_token env data' st in
      (o.0.success ≡ false)
      × (o.0.retryable ≡ some false)
      × (o.1.connections
          ≡ update_where
              (can_claim data' env.now)
              (out_of_use "TOKEN_URL_MISSING" env.later)
              st.connections)
      × (o.1.secrets ≡ st.secrets)
      × ((event : OutboxEvent) × (event.event_type ≡ "connection.error")
          × (event.organization_id ≡ found.organization_id)
          × (o.1.events ≡ st.events ++ event ∷ []))
unfolding refresh_token refresh_row token_url put_error_state
refresh_token-unlisted env data' st found old_id quiet calm new e f g =
    let same =
      (eq_iff found.id data'.connection_id).0
        (and-eq-true _ _ (find-true (can_claim data' env.now) st.connections found e)).0 in
    let claimed = claim_connections data' env.lock_token env.now st.connections in
    let free =
      any-holds data' env.lock_token env.now st.connections
        (rw (any-find (can_claim data' env.now) st.connections, e) refl) in
    rw (e, refresh_token)
      (rw (f, refresh_row)
        (rw (g, token_url)
          (rw (same, put_error_state, quiet claimed, free)
            (
              refl,
              refl,
              rw
                  (
                    calm _,
                    put_error-claimed data' env.lock_token env.now "TOKEN_URL_MISSING" env.later
                        st.connections new,
                  )
                  refl,
              refl,
              (_, refl, refl, refl),
            ))))

-- For a tenant's own server a refresh sends no request, whatever the token URL: the call has no
-- provenance to offer. So it has no answer either.
pub provider_answer-tenant_server :
    {S : Type 0} (env : RefreshEnvironment S) (data' : TokenRefreshData) (row : Connection)
    (url refresh_token' secret : String)
    → is_mcp_server_id data'.service_id ≡ true
    → (sent_request env.tokens data'.service_id url
          (refresh_body env data' row refresh_token' secret)
          (fetch_options env data' row secret)
        ≡ none)
      × (provider_answer env data' row url refresh_token' secret ≡ none)
unfolding fetch_oauth_token sent_request validate_oauth_endpoint is_trusted_mcp_endpoint
provider_answer-tenant_server env data' row url refresh_token' secret tenant =
    elim (Option-cases (env.tokens.urls.parse_url url)) [
      | inl e ↦ (
        rw (e, sent_request, validate_oauth_endpoint) refl,
        rw (e, fetch_oauth_token, sent_request, validate_oauth_endpoint) refl,
      )
      | inr (parsed, e) ↦ (
        rw (e, tenant, sent_request, validate_oauth_endpoint) refl,
        rw (e, tenant, fetch_oauth_token, sent_request, validate_oauth_endpoint) refl,
      )
    ]
