-- ===== src/Refresh/Lease.antt =====
-- The statements of `refreshToken` on the table of connections: taking the lease, failing, storing
-- the new credentials, and releasing.
use authlane.Prelude.{
  ℕ, ◌+◌, ◌*◌, String, Bool, true, false, ◌&&◌, Option, none, some, List, [], ◌∷◌, ◌++◌, any, ltb,
  eqb, if◌then◌else◌, ◌==◌,
}
use authlane.Prelude.Json.{Json, str, obj, field, end}
use authlane.Store.Tables.{ConnectionStatus, Connection, new_event}
use authlane.Store.Rows.{update_where}
use authlane.Outbox.Expiry.{is_connected}
use authlane.Refresh.Types.{TokenRefreshData, TokenRefreshResult, RefreshEnvironment, RefreshState}

-- No lease, or one that has run out.
abbrev pub is_free : ℕ → Option ℕ → Bool
is_free now none = true
is_free now (some expires_at) = ltb expires_at now

unfoldable pub can_claim : TokenRefreshData → ℕ → Connection → Bool
can_claim data' now c =
    c.id == data'.connection_id
    && (c.organization_id == data'.organization_id
        && (c.service_id == data'.service_id
            && (is_connected c.status && is_free now c.refresh_lock_expires_at)))

abbrev pub claim : String → ℕ → Connection → Connection
claim lock_token now c = record c {
  refresh_lock_token = some lock_token;
  refresh_lock_expires_at = some (now + 2 * 60000);
}

abbrev pub claim_connections : TokenRefreshData → String → ℕ → List Connection → List Connection
claim_connections data' lock_token now connections =
    update_where (can_claim data' now) (claim lock_token now) connections

abbrev pub is_text : String → Option String → Bool
is_text value none = false
is_text value (some text) = text == value

-- The row of the connection while the lease is held.
unfoldable pub holds : String → String → Connection → Bool
holds id lock_token c = c.id == id && is_text lock_token c.refresh_lock_token

abbrev pub release : Connection → Connection
release c = record c { refresh_lock_token = none; refresh_lock_expires_at = none }

abbrev pub release_connections : String → String → List Connection → List Connection
release_connections id lock_token connections =
    update_where (holds id lock_token) release connections

abbrev pub put_error : String → ℕ → Connection → Connection
put_error code now c = record c {
  status = ConnectionStatus.error;
  last_error_code = some code;
  refresh_lock_token = none;
  refresh_lock_expires_at = none;
  version = c.version + 1;
  updated_at = now;
}

abbrev pub error_payload : Connection → String → Json
error_payload row code = obj (
    field "externalUserId" (str row.external_user_id) (
      field "serviceId" (str row.service_id)
        (field "connectionId" (str row.id) (field "errorCode" (str code) end))))

module _ {S : Type 0} where
  -- The transaction of `failPermanently`.
  unfoldable pub put_error_state :
      RefreshEnvironment S → Connection → String → RefreshState S → RefreshState S
  unfolding holds
  put_error_state env row code st =
      let connections = env.meanwhile st.connections in
      if any (holds row.id env.lock_token) connections
      then record st {
        connections =
            update_where (holds row.id env.lock_token) (put_error code env.later) connections;
        events =
            st.events
            ++ new_event env.event_id env.later row.organization_id "connection.error"
                (error_payload row code)
              ∷ [];
      }
      else record st { connections = connections }

abbrev pub permanent : String → TokenRefreshResult
permanent error = record {
  success = false;
  error = some error;
  retryable = some false;
  expires_at = none;
}

abbrev pub transient : String → TokenRefreshResult
transient error = record {
  success = false;
  error = some error;
  retryable = some true;
  expires_at = none;
}

-- The condition of the commit: the lease is held and the row has not changed since the claim.
unfoldable pub can_commit : Connection → String → Connection → Bool
can_commit row lock_token c =
    c.id == row.id && (eqb c.version row.version && is_text lock_token c.refresh_lock_token)

abbrev pub commit : String → Option ℕ → ℕ → Connection → Connection
commit secret_id expires_at now c = record c {
  credential_secret_id = some secret_id;
  expires_at = expires_at;
  connected_at = some now;
  refresh_lock_token = none;
  refresh_lock_expires_at = none;
  version = c.version + 1;
  updated_at = now;
}
