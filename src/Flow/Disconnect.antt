-- ===== src/Flow/Disconnect.antt =====
-- DELETE /connect/:serviceId of oauth.ts, and `expireConnectionsForService` of
-- apps/api/src/lib/connection-invalidation.ts. Deleting a connection deletes its transactions.
use authlane.Prelude.{
  ℕ, String, Bool, true, false, not, ◌&&◌, Option, none, some, List, [], ◌∷◌, ◌++◌, find, filter,
  length, get_or, if◌then◌else◌, ◌==◌,
}
use authlane.Prelude.Json.{Json, str, obj, field, end}
use authlane.Store.Tables.{ConnectionStatus, Connection, new_event}
use authlane.Store.Rows.{update_where}
use authlane.Refresh.Types.{SecretStore}
use authlane.Connect.Session.{can_perform_destructive_action}
use authlane.Flow.Tables.{ConnectSession}
use authlane.Flow.Settings.{is_connectable_service_id}
use authlane.Flow.Resolution.{falsy}
use authlane.Flow.Types.{
  FlowState, FlowEnvironment, Outcome, answered, threw, refused, disconnected,
}
use authlane.Flow.Request.{ConnectRequest, is_formed, session_of}
use authlane.Flow.ApiKey.{of_user}

abbrev pub revoke : ℕ → ConnectSession → ConnectSession
revoke now session = record session { revoked_at = some now }

-- The deletion of a credential, if there is one.
unfoldable pub drop_credential :
    {S : Type 0} → SecretStore S → String → Option String → S → Option S
drop_credential store organization_id secret_id secrets =
    if falsy secret_id
    then some secrets
    else store.delete secrets (get_or secret_id "") organization_id "connection_credentials"

abbrev pub of_service : String → String → Connection → Bool
of_service organization_id service_id c =
    c.organization_id == organization_id && c.service_id == service_id

abbrev pub invalidate : String → ℕ → Connection → Connection
invalidate code now c = record c {
  status = ConnectionStatus.expired;
  credential_secret_id = none;
  last_error_code = some code;
  updated_at = now;
}

module _ {S : Type 0} (env : FlowEnvironment S) where
  abbrev pub revoked : ConnectSession → FlowState S → FlowState S
  revoked session st = record st {
    sessions = update_where (λ s. s.id == session.id) (revoke env.later) st.sessions;
  }

  abbrev disconnected_payload : Connection → Json
  disconnected_payload removed = obj (
      field "externalUserId" (str removed.external_user_id)
        (field "serviceId" (str removed.service_id) (field "connectionId" (str removed.id) end)))

  -- The state after the transaction, with the table's unique key at most one row is deleted.
  abbrev pub removed_state : ConnectSession → String → Connection → FlowState S → FlowState S
  removed_state session service_id removed st = record (revoked session st) {
    connections =
        filter (λ c. not (of_user session.organization_id session.external_user_id service_id c))
          st.connections;
    transactions = filter (λ t. not (t.connection_id == removed.id)) st.transactions;
    events =
        st.events
        ++ new_event env.event_id env.later session.organization_id "connection.disconnected"
            (disconnected_payload removed)
          ∷ [];
  }

  unfoldable pub remove_connection : ConnectSession → String → FlowState S → Outcome S
  unfolding drop_credential
  remove_connection session service_id st =
      elim (find (of_user session.organization_id session.external_user_id service_id)
        st.connections) [
          | none ↦ answered (disconnected false) (revoked session st)
          | some removed ↦
              elim (drop_credential env.store session.organization_id removed.credential_secret_id
                st.secrets) [
                  | none ↦ threw st
                  | some secrets ↦
                      answered (disconnected true)
                        (record (removed_state session service_id removed st) { secrets = secrets })
                ]
        ]

  -- The route; a body that is no JSON has no parent origin.
  unfoldable pub disconnect : ConnectRequest → FlowState S → Outcome S
  unfolding is_formed session_of remove_connection can_perform_destructive_action
      is_connectable_service_id
  disconnect request st =
      if not (is_formed (is_connectable_service_id env.demo) request)
      then answered (refused 401 "A valid connect session is required") st
      else elim (session_of env request st) [
        | none ↦ answered (refused 401 "Connect session is invalid or expired") st
        | some session ↦
            if not (can_perform_destructive_action session.destructive_action_expires_at env.now)
            then answered (refused 403 "Fresh authentication is required") st
            else remove_connection session request.service_id st
      ]

  unfoldable pub drop_credentials : String → List Connection → S → Option S
  unfolding drop_credential
  drop_credentials organization_id [] secrets = some secrets
  drop_credentials organization_id (c ∷ cs) secrets =
      elim (drop_credential env.store organization_id c.credential_secret_id secrets) [
        | none ↦ none
        | some rest ↦ drop_credentials organization_id cs rest
      ]

  -- The number of connections; the deletions, which run together, are taken one after another.
  unfoldable pub expire_connections_for_service :
      String → String → String → FlowState S → Option (ℕ × FlowState S)
  unfolding drop_credentials
  expire_connections_for_service organization_id service_id code st =
      let affected = filter (of_service organization_id service_id) st.connections in
      elim (drop_credentials organization_id affected st.secrets) [
        | none ↦ none
        | some secrets ↦ some (
          length affected,
          record st {
            connections =
                update_where (of_service organization_id service_id) (invalidate code env.later)
                  st.connections;
            secrets = secrets;
          },
        )
      ]
