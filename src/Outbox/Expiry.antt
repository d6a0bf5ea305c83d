-- ===== src/Outbox/Expiry.antt =====
-- `markExpiredConnections` of outbox.ts: expired connections are marked under an optimistic lock on
-- their version, each together with its event. `rows` may be older than the table.
use authlane.Prelude.{
  ℕ, ◌+◌, String, Bool, true, false, ◌&&◌, Option, none, some, List, [], ◌∷◌, ◌++◌, filter, any,
  take, leb, eqb, if◌then◌else◌, ◌==◌,
}
use authlane.Prelude.Json.{Json, null, str, obj, field, end}
use authlane.Store.Tables.{ConnectionStatus, Connection, OutboxEvent, new_event}
use authlane.Store.Rows.{update_where}

pub record ExpiryState : Type 0 where
  pub connections : List Connection
  pub events : List OutboxEvent
  pub transitioned : ℕ

-- What the database and the platform supply: fresh identifiers, its own time, and dates as texts.
pub record Supply : Type 0 where
  pub new_id : ℕ → String
  pub db_now : ℕ
  pub to_iso : ℕ → String

abbrev pub is_connected : ConnectionStatus → Bool
is_connected ConnectionStatus.connected = true
is_connected ConnectionStatus.pending = false
is_connected ConnectionStatus.expired = false
is_connected ConnectionStatus.error = false

abbrev reached : Option ℕ → ℕ → Bool
reached none now = false
reached (some t) now = leb t now

unfoldable pub is_over : ℕ → Connection → Bool
is_over now c = is_connected c.status && reached c.expires_at now

-- The condition of the update.
unfoldable pub still : Connection → Connection → Bool
still row c = c.id == row.id && (is_connected c.status && eqb c.version row.version)

abbrev pub expire : ℕ → Connection → Connection → Connection
expire now row c = record c {
  status = ConnectionStatus.expired;
  version = row.version + 1;
  updated_at = now;
}

abbrev iso_or_null : Supply → Option ℕ → Json
iso_or_null supply none = null
iso_or_null supply (some t) = str (supply.to_iso t)

abbrev pub expired_event : Supply → ℕ → Connection → OutboxEvent
expired_event supply n row =
    new_event (supply.new_id n) supply.db_now row.organization_id "connection.expired" (
      obj (
        field "externalUserId" (str row.external_user_id) (
          field "serviceId" (str row.service_id) (
            field "connectionId" (str row.id)
              (field "expiresAt" (iso_or_null supply row.expires_at) end)))))

-- One transaction.
unfoldable pub expire_connection : Supply → ℕ → Connection → ExpiryState → ExpiryState
unfolding still
expire_connection supply now row st =
    if any (still row) st.connections
    then record {
      connections = update_where (still row) (expire now row) st.connections;
      events = st.events ++ expired_event supply st.transitioned row ∷ [];
      transitioned = st.transitioned + 1;
    }
    else st

unfoldable pub expire_connections : Supply → ℕ → List Connection → ExpiryState → ExpiryState
expire_connections supply now [] st = st
expire_connections supply now (row ∷ rows) st =
    expire_connections supply now rows (expire_connection supply now row st)

unfoldable pub mark_expired_connections :
    Supply → ℕ → List Connection → List OutboxEvent → ExpiryState
unfolding expire_connections is_over
mark_expired_connections supply now connections events =
    expire_connections supply now (take 100 (filter (is_over now) connections))
      (record { connections = connections; events = events; transitioned = 0 })
