-- ===== src/System/Steps.antt =====
-- Runs of the services over one table of connections: every step is one operation, the refresh job
-- and the expiry job among them, and a callback's or a refresh's writes are taken in one go.
use authlane.Prelude.{
  ℕ, ◌≡◌, inl, inr, String, Bool, true, not, Option, none, some, List, [], ◌∷◌, all, filter,
  Option-cases, ◌==◌, arith,
}
use authlane.Store.Tables.{Connection}
use authlane.Store.Rows.{update_where}
use authlane.Outbox.Expiry.{Supply, mark_expired_connections}
use authlane.Refresh.Types.{TokenRefreshData, RefreshEnvironment}
use authlane.Refresh.Job.{refresh_token}
use authlane.Flow.Types.{FlowState, FlowEnvironment, state_of}
use authlane.Flow.Request.{ConnectRequest}
use authlane.Flow.ApiKey.{connect_api_key}
use authlane.Flow.Authorize.{authorize}
use authlane.Flow.Callback.{CallbackQuery, callback}
use authlane.Flow.Disconnect.{
  disconnect, of_service, invalidate, drop_credentials, expire_connections_for_service,
}
use authlane.System.Life.{Operation, asks, leaves, loses, lapses}
use authlane.System.Moves.{called_id}
use authlane.System.Frames.{asker, key_asker}

-- A new identifier.
abbrev pub is_fresh : String → List Connection → Bool
is_fresh id connections = all (λ c. not (c.id == id)) connections

abbrev pub IsQuiet : (List Connection → List Connection) → Type 0
IsQuiet others = (connections : List Connection) → others connections ≡ connections

-- One operation, from the state `st` to the connections `after`.
pub data Step {S : Type 0} (op : Operation) (st : FlowState S) (after : List Connection)
    : Type 0 where
  authorizes :
      (env : FlowEnvironment S) (request : Option ConnectRequest)
      → is_fresh env.new_id st.connections ≡ true
      → (state_of (authorize env request st)).connections ≡ after
      → op ≡ asks (asker env request st)
      → Step op st after
  uses_key :
      (env : FlowEnvironment S) (request : Option (ConnectRequest × String))
      → is_fresh env.new_id st.connections ≡ true
      → (state_of (connect_api_key env request st)).connections ≡ after
      → op ≡ Operation.connects_key (key_asker env request st)
      → Step op st after
  redeems :
      (env : FlowEnvironment S) (query : CallbackQuery)
      → IsQuiet env.meanwhile
      → (state_of (callback env query st)).connections ≡ after
      → op ≡ Operation.calls_back (called_id env query st)
      → Step op st after
  disconnects :
      (env : FlowEnvironment S) (request : ConnectRequest)
      → (state_of (disconnect env request st)).connections ≡ after
      → op ≡ leaves (asker env (some request) st)
      → Step op st after
  invalidates :
      (env : FlowEnvironment S) (organization_id service_id code : String) (n : ℕ)
      (final : FlowState S)
      → expire_connections_for_service env organization_id service_id code st ≡ some (n, final)
      → final.connections ≡ after
      → op ≡ loses organization_id service_id
      → Step op st after
  expires :
      (supply : Supply) (now : ℕ)
      → (mark_expired_connections supply now st.connections st.events).connections ≡ after
      → op ≡ lapses
      → Step op st after
  renews :
      (env : RefreshEnvironment S) (data' : TokenRefreshData)
      → IsQuiet env.meanwhile
      → IsQuiet env.afterwards
      → (refresh_token env data' (record {
        connections = st.connections;
        events = st.events;
        secrets = st.secrets;
      })).1.connections
        ≡ after
      → op ≡ Operation.refreshes data'.connection_id
      → Step op st after

-- Several, the latest first, the other tables being whatever the steps in between left.
pub data Run (S : Type 0) (start : List Connection)
    : List Operation → List Connection → Type 0 where
  here : Run S start [] start
  then :
      {ops : List Operation} {after : List Connection} (op : Operation) (st : FlowState S)
      → Run S start ops st.connections
      → Step op st after
      → Run S start (op ∷ ops) after

final_connections :
    {S : Type 0} (n m : ℕ) (x y : FlowState S)
    → ◌≡◌ {A = Option (ℕ × FlowState S)} (some (n, x)) (some (m, y))
    → x.connections ≡ y.connections
final_connections n m x y h = ground arith

no_result :
    {S : Type 0} (n : ℕ) (x : FlowState S)
    → ◌≡◌ {A = Option (ℕ × FlowState S)} none (some (n, x))
    → ⊥
no_result n x h = ground arith

pub invalidated :
    {S : Type 0} (env : FlowEnvironment S) (organization_id service_id code : String) (n : ℕ)
    (st final : FlowState S)
    → expire_connections_for_service env organization_id service_id code st ≡ some (n, final)
    → update_where
        (of_service organization_id service_id)
        (invalidate code env.later)
        st.connections
      ≡ final.connections
unfolding expire_connections_for_service
invalidated env organization_id service_id code n st final h =
    elim (Option-cases (
      drop_credentials env organization_id
        (filter (of_service organization_id service_id) st.connections) st.secrets)) [
          | inl e ↦ absurd (no_result n final (rw (e, expire_connections_for_service) at h))
          | inr (secrets, e) ↦
              final_connections _ n _ final (rw (e, expire_connections_for_service) at h)
        ]
