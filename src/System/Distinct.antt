-- ===== src/System/Distinct.antt =====
-- Every operation keeps the identifiers of the connections distinct.
use authlane.Prelude.{
  ℕ, ◌≡◌, refl, ap, sym, inl, inr, String, Bool, true, not, Option, none, some, List, any,
  Bool-cases,
}
use authlane.Store.Tables.{ConnectionStatus, Connection}
use authlane.Store.Rows.{update_where, update_where-Pointwise}
use authlane.Store.Keyed.{Pointwise-distinct, filter-distinct, append-distinct}
use authlane.Outbox.Transitions.{Expires, mark_expired_connections-Expires}
use authlane.Refresh.Changes.{Refreshes, refresh_token-Refreshes}
use authlane.Flow.Types.{FlowState, FlowEnvironment}
use authlane.Flow.ApiKey.{of_user, new_connection, upsert_connection, reconnect}
use authlane.Flow.Authorize.{ask_again}
use authlane.Flow.Callback.{CallbackQuery}
use authlane.Flow.Binding.{distinct_ids, Exchanged, Redeems, callback-Redeems}
use authlane.Flow.Disconnect.{of_service, invalidate}
use authlane.System.Life.{User, owns, Operation}
use authlane.System.Frames.{
  AskedFor, Keyed, asker, key_asker, authorize_frame, connect_api_key_frame, disconnect_frame,
}
use authlane.System.Steps.{
  is_fresh, Step, authorizes, uses_key, redeems, disconnects, invalidates, expires, renews,
  invalidated,
}

update-distinct :
    (test : Connection → Bool) (set : Connection → Connection)
    → ((c : Connection) → (set c).id ≡ c.id)
    → (connections : List Connection) → distinct_ids connections ≡ true
    → distinct_ids (update_where test set connections) ≡ true
update-distinct test set same connections =
    Pointwise-distinct (λ c. c.id) (λ x y. y.id ≡ x.id) (λ x y e. e) connections _
      (update_where-Pointwise (λ x y. y.id ≡ x.id) test set (λ c. refl) (λ c hit. same c)
        connections)

upsert-distinct :
    (row : Connection) (set : Connection → Connection)
    → ((c : Connection) → (set c).id ≡ c.id)
    → (connections : List Connection) → is_fresh row.id connections ≡ true
    → distinct_ids connections ≡ true
    → distinct_ids (upsert_connection row set connections) ≡ true
unfolding upsert_connection
upsert-distinct row set same connections fresh d =
    let test = of_user row.organization_id row.external_user_id row.service_id in
    elim (Bool-cases (any test connections)) [
      | inl e ↦ rw (e, upsert_connection) (update-distinct test set same connections d)
      | inr e ↦ rw (e, upsert_connection) (append-distinct (λ c. c.id) connections row d fresh)
    ]

abbrev KeepsDistinct : String → List Connection → List Connection → Type 0
KeepsDistinct id connections after =
    is_fresh id connections ≡ true → distinct_ids connections ≡ true → distinct_ids after ≡ true

asked_distinct :
    {S : Type 0} (env : FlowEnvironment S) (who : Option User)
    → AskedFor env who (KeepsDistinct env.new_id)
asked_distinct env who = record {
  same = λ connections fresh d. d;
  asked = λ session service_id connections w.
      upsert-distinct
        (new_connection env.new_id session service_id ConnectionStatus.pending none none env.later)
        (ask_again env.later) (λ c. refl) connections;
}

keyed_distinct :
    {S : Type 0} (env : FlowEnvironment S) (who : Option User)
    → Keyed env who (KeepsDistinct env.new_id)
keyed_distinct env who = record {
  same = λ connections fresh d. d;
  keyed = λ session service_id secret_id connections w.
      upsert-distinct
        (new_connection env.new_id session service_id ConnectionStatus.connected (some secret_id)
          (some env.later) env.later)
        (reconnect secret_id env.later) (λ c. refl) connections;
}

Expires-id : (now : ℕ) (x y : Connection) → Expires now x y → y.id ≡ x.id
Expires-id now x y (inl e) = ap (λ r. r.id) e
Expires-id now x y (inr (c, e)) = ap (λ r. r.id) e

Exchanged-id : (now : ℕ) (x y : Connection) → Exchanged now x y → y.id ≡ x.id
Exchanged-id now x y (Exchanged.failed code e) = rw e refl
Exchanged-id now x y (Exchanged.connected secret_id expires_at e) = rw e refl

Redeems-id :
    {S : Type 0} (env : FlowEnvironment S) (query : CallbackQuery) (st : FlowState S)
    (x y : Connection)
    → Redeems env query st x y
    → y.id ≡ x.id
Redeems-id env query st x y (inl e) = rw e refl
Redeems-id env query st x y (inr (t, a, b, c, d, e)) = Exchanged-id env.later x y e

pub Step-distinct :
    {S : Type 0} (op : Operation) (st : FlowState S) (after : List Connection)
    → Step op st after
    → distinct_ids st.connections ≡ true
    → distinct_ids after ≡ true
Step-distinct op st after (authorizes env request fresh e o) d = rw (sym e) (
    authorize_frame env (asker env request st) (KeepsDistinct env.new_id)
      (asked_distinct env (asker env request st)) request st refl fresh d)
Step-distinct op st after (uses_key env request fresh e o) d = rw (sym e) (
    connect_api_key_frame env (key_asker env request st) (KeepsDistinct env.new_id)
      (keyed_distinct env (key_asker env request st)) request st refl fresh d)
Step-distinct op st after (redeems env query quiet e o) d = rw (sym e) (
    Pointwise-distinct (λ c. c.id) (Redeems env query st) (Redeems-id env query st) st.connections _
      (callback-Redeems env query st quiet d) d)
Step-distinct op st after (disconnects env request e o) d = rw (sym e) (
    disconnect_frame env (asker env (some request) st)
      (λ connections final. distinct_ids connections ≡ true → distinct_ids final ≡ true)
      (record {
        same = λ connections k. k;
        removed = λ owner connections w.
            filter-distinct (λ c. c.id) (λ c. not (owns owner c)) connections;
      })
      request st refl d)
Step-distinct op st after (invalidates env organization_id service_id code n final h e o) d =
    rw (sym e, sym (invalidated env organization_id service_id code n st final h))
      (update-distinct (of_service organization_id service_id) (invalidate code env.later)
        (λ c. refl) st.connections d)
Step-distinct op st after (expires supply now e o) d = rw (sym e) (
    Pointwise-distinct (λ c. c.id) (Expires now) (Expires-id now) st.connections _
      (mark_expired_connections-Expires supply now st.connections st.events) d)
Step-distinct op st after (renews env data' quiet calm e o) d = rw (sym e) (
    Pointwise-distinct (λ c. c.id) (Refreshes data'.connection_id _) (λ x y h. h.same_id)
      st.connections _ (refresh_token-Refreshes env data' _ quiet calm) d)
