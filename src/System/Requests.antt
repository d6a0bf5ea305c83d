-- ===== src/System/Requests.antt =====
-- The moves of the requests that insert or delete connections.
use authlane.Prelude.{
  ℕ, ◌≡◌, ◌⊎◌, ap, refl, sym, subst, inl, inr, String, true, not, ◌==◌, eq_iff, and-eq-true, Option,
  none, some, List, find, filter, is_some, Bool-cases,
}
use authlane.Store.Tables.{ConnectionStatus, Connection}
use authlane.Store.Rows.{update_where, update_where-Pointwise}
use authlane.Flow.Types.{FlowState, FlowEnvironment, state_of}
use authlane.Flow.Request.{ConnectRequest}
use authlane.Flow.ApiKey.{new_connection, upsert_connection, reconnect, connect_api_key}
use authlane.Flow.Authorize.{ask_again, authorize}
use authlane.Flow.Disconnect.{disconnect, of_service, invalidate}
use authlane.System.Life.{
  User, absent, life_of, owns, life, Operation, asks, connects_key, leaves, loses, Move,
}
use authlane.System.Upsert.{
  key_of, owns_self, owns_eq, changed, find-upsert_own, find-upsert_other, find-filter_owner,
}
use authlane.System.Moves.{Pointwise-Move}
use authlane.System.Frames.{
  asker, key_asker, authorize_frame, connect_api_key_frame, disconnect_frame,
}

-- An insertion, or a change of the row with its key.
upsert-Move :
    (user : User) (op : Operation) (row : Connection) (set : Connection → Connection)
    → ((user : User) (x : Connection) → owns user (set x) ≡ owns user x)
    → (user ≡ key_of row → Move user op absent (life_of (some row)))
    → (user ≡ key_of row
        → (x : Connection) → Move user op (life_of (some x)) (life_of (some (set x))))
    → (connections : List Connection)
    → Move user op (life user connections) (life user (upsert_connection row set connections))
upsert-Move user op row set same fresh step connections = elim (Bool-cases (owns user row)) [
  | inr e ↦ Move.stay (ap life_of (find-upsert_other user row set same e connections))
  | inl e ↦
      let k = owns_eq user (key_of row) row e (owns_self row) in
      subst
        (λ u. Move user op (life u connections) (life u (upsert_connection row set connections)))
        (sym k)
        (rw (find-upsert_own row set same connections)
          (own (fresh k) (step k) (find (owns (key_of row)) connections)))
]
  where
    own :
        Move user op absent (life_of (some row))
        → ((x : Connection) → Move user op (life_of (some x)) (life_of (some (set x))))
        → (o : Option Connection) → Move user op (life_of o) (life_of (changed set row o))
    own new again none = new
    own new again (some x) = again x

filter-Move :
    (user other : User) (connections : List Connection)
    → Move user
        (leaves (some other))
        (life user connections)
        (life user (filter (λ c. not (owns other c)) connections))
filter-Move user other connections = elim (find-filter_owner user other connections) [
  | inl e ↦ Move.leave (rw e.0 refl) (ap life_of e.1)
  | inr e ↦ Move.stay (ap life_of e)
]

module _ {S : Type 0} (env : FlowEnvironment S) (user : User) where
  pub authorize-Move :
      (request : Option ConnectRequest) (st : FlowState S)
      → Move user
          (asks (asker env request st))
          (life user st.connections)
          (life user (state_of (authorize env request st)).connections)
  authorize-Move request st =
      let who = asker env request st in
      authorize_frame env who
        (λ connections after. Move user (asks who) (life user connections) (life user after))
        (record {
          same = λ connections. Move.stay refl;
          asked = λ session service_id connections w.
              upsert-Move user (asks who)
                (new_connection env.new_id session service_id ConnectionStatus.pending none none
                  env.later)
                (ask_again env.later) (λ u x. refl)
                (λ k. Move.ask env.new_id (rw (w, k) refl) refl refl) (λ k x. Move.stay refl)
                connections;
        })
        request st refl

  pub connect_api_key-Move :
      (request : Option (ConnectRequest × String)) (st : FlowState S)
      → Move user
          (connects_key (key_asker env request st))
          (life user st.connections)
          (life user (state_of (connect_api_key env request st)).connections)
  connect_api_key-Move request st =
      let who = key_asker env request st in
      connect_api_key_frame env who
        (λ connections after.
          Move user (connects_key who) (life user connections) (life user after))
        (record {
          same = λ connections. Move.stay refl;
          keyed = λ session service_id secret_id connections w.
              upsert-Move user (connects_key who)
                (new_connection env.new_id session service_id ConnectionStatus.connected
                  (some secret_id) (some env.later) env.later)
                (reconnect secret_id env.later) (λ u x. refl)
                (λ k. Move.begin env.new_id (rw (w, k) refl) refl refl)
                (λ k x.
                  Move.replace x.id x.status (is_some x.credential_secret_id) (rw (w, k) refl) refl
                    refl)
                connections;
        })
        request st refl

  pub disconnect-Move :
      (request : ConnectRequest) (st : FlowState S)
      → Move user
          (leaves (asker env (some request) st))
          (life user st.connections)
          (life user (state_of (disconnect env request st)).connections)
  disconnect-Move request st =
      let who = asker env (some request) st in
      disconnect_frame env who
        (λ connections after. Move user (leaves who) (life user connections) (life user after))
        (record {
          same = λ connections. Move.stay refl;
          removed = λ owner connections w. rw w (filter-Move user owner connections);
        })
        request st refl

-- A row is left, or is of the service and loses its credentials.
abbrev Invalidates : String → String → String → ℕ → Connection → Connection → Type 0
Invalidates organization_id service_id code now x y =
    (y ≡ x) ⊎ ((of_service organization_id service_id x ≡ true) × (y ≡ invalidate code now x))

module _ (user : User) (organization_id service_id code : String) (now : ℕ) where
  Invalidates-Move :
      (x y : Connection)
      → owns user x ≡ true
      → Invalidates organization_id service_id code now x y
      → Move user (loses organization_id service_id) (life_of (some x)) (life_of (some y))
  Invalidates-Move x y k (inl e) = Move.stay (rw e refl)
  Invalidates-Move x y k (inr (hit, e)) =
      let tenant = and-eq-true (x.organization_id == user.organization_id) _ k in
      let place = and-eq-true (x.organization_id == organization_id) _ hit in
      Move.lose x.id x.status (is_some x.credential_secret_id)
        (rw
          (
            sym ((eq_iff x.organization_id organization_id).0 place.0),
            sym ((eq_iff x.service_id service_id).0 place.1),
            (eq_iff x.organization_id user.organization_id).0 tenant.0,
            (eq_iff x.service_id user.service_id).0
                (and-eq-true (x.external_user_id == user.external_user_id) _ tenant.1).1,
          )
          refl)
        refl (rw e refl)

  Invalidates-owns :
      (x y : Connection)
      → Invalidates organization_id service_id code now x y
      → owns user y ≡ owns user x
  Invalidates-owns x y (inl e) = rw e refl
  Invalidates-owns x y (inr (hit, e)) = rw e refl

  pub invalidate-Move :
      (connections : List Connection)
      → Move user (loses organization_id service_id) (life user connections) (
          life user (
            update_where (of_service organization_id service_id) (invalidate code now) connections))
  invalidate-Move connections =
      let changes = Invalidates organization_id service_id code now in
      Pointwise-Move user (loses organization_id service_id) changes Invalidates-owns
        Invalidates-Move connections _
        (update_where-Pointwise changes (of_service organization_id service_id)
          (invalidate code now) (λ c. inl refl) (λ c hit. inr (hit, refl)) connections)
