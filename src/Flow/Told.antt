-- ===== src/Flow/Told.antt =====
-- What a callback tells the outbox.
use authlane.Prelude.{
  ℕ, ◌≡◌, ◌⊎◌, refl, inl, inr, String, Option, none, some, List, [], ◌∷◌, ◌++◌, get_or, find-true,
  and-eq-true, eq_iff, ◌&&◌, ◌==◌, arith,
}
use authlane.Prelude.Json.{str, obj, field, end}
use authlane.Store.Tables.{EventStatus, Connection, OutboxEvent}
use authlane.Flow.Tables.{OauthTransaction}
use authlane.Flow.Types.{FlowState, FlowEnvironment, state_of, reply_of, Reply, refused, redirected}
use authlane.Flow.Callback.{
  CallbackQuery, consume, transaction_connection, redeemable, redeemed, callback,
}
use authlane.Flow.Rules.{Answers, complete_rule, callback_rule, spent}

-- The event tells the organization of the transaction that its connection was connected, and names
-- the connection's user.
pub record Announces (t : OauthTransaction) (connection : Connection) (event : OutboxEvent)
    : Type 0 where
  pub kind : event.event_type ≡ "connection.connected"
  pub tenant : event.organization_id ≡ t.organization_id
  pub named :
      event.payload
      ≡ obj (
          field "externalUserId"
            (str connection.external_user_id)
            (field "serviceId" (str t.service_id) (field "connectionId" (str t.connection_id) end)))
  pub waiting : (event.status ≡ EventStatus.pending) × (event.attempts ≡ 0)

-- Either the callback redirects and has added one event about the connection of the transaction that
-- its state redeems, or it has added none.
abbrev pub Tells :
    {S : Type 0}
    → FlowEnvironment S
    → CallbackQuery
    → FlowState S
    → Option Reply
    → List OutboxEvent
    → Type 0
Tells env query st reply final =
    ((reply ≡ some redirected)
      × (t : OauthTransaction) × (connection : Connection) × (event : OutboxEvent) × (redeemable env
            query.service_id (get_or query.state "") st.transactions
          ≡ some t)
      × (transaction_connection env t st.connections ≡ some connection)
      × Announces t connection event
      × (final ≡ st.events ++ event ∷ []))
    ⊎ ((reply ≡ some redirected → ⊥) × (final ≡ st.events))

not_redirected : (status : ℕ) (text : String) → some (refused status text) ≡ some redirected → ⊥
not_redirected status text h = ground arith

no_reply : ◌≡◌ {A = Option Reply} none (some redirected) → ⊥
no_reply h = ground arith

module _ {S : Type 0} (env : FlowEnvironment S) where
  -- The row that is found for a transaction is the one it names.
  named_connection :
      (t : OauthTransaction) (connection : Connection) (connections : List Connection)
      → transaction_connection env t connections ≡ some connection
      → (connection.id ≡ t.connection_id) × (connection.organization_id ≡ t.organization_id)
  named_connection t connection connections found =
      let hit =
        find-true
          (λ c.
            c.id == t.connection_id
            && (c.organization_id == t.organization_id && c.service_id == t.service_id))
          connections connection found in
      let rest = and-eq-true _ _ hit in
      (
        (eq_iff connection.id t.connection_id).0 rest.0,
        (eq_iff connection.organization_id t.organization_id).0 (and-eq-true _ _ rest.1).0,
      )

  ending_events :
      (query : CallbackQuery) (st : FlowState S) (t : OauthTransaction) (connection : Connection)
      (secrets : S)
      → redeemable env query.service_id (get_or query.state "") st.transactions ≡ some t
      → transaction_connection env t st.connections ≡ some connection
      → let after = redeemed env query.service_id (get_or query.state "") st in
        Answers env
          (λ reply final. Tells env query st reply final.events)
          connection
          t.service_id
          after
          (spent (consume env.now t) secrets after)
  ending_events query st t connection secrets e found = record {
    thrown = inr (no_reply, refl);
    lost = inr (no_reply, refl);
    kept = λ text. inr (not_redirected 400 text, refl);
    failed = λ text code. inr (not_redirected 400 text, refl);
    done = λ left secret_id expires_at h.
        let same = named_connection t connection st.connections found in
        inl (
          refl,
          t,
          connection,
          _,
          e,
          found,
          record { kind = refl; tenant = same.1; named = rw (same.0) refl; waiting = (refl, refl) },
          refl,
        );
  }

-- A callback that redirects adds one event: that the connection of the transaction its state
-- redeems was connected, to the organization of that transaction. Any other, one that throws
-- included, adds none.
pub callback-Tells :
    {S : Type 0} (env : FlowEnvironment S) (query : CallbackQuery) (st : FlowState S)
    → let o = callback env query st in Tells env query st (reply_of o) (state_of o).events
callback-Tells env query st =
    callback_rule env (λ reply final. Tells env query st reply final.events) query st
      (λ text. inr (not_redirected 400 text, refl))
      (λ t e.
        complete_rule env (λ reply final. Tells env query st reply final.events) (consume env.now t)
          (get_or query.code "") (redeemed env query.service_id (get_or query.state "") st)
          (inr (no_reply, refl)) (λ status text. inr (not_redirected status text, refl))
          (λ connection found secrets. ending_events env query st t connection secrets e found))
