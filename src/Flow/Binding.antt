-- ===== src/Flow/Binding.antt =====
-- Which connection a callback may change, and how.
use authlane.Prelude.{
  ℕ, ◌≡◌, ◌⊎◌, refl, ◌∙◌, inl, inr, String, Bool, true, Option, some, List, get_or, and-eq-true,
  find-true, eq_iff, ◌&&◌, ◌==◌, arith,
}
use authlane.Store.Tables.{Connection}
use authlane.Store.Rows.{update_where, Pointwise, Pointwise-refl, has_distinct}
use authlane.Store.Keyed.{distinct_found, update_where-Pointwise_given, Pointwise-map}
use authlane.Flow.Tables.{OauthTransaction}
use authlane.Flow.Types.{FlowState, FlowEnvironment, state_of}
use authlane.Flow.Callback.{
  CallbackQuery, is_redeemable, fail_exchange, connect, consume, unchanged, transaction_connection,
  complete, redeemable, redeemed, callback,
}
use authlane.Flow.Rules.{complete_rule, callback_rule, Answers, spent}

abbrev pub distinct_ids : List Connection → Bool
distinct_ids connections = has_distinct (λ c. c.id) connections

-- How an exchange leaves its connection: failed with a code, or connected with a new credential.
pub data Exchanged (now : ℕ) (x y : Connection) : Type 0 where
  failed : (code : String) → y ≡ fail_exchange code now x.status x → Exchanged now x y
  connected :
      (secret_id : String) (expires_at : Option ℕ)
      → y ≡ connect secret_id now expires_at x
      → Exchanged now x y

-- Another row stays as it is; one that changes is the connection found for the transaction `t`.
abbrev pub ChangedFor :
    {S : Type 0}
    → FlowEnvironment S
    → List Connection
    → OauthTransaction
    → Connection
    → Connection
    → Type 0
ChangedFor env start t x y =
    (y ≡ x) ⊎ ((transaction_connection env t start ≡ some x) × Exchanged env.later x y)

module _ {S : Type 0} (env : FlowEnvironment S)
    (quiet : (connections : List Connection) → env.meanwhile connections ≡ connections) where
  abbrev Bound : List Connection → OauthTransaction → List Connection → Type 0
  Bound start t after = Pointwise (ChangedFor env start t) start after

  same-Bound : (t : OauthTransaction) (start : List Connection) → Bound start t start
  same-Bound t start = Pointwise-refl (ChangedFor env start t) (λ c. inl refl) start

  found-Bound :
      (start : List Connection) (t : OauthTransaction) (connection : Connection)
      (test : Connection → Bool) (set : Connection → Connection)
      → distinct_ids start ≡ true
      → transaction_connection env t start ≡ some connection
      → ((c : Connection) → test c ≡ true → (c.id == connection.id) ≡ true)
      → Exchanged env.later connection (set connection)
      → Bound start t (update_where test set start)
  found-Bound start t connection test set d found own done =
      update_where-Pointwise_given (ChangedFor env start t)
        (λ x. (x.id == connection.id) ≡ true → x ≡ connection) test set (λ c. inl refl)
        (λ c hit same. let e = same (own c hit) in inr (rw e found, rw e done)) start
        (distinct_found (λ c. c.id) _ start connection d found)

  exchange-Answers :
      (t : OauthTransaction) (connection : Connection) (secrets : S) (st : FlowState S)
      → distinct_ids st.connections ≡ true
      → transaction_connection env t st.connections ≡ some connection
      → Answers env
          (λ reply after. Bound st.connections t after.connections)
          connection
          t.service_id
          st
          (spent t secrets st)
  exchange-Answers t connection secrets st d found = record {
    thrown = same-Bound t st.connections;
    lost = rw (quiet st.connections) (same-Bound t st.connections);
    kept = λ text. same-Bound t st.connections;
    failed = λ text code. rw (quiet st.connections) (
        found-Bound st.connections t connection (λ c. c.id == connection.id)
          (fail_exchange code env.later connection.status) d found (λ c hit. hit)
          (failed code refl));
    done = λ left secret_id expires_at e. rw (quiet st.connections) (
        found-Bound st.connections t connection (unchanged connection)
          (connect secret_id env.later expires_at) d found (λ c hit. (and-eq-true _ _ hit).0)
          (connected secret_id expires_at refl));
  }

  complete-Bound :
      (t : OauthTransaction) (code : String) (st : FlowState S)
      → distinct_ids st.connections ≡ true
      → Bound st.connections t (state_of (complete env t code st)).connections
  complete-Bound t code st d =
      complete_rule env (λ reply after. Bound st.connections t after.connections) t code st
        (same-Bound t st.connections) (λ status text. same-Bound t st.connections)
        (λ connection found secrets. exchange-Answers t connection secrets st d found)

module _ {S : Type 0} (env : FlowEnvironment S) where
  -- A row stays, or is the one that the transaction of the callback's state names.
  abbrev pub Redeems : CallbackQuery → FlowState S → Connection → Connection → Type 0
  Redeems query st x y =
      (y ≡ x)
      ⊎ ((t : OauthTransaction) × (redeemable env query.service_id (get_or query.state "")
              st.transactions
            ≡ some t)
          × (x.id ≡ t.connection_id)
          × (x.organization_id ≡ t.organization_id)
          × (x.service_id ≡ query.service_id)
          × Exchanged env.later x y)

  found_service :
      (query : CallbackQuery) (rows : List OauthTransaction) (t : OauthTransaction)
      → redeemable env query.service_id (get_or query.state "") rows ≡ some t
      → t.service_id ≡ query.service_id
  unfolding is_redeemable
  found_service query rows t e =
      (eq_iff t.service_id query.service_id).0
        (and-eq-true _ _ (
          find-true
            (is_redeemable query.service_id (env.hash_api_key (get_or query.state "")) env.now) rows
            t e)).0

  found_connection :
      (t : OauthTransaction) (start : List Connection) (x : Connection)
      → transaction_connection env t start ≡ some x
      → (x.id ≡ t.connection_id)
        × (x.organization_id ≡ t.organization_id)
        × (x.service_id ≡ t.service_id)
  found_connection t start x e =
      let hit =
        find-true
          (λ c.
            c.id == t.connection_id
            && (c.organization_id == t.organization_id && c.service_id == t.service_id))
          start x e in
      ground (
        arith,
        hit,
        eq_iff x.id t.connection_id,
        eq_iff x.organization_id t.organization_id,
        eq_iff x.service_id t.service_id,
      )

  redeemed-Redeems :
      (query : CallbackQuery) (st : FlowState S) (t : OauthTransaction)
      → redeemable env query.service_id (get_or query.state "") st.transactions ≡ some t
      → (x y : Connection) → ChangedFor env st.connections (consume env.now t) x y
      → Redeems query st x y
  redeemed-Redeems query st t e x y (inl same) = inl same
  redeemed-Redeems query st t e x y (inr (found, done)) =
      let f = found_connection (consume env.now t) st.connections x found in
      inr (t, e, f.0, f.1, f.2 ∙ found_service query st.transactions t e, done)

-- Where nobody else writes meanwhile and the identifiers of the connections are distinct, a callback
-- changes at most one connection: the one that the transaction of its state names, in the
-- transaction's organization and for the callback's service, and only while that transaction is
-- neither consumed nor expired. It leaves it failed, or connected with a new credential.
pub callback-Redeems :
    {S : Type 0} (env : FlowEnvironment S) (query : CallbackQuery) (st : FlowState S)
    → ((connections : List Connection) → env.meanwhile connections ≡ connections)
    → distinct_ids st.connections ≡ true
    → Pointwise (Redeems env query st) st.connections (state_of (callback env query st)).connections
callback-Redeems env query st quiet d =
    callback_rule env
      (λ reply after. Pointwise (Redeems env query st) st.connections after.connections) query st
      (λ text. Pointwise-refl (Redeems env query st) (λ c. inl refl) st.connections)
      (λ t e.
        Pointwise-map (ChangedFor env st.connections (consume env.now t)) (Redeems env query st)
          (redeemed-Redeems env query st t e) st.connections _
          (complete-Bound env quiet (consume env.now t) (get_or query.code "")
            (redeemed env query.service_id (get_or query.state "") st) d))
