-- ===== src/Flow/Own.antt =====
-- A user's state connects that user's connection only.
use authlane.Prelude.{
  ℕ, ◌≡◌, ◌⊎◌, ◌∙◌, ap, inl, inr, sym, String, true, false, some, List, [], ◌∷◌, ◌++◌, find, get_or,
  find-true, find-append, eq_iff, All, All-map, if_some, ◌==◌, arith,
}
use authlane.Store.Tables.{Connection}
use authlane.Store.Rows.{Pointwise}
use authlane.Store.Keyed.{distinct_found, Pointwise-map_All}
use authlane.Flow.Tables.{ConnectSession, OauthTransaction}
use authlane.Flow.Types.{
  FlowState, FlowEnvironment, AuthorizationUrl, state_of, reply_of, authorization,
}
use authlane.Flow.Request.{ConnectRequest, session_of}
use authlane.Flow.ApiKey.{of_user}
use authlane.Flow.Authorize.{new_transaction, authorize}
use authlane.Flow.Callback.{CallbackQuery, is_redeemable, callback}
use authlane.Flow.Binding.{distinct_ids, Exchanged, Redeems, callback-Redeems}
use authlane.Flow.Redirect.{issued}
use authlane.Flow.Issued.{authorize-Issue}

other_hash :
    (service_id hash : String) (now : ℕ) (t : OauthTransaction)
    → (t.state_hash == hash) ≡ false
    → is_redeemable service_id hash now t ≡ false
unfolding is_redeemable
other_hash service_id hash now t h = ground arith

-- The transaction that is found by a hash which no earlier one has.
found_last :
    (service_id hash : String) (now : ℕ) (rows : List OauthTransaction) (new t : OauthTransaction)
    → All (λ r. (r.state_hash == hash) ≡ false) rows
    → find (is_redeemable service_id hash now) (rows ++ new ∷ []) ≡ some t
    → new ≡ t
found_last service_id hash now rows new t fresh h =
    (if_some (is_redeemable service_id hash now new) new t (
      sym (
        find-append (is_redeemable service_id hash now) rows (new ∷ []) (
          All-map (λ r. (r.state_hash == hash) ≡ false)
            (λ r. is_redeemable service_id hash now r ≡ false) (other_hash service_id hash now) rows
            fresh))
      ∙ h)).1

-- A row stays, or is the user's own for the service.
abbrev pub Owns : ℕ → ConnectSession → String → Connection → Connection → Type 0
Owns now session service_id x y =
    (y ≡ x)
    ⊎ ((of_user session.organization_id session.external_user_id service_id x ≡ true)
        × Exchanged now x y)

module _ {S : Type 0} (env again : FlowEnvironment S) (query : CallbackQuery) where
  own_after :
      (session : ConnectSession) (service_id : String) (connection : Connection)
      (pkce_secret_id : String) (secrets : S) (st : FlowState S)
      → let after = issued env session service_id connection pkce_secret_id secrets st in
        find (of_user session.organization_id session.external_user_id service_id) after.connections
          ≡ some connection
        → All (λ t. (t.state_hash == env.hash_api_key env.state) ≡ false) st.transactions
        → again.hash_api_key (get_or query.state "") ≡ env.hash_api_key env.state
        → ((connections : List Connection) → again.meanwhile connections ≡ connections)
        → distinct_ids after.connections ≡ true
        → Pointwise
            (Owns again.later session service_id)
            after.connections
            (state_of (callback again query after)).connections
  own_after session service_id connection pkce_secret_id secrets st asked fresh same quiet d =
      Pointwise-map_All (Redeems again query after) (Owns again.later session service_id)
        (λ x. (x.id == connection.id) ≡ true → x ≡ connection) step after.connections _
        (distinct_found (λ c. c.id) _ after.connections connection d asked)
        (callback-Redeems again query after quiet d)
    where
      after : FlowState S
      after = issued env session service_id connection pkce_secret_id secrets st

      step :
          (x y : Connection)
          → ((x.id == connection.id) ≡ true → x ≡ connection)
          → Redeems again query after x y
          → Owns again.later session service_id x y
      step x y only (inl e) = inl e
      step x y only (inr (t, found, a, b, c, done)) =
          let new = new_transaction env session service_id connection.id pkce_secret_id in
          let e =
            found_last query.service_id (env.hash_api_key env.state) again.now st.transactions new t
              fresh (rw same at found) in
          let own = only ((eq_iff x.id connection.id).1 (a ∙ sym (ap (λ r. r.connection_id) e))) in
          inr (rw own (find-true _ after.connections connection asked), done)

-- A state that was given to a session's user, and that no earlier transaction has, changes only the
-- connection of that user for that service: a callback with it, nobody else writing meanwhile,
-- leaves every other connection as it is.
pub callback-own :
    {S : Type 0} (env again : FlowEnvironment S) (request : ConnectRequest) (query : CallbackQuery)
    (st : FlowState S) (url : AuthorizationUrl)
    → reply_of (authorize env (some request) st) ≡ some (authorization url)
    → All (λ t. (t.state_hash == env.hash_api_key env.state) ≡ false) st.transactions
    → again.hash_api_key (get_or query.state "") ≡ env.hash_api_key env.state
    → ((connections : List Connection) → again.meanwhile connections ≡ connections)
    → distinct_ids (state_of (authorize env (some request) st)).connections ≡ true
    → let after = state_of (authorize env (some request) st) in
      (session : ConnectSession) × (session_of env request st ≡ some session)
      × Pointwise
          (Owns again.later session request.service_id)
          after.connections
          (state_of (callback again query after)).connections
callback-own env again request query st url h fresh same quiet d =
    let i = authorize-Issue env request st url h in
    (
      i.session,
      i.admitted,
      rw i.same_state (
          own_after env again query i.session request.service_id i.connection i.pkce_secret_id
            i.secrets st i.asked fresh same quiet (rw i.same_state at d)),
    )
