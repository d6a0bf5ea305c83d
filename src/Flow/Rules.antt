-- ===== src/Flow/Rules.antt =====
-- How a callback can end, as a rule for what holds of every ending.
use authlane.Prelude.{
  ℕ, ◌≡◌, String, true, not, ◌||◌, Option, none, some, filter, any, get_or, is_empty, inl, inr,
  Bool-cases, Option-cases, ◌==◌,
}
use authlane.Prelude.Json.{Fields, end, get, as_string}
use authlane.Outbox.Delivery.{response_ok}
use authlane.OAuth.Endpoints.{parse_oauth_provider_context}
use authlane.Store.Tables.{Connection}
use authlane.Refresh.Job.{expires_in, expiry, new_credentials}
use authlane.Flow.Tables.{OauthTransaction}
use authlane.Flow.Resolution.{falsy}
use authlane.Flow.Client.{Client, client_of, is_located, is_configured, secret_of, answer_of}
use authlane.Flow.Types.{
  FlowState, FlowEnvironment, Outcome, state_of, reply_of, Reply, refused, redirected,
}
use authlane.Flow.Callback.{
  CallbackQuery, is_well_formed, consume, unchanged, fail_connection, rolled_back, committed,
  drop_replaced, commit_callback, handle_tokens, handle_answer, exchange, transaction_connection,
  complete, redeemable, redeemed, redeem, callback,
}

-- The state whose verifier is used up.
abbrev pub spent : {S : Type 0} → OauthTransaction → S → FlowState S → FlowState S
spent t secrets st = record st {
  transactions = filter (λ other. not (other.pkce_secret_id == t.pkce_secret_id)) st.transactions;
  secrets = secrets;
}

module _ {S : Type 0} (env : FlowEnvironment S) (P : Option Reply → FlowState S → Type 0) where
  abbrev pub Holds : Outcome S → Type 0
  Holds o = P (reply_of o) (state_of o)

  -- The endings from the state `st`, from which a throw goes back to `before`.
  pub record Answers (connection : Connection) (service_id : String) (before st : FlowState S)
      : Type 0 where
    pub thrown : P none before
    pub lost : P none (rolled_back env before)
    pub kept : (text : String) → P (some (refused 400 text)) st
    pub failed :
        (text code : String) → P (some (refused 400 text)) (fail_connection env connection code st)
    pub done :
        (secrets : S) (secret_id : String) (expires_at : Option ℕ)
        → any (unchanged connection) (env.meanwhile st.connections) ≡ true
        → P
            (some redirected)
            (record (committed env connection service_id secret_id expires_at st) {
              secrets = secrets;
            })

  commit_callback_rule :
      (connection : Connection) (service_id secret_id : String) (expires_at : Option ℕ)
      (before st : FlowState S) (secrets : S)
      → Answers connection service_id before st
      → Holds (
          commit_callback env connection service_id secret_id expires_at before
            (record st { secrets = secrets }))
  unfolding commit_callback drop_replaced
  commit_callback_rule connection service_id secret_id expires_at before st secrets h =
      elim (Bool-cases (any (unchanged connection) (env.meanwhile st.connections))) [
        | inr e ↦ rw (e, commit_callback) h.lost
        | inl e ↦
            rw (e, commit_callback)
              (elim (Bool-cases (
                is_empty (get_or connection.credential_secret_id "")
                || get_or connection.credential_secret_id "" == secret_id)) [
                  | inl f ↦ rw (f, drop_replaced) (h.done secrets secret_id expires_at e)
                  | inr f ↦
                      rw (f, drop_replaced)
                        (elim (Option-cases (
                          env.store.delete secrets (get_or connection.credential_secret_id "")
                            connection.organization_id "connection_credentials")) [
                              | inl g ↦ rw g h.lost
                              | inr (left, g) ↦ rw g (h.done left secret_id expires_at e)
                            ])
                ])
      ]

  handle_tokens_rule :
      (connection : Connection) (service_id : String) (tokens : Fields) (before st : FlowState S)
      → Answers connection service_id before st
      → Holds (handle_tokens env connection service_id tokens before st)
  unfolding handle_tokens
  handle_tokens_rule connection service_id tokens before st h =
      let access_token = get_or (as_string (get "access_token" tokens)) "" in
      let expires_at = expiry env.later (expires_in (get "expires_in" tokens)) none in
      elim (Bool-cases (is_empty access_token)) [
        | inl e ↦ rw (e, handle_tokens) (h.kept _)
        | inr e ↦
            rw (e, handle_tokens)
              (elim (Option-cases
                (parse_oauth_provider_context env.tokens.urls service_id tokens true)) [
                  | inl f ↦ rw f (h.failed _ _)
                  | inr (context, f) ↦
                      rw f
                        (elim (Option-cases (
                          env.store.put st.secrets connection.organization_id
                            "connection_credentials"
                            (env.stringify (
                              new_credentials env.to_iso end tokens access_token expires_at
                                context)))) [
                                  | inl g ↦ rw g h.thrown
                                  | inr (put, g) ↦ rw g (
                                      commit_callback_rule connection service_id put.0 expires_at
                                        before st put.1 h)
                                ])
                ])
      ]

  handle_answer_rule :
      (connection : Connection) (service_id : String) (answer : Option (ℕ × Fields))
      (before st : FlowState S)
      → Answers connection service_id before st
      → Holds (handle_answer env connection service_id answer before st)
  unfolding handle_answer
  handle_answer_rule connection service_id none before st h = h.failed _ _
  handle_answer_rule connection service_id (some answer) before st h =
      elim (Bool-cases (response_ok answer.0)) [
        | inl e ↦
            rw (e, handle_answer) (handle_tokens_rule connection service_id answer.1 before st h)
        | inr e ↦ rw (e, handle_answer) (h.failed _ _)
      ]

  pub exchange_rule :
      (t : OauthTransaction) (client : Client) (connection : Connection) (code : String)
      (st : FlowState S)
      → ((secrets : S) → Answers connection t.service_id st (spent t secrets st))
      → Holds (exchange env t client connection code st)
  unfolding exchange
  exchange_rule t client connection code st h =
      elim (Option-cases (
        env.store.read st.secrets t.pkce_secret_id connection.organization_id
          "oauth_pkce_verifier")) [
            | inl e ↦ rw (e, exchange) ((h st.secrets).thrown)
            | inr (verifier, e) ↦
                rw (e, exchange)
                  (elim (Option-cases (
                    env.store.delete st.secrets t.pkce_secret_id connection.organization_id
                      "oauth_pkce_verifier")) [
                        | inl f ↦ rw f ((h st.secrets).thrown)
                        | inr (secrets, f) ↦
                            rw f
                              (elim (Option-cases
                                (secret_of env client connection.organization_id secrets)) [
                                  | inl g ↦ rw g ((h st.secrets).thrown)
                                  | inr (secret, g) ↦ rw g (
                                      handle_answer_rule connection t.service_id
                                        (answer_of env t client code verifier secret) st
                                        (spent t secrets st) (h secrets))
                                ])
                      ])
          ]

  -- With the URL of a tenant's server, the rest of `complete`.
  found_rule :
      (t : OauthTransaction) (code : String) (st : FlowState S)
      → is_located env t.organization_id t.service_id ≡ true
      → ((status : ℕ) (text : String) → P (some (refused status text)) st)
      → ((connection : Connection)
          → transaction_connection env t st.connections ≡ some connection
          → (secrets : S) → Answers connection t.service_id st (spent t secrets st))
      → Holds (complete env t code st)
  unfolding complete
  found_rule t code st located refuse proceed =
      let client = client_of env t.organization_id t.service_id in
      elim (Option-cases (transaction_connection env t st.connections)) [
        | inl e ↦ rw (located, e, complete) (refuse _ _)
        | inr (connection, e) ↦
            rw (located, e, complete)
              (elim (Bool-cases (
                falsy client.client_id || not (is_configured env t.organization_id t.service_id))) [
                  | inl f ↦ rw f (refuse _ _)
                  | inr f ↦ rw f (elim (Bool-cases (falsy client.token_url)) [
                    | inl g ↦ rw g (refuse _ _)
                    | inr g ↦
                        rw g (exchange_rule t client connection code st (proceed connection e))
                  ])
                ])
      ]

  pub complete_rule :
      (t : OauthTransaction) (code : String) (st : FlowState S)
      → P none st
      → ((status : ℕ) (text : String) → P (some (refused status text)) st)
      → ((connection : Connection)
          → transaction_connection env t st.connections ≡ some connection
          → (secrets : S) → Answers connection t.service_id st (spent t secrets st))
      → Holds (complete env t code st)
  unfolding complete
  complete_rule t code st thrown refuse proceed =
      elim (Bool-cases (is_located env t.organization_id t.service_id)) [
        | inr e ↦ rw (e, complete) thrown
        | inl e ↦ found_rule t code st e refuse proceed
      ]

  -- The endings of a callback: before its state is consumed, or with the transaction of the state.
  pub callback_rule :
      (query : CallbackQuery) (st : FlowState S)
      → ((text : String) → P (some (refused 400 text)) st)
      → ((t : OauthTransaction)
          → redeemable env query.service_id (get_or query.state "") st.transactions ≡ some t
          → Holds (
              complete env
                (consume env.now t)
                (get_or query.code "")
                (redeemed env query.service_id (get_or query.state "") st)))
      → Holds (callback env query st)
  unfolding callback redeem
  callback_rule query st early late =
      let state = get_or query.state "" in
      elim (Bool-cases (falsy query.error)) [
        | inr e ↦ rw (e, callback) (early _)
        | inl e ↦
            rw (e, callback)
              (elim (Bool-cases (is_well_formed env.demo query)) [
                | inr f ↦ rw f (early _)
                | inl f ↦
                    rw f
                      (elim (Option-cases (redeemable env query.service_id state st.transactions)) [
                        | inl g ↦ rw (g, redeem) (early _)
                        | inr (t, g) ↦ rw (g, redeem) (late t g)
                      ])
              ])
      ]
