-- ===== src/Flow/Callback.antt =====
-- GET /oauth/:serviceId/callback of oauth.ts: the one use of a state, the exchange of the code, and
-- the connection's new credentials. The job and the discovery that may follow are not part of it.
use authlane.Prelude.{
  ℕ, ◌+◌, String, Bool, true, not, ◌&&◌, ◌||◌, Option, none, some, List, [], ◌∷◌, ◌++◌, any, find,
  filter, ltb, eqb, get_or, is_some, is_empty, units, if◌then◌else◌, ◌==◌,
}
use authlane.Prelude.Json.{Json, str, obj, Fields, field, end, get, as_string}
use authlane.Store.Tables.{ConnectionStatus, Connection, new_event}
use authlane.Store.Rows.{update_where}
use authlane.Outbox.Delivery.{response_ok}
use authlane.Outbox.Expiry.{is_connected}
use authlane.OAuth.Endpoints.{parse_oauth_provider_context}
use authlane.Connect.Session.{is_valid_service_id}
use authlane.Refresh.Job.{expires_in, expiry, new_credentials}
use authlane.Flow.Tables.{OauthTransaction}
use authlane.Flow.Settings.{is_connectable_service_id}
use authlane.Flow.Resolution.{falsy}
use authlane.Flow.Client.{Client, client_of, is_located, is_configured, secret_of, answer_of}
use authlane.Flow.Types.{FlowState, FlowEnvironment, Outcome, answered, threw, refused, redirected}

pub record CallbackQuery : Type 0 where
  pub service_id : String
  pub code : Option String
  pub state : Option String
  pub error : Option String

unfoldable pub is_well_formed : Bool → CallbackQuery → Bool
unfolding is_valid_service_id is_connectable_service_id
is_well_formed demo query =
    let state = get_or query.state "" in
    not (is_empty (get_or query.code ""))
    && (not (is_empty state)
        && (not (ltb 512 (units state))
            && (is_valid_service_id query.service_id
                && is_connectable_service_id demo query.service_id)))

-- The condition of the update that consumes a state.
unfoldable pub is_redeemable : String → String → ℕ → OauthTransaction → Bool
is_redeemable service_id state_hash now t =
    t.service_id == service_id
    && (t.state_hash == state_hash && (not (is_some t.consumed_at) && ltb now t.expires_at))

abbrev pub consume : ℕ → OauthTransaction → OauthTransaction
consume now t = record t { consumed_at = some now }

-- What a connection becomes when the exchange fails: a connected one stays connected.
abbrev pub fail_exchange : String → ℕ → ConnectionStatus → Connection → Connection
fail_exchange code now status c = record c {
  status = if is_connected status then ConnectionStatus.connected else ConnectionStatus.error;
  last_error_code = some code;
  updated_at = now;
}

abbrev pub connect : String → ℕ → Option ℕ → Connection → Connection
connect secret_id now expires_at c = record c {
  status = ConnectionStatus.connected;
  credential_secret_id = some secret_id;
  connected_at = some now;
  expires_at = expires_at;
  last_error_code = none;
  metadata = obj end;
  version = c.version + 1;
  updated_at = now;
}

-- The condition of the final update.
abbrev pub unchanged : Connection → Connection → Bool
unchanged connection c = c.id == connection.id && eqb c.version connection.version

module _ {S : Type 0} (env : FlowEnvironment S) where
  abbrev pub fail_connection : Connection → String → FlowState S → FlowState S
  fail_connection connection code st = record st {
    connections =
        update_where (λ c. c.id == connection.id) (fail_exchange code env.later connection.status)
          (env.meanwhile st.connections);
  }

  abbrev connected_payload : Connection → String → Json
  connected_payload connection service_id = obj (
      field "externalUserId" (str connection.external_user_id)
        (field "serviceId" (str service_id) (field "connectionId" (str connection.id) end)))

  abbrev pub committed : Connection → String → String → Option ℕ → FlowState S → FlowState S
  committed connection service_id secret_id expires_at st = record st {
    connections =
        update_where (unchanged connection) (connect secret_id env.later expires_at)
          (env.meanwhile st.connections);
    events =
        st.events
        ++ new_event env.event_id env.later connection.organization_id "connection.connected"
            (connected_payload connection service_id)
          ∷ [];
  }

  -- The credential that was replaced is deleted.
  unfoldable pub drop_replaced : Connection → String → FlowState S → Option (FlowState S)
  drop_replaced connection secret_id st =
      let old = get_or connection.credential_secret_id "" in
      if is_empty old || old == secret_id
      then some st
      else elim (env.store.delete st.secrets old connection.organization_id
          "connection_credentials") [
            | none ↦ none
            | some secrets ↦ some (record st { secrets = secrets })
          ]

  -- `before` is the state that a throw goes back to; what others wrote meanwhile stays.
  abbrev pub rolled_back : FlowState S → FlowState S
  rolled_back before = record before { connections = env.meanwhile before.connections }

  unfoldable pub commit_callback :
      Connection → String → String → Option ℕ → FlowState S → FlowState S → Outcome S
  unfolding drop_replaced
  commit_callback connection service_id secret_id expires_at before st =
      if any (unchanged connection) (env.meanwhile st.connections)
      then elim (drop_replaced connection secret_id
          (committed connection service_id secret_id expires_at st)) [
            | none ↦ threw (rolled_back before)
            | some done ↦ answered redirected done
          ]
      else threw (rolled_back before)

  unfoldable pub handle_tokens :
      Connection → String → Fields → FlowState S → FlowState S → Outcome S
  unfolding commit_callback parse_oauth_provider_context new_credentials get
  handle_tokens connection service_id tokens before st =
      let access_token = get_or (as_string (get "access_token" tokens)) "" in
      let expires_at = expiry env.later (expires_in (get "expires_in" tokens)) none in
      if is_empty access_token
      then answered (refused 400 "Provider did not return an access token") st
      else elim (parse_oauth_provider_context env.tokens.urls service_id tokens true) [
        | none ↦
            answered (refused 400 "Provider returned invalid routing metadata")
              (fail_connection connection "OAUTH_PROVIDER_CONTEXT_INVALID" st)
        | some context ↦
            elim (env.store.put st.secrets connection.organization_id "connection_credentials" (
              env.stringify
                (new_credentials env.to_iso end tokens access_token expires_at context))) [
                  | none ↦ threw before
                  | some put ↦
                      commit_callback connection service_id put.0 expires_at before
                        (record st { secrets = put.1 })
                ]
      ]

  unfoldable pub handle_answer :
      Connection → String → Option (ℕ × Fields) → FlowState S → FlowState S → Outcome S
  unfolding handle_tokens
  handle_answer connection service_id none before st =
      answered (refused 400 "Provider rejected the token exchange")
        (fail_connection connection "OAUTH_TOKEN_EXCHANGE_FAILED" st)
  handle_answer connection service_id (some answer) before st =
      if not (response_ok answer.0)
      then answered (refused 400 "Provider rejected the token exchange")
          (fail_connection connection "OAUTH_TOKEN_EXCHANGE_FAILED" st)
      else handle_tokens connection service_id answer.1 before st

  -- The verifier is read and deleted, with the transaction that refers to it.
  unfoldable pub exchange :
      OauthTransaction → Client → Connection → String → FlowState S → Outcome S
  unfolding handle_answer secret_of
  exchange t client connection code st =
      elim (env.store.read st.secrets t.pkce_secret_id connection.organization_id
        "oauth_pkce_verifier") [
          | none ↦ threw st
          | some verifier ↦
              elim (env.store.delete st.secrets t.pkce_secret_id connection.organization_id
                "oauth_pkce_verifier") [
                  | none ↦ threw st
                  | some secrets ↦ elim (secret_of env client connection.organization_id secrets) [
                    | none ↦ threw st
                    | some secret ↦
                        handle_answer connection t.service_id
                          (answer_of env t client code verifier secret) st
                          (record st {
                            transactions =
                                filter (λ other. not (other.pkce_secret_id == t.pkce_secret_id))
                                  st.transactions;
                            secrets = secrets;
                          })
                  ]
                ]
        ]

  abbrev pub transaction_connection : OauthTransaction → List Connection → Option Connection
  transaction_connection t connections =
      find
        (λ c.
          c.id == t.connection_id
          && (c.organization_id == t.organization_id && c.service_id == t.service_id))
        connections

  -- The part under the tenant's context; the transaction's service is the request's.
  unfoldable pub complete : OauthTransaction → String → FlowState S → Outcome S
  unfolding exchange client_of is_located is_configured
  complete t code st =
      let client = client_of env t.organization_id t.service_id in
      if not (is_located env t.organization_id t.service_id)
      then threw st
      else elim (transaction_connection t st.connections) [
        | none ↦ answered (refused 409 "OAuth provider is no longer configured") st
        | some connection ↦
            if falsy client.client_id || not (is_configured env t.organization_id t.service_id)
            then answered (refused 409 "OAuth provider is no longer configured") st
            else if falsy client.token_url
            then answered (refused 400 "OAuth flow metadata is incomplete") st
            else exchange t client connection code st
      ]

  abbrev pub redeemable : String → String → List OauthTransaction → Option OauthTransaction
  redeemable service_id state transactions =
      find (is_redeemable service_id (env.hash_api_key state) env.now) transactions

  abbrev pub redeemed : String → String → FlowState S → FlowState S
  redeemed service_id state st = record st {
    transactions =
        update_where (is_redeemable service_id (env.hash_api_key state) env.now) (consume env.now)
          st.transactions;
  }

  -- The states of the answer are those after the consumption, which is a transaction of its own.
  unfoldable pub redeem : String → String → String → FlowState S → Outcome S
  unfolding complete is_redeemable
  redeem service_id code state st = elim (redeemable service_id state st.transactions) [
    | none ↦ answered (refused 400 "Unknown, expired, or consumed state") st
    | some t ↦ complete (consume env.now t) code (redeemed service_id state st)
  ]

  unfoldable pub callback : CallbackQuery → FlowState S → Outcome S
  unfolding redeem is_well_formed
  callback query st =
      if not (falsy query.error)
      then answered (refused 400 "Provider denied authorization") st
      else if not (is_well_formed env.demo query)
      then answered (refused 400 "Missing OAuth code or state") st
      else redeem query.service_id (get_or query.code "") (get_or query.state "") st
