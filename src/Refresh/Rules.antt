-- ===== src/Refresh/Rules.antt =====
-- How a run can end, as a rule for what holds of every ending.
use authlane.Prelude.{
  ℕ, String, ◌≡◌, inl, inr, true, false, Option, none, some, get_or, is_empty, List, any,
  Bool-cases, Option-cases,
}
use authlane.Prelude.Json.{Fields, get, as_string}
use authlane.Outbox.Delivery.{response_ok}
use authlane.Refresh.Client.{client_secret, token_url}
use authlane.Store.Tables.{Connection, OutboxEvent}
use authlane.OAuth.Endpoints.{parse_oauth_provider_context}
use authlane.Refresh.Types.{
  TokenRefreshData, TokenRefreshResult, RefreshEnvironment, RefreshState, Ending,
}
use authlane.Refresh.Lease.{put_error_state, permanent, transient, can_commit}
use authlane.Refresh.Job.{
  commit_state, lost_state, done_result, commit_refresh, handle_tokens, handle_response,
  request_tokens, use_credentials, refresh_row, caught, full, provider_answer, read_credentials,
  expiry, expires_in, new_credentials, is_transient_status,
}

module _ {S : Type 0} (P : TokenRefreshResult → List Connection → List OutboxEvent → Type 0)
    (env : RefreshEnvironment S) (data' : TokenRefreshData) (row : Connection) where
  -- What has to hold of the ways to end, from the tables of `st`.
  pub record Endings (connections : List Connection) (events : List OutboxEvent) : Type 0 where
    pub postponed : (error : String) → P (transient error) connections events
    pub failed :
        (secrets : S) (error code : String)
        → let st =
            put_error_state env row code
              (record { connections = connections; events = events; secrets = secrets }) in
          P (permanent error) st.connections st.events
    pub committed :
        (secrets : S) (new_id : String) (expires_at : Option ℕ)
        → any (can_commit row env.lock_token) (env.meanwhile connections) ≡ true
        → let st =
            commit_state env data' row new_id expires_at
              (record { connections = connections; events = events; secrets = secrets }) in
          P (transient "Token refresh failed") st.connections st.events
          × ((seconds : Option ℕ)
              → P (done_result env data' row seconds expires_at) st.connections st.events)
    pub lost :
        any (can_commit row env.lock_token) (env.meanwhile connections) ≡ false
        → P (transient "Token refresh failed") (env.meanwhile connections) events

  abbrev Good : Ending S → Type 0
  Good e = let (result, st) = caught e in P result st.connections st.events

  commit_refresh_rule :
      (old_id new_id : String) (seconds expires_at : Option ℕ) (st : RefreshState S)
      → Endings st.connections st.events
      → Good (commit_refresh env data' row old_id new_id seconds expires_at st)
  unfolding commit_refresh
  commit_refresh_rule old_id new_id seconds expires_at st h =
      elim (Bool-cases (any (can_commit row env.lock_token) (env.meanwhile st.connections))) [
        | inl e ↦
            let c = h.committed st.secrets new_id expires_at e in
            rw (e, commit_refresh)
              (elim (Option-cases
                (env.store.delete st.secrets old_id row.organization_id "connection_credentials")) [
                  | inl d ↦ rw d (c.0)
                  | inr (secrets, d) ↦ rw d (c.1 seconds)
                ])
        | inr e ↦
            rw (e, commit_refresh)
              (elim (Option-cases (
                env.store.delete (lost_state env data' row st).secrets new_id row.organization_id
                  "connection_credentials")) [
                    | inl d ↦ rw d (h.lost e)
                    | inr (secrets, d) ↦ rw d (h.lost e)
                  ])
      ]

  handle_tokens_rule :
      (old_id : String) (credentials tokens : Fields) (st : RefreshState S)
      → Endings st.connections st.events
      → Good (handle_tokens env data' row old_id credentials tokens st)
  unfolding handle_tokens
  handle_tokens_rule old_id credentials tokens st h =
      let access_token = get_or (as_string (get "access_token" tokens)) "" in
      let expires_at = expiry env.later (expires_in (get "expires_in" tokens)) row.expires_at in
      elim (Bool-cases (is_empty access_token)) [
        | inl e ↦ rw (e, handle_tokens) (h.failed st.secrets _ _)
        | inr e ↦
            rw (e, handle_tokens)
              (elim (Option-cases
                (parse_oauth_provider_context env.tokens.urls data'.service_id tokens false)) [
                  | inl f ↦ rw f (h.failed st.secrets _ _)
                  | inr (context, f) ↦
                      rw f
                        (elim (Option-cases (
                          env.store.put st.secrets row.organization_id "connection_credentials" (
                            env.stringify (
                              new_credentials env.to_iso credentials tokens access_token expires_at
                                context)))) [
                                  | inl g ↦ rw g (h.postponed _)
                                  | inr (put, g) ↦ rw g (
                                      commit_refresh_rule old_id put.0
                                        (expires_in (get "expires_in" tokens)) expires_at
                                        (record st { secrets = put.1 }) h)
                                ])
                ])
      ]

  handle_response_rule :
      (old_id : String) (credentials : Fields) (answer : Option (ℕ × Fields)) (st : RefreshState S)
      → Endings st.connections st.events
      → Good (handle_response env data' row old_id credentials answer st)
  unfolding handle_response
  handle_response_rule old_id credentials none st h = h.postponed _
  handle_response_rule old_id credentials (some answer) st h =
      elim (Bool-cases (response_ok answer.0)) [
        | inl e ↦ rw (e, handle_response) (handle_tokens_rule old_id credentials answer.1 st h)
        | inr e ↦
            rw (e, handle_response)
              (elim (Bool-cases (is_transient_status answer.0)) [
                | inl t ↦ rw t (h.postponed _)
                | inr t ↦ rw t (h.failed st.secrets _ _)
              ])
      ]

  request_tokens_rule :
      (old_id url : String) (credentials : Fields) (refresh_token : String) (st : RefreshState S)
      → Endings st.connections st.events
      → Good (request_tokens env data' row old_id url credentials refresh_token st)
  unfolding request_tokens
  request_tokens_rule old_id url credentials refresh_token st h =
      elim (Option-cases (
        client_secret (λ id. env.store.read st.secrets id row.organization_id "oauth_client_secret")
          (env.organization_service data'.organization_id data'.service_id)
          (env.platform_credentials data'.service_id))) [
            | inl e ↦ rw (e, request_tokens) (h.postponed _)
            | inr (secret, e) ↦
                rw (e, request_tokens)
                  (handle_response_rule old_id credentials
                    (provider_answer env data' row url refresh_token secret) st h)
          ]

  use_credentials_rule :
      (old_id url : String) (credentials : Option Fields) (st : RefreshState S)
      → Endings st.connections st.events
      → Good (use_credentials env data' row old_id url credentials st)
  unfolding use_credentials
  use_credentials_rule old_id url none st h = h.postponed _
  use_credentials_rule old_id url (some credentials) st h =
      elim (Option-cases (full (as_string (get "refresh_token" credentials)))) [
        | inl e ↦ rw (e, use_credentials) (h.failed st.secrets _ _)
        | inr (refresh_token, e) ↦
            rw (e, use_credentials) (request_tokens_rule old_id url credentials refresh_token st h)
      ]

  pub refresh_row_rule :
      (st : RefreshState S)
      → Endings st.connections st.events
      → let (result, st') = caught (refresh_row env data' row st) in
        P result st'.connections st'.events
  unfolding refresh_row
  refresh_row_rule st h = elim (Option-cases (full row.credential_secret_id)) [
    | inl e ↦ rw (e, refresh_row) (h.failed st.secrets _ _)
    | inr (old_id, e) ↦
        rw (e, refresh_row)
          (elim (Option-cases (token_url env data')) [
            | inl f ↦ rw f (h.failed st.secrets _ _)
            | inr (url, f) ↦
                rw f
                  (use_credentials_rule old_id url (read_credentials env data' row old_id st) st h)
          ])
  ]
