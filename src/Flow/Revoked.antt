-- ===== src/Flow/Revoked.antt =====
-- What a disconnection does, and who may ask for it.
use authlane.Prelude.{
  ℕ, ◌≡◌, refl, ap, inl, inr, String, Bool, true, false, not, Option, none, some, List, [], ◌∷◌,
  find, filter, is_some, All, Bool-cases, Option-cases, ◌==◌, arith,
}
use authlane.Store.Tables.{Connection}
use authlane.Store.Rows.{update_where}
use authlane.Store.Keyed.{find-none}
use authlane.Connect.Session.{can_perform_destructive_action}
use authlane.Flow.Tables.{ConnectSession}
use authlane.Flow.Settings.{is_connectable_service_id}
use authlane.Flow.Types.{
  FlowState, FlowEnvironment, state_of, reply_of, Reply, refused, disconnected,
}
use authlane.Flow.Request.{ConnectRequest, is_formed, session_of}
use authlane.Flow.ApiKey.{of_user}
use authlane.Flow.Disconnect.{revoke, drop_credential, remove_connection, disconnect}

-- What is left after a disconnection under a session.
pub record Disconnected {S : Type 0} (session : ConnectSession) (service_id : String)
    (before final : FlowState S) : Type 0 where
  pub kept :
      final.connections
      ≡ filter
          (λ c. not (of_user session.organization_id session.external_user_id service_id c))
          before.connections
  pub ended : All (λ s. (s.id == session.id) ≡ true → is_some s.revoked_at ≡ true) final.sessions

revoke_ends :
    (id : String) (now : ℕ) (sessions : List ConnectSession)
    → All
        (λ s. (s.id == id) ≡ true → is_some s.revoked_at ≡ true)
        (update_where (λ s. s.id == id) (revoke now) sessions)
revoke_ends id now [] = tt
revoke_ends id now (s ∷ ss) = elim (Bool-cases (s.id == id)) [
  | inl e ↦ rw e ((λ h. refl), revoke_ends id now ss)
  | inr e ↦ rw e ((λ h. absurd (ground arith)), revoke_ends id now ss)
]

none_kept :
    (p : Connection → Bool) (rows : List Connection)
    → All (λ c. p c ≡ false) rows
    → rows ≡ filter (λ c. not (p c)) rows
none_kept p [] h = refl
none_kept p (row ∷ rows) h = rw h.0 (ap (◌∷◌ row) (none_kept p rows h.1))

module _ {S : Type 0} (env : FlowEnvironment S) (request : ConnectRequest) (st : FlowState S) where
  abbrev Ends : Option ConnectSession → Option Reply → FlowState S → Type 0
  Ends under reply final =
      (done : Bool)
      → reply ≡ some (disconnected done)
      → (session : ConnectSession) × (under ≡ some session)
        × (can_perform_destructive_action session.destructive_action_expires_at env.now ≡ true)
        × Disconnected session request.service_id st final

  not_done :
      (status : ℕ) (text : String) (done : Bool)
      → some (refused status text) ≡ some (disconnected done)
      → ⊥
  not_done status text done h = ground arith

  no_reply : (done : Bool) → none ≡ some (disconnected done) → ⊥
  no_reply done h = ground arith

  remove_connection-Ends :
      (session : ConnectSession)
      → can_perform_destructive_action session.destructive_action_expires_at env.now ≡ true
      → let o = remove_connection env session request.service_id st in
        Ends (some session) (reply_of o) (state_of o)
  unfolding remove_connection
  remove_connection-Ends session recent =
      let own = of_user session.organization_id session.external_user_id request.service_id in
      elim (Option-cases (find own st.connections)) [
        | inl e ↦
            rw (e, remove_connection)
              (λ done h. (
                session,
                refl,
                recent,
                record {
                  kept = none_kept own st.connections (find-none own st.connections e);
                  ended = revoke_ends session.id env.later st.sessions;
                },
              ))
        | inr (removed, e) ↦
            rw (e, remove_connection)
              (elim (Option-cases (
                drop_credential env.store session.organization_id removed.credential_secret_id
                  st.secrets)) [
                    | inl f ↦ rw f (λ done h. absurd (no_reply done h))
                    | inr (secrets, f) ↦ rw f (λ done h. (
                      session,
                      refl,
                      recent,
                      record { kept = refl; ended = revoke_ends session.id env.later st.sessions },
                    ))
                  ])
      ]

  disconnect-Ends :
      let o = disconnect env request st in
      Ends (session_of env request st) (reply_of o) (state_of o)
  unfolding disconnect
  disconnect-Ends = elim (Bool-cases (is_formed (is_connectable_service_id env.demo) request)) [
    | inr e ↦ rw (e, disconnect) (λ done h. absurd (not_done _ _ done h))
    | inl e ↦
        rw (e, disconnect)
          (elim (Option-cases (session_of env request st)) [
            | inl f ↦ rw f (λ done h. absurd (not_done _ _ done h))
            | inr (session, f) ↦
                rw f
                  (elim (Bool-cases (
                    can_perform_destructive_action session.destructive_action_expires_at env.now)) [
                      | inr g ↦ rw g (λ done h. absurd (not_done _ _ done h))
                      | inl g ↦ rw g (remove_connection-Ends session g)
                    ])
          ])
  ]

-- A disconnection that is answered was asked for under a usable session that was authenticated again
-- recently enough. It leaves all connections but the session's own for the service, and the session
-- is revoked.
pub disconnect-Disconnected :
    {S : Type 0} (env : FlowEnvironment S) (request : ConnectRequest) (st : FlowState S)
    (done : Bool)
    → reply_of (disconnect env request st) ≡ some (disconnected done)
    → (session : ConnectSession) × (session_of env request st ≡ some session)
      × (can_perform_destructive_action session.destructive_action_expires_at env.now ≡ true)
      × Disconnected session request.service_id st (state_of (disconnect env request st))
disconnect-Disconnected env request st = disconnect-Ends env request st
