-- ===== src/Refresh/Fenced.antt =====
-- A run that has lost its lease.
use authlane.Prelude.{
  ◌≡◌, refl, inl, inr, ◌⊎◌, String, Bool, ap, true, false, some, List, [], ◌∷◌, any, find, arith,
}
use authlane.Store.Tables.{Connection, OutboxEvent}
use authlane.Refresh.Types.{TokenRefreshData, TokenRefreshResult, RefreshEnvironment, RefreshState}
use authlane.Refresh.Lease.{
  can_claim, claim, claim_connections, holds, release_connections, put_error_state, can_commit,
}
use authlane.Refresh.Job.{claimed_state, refresh_token}
use authlane.Refresh.Rules.{Endings, refresh_row_rule}

can_commit-holds :
    (row : Connection) (lock_token : String) (connections : List Connection)
    → any (holds row.id lock_token) connections ≡ false
    → any (can_commit row lock_token) connections ≡ false
unfolding holds can_commit
can_commit-holds row lock_token [] h = refl
can_commit-holds row lock_token (c ∷ cs) h = ground (arith, can_commit-holds row lock_token cs)

-- What a run without a lease leaves: no success, no event, and the connections as others wrote
-- them.
abbrev Untouched :
    {S : Type 0}
    → RefreshEnvironment S
    → List Connection
    → List OutboxEvent
    → TokenRefreshResult
    → List Connection
    → List OutboxEvent
    → Type 0
Untouched env claimed events result connections events' =
    (result.success ≡ false)
    × (events' ≡ events)
    × ((connections ≡ claimed) ⊎ (connections ≡ env.meanwhile claimed))

module _ {S : Type 0} (env : RefreshEnvironment S) (data' : TokenRefreshData) (row : Connection)
    (st : RefreshState S)
    (gone : any (holds row.id env.lock_token) (env.meanwhile st.connections) ≡ false) where
  put_error_state-Untouched :
      (secrets : S) (code : String)
      → let st' = put_error_state env row code (record st { secrets = secrets }) in
        (st'.events ≡ st.events) × (st'.connections ≡ env.meanwhile st.connections)
  unfolding put_error_state
  put_error_state-Untouched secrets code = rw (gone, put_error_state) (refl, refl)

  fenced : Endings (Untouched env st.connections st.events) env data' row st.connections st.events
  fenced = record {
    postponed = λ error. (refl, refl, inl refl);
    failed = λ secrets error code.
        let h = put_error_state-Untouched secrets code in (refl, h.0, inr h.1);
    committed = λ secrets new_id expires_at hit.
        absurd
          (clash (can_commit-holds row env.lock_token (env.meanwhile st.connections) gone) hit);
    lost = λ miss. (refl, refl, inr refl);
  }
    where
      clash : {b : Bool} → b ≡ false → b ≡ true → ⊥
      clash h k = ground arith

-- Where others have taken the lease from a run, the run reports a failure, adds no event, and
-- writes to the connections nothing but the release of a lease of its own.
pub refresh_token-fenced :
    {S : Type 0} (env : RefreshEnvironment S) (data' : TokenRefreshData) (st : RefreshState S)
    (found : Connection)
    → find (can_claim data' env.now) st.connections ≡ some found
    → any
        (holds found.id env.lock_token)
        (env.meanwhile (claim_connections data' env.lock_token env.now st.connections))
      ≡ false
    → let claimed = claim_connections data' env.lock_token env.now st.connections in
      let (result, st') = refresh_token env data' st in
      (result.success ≡ false)
      × (st'.events ≡ st.events)
      × ((st'.connections ≡ release_connections found.id env.lock_token (env.afterwards claimed))
          ⊎ (st'.connections
              ≡ release_connections found.id env.lock_token
                  (env.afterwards (env.meanwhile claimed))))
unfolding refresh_token
refresh_token-fenced env data' st found e gone =
    let h =
      refresh_row_rule (Untouched env (claimed_state env data' st).connections st.events) env data'
        (claim env.lock_token env.now found) (claimed_state env data' st)
        (fenced env data' (claim env.lock_token env.now found) (claimed_state env data' st) gone) in
    rw (e, refresh_token)
      (
        h.0,
        h.1,
        elim h.2 [
          | inl k ↦
              inl (ap (λ cs. release_connections found.id env.lock_token (env.afterwards cs)) k)
          | inr k ↦
              inr (ap (λ cs. release_connections found.id env.lock_token (env.afterwards cs)) k)
        ],
      )
