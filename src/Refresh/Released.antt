-- ===== src/Refresh/Released.antt =====
-- The lease: nobody else gets it while it is held, and a run gives it back however it ends.
use authlane.Prelude.{
  ℕ, ◌+◌, ◌≤◌, ◌≡◌, refl, inl, inr, subst, String, true, false, List, [], ◌∷◌, any, find, find-true,
  find-eq-any, Bool-cases, Option-cases, ◌==◌, eq_iff, and-eq-true, arith,
}
use authlane.Store.Tables.{Connection}
use authlane.Outbox.Transitions.{rows_of}
use authlane.Refresh.Types.{TokenRefreshData, RefreshEnvironment, RefreshState}
use authlane.Refresh.Lease.{can_claim, claim, claim_connections, holds, release_connections}
use authlane.Refresh.Job.{refresh_row, caught, skipped, claimed_state, refresh_token}

release_connections-none :
    (id lock_token : String) (connections : List Connection)
    → any (holds id lock_token) (release_connections id lock_token connections) ≡ false
unfolding holds
release_connections-none id lock_token [] = refl
release_connections-none id lock_token (c ∷ cs) =
    ground (arith, release_connections-none id lock_token cs)

release_connections-of :
    (id found lock_token : String) (connections : List Connection)
    → found ≡ id
    → any (holds id lock_token) (release_connections found lock_token connections) ≡ false
release_connections-of id found lock_token connections e =
    subst (λ i. any (holds i lock_token) (release_connections found lock_token connections) ≡ false)
      e (release_connections-none found lock_token connections)

can_claim-id :
    (data' : TokenRefreshData) (now : ℕ) (c : Connection)
    → can_claim data' now c ≡ true
    → c.id ≡ data'.connection_id
unfolding can_claim
can_claim-id data' now c h = (eq_iff c.id data'.connection_id).0 (and-eq-true _ _ h).0

-- After a run no row of the connection holds the run's lease, however the run ends and whatever
-- others write in between; the lock's token is one that no row had before.
pub refresh_token-released :
    {S : Type 0} (env : RefreshEnvironment S) (data' : TokenRefreshData) (st : RefreshState S)
    → any (holds data'.connection_id env.lock_token) st.connections ≡ false
    → any (holds data'.connection_id env.lock_token) (refresh_token env data' st).1.connections
      ≡ false
unfolding refresh_token
refresh_token-released env data' st fresh =
    elim (Option-cases (find (can_claim data' env.now) st.connections)) [
      | inl e ↦ rw (e, refresh_token) fresh
      | inr (found, e) ↦
          rw (e, refresh_token)
            (release_connections-of data'.connection_id found.id env.lock_token
              (env.afterwards
                (caught (
                  refresh_row env data' (claim env.lock_token env.now found)
                    (claimed_state env data' st))).1.connections)
              (can_claim-id data' env.now found
                (find-true (can_claim data' env.now) st.connections found e)))
    ]

absent-unclaimed :
    (data' other : TokenRefreshData) (lock_token : String) (now now' : ℕ)
    (connections : List Connection)
    → rows_of other.connection_id connections ≡ 0
    → any (can_claim other now') (claim_connections data' lock_token now connections) ≡ false
unfolding can_claim
absent-unclaimed data' other lock_token now now' [] h = refl
absent-unclaimed data' other lock_token now now' (c ∷ cs) h =
    ground (arith, absent-unclaimed data' other lock_token now now' cs)

absent-any :
    (data' : TokenRefreshData) (now : ℕ) (connections : List Connection)
    → rows_of data'.connection_id connections ≡ 0
    → any (can_claim data' now) connections ≡ false
unfolding can_claim
absent-any data' now [] h = refl
absent-any data' now (c ∷ cs) h = ground (arith, absent-any data' now cs)

claimed-busy :
    (other : TokenRefreshData) (lock_token : String) (now now' : ℕ) (c : Connection)
    → now' ≤ now + 120000
    → can_claim other now' (claim lock_token now c) ≡ false
unfolding can_claim
claimed-busy other lock_token now now' c h = ground arith

not_mine :
    (other : TokenRefreshData) (now : ℕ) (c : Connection)
    → (c.id == other.connection_id) ≡ false
    → can_claim other now c ≡ false
unfolding can_claim
not_mine other now c h = ground arith

claim-exclusive :
    (data' other : TokenRefreshData) (lock_token : String) (now now' : ℕ)
    (connections : List Connection)
    → other.connection_id ≡ data'.connection_id
    → rows_of data'.connection_id connections ≤ 1
    → now' ≤ now + 120000
    → any (can_claim data' now) connections ≡ true
    → any (can_claim other now') (claim_connections data' lock_token now connections) ≡ false
claim-exclusive data' other lock_token now now' [] same one soon h = refl
claim-exclusive data' other lock_token now now' (c ∷ cs) same one soon h =
    elim (Bool-cases (c.id == data'.connection_id)) [
      | inl here ↦
          let gone : rows_of data'.connection_id cs ≡ 0 = ground arith in
          let mine : can_claim data' now c ≡ true = ground (arith, absent-any data' now cs gone) in
          rw mine (
            rw (claimed-busy other lock_token now now' c soon)
              (absent-unclaimed data' other lock_token now now' cs (rw same gone)))
      | inr there ↦
          let mine = not_mine data' now c there in
          rw (mine, not_mine other now' c (rw same there))
            (claim-exclusive data' other lock_token now now' cs same (ground arith) soon
              (ground arith))
    ]

-- While one run holds the lease of a connection, and for the two minutes that it lasts, another run
-- for the same connection skips it and changes nothing; the identifier is that of one row.
pub refresh_token-exclusive :
    {S : Type 0} (env other : RefreshEnvironment S) (data' data'' : TokenRefreshData)
    (st : RefreshState S)
    → data''.connection_id ≡ data'.connection_id
    → rows_of data'.connection_id st.connections ≤ 1
    → other.now ≤ env.now + 120000
    → any (can_claim data' env.now) st.connections ≡ true
    → refresh_token other data'' (claimed_state env data' st)
      ≡ (skipped, claimed_state env data' st)
unfolding refresh_token
refresh_token-exclusive env other data' data'' st same one soon free =
    rw
      (
        find-eq-any (can_claim data'' other.now)
            (claim_connections data' env.lock_token env.now st.connections)
            (claim-exclusive data' data'' env.lock_token env.now other.now st.connections same one
              soon free),
        refresh_token,
      )
      refl
