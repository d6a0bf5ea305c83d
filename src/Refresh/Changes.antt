-- ===== src/Refresh/Changes.antt =====
-- What a run does to the connections while nobody else writes to them.
use authlane.Prelude.{
  ℕ, ◌≤◌, ◌≡◌, ◌∙◌, inl, inr, ◌⊎◌, String, Bool, true, false, Option, none, some, List, any, find,
  find-true, is_some, subst, eq_iff, and-eq-true, ◌==◌, arith, Option-cases, Bool-cases,
}
use authlane.Store.Tables.{ConnectionStatus, Connection, OutboxEvent}
use authlane.Store.Rows.{
  update_where, Pointwise, update_where-Pointwise, Pointwise-refl, Pointwise-trans,
}
use authlane.Refresh.Types.{TokenRefreshData, TokenRefreshResult, RefreshEnvironment, RefreshState}
use authlane.Refresh.Lease.{
  can_claim, claim, claim_connections, holds, release, release_connections, put_error,
  put_error_state, can_commit, commit,
}
use authlane.Refresh.Job.{caught, refresh_row, claimed_state, refresh_token}
use authlane.Refresh.Rules.{Endings, refresh_row_rule}

-- A row of another connection stays; this connection's keeps its identity, and its status changes
-- at most to `error`, which happens only if `failing` is true.
pub record Refreshes (id : String) (failing : Bool) (x y : Connection) : Type 0 where
  pub other : (x.id == id) ≡ false → y ≡ x
  pub same_id : y.id ≡ x.id
  pub same_organization : y.organization_id ≡ x.organization_id
  pub same_user : y.external_user_id ≡ x.external_user_id
  pub same_service : y.service_id ≡ x.service_id
  pub status : (y.status ≡ x.status) ⊎ ((failing ≡ true) × (y.status ≡ ConnectionStatus.error))
  pub version : x.version ≤ y.version
  pub credential : is_some x.credential_secret_id ≡ true → is_some y.credential_secret_id ≡ true

Refreshes-refl : (id : String) (failing : Bool) (x : Connection) → Refreshes id failing x x
Refreshes-refl id failing x = ground arith

Refreshes-trans :
    (id : String) (failing : Bool) (x y z : Connection)
    → Refreshes id failing x y
    → Refreshes id failing y z
    → Refreshes id failing x z
Refreshes-trans id failing x y z h k = record {
  other = λ o. let e = h.other o in k.other (rw e o) ∙ e;
  same_id = k.same_id ∙ h.same_id;
  same_organization = k.same_organization ∙ h.same_organization;
  same_user = k.same_user ∙ h.same_user;
  same_service = k.same_service ∙ h.same_service;
  status = elim k.status [ inl e ↦ rw e h.status | inr e ↦ inr e ];
  version = omega (arith, h.version, k.version);
  credential = λ c. k.credential (h.credential c);
}

-- The result of a run that failed for good.
abbrev pub is_final : TokenRefreshResult → Bool
is_final result = is_refusal result.retryable
  where
    is_refusal : Option Bool → Bool
    is_refusal none = false
    is_refusal (some true) = false
    is_refusal (some false) = true

claim-Refreshes :
    (data' : TokenRefreshData) (failing : Bool) (lock_token : String) (now : ℕ) (c : Connection)
    → can_claim data' now c ≡ true
    → Refreshes data'.connection_id failing c (claim lock_token now c)
unfolding can_claim
claim-Refreshes data' failing lock_token now c h = ground arith

put_error-Refreshes :
    (id lock_token code : String) (now : ℕ) (c : Connection)
    → holds id lock_token c ≡ true
    → Refreshes id true c (put_error code now c)
unfolding holds
put_error-Refreshes id lock_token code now c h = ground arith

commit-Refreshes :
    (row : Connection) (failing : Bool) (lock_token new_id : String) (expires_at : Option ℕ)
    (now : ℕ) (c : Connection)
    → can_commit row lock_token c ≡ true
    → Refreshes row.id failing c (commit new_id expires_at now c)
unfolding can_commit
commit-Refreshes row failing lock_token new_id expires_at now c h = ground arith

release-Refreshes :
    (id lock_token : String) (failing : Bool) (c : Connection)
    → holds id lock_token c ≡ true
    → Refreshes id failing c (release c)
unfolding holds
release-Refreshes id lock_token failing c h = ground arith

module _ {S : Type 0} (env : RefreshEnvironment S) (data' : TokenRefreshData) (row : Connection)
    (quiet : (connections : List Connection) → env.meanwhile connections ≡ connections) where
  abbrev Changed :
      List Connection → TokenRefreshResult → List Connection → List OutboxEvent → Type 0
  Changed start result connections events =
      Pointwise (Refreshes row.id (is_final result)) start connections

  commit_connections-Refreshes :
      (failing : Bool) (new_id : String) (expires_at : Option ℕ) (connections : List Connection)
      → Pointwise (Refreshes row.id failing) connections (
          update_where
            (can_commit row env.lock_token)
            (commit new_id expires_at env.later)
            (env.meanwhile connections))
  commit_connections-Refreshes failing new_id expires_at connections = rw (quiet connections) (
      update_where-Pointwise (Refreshes row.id failing) (can_commit row env.lock_token)
        (commit new_id expires_at env.later) (Refreshes-refl row.id failing)
        (commit-Refreshes row failing env.lock_token new_id expires_at env.later) connections)

  put_error_state-Refreshes :
      (code : String) (st : RefreshState S)
      → Pointwise
          (Refreshes row.id true)
          st.connections
          (put_error_state env row code st).connections
  unfolding put_error_state
  put_error_state-Refreshes code st =
      elim (Bool-cases (any (holds row.id env.lock_token) (env.meanwhile st.connections))) [
        | inl e ↦
            rw (e, put_error_state)
              (rw (quiet st.connections) (
                update_where-Pointwise (Refreshes row.id true) (holds row.id env.lock_token)
                  (put_error code env.later) (Refreshes-refl row.id true)
                  (put_error-Refreshes row.id env.lock_token code env.later) st.connections))
        | inr e ↦
            rw (e, put_error_state)
              (rw (quiet st.connections) (
                Pointwise-refl (Refreshes row.id true) (Refreshes-refl row.id true) st.connections))
      ]

  changes :
      (start : List Connection) (events : List OutboxEvent)
      → Endings (Changed start) env data' row start events
  changes start events = record {
    postponed =
        λ error. Pointwise-refl (Refreshes row.id false) (Refreshes-refl row.id false) start;
    failed = λ secrets error code.
        put_error_state-Refreshes code
          (record { connections = start; events = events; secrets = secrets });
    committed = λ secrets new_id expires_at _. (
      commit_connections-Refreshes false new_id expires_at start,
      λ seconds. commit_connections-Refreshes false new_id expires_at start,
    );
    lost = λ _.
        rw (quiet start)
          (Pointwise-refl (Refreshes row.id false) (Refreshes-refl row.id false) start);
  }

claim_connections-Refreshes :
    (data' : TokenRefreshData) (id lock_token : String) (failing : Bool) (now : ℕ)
    (connections : List Connection)
    → id ≡ data'.connection_id
    → Pointwise
        (Refreshes id failing)
        connections
        (claim_connections data' lock_token now connections)
claim_connections-Refreshes data' id lock_token failing now connections e = rw e (
    update_where-Pointwise (Refreshes data'.connection_id failing) (can_claim data' now)
      (claim lock_token now) (Refreshes-refl data'.connection_id failing)
      (claim-Refreshes data' failing lock_token now) connections)

release_connections-Refreshes :
    (id lock_token : String) (failing : Bool) (connections : List Connection)
    → Pointwise (Refreshes id failing) connections (release_connections id lock_token connections)
release_connections-Refreshes id lock_token failing connections =
    update_where-Pointwise (Refreshes id failing) (holds id lock_token) release
      (Refreshes-refl id failing) (release-Refreshes id lock_token failing) connections

can_claim-id :
    (data' : TokenRefreshData) (now : ℕ) (c : Connection)
    → can_claim data' now c ≡ true
    → c.id ≡ data'.connection_id
unfolding can_claim
can_claim-id data' now c h = (eq_iff c.id data'.connection_id).0 (and-eq-true _ _ h).0

-- A run on which nobody else writes leaves every other connection as it was. Its own keeps its
-- organization, user and service, and its status, unless the result is a failure that is not to be
-- tried again: then the status may have become `error`.
pub refresh_token-Refreshes :
    {S : Type 0} (env : RefreshEnvironment S) (data' : TokenRefreshData) (st : RefreshState S)
    → ((connections : List Connection) → env.meanwhile connections ≡ connections)
    → ((connections : List Connection) → env.afterwards connections ≡ connections)
    → let (result, st') = refresh_token env data' st in
      Pointwise (Refreshes data'.connection_id (is_final result)) st.connections st'.connections
unfolding refresh_token
refresh_token-Refreshes env data' st quiet calm =
    elim (Option-cases (find (can_claim data' env.now) st.connections)) [
      | inl e ↦
          rw (e, refresh_token)
            (Pointwise-refl (Refreshes data'.connection_id false)
              (Refreshes-refl data'.connection_id false) st.connections)
      | inr (found, e) ↦
          rw (e, refresh_token)
            (claimed_run found (
              can_claim-id data' env.now found
                (find-true (can_claim data' env.now) st.connections found e)))
    ]
  where
    claimed_run :
        (found : Connection)
        → found.id ≡ data'.connection_id
        → let (result, st') = caught (
            refresh_row env data'
              (claim env.lock_token env.now found)
              (claimed_state env data' st)) in
          Pointwise
            (Refreshes data'.connection_id (is_final result))
            st.connections
            (release_connections found.id env.lock_token (env.afterwards st'.connections))
    claimed_run found same =
        let row = claim env.lock_token env.now found in
        let start = claimed_state env data' st in
        let run = caught (refresh_row env data' row start) in
        let failing = is_final run.0 in
        let join =
          Pointwise-trans (Refreshes found.id failing) (Refreshes-trans found.id failing) in
        let middle : Pointwise (Refreshes found.id failing) start.connections run.1.connections =
          refresh_row_rule (Changed env data' row quiet start.connections) env data' row start
            (changes env data' row quiet start.connections start.events) in
        subst
          (λ id.
            Pointwise (Refreshes id failing) st.connections
              (release_connections found.id env.lock_token (env.afterwards run.1.connections)))
          same
          (rw (calm run.1.connections) (
            join st.connections start.connections _
              (claim_connections-Refreshes data' found.id env.lock_token failing env.now
                st.connections same)
              (join start.connections run.1.connections _ middle
                (release_connections-Refreshes found.id env.lock_token failing run.1.connections))))
