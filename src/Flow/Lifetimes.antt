-- ===== src/Flow/Lifetimes.antt =====
-- What a new session may do, and for how long.
use authlane.Prelude.{
  ℕ, ◌+◌, ◌*◌, ◌≤◌, ◌≡◌, ◌⊎◌, refl, subst, inl, inr, String, Bool, true, false, not, ◌||◌, Option,
  none, some, List, get_or, is_empty, All, Bool-cases, Option-cases, arith,
}
use authlane.OAuth.Registry.{includes}
use authlane.Connect.Session.{resolve_allowed_service_snapshot}
use authlane.Connect.Snapshot.{resolve_allowed_service_snapshot-Allows}
use authlane.Flow.Tables.{ConnectSession}
use authlane.Flow.Types.{FlowEnvironment}
use authlane.Flow.Request.{parse_allowed_origin, parse_recent_reauthentication}
use authlane.Flow.Sessions.{
  ConnectSessionBody, is_valid_user_id, lifetime_seconds, destructive_until,
  list_enabled_service_ids, new_session, requested_session,
}

lifetime_bounds :
    (seconds : Option ℕ) → (60 ≤ lifetime_seconds seconds) × (lifetime_seconds seconds ≤ 900)
lifetime_bounds none = omega arith
lifetime_bounds (some n) = ground arith

-- Until when a session may act destructively.
abbrev pub DestructiveWithin : ℕ → ℕ → Option ℕ → Type 0
DestructiveWithin expires_at limit none = Unit
DestructiveWithin expires_at limit (some t) = (t ≤ expires_at) × (t ≤ limit)

within :
    (now expires_at : ℕ) (given : Option (Option ℕ)) (reauthenticated_at : Option ℕ)
    → parse_recent_reauthentication given now ≡ some reauthenticated_at
    → DestructiveWithin expires_at (now + 330000) (destructive_until reauthenticated_at expires_at)
unfolding parse_recent_reauthentication
within now expires_at given none h = tt
within now expires_at none (some t) h = absurd (ground arith)
within now expires_at (some none) (some t) h = absurd (ground arith)
within now expires_at (some (some u)) (some t) h = ground arith

-- What holds of a new session.
pub record IsGranted {S : Type 0} (env : FlowEnvironment S) (organization_id : String)
    (session : ConnectSession) : Type 0 where
  pub own : session.organization_id ≡ organization_id
  pub user : is_valid_user_id session.external_user_id ≡ true
  pub lasts : (env.now + 60000 ≤ session.expires_at) × (session.expires_at ≤ env.now + 900000)
  pub destructive :
      DestructiveWithin session.expires_at (env.now + 330000) session.destructive_action_expires_at
  pub allowed :
      All
        (λ id. includes id (list_enabled_service_ids env organization_id) ≡ true)
        session.allowed_services
  pub live : session.revoked_at ≡ none

not_granted :
    {text : String} {session : ConnectSession}
    → ◌≡◌ {A = String ⊎ ConnectSession} (inl text) (inr session)
    → ⊥
not_granted h = ground arith

same_granted :
    {x session : ConnectSession}
    → ◌≡◌ {A = String ⊎ ConnectSession} (inr x) (inr session)
    → x ≡ session
same_granted h = ground arith

valid_user :
    (id : String) (rest : Bool)
    → (not (is_valid_user_id id) || rest) ≡ false
    → is_valid_user_id id ≡ true
valid_user id rest h = ground arith

-- A session that is made for a body belongs to the organization of the API key and to a valid user,
-- lasts between one and fifteen minutes, may act destructively for at most five and a half minutes
-- and never longer than it lasts, and allows only services that are enabled for the organization.
pub requested_session-IsGranted :
    {S : Type 0} (env : FlowEnvironment S) (organization_id : String) (body : ConnectSessionBody)
    (session : ConnectSession)
    → requested_session env organization_id body ≡ inr session
    → IsGranted env organization_id session
unfolding requested_session
requested_session-IsGranted env organization_id body session h =
    let user = get_or body.external_user_id "" in
    let enabled = list_enabled_service_ids env organization_id in
    let expires_at = env.now + lifetime_seconds body.expires_in_seconds * 1000 in
    elim (Option-cases (parse_allowed_origin env (get_or body.allowed_origin ""))) [
      | inl e ↦ absurd (not_granted (rw (e, requested_session) at h))
      | inr (origin, e) ↦
          elim (Option-cases (parse_recent_reauthentication body.reauthenticated_at env.now)) [
            | inl f ↦ absurd (not_granted (rw (e, f, requested_session) at h))
            | inr (since, f) ↦ elim (Bool-cases (not (is_valid_user_id user) || is_empty origin)) [
              | inl g ↦ absurd (not_granted (rw (e, f, g, requested_session) at h))
              | inr g ↦
                  elim (Option-cases
                    (resolve_allowed_service_snapshot env.before body.allowed_services enabled)) [
                      | inl k ↦ absurd (not_granted (rw (e, f, g, k, requested_session) at h))
                      | inr (services, k) ↦
                          subst (IsGranted env organization_id)
                            (same_granted (rw (e, f, g, k, requested_session) at h))
                            (granted origin since services user expires_at (valid_user user _ g) f
                              k)
                    ]
            ]
          ]
    ]
  where
    granted :
        (origin : String) (since : Option ℕ) (services : List String) (user : String)
        (expires_at : ℕ)
        → is_valid_user_id user ≡ true
        → parse_recent_reauthentication body.reauthenticated_at env.now ≡ some since
        → resolve_allowed_service_snapshot env.before body.allowed_services
            (list_enabled_service_ids env organization_id)
          ≡ some services
        → IsGranted env organization_id (
            new_session env organization_id user services origin since
              (env.now + lifetime_seconds body.expires_in_seconds * 1000))
    granted origin since services user expires_at valid f k = record {
      own = refl;
      user = valid;
      lasts = omega (arith, lifetime_bounds body.expires_in_seconds);
      destructive = within env.now _ body.reauthenticated_at since f;
      allowed =
          resolve_allowed_service_snapshot-Allows env.before body.allowed_services _ services k;
      live = refl;
    }
