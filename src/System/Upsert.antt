-- ===== src/System/Upsert.antt =====
-- What becomes of a user's connection when a connection is inserted, or the one with its key changed,
-- and when one is deleted.
use authlane.Prelude.{
  ◌≡◌, ◌⊎◌, refl, ap, or_else, inl, inr, Bool, true, false, not, ◌&&◌, Option, none, some, List,
  find, any, filter, Bool-cases, Option-cases, eq_iff, eq_refl, ◌==◌, arith,
}
use authlane.Store.Tables.{Connection}
use authlane.Store.Keyed.{
  any-find, find-filter, find-filter_gone, find-append_new, find-update_hit, find-update_miss,
}
use authlane.Flow.ApiKey.{upsert_connection}
use authlane.System.Life.{User, owns}

abbrev pub key_of : Connection → User
key_of row = record {
  organization_id = row.organization_id;
  external_user_id = row.external_user_id;
  service_id = row.service_id;
}

pub owns_self : (row : Connection) → owns (key_of row) row ≡ true
owns_self row =
    ground
      (arith, eq_refl row.organization_id, eq_refl row.external_user_id, eq_refl row.service_id)

-- Two users with a connection in common are one.
pub owns_eq :
    (user other : User) (c : Connection) → owns user c ≡ true → owns other c ≡ true → user ≡ other
owns_eq user other c h k = ground (
  arith,
  eq_iff c.organization_id user.organization_id,
  eq_iff c.organization_id other.organization_id,
  eq_iff c.external_user_id user.external_user_id,
  eq_iff c.external_user_id other.external_user_id,
  eq_iff c.service_id user.service_id,
  eq_iff c.service_id other.service_id,
)

abbrev pub changed : (Connection → Connection) → Connection → Option Connection → Option Connection
changed set row none = some row
changed set row (some x) = some (set x)

pub find-upsert_own :
    (row : Connection) (set : Connection → Connection)
    → ((user : User) (x : Connection) → owns user (set x) ≡ owns user x)
    → (connections : List Connection)
    → find (owns (key_of row)) (upsert_connection row set connections)
      ≡ changed set row (find (owns (key_of row)) connections)
unfolding upsert_connection
find-upsert_own row set same connections =
    let p = owns (key_of row) in
    elim (Option-cases (find p connections)) [
      | inl e ↦
          rw (any-find p connections, e, find-append_new p connections row, e, owns_self row) refl
      | inr (x, e) ↦
          rw (any-find p connections, e, find-update_hit p set (same (key_of row)) connections, e)
            refl
    ]

pub find-upsert_other :
    (user : User) (row : Connection) (set : Connection → Connection)
    → ((user : User) (x : Connection) → owns user (set x) ≡ owns user x)
    → owns user row ≡ false
    → (connections : List Connection)
    → find (owns user) (upsert_connection row set connections) ≡ find (owns user) connections
unfolding upsert_connection
find-upsert_other user row set same apart connections =
    elim (Bool-cases (any (owns (key_of row)) connections)) [
      | inl e ↦
          rw e (find-update_miss (owns user) (owns (key_of row)) set (same user) others connections)
      | inr e ↦
          rw (e, find-append_new (owns user) connections row, apart)
            (alone (find (owns user) connections))
    ]
  where
    others : (x : Connection) → owns user x ≡ true → owns (key_of row) x ≡ false
    others x h = elim (Bool-cases (owns (key_of row) x)) [
      | inl k ↦ absurd (ground (arith, owns_eq user (key_of row) x h k, owns_self row))
      | inr k ↦ k
    ]

    alone : (o : Option Connection) → or_else o none ≡ o
    alone none = refl
    alone (some x) = refl

same_user : User → User → Bool
same_user a b =
    a.organization_id == b.organization_id
    && (a.external_user_id == b.external_user_id && a.service_id == b.service_id)

-- A deletion of all that another user owns, who may be the same.
pub find-filter_owner :
    (user other : User) (connections : List Connection)
    → ((user ≡ other) × (find (owns user) (filter (λ c. not (owns other c)) connections) ≡ none))
      ⊎ (find (owns user) (filter (λ c. not (owns other c)) connections)
          ≡ find (owns user) connections)
unfolding same_user
find-filter_owner user other connections = elim (Bool-cases (same_user user other)) [
  | inl e ↦
      inl (same e, find-filter_gone (owns user) (λ c. not (owns other c)) (gone e) connections)
  | inr e ↦ inr (find-filter (owns user) (λ c. not (owns other c)) (left e) connections)
]
  where
    same : same_user user other ≡ true → user ≡ other
    same e = ground (
      arith,
      eq_iff user.organization_id other.organization_id,
      eq_iff user.external_user_id other.external_user_id,
      eq_iff user.service_id other.service_id,
    )

    gone :
        same_user user other ≡ true
        → (x : Connection) → owns user x ≡ true
        → not (owns other x) ≡ false
    gone e x h = ground (
      arith,
      eq_iff user.organization_id other.organization_id,
      eq_iff user.external_user_id other.external_user_id,
      eq_iff user.service_id other.service_id,
    )

    left :
        same_user user other ≡ false
        → (x : Connection) → owns user x ≡ true
        → not (owns other x) ≡ true
    left e x h = elim (Bool-cases (owns other x)) [
      | inr k ↦ rw k refl
      | inl k ↦ absurd (
          ground (
            arith,
            ap (λ u. u.organization_id) (owns_eq user other x h k),
            ap (λ u. u.external_user_id) (owns_eq user other x h k),
            ap (λ u. u.service_id) (owns_eq user other x h k),
            eq_iff user.organization_id other.organization_id,
            eq_iff user.external_user_id other.external_user_id,
            eq_iff user.service_id other.service_id,
          ))
    ]
