-- ===== src/Connect/Snapshot.antt =====
-- What a session may be used for.
use authlane.Prelude.{
  ℕ, ◌≡◌, ◌≤◌, inl, inr, subst, String, Bool, true, false, none, some, List, [], ◌∷◌, all, All,
  All-map, Option-cases, Bool-cases, if_some, eq_iff, eq_refl, arith,
}
use authlane.Prelude.Json.{Json, as_array}
use authlane.OAuth.Registry.{includes}
use authlane.Connect.Session.{
  ConnectSessionPolicy, is_usable_connect_session, valid_ids, unique_from, unique, insert_id,
  sort_ids, all_enabled, requested_or_enabled, resolve_allowed_service_snapshot,
}

abbrev pub Allows : List String → String → Type 0
Allows services id = includes id services ≡ true

no_ids : {ids : List String} → none ≡ some ids → ⊥
no_ids h = ground arith

all-All : (p : String → Bool) (ids : List String) → all p ids ≡ true → All (λ id. p id ≡ true) ids
all-All p [] h = tt
all-All p (id ∷ ids) h = (ground arith, all-All p ids (ground arith))

insert_id-All :
    (P : String → Type 0) (before : String → String → Bool) (id : String) (ids : List String)
    → P id
    → All P ids
    → All P (insert_id before id ids)
insert_id-All P before id [] p h = (p, tt)
insert_id-All P before id (x ∷ xs) p h = elim (Bool-cases (before x id)) [
  | inl e ↦ rw e (h.0, insert_id-All P before id xs p h.1)
  | inr e ↦ rw e (p, h)
]

sort_ids-All :
    (P : String → Type 0) (before : String → String → Bool) (ids : List String)
    → All P ids
    → All P (sort_ids before ids)
sort_ids-All P before [] h = tt
sort_ids-All P before (id ∷ ids) h =
    insert_id-All P before id (sort_ids before ids) h.0 (sort_ids-All P before ids h.1)

either-All :
    (P : String → Type 0) (b : Bool) (xs ys : List String)
    → All P xs
    → All P ys
    → All P (elim b [ true ↦ xs | false ↦ ys ])
either-All P true xs ys h k = h
either-All P false xs ys h k = k

unique_from-All :
    (P : String → Type 0) (seen ids : List String) → All P ids → All P (unique_from seen ids)
unique_from-All P seen [] h = tt
unique_from-All P seen (id ∷ ids) h =
    either-All P (includes id seen) (unique_from seen ids) (id ∷ unique_from (id ∷ seen) ids)
      (unique_from-All P seen ids h.1) (h.0, unique_from-All P (id ∷ seen) ids h.1)

self-Allows : (ids : List String) → All (Allows ids) ids
self-Allows [] = tt
self-Allows (id ∷ ids) = (
  ground (arith, eq_refl id),
  All-map (Allows ids) (Allows (id ∷ ids)) (λ x h. ground (arith, h)) ids (self-Allows ids),
)

requested_or_enabled-Allows :
    (before : String → String → Bool) (enabled ids services : List String)
    → requested_or_enabled before enabled ids ≡ some services
    → All (Allows enabled) services
requested_or_enabled-Allows before enabled [] services h =
    from_enabled (unique enabled)
      (unique_from-All (Allows enabled) [] enabled (self-Allows enabled)) h
  where
    from_enabled :
        (all_ids : List String)
        → All (Allows enabled) all_ids
        → all_enabled before all_ids ≡ some services
        → All (Allows enabled) services
    from_enabled [] k h = absurd (no_ids h)
    from_enabled (id ∷ ids) k h =
        subst (All (Allows enabled)) (if_some true (sort_ids before (id ∷ ids)) services h).1
          (sort_ids-All (Allows enabled) before (id ∷ ids) k)
requested_or_enabled-Allows before enabled (id ∷ ids) services h =
    let g = if_some _ _ services h in
    subst (All (Allows enabled)) g.1
      (all-All (λ service. includes service enabled) (unique (id ∷ ids)) g.0)

-- A new session allows only services that are enabled for its organization.
pub resolve_allowed_service_snapshot-Allows :
    (before : String → String → Bool) (requested : Json) (enabled services : List String)
    → resolve_allowed_service_snapshot before requested enabled ≡ some services
    → All (λ id. includes id enabled ≡ true) services
unfolding resolve_allowed_service_snapshot
resolve_allowed_service_snapshot-Allows before requested enabled services h =
    elim (Option-cases (as_array (some requested))) [
      | inl e ↦ absurd (no_ids (rw (e, resolve_allowed_service_snapshot) at h))
      | inr (entries, e) ↦ elim (Option-cases (valid_ids entries)) [
        | inl f ↦ absurd (no_ids (rw (e, f, resolve_allowed_service_snapshot) at h))
        | inr (ids, f) ↦
            requested_or_enabled-Allows before enabled ids services
              (rw (e, f, resolve_allowed_service_snapshot) at h)
      ]
    ]

-- A session is usable just for the services that it allows and its one origin, before it ends and
-- unless it was revoked; and if it is usable later for a service, then it is so earlier.
is_usable_connect_session-earlier :
    (session : ConnectSessionPolicy) (service_id origin : String) (now later : ℕ)
    → now ≤ later
    → is_usable_connect_session session service_id origin later ≡ true
    → (is_usable_connect_session session service_id origin now ≡ true)
      × (session.revoked_at ≡ none)
      × (includes service_id session.allowed_services ≡ true)
      × (session.allowed_origin ≡ origin)
unfolding is_usable_connect_session
is_usable_connect_session-earlier session service_id origin now later order h =
    ground (arith, eq_iff session.allowed_origin origin)
