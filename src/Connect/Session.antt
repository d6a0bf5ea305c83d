-- ===== src/Connect/Session.antt =====
-- Sessions and the services they allow. `before` is the order in which the platform sorts texts.
use Prim.Native.Char.{code}
use authlane.Prelude.{
  ℕ, String, Bool, true, false, not, ◌&&◌, ◌||◌, Option, none, some, List, [], ◌∷◌, filter, all,
  leb, ltb, eqb, is_some, is_empty, units, if◌then◌else◌, ◌==◌,
}
use authlane.Prelude.Json.{Json, as_array, as_string}
use authlane.OAuth.Registry.{includes}

pub record ConnectSessionPolicy : Type 0 where
  pub expires_at : ℕ
  pub revoked_at : Option ℕ
  pub allowed_services : List String
  pub allowed_origin : String

abbrev after : Option ℕ → ℕ → Bool
after none now = false
after (some t) now = ltb now t

-- With the time until which the session may act destructively.
unfoldable pub can_perform_destructive_action : Option ℕ → ℕ → Bool
can_perform_destructive_action destructive_action_expires_at now =
    after destructive_action_expires_at now

unfoldable pub is_usable_connect_session : ConnectSessionPolicy → String → String → ℕ → Bool
is_usable_connect_session session service_id origin now =
    not (is_some session.revoked_at)
    && (ltb now session.expires_at
        && (includes service_id session.allowed_services && session.allowed_origin == origin))

abbrev is_service_char : ℕ → Bool
is_service_char c = (leb 97 c && leb c 122) || ((leb 48 c && leb c 57) || eqb c 45)

unfoldable pub is_service_text : String → Bool
is_service_text String.[] = true
is_service_text (String.◌∷◌ c s) = is_service_char (code c) && is_service_text s

-- `isValidServiceId`.
unfoldable pub is_valid_service_id : String → Bool
unfolding is_service_text units
is_valid_service_id id = not (is_empty id) && (leb (units id) 100 && is_service_text id)

-- The entries as service ids, if all are valid.
abbrev pub valid_ids : List Json → Option (List String)
unfolding is_valid_service_id
valid_ids [] = some []
valid_ids (entry ∷ entries) = elim (as_string (some entry)) [
  | none ↦ none
  | some id ↦ elim (valid_ids entries) [
    | none ↦ none
    | some ids ↦ if is_valid_service_id id then some (id ∷ ids) else none
  ]
]

-- `[...new Set(ids)]`, in the order of the first occurrences, with those that were seen.
abbrev pub unique_from : List String → List String → List String
unique_from seen [] = []
unique_from seen (id ∷ ids) = elim (includes id seen) [
  | true ↦ unique_from seen ids
  | false ↦ id ∷ unique_from (id ∷ seen) ids
]

abbrev pub unique : List String → List String
unique ids = unique_from [] ids

abbrev pub insert_id : (String → String → Bool) → String → List String → List String
insert_id before id [] = id ∷ []
insert_id before id (x ∷ xs) = if before x id then x ∷ insert_id before id xs else id ∷ x ∷ xs

abbrev pub sort_ids : (String → String → Bool) → List String → List String
sort_ids before [] = []
sort_ids before (id ∷ ids) = insert_id before id (sort_ids before ids)

abbrev pub all_enabled : (String → String → Bool) → List String → Option (List String)
all_enabled before [] = none
all_enabled before (id ∷ ids) = some (sort_ids before (id ∷ ids))

abbrev pub requested_or_enabled :
    (String → String → Bool) → List String → List String → Option (List String)
requested_or_enabled before enabled [] = all_enabled before (unique enabled)
requested_or_enabled before enabled (id ∷ ids) =
    if all (λ service. includes service enabled) (unique (id ∷ ids))
    then some (unique (id ∷ ids))
    else none

-- The services that a new session allows; `none` is a validation error.
unfoldable pub resolve_allowed_service_snapshot :
    (String → String → Bool) → Json → List String → Option (List String)
unfolding valid_ids
resolve_allowed_service_snapshot before requested_services enabled =
    elim (as_array (some requested_services)) [
      | none ↦ none
      | some entries ↦ elim (valid_ids entries) [
        | none ↦ none
        | some ids ↦ requested_or_enabled before enabled ids
      ]
    ]

unfoldable pub filter_currently_enabled_services : List String → List String → List String
filter_currently_enabled_services snapshot enabled =
    filter (λ service. includes service enabled) snapshot
