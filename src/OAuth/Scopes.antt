-- ===== src/OAuth/Scopes.antt =====
-- The scopes that a provider reports.
use authlane.Prelude.{
  suc, ◌≤◌, ◌≡◌, subst, inl, inr, String, false, ◌||◌, none, some, List, [], ◌∷◌, length, units,
  ltb, is_empty, Option-cases, Bool-cases, unless_some, All, arith,
}
use authlane.Prelude.Json.{Json, as_array}
use authlane.OAuth.Endpoints.{scope_name, scope_names, normalize_oauth_scope_names}

abbrev pub IsScopeName : String → Type 0
IsScopeName name = (is_empty name ≡ false) × (units name ≤ 1000)

no_names : {names : List String} → none ≡ some names → ⊥
no_names h = ground arith

or_false : (name : String) → (is_empty name || ltb 1000 (units name)) ≡ false → IsScopeName name
or_false name h = ground arith

scope_names-IsScopeName :
    (entries : List Json) (names : List String)
    → scope_names entries ≡ some names
    → (length names ≡ length entries) × All IsScopeName names
unfolding scope_names
scope_names-IsScopeName [] names h = ground arith
scope_names-IsScopeName (entry ∷ entries) names h = elim (Option-cases (scope_name entry)) [
  | inl e ↦ absurd (no_names (rw (e, scope_names) at h))
  | inr (name, e) ↦ elim (Bool-cases (is_empty name || ltb 1000 (units name))) [
    | inl f ↦ absurd (no_names (rw (e, f, scope_names) at h))
    | inr f ↦ elim (Option-cases (scope_names entries)) [
      | inl g ↦ absurd (no_names (rw (e, f, g, scope_names) at h))
      | inr (rest, g) ↦
          let r = scope_names-IsScopeName entries rest g in
          let k : some (name ∷ rest) ≡ some names = rw (e, f, g, scope_names) at h in
          joined name rest (or_false name f) r k
    ]
  ]
]
  where
    joined :
        (name : String) (rest : List String)
        → IsScopeName name
        → (length rest ≡ length entries) × All IsScopeName rest
        → some (name ∷ rest) ≡ some names
        → (length names ≡ suc (length entries)) × All IsScopeName names
    joined name rest p r k =
        subst (λ ns. (length ns ≡ suc (length entries)) × All IsScopeName ns)
          (unless_some false (name ∷ rest) names k).1 (ground (arith, r.0), (p, r.1))

-- A list of scopes that is accepted has one name to an entry, at most a thousand of them, and every
-- name has between one and a thousand code units.
normalize_oauth_scope_names-bounds :
    (value : Json) (names : List String)
    → normalize_oauth_scope_names value ≡ some names
    → (length names ≤ 1000) × All (λ name. (is_empty name ≡ false) × (units name ≤ 1000)) names
unfolding normalize_oauth_scope_names
normalize_oauth_scope_names-bounds value names h = elim (Option-cases (as_array (some value))) [
  | inl e ↦ absurd (no_names (rw (e, normalize_oauth_scope_names) at h))
  | inr (entries, e) ↦ elim (Bool-cases (ltb 1000 (length entries))) [
    | inl f ↦ absurd (no_names (rw (e, f, normalize_oauth_scope_names) at h))
    | inr f ↦
        let r =
          scope_names-IsScopeName entries names (rw (e, f, normalize_oauth_scope_names) at h) in
        (ground (arith, r.0), r.1)
  ]
]
