-- ===== src/Secrets/Store.antt =====
-- `DatabaseSecretStore` of packages/database/src/secret-store.ts, over the table of sealed secrets.
-- An operation that throws is `none`. The random bytes of sealing are arguments.
use authlane.Prelude.{
  ◌≡◌, refl, inl, inr, ◌∙◌, String, Bool, true, false, not, ◌&&◌, Option, none, some, List, [], ◌∷◌,
  ◌++◌, filter, find, any, get_or, find-append, find-eq-none, All, Bool-cases, eq_iff,
  if◌then◌else◌, ◌==◌, arith,
}
use authlane.Store.Rows.{update_where}
use authlane.Secrets.Vault.{
  Crypto, SecretContext, SealedSecret, Keyring, seal, open_secret, rewrap, require_key,
}
use authlane.Secrets.Opening.{IsDocumented, seal-open_secret, open_secret-context}

-- The condition of every statement.
abbrev pub in_context : SecretContext → SealedSecret → Bool
in_context context row =
    row.id == context.id
    && (row.organization_id == context.organization_id && row.purpose == context.purpose)

-- `INSERT … ON CONFLICT (id) DO UPDATE`.
abbrev pub upsert : SealedSecret → List SealedSecret → List SealedSecret
upsert sealed rows =
    if any (λ row. row.id == sealed.id) rows
    then update_where (λ row. row.id == sealed.id) (λ row. sealed) rows
    else rows ++ sealed ∷ []

module _ {B : Type 0} (c : Crypto B) (keyring : Keyring B) where
  -- The new identifier and table, for a fresh identifier, a data key and two nonces.
  unfoldable pub put :
      String
      → B
      → B
      → B
      → Option String
      → String
      → String
      → B
      → List SealedSecret
      → Option (String × List SealedSecret)
  unfolding seal
  put new_id data_key payload_iv dek_iv given organization_id purpose plaintext rows =
      let id = get_or given new_id in
      elim (seal c keyring data_key payload_iv dek_iv
        (record { id = id; organization_id = organization_id; purpose = purpose }) plaintext) [
          | none ↦ none
          | some sealed ↦ some (id, upsert sealed rows)
        ]

  unfoldable pub read : SecretContext → List SealedSecret → Option B
  unfolding open_secret
  read context rows = elim (find (in_context context) rows) [
    | none ↦ none
    | some row ↦ open_secret c keyring row context
  ]

  unfoldable pub rewrap_row : B → SecretContext → List SealedSecret → Option (List SealedSecret)
  unfolding rewrap
  rewrap_row dek_iv context rows = elim (find (in_context context) rows) [
    | none ↦ none
    | some row ↦ elim (rewrap c keyring dek_iv row context) [
      | none ↦ none
      | some rewrapped ↦ some (update_where (in_context context) (λ r. rewrapped) rows)
    ]
  ]

-- `delete`.
unfoldable pub delete_row : SecretContext → List SealedSecret → List SealedSecret
delete_row context rows = filter (λ row. not (in_context context row)) rows

not_in_context :
    (context : SecretContext) (row : SealedSecret)
    → (row.id == context.id) ≡ false
    → in_context context row ≡ false
not_in_context context row h = ground arith

find-update_where :
    (context : SecretContext) (sealed : SealedSecret) (rows : List SealedSecret)
    → sealed.id ≡ context.id
    → in_context context sealed ≡ true
    → any (λ row. row.id == sealed.id) rows ≡ true
    → find (in_context context) (update_where (λ row. row.id == sealed.id) (λ row. sealed) rows)
      ≡ some sealed
find-update_where context sealed [] e h k = absurd (ground arith)
find-update_where context sealed (row ∷ rows) e h k = elim (Bool-cases (row.id == sealed.id)) [
  | inl here ↦ rw here (rw h refl)
  | inr there ↦ rw there (
      rw (not_in_context context row (rw e at there))
        (find-update_where context sealed rows e h (ground arith)))
]

absent-All :
    (context : SecretContext) (rows : List SealedSecret)
    → any (λ row. row.id == context.id) rows ≡ false
    → All (λ row. in_context context row ≡ false) rows
absent-All context [] h = tt
absent-All context (row ∷ rows) h = (ground arith, absent-All context rows (ground arith))

find-upsert :
    (context : SecretContext) (sealed : SealedSecret) (rows : List SealedSecret)
    → sealed.id ≡ context.id
    → in_context context sealed ≡ true
    → find (in_context context) (upsert sealed rows) ≡ some sealed
find-upsert context sealed rows e h = elim (Bool-cases (any (λ row. row.id == sealed.id) rows)) [
  | inl here ↦ rw here (find-update_where context sealed rows e h here)
  | inr absent ↦ rw absent (
      find-append (in_context context) rows (sealed ∷ []) (absent-All context rows (rw e at absent))
      ∙ rw h refl)
]

own_context :
    (context : SecretContext) (secret : SealedSecret)
    → (secret.id ≡ context.id)
      × (secret.organization_id ≡ context.organization_id)
      × (secret.purpose ≡ context.purpose)
    → in_context context secret ≡ true
own_context context secret h = ground (
  arith,
  eq_iff secret.id context.id,
  eq_iff secret.organization_id context.organization_id,
  eq_iff secret.purpose context.purpose,
)

-- A secret that was put is read back in its organization and for its purpose, whether its
-- identifier is new or was in the table.
pub put-read :
    {B : Type 0} (c : Crypto B) (documented : IsDocumented c) (keyring : Keyring B)
    (new_id : String) (data_key payload_iv dek_iv : B) (given : Option String)
    (organization_id purpose : String) (plaintext kek : B) (rows : List SealedSecret)
    → c.size data_key ≡ 32
    → c.size payload_iv ≡ 12
    → c.size dek_iv ≡ 12
    → require_key c keyring keyring.current_key_id ≡ some kek
    → (table : List SealedSecret) × (put c keyring new_id data_key payload_iv dek_iv given
          organization_id purpose plaintext rows
        ≡ some (get_or given new_id, table))
      × (read c keyring
            (record {
              id = get_or given new_id;
              organization_id = organization_id;
              purpose = purpose;
            })
            table
          ≡ some plaintext)
unfolding put read
put-read c documented keyring new_id data_key payload_iv dek_iv given organization_id purpose
      plaintext kek rows k p d known =
    let context : SecretContext = record {
      id = get_or given new_id;
      organization_id = organization_id;
      purpose = purpose;
    } in
    let (secret, sealed, opens) =
      seal-open_secret c documented keyring data_key payload_iv dek_iv context plaintext kek k p d
        known in
    let same = open_secret-context c keyring secret context plaintext opens in
    (
      upsert secret rows,
      rw (sealed, put) refl,
      rw (find-upsert context secret rows same.0 (own_context context secret same), read) opens,
    )

-- A secret that was deleted is not read any more.
delete_row-read :
    {B : Type 0} (c : Crypto B) (keyring : Keyring B) (context : SecretContext)
    (rows : List SealedSecret)
    → read c keyring context (delete_row context rows) ≡ none
unfolding read delete_row
delete_row-read c keyring context rows =
    rw
      (
        find-eq-none (in_context context) (filter (λ row. not (in_context context row)) rows)
            (kept rows),
        read,
      )
      refl
  where
    kept :
        (rs : List SealedSecret)
        → All
            (λ row. in_context context row ≡ false)
            (filter (λ row. not (in_context context row)) rs)
    kept [] = tt
    kept (r ∷ rs) = ground (arith, kept rs)
