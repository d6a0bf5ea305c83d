-- ===== src/Secrets/Opening.antt =====
-- Sealed secrets open again, in their context only, and under a new key too.
use authlane.Prelude.{
  ◌≡◌, refl, inl, inr, subst, true, Option, none, some, eqb, eqb_iff, if_some, ◌==◌, eq_iff,
  Option-cases, Bool-cases, arith,
}
use authlane.Secrets.Vault.{
  Crypto, SecretContext, SealedSecret, Keyring, AadKind, is_encoded, has_context, canonical_aad,
  encrypt_aead, decrypt_aead, decode_parts, decrypt_parts, sized_key, require_key, unwrap_dek, seal,
  open_secret, wrapped_again, rewrap,
}

-- What is documented of the platform: decryption undoes encryption, a tag has 16 bytes, and Base64
-- is read back and has its form.
pub record IsDocumented {B : Type 0} (c : Crypto B) : Type 0 where
  pub decrypts :
      (key iv aad text : B)
      → let (ciphertext, tag) = c.encrypt key iv aad text in
        c.decrypt key iv aad ciphertext tag ≡ some text
  pub tag_size : (key iv aad text : B) → c.size (c.encrypt key iv aad text).1 ≡ 16
  pub read_back : (bytes : B) → c.from_base64 (c.to_base64 bytes) ≡ bytes
  pub encoded : (bytes : B) → is_encoded (c.to_base64 bytes) ≡ true

no_text : {B : Type 0} {text : B} → none ≡ some text → ⊥
no_text h = ground arith

has_context-same :
    (secret : SealedSecret) (expected : SecretContext)
    → has_context secret expected ≡ true
    → (secret.id ≡ expected.id)
      × (secret.organization_id ≡ expected.organization_id)
      × (secret.purpose ≡ expected.purpose)
has_context-same secret expected h = ground (
  arith,
  eq_iff secret.id expected.id,
  eq_iff secret.organization_id expected.organization_id,
  eq_iff secret.purpose expected.purpose,
)

has_context-own :
    (expected : SecretContext) (secret : SealedSecret)
    → secret.id ≡ expected.id
    → secret.organization_id ≡ expected.organization_id
    → secret.purpose ≡ expected.purpose
    → secret.aad_version ≡ 1
    → has_context secret expected ≡ true
has_context-own expected secret e f g v = ground (
  arith,
  eq_iff secret.id expected.id,
  eq_iff secret.organization_id expected.organization_id,
  eq_iff secret.purpose expected.purpose,
)

module _ {B : Type 0} (c : Crypto B) (documented : IsDocumented c) where
  decrypt_parts-encrypt_aead :
      (iv text key aad : B)
      → c.size iv ≡ 12
      → let parts = encrypt_aead c iv text key aad in
        decrypt_parts c
          (c.to_base64 parts.ciphertext)
          (c.to_base64 parts.iv)
          (c.to_base64 parts.tag)
          key
          aad
        ≡ some text
  unfolding decrypt_parts decode_parts decrypt_aead
  decrypt_parts-encrypt_aead iv text key aad sized =
      let (ciphertext, tag) = c.encrypt key iv aad text in
      rw
        (
          decrypt_parts,
          decode_parts,
          documented.encoded ciphertext,
          documented.encoded iv,
          documented.encoded tag,
        )
        (rw (documented.read_back ciphertext, documented.read_back iv, documented.read_back tag)
          (rw (decrypt_aead, sized, documented.tag_size key iv aad text)
            (documented.decrypts key iv aad text)))

  unwrap_dek-wrapped_again :
      (keyring : Keyring B) (dek_iv data_key kek : B) (secret : SealedSecret)
      (expected : SecretContext)
      → c.size data_key ≡ 32
      → c.size dek_iv ≡ 12
      → require_key c keyring keyring.current_key_id ≡ some kek
      → unwrap_dek c keyring (wrapped_again c keyring dek_iv data_key kek secret expected) expected
        ≡ some data_key
  unfolding unwrap_dek
  unwrap_dek-wrapped_again keyring dek_iv data_key kek secret expected sized sized' known =
      rw (unwrap_dek, known)
        (rw
          (decrypt_parts-encrypt_aead dek_iv data_key kek (canonical_aad c expected AadKind.dek)
            sized')
          (rw sized refl))

  -- A secret that was sealed opens in the context that it was sealed for, and gives the text.
  pub seal-open_secret :
      (keyring : Keyring B) (data_key payload_iv dek_iv : B) (input : SecretContext) (text kek : B)
      → c.size data_key ≡ 32
      → c.size payload_iv ≡ 12
      → c.size dek_iv ≡ 12
      → require_key c keyring keyring.current_key_id ≡ some kek
      → (secret : SealedSecret) × (seal c keyring data_key payload_iv dek_iv input text
          ≡ some secret)
        × (open_secret c keyring secret input ≡ some text)
  unfolding seal open_secret
  seal-open_secret keyring data_key payload_iv dek_iv input text kek sized sized' sized'' known =
      let sealed =
        encrypt_aead c payload_iv text data_key (canonical_aad c input AadKind.payload) in
      let secret : SealedSecret =
        wrapped_again c keyring dek_iv data_key kek
          (record {
            id = input.id;
            organization_id = input.organization_id;
            purpose = input.purpose;
            key_id = keyring.current_key_id;
            wrapped_dek = "";
            wrapped_dek_iv = "";
            wrapped_dek_tag = "";
            ciphertext = c.to_base64 sealed.ciphertext;
            payload_iv = c.to_base64 sealed.iv;
            payload_tag = c.to_base64 sealed.tag;
            aad_version = 1;
          })
          input in
      (
        secret,
        rw (known, seal) refl,
        rw (has_context-own input secret refl refl refl refl, open_secret)
            (rw
              (unwrap_dek-wrapped_again keyring dek_iv data_key kek secret input sized sized''
                known)
              (decrypt_parts-encrypt_aead payload_iv text data_key
                (canonical_aad c input AadKind.payload) sized')),
      )

  sized_key-size : (key : Option B) (known : B) → sized_key c key ≡ some known → c.size known ≡ 32
  sized_key-size none known h = absurd (no_text h)
  sized_key-size (some key) known h =
      let g = if_some (eqb (c.size key) 32) key known h in
      subst (λ k. c.size k ≡ 32) g.1 ((eqb_iff (c.size key) 32).0 g.0)

  unwrap_dek-size :
      (keyring : Keyring B) (secret : SealedSecret) (expected : SecretContext) (data_key : B)
      → unwrap_dek c keyring secret expected ≡ some data_key
      → c.size data_key ≡ 32
  unfolding unwrap_dek
  unwrap_dek-size keyring secret expected data_key h =
      elim (Option-cases (require_key c keyring secret.key_id)) [
        | inl e ↦ absurd (no_text (rw (e, unwrap_dek) at h))
        | inr (kek, e) ↦ sized_key-size _ data_key (rw (e, unwrap_dek) at h)
      ]

  -- Wrapping a secret's key again under the current one changes nothing of what the secret opens
  -- to; the current key is in the ring.
  pub rewrap-open_secret :
      (keyring : Keyring B) (dek_iv kek : B) (secret rewrapped : SealedSecret)
      (expected : SecretContext) (text : B)
      → c.size dek_iv ≡ 12
      → require_key c keyring keyring.current_key_id ≡ some kek
      → rewrap c keyring dek_iv secret expected ≡ some rewrapped
      → open_secret c keyring secret expected ≡ some text
      → open_secret c keyring rewrapped expected ≡ some text
  unfolding rewrap open_secret
  rewrap-open_secret keyring dek_iv kek secret rewrapped expected text sized known h o =
      elim (Bool-cases (has_context secret expected)) [
        | inl here ↦ elim (Bool-cases (secret.key_id == keyring.current_key_id)) [
          | inl same ↦
              subst (λ s. open_secret c keyring s expected ≡ some text)
                (if_some true secret rewrapped (rw (here, same, rewrap) at h)).1 o
          | inr other ↦ elim (Option-cases (unwrap_dek c keyring secret expected)) [
            | inl e ↦ absurd (no_text (rw (here, other, e, rewrap) at h))
            | inr (data_key, e) ↦
                let again = wrapped_again c keyring dek_iv data_key kek secret expected in
                subst (λ s. open_secret c keyring s expected ≡ some text)
                  (if_some true again rewrapped (rw (here, other, e, known, rewrap) at h)).1
                  (rw (here, open_secret)
                    (rw
                      (unwrap_dek-wrapped_again keyring dek_iv data_key kek secret expected
                        (unwrap_dek-size keyring secret expected data_key e) sized known)
                      (rw (here, e, open_secret) at o)))
          ]
        ]
        | inr there ↦ absurd (no_text (rw (there, open_secret) at o))
      ]

module _ {B : Type 0} (c : Crypto B) where
  -- A secret opens only in the context that it names.
  pub open_secret-context :
      (keyring : Keyring B) (secret : SealedSecret) (expected : SecretContext) (text : B)
      → open_secret c keyring secret expected ≡ some text
      → (secret.id ≡ expected.id)
        × (secret.organization_id ≡ expected.organization_id)
        × (secret.purpose ≡ expected.purpose)
  unfolding open_secret
  open_secret-context keyring secret expected text h =
      elim (Bool-cases (has_context secret expected)) [
        | inl here ↦ has_context-same secret expected here
        | inr there ↦ absurd (no_text (rw (there, open_secret) at h))
      ]
