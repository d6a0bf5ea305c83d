-- ===== src/Secrets/Vault.antt =====
-- `EnvelopeSecretVault`. Bytes are a type `B` of the platform, with AES-256-GCM, Base64 and UTF-8
-- on them; random bytes are arguments. A function that throws is `none`.
use Prim.Native.Char.{code}
use authlane.Prelude.{
  ℕ, ◌%◌, String, Bool, true, ◌&&◌, ◌||◌, Option, none, some, leb, eqb, units, if◌then◌else◌, ◌==◌,
}
use authlane.Prelude.Json.{Json, str, num, natural, arr, cons, nil}

pub record Crypto (B : Type 0) : Type 0 where
  pub size : B → ℕ
  -- By the key, the nonce, the associated data and the text: the ciphertext and the tag.
  pub encrypt : B → B → B → B → B × B
  pub decrypt : B → B → B → B → B → Option B
  pub to_base64 : B → String
  pub from_base64 : String → B
  pub utf8 : String → B
  pub stringify : Json → String

pub record SecretContext : Type 0 where
  pub id : String
  pub organization_id : String
  pub purpose : String

pub record SealedSecret : Type 0 where
  pub id : String
  pub organization_id : String
  pub purpose : String
  pub key_id : String
  pub wrapped_dek : String
  pub wrapped_dek_iv : String
  pub wrapped_dek_tag : String
  pub ciphertext : String
  pub payload_iv : String
  pub payload_tag : String
  pub aad_version : ℕ

pub record Keyring (B : Type 0) : Type 0 where
  pub current_key_id : String
  pub keys : String → Option B

pub record CiphertextParts (B : Type 0) : Type 0 where
  pub ciphertext : B
  pub iv : B
  pub tag : B

pub data AadKind : Type 0 where
  payload dek : AadKind

abbrev kind_text : AadKind → String
kind_text AadKind.payload = "payload"
kind_text AadKind.dek = "dek"

abbrev is_base64_char : ℕ → Bool
is_base64_char c =
    (leb 65 c && leb c 90)
    || ((leb 97 c && leb c 122) || ((leb 48 c && leb c 57) || (eqb c 43 || eqb c 47)))

abbrev is_padding : String → Bool
is_padding s = s == "" || (s == "=" || s == "==")

unfoldable pub is_base64_text : String → Bool
is_base64_text String.[] = true
is_base64_text (String.◌∷◌ c s) =
    let rest = is_base64_text s in
    if is_base64_char (code c) then rest else is_padding (String.◌∷◌ c s)

-- The check of `decode`.
unfoldable pub is_encoded : String → Bool
unfolding is_base64_text units
is_encoded value = is_base64_text value && eqb (units value % 4) 0

abbrev pub has_context : SealedSecret → SecretContext → Bool
has_context secret expected =
    eqb secret.aad_version 1
    && (secret.id == expected.id
        && (secret.organization_id == expected.organization_id
            && secret.purpose == expected.purpose))

module _ {B : Type 0} (c : Crypto B) where
  abbrev pub canonical_aad : SecretContext → AadKind → B
  canonical_aad context kind = c.utf8 (
      c.stringify (
        arr (
          cons (str "authlane.secret") (
            cons (num (natural 1)) (
              cons (str (kind_text kind)) (
                cons (str context.organization_id)
                  (cons (str context.id) (cons (str context.purpose) nil))))))))

  abbrev pub encrypt_aead : B → B → B → B → CiphertextParts B
  encrypt_aead iv plaintext key aad =
      let (ciphertext, tag) = c.encrypt key iv aad plaintext in
      record { ciphertext = ciphertext; iv = iv; tag = tag }

  unfoldable pub decrypt_aead : CiphertextParts B → B → B → Option B
  decrypt_aead parts key aad =
      if eqb (c.size parts.iv) 12 && eqb (c.size parts.tag) 16
      then c.decrypt key parts.iv aad parts.ciphertext parts.tag
      else none

  -- `decode` of the three texts.
  unfoldable pub decode_parts : String → String → String → Option (CiphertextParts B)
  unfolding is_encoded
  decode_parts ciphertext iv tag =
      if is_encoded ciphertext && (is_encoded iv && is_encoded tag)
      then some (record {
        ciphertext = c.from_base64 ciphertext;
        iv = c.from_base64 iv;
        tag = c.from_base64 tag;
      })
      else none

  -- Decoding and decrypting three texts.
  unfoldable pub decrypt_parts : String → String → String → B → B → Option B
  unfolding decode_parts decrypt_aead
  decrypt_parts ciphertext iv tag key aad = elim (decode_parts ciphertext iv tag) [
    | none ↦ none
    | some parts ↦ decrypt_aead parts key aad
  ]

  abbrev pub sized_key : Option B → Option B
  sized_key none = none
  sized_key (some key) = if eqb (c.size key) 32 then some key else none

  unfoldable pub require_key : Keyring B → String → Option B
  require_key keyring key_id = sized_key (keyring.keys key_id)

  unfoldable pub unwrap_dek : Keyring B → SealedSecret → SecretContext → Option B
  unfolding require_key decrypt_parts
  unwrap_dek keyring secret context = elim (require_key keyring secret.key_id) [
    | none ↦ none
    | some kek ↦ sized_key (
        decrypt_parts secret.wrapped_dek secret.wrapped_dek_iv secret.wrapped_dek_tag kek
          (canonical_aad context AadKind.dek))
  ]

  -- With the random data key and the two nonces.
  unfoldable pub seal : Keyring B → B → B → B → SecretContext → B → Option SealedSecret
  unfolding require_key
  seal keyring data_key payload_iv dek_iv input plaintext =
      elim (require_key keyring keyring.current_key_id) [
        | none ↦ none
        | some kek ↦
            let sealed =
              encrypt_aead payload_iv plaintext data_key (canonical_aad input AadKind.payload) in
            let wrapped = encrypt_aead dek_iv data_key kek (canonical_aad input AadKind.dek) in
            some (record {
              id = input.id;
              organization_id = input.organization_id;
              purpose = input.purpose;
              key_id = keyring.current_key_id;
              wrapped_dek = c.to_base64 wrapped.ciphertext;
              wrapped_dek_iv = c.to_base64 wrapped.iv;
              wrapped_dek_tag = c.to_base64 wrapped.tag;
              ciphertext = c.to_base64 sealed.ciphertext;
              payload_iv = c.to_base64 sealed.iv;
              payload_tag = c.to_base64 sealed.tag;
              aad_version = 1;
            })
      ]

  unfoldable pub open_secret : Keyring B → SealedSecret → SecretContext → Option B
  unfolding unwrap_dek decrypt_parts
  open_secret keyring secret expected =
      if has_context secret expected
      then elim (unwrap_dek keyring secret expected) [
        | none ↦ none
        | some data_key ↦
            decrypt_parts secret.ciphertext secret.payload_iv secret.payload_tag data_key
              (canonical_aad expected AadKind.payload)
      ]
      else none

  -- The secret with its data key wrapped under the current key.
  abbrev pub wrapped_again : Keyring B → B → B → B → SealedSecret → SecretContext → SealedSecret
  wrapped_again keyring dek_iv data_key kek secret expected =
      let wrapped = encrypt_aead dek_iv data_key kek (canonical_aad expected AadKind.dek) in
      record secret {
        key_id = keyring.current_key_id;
        wrapped_dek = c.to_base64 wrapped.ciphertext;
        wrapped_dek_iv = c.to_base64 wrapped.iv;
        wrapped_dek_tag = c.to_base64 wrapped.tag;
      }

  unfoldable pub rewrap : Keyring B → B → SealedSecret → SecretContext → Option SealedSecret
  unfolding unwrap_dek require_key
  rewrap keyring dek_iv secret expected =
      if has_context secret expected
      then if secret.key_id == keyring.current_key_id
        then some secret
        else elim (unwrap_dek keyring secret expected) [
          | none ↦ none
          | some data_key ↦ elim (require_key keyring keyring.current_key_id) [
            | none ↦ none
            | some kek ↦ some (wrapped_again keyring dek_iv data_key kek secret expected)
          ]
        ]
      else none
