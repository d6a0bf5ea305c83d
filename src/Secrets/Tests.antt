-- ===== src/Secrets/Tests.antt =====
-- A toy platform that satisfies what is documented, and the theorems at concrete inputs.
use authlane.Prelude.{
  List, [], ◌∷◌, ℕ, ◌≡◌, refl, String, true, none, some, units, if◌then◌else◌, ◌==◌,
}
use authlane.Secrets.Vault.{
  Crypto, SecretContext, SealedSecret, Keyring, is_base64_text, is_encoded, decode_parts,
  decrypt_aead, decrypt_parts, require_key, unwrap_dek, seal, open_secret, rewrap,
}
use authlane.Secrets.Store.{put, read, put-read}
use authlane.Secrets.Opening.{
  IsDocumented, seal-open_secret, rewrap-open_secret, open_secret-context,
}

-- Four values that stand for a key, a nonce, a tag and a text.
data Sample : Type 0 where
  key nonce tag text : Sample

abbrev size : Sample → ℕ
size key = 32
size nonce = 12
size tag = 16
size text = 5

abbrev to_base64 : Sample → String
to_base64 key = "AAAA"
to_base64 nonce = "BBBB"
to_base64 tag = "CCCC"
to_base64 text = "DDDD"

abbrev from_base64 : String → Sample
from_base64 s =
    if s == "AAAA" then key else if s == "BBBB" then nonce else if s == "CCCC" then tag else text

-- Encryption that hides nothing.
abbrev toy : Crypto Sample
toy = record {
  size = size;
  encrypt = λ k iv aad t. (t, tag);
  decrypt = λ k iv aad t g. some t;
  to_base64 = to_base64;
  from_base64 = from_base64;
  utf8 = λ s. text;
  stringify = λ json. "";
}

read_back : (s : Sample) → from_base64 (to_base64 s) ≡ s
read_back key = refl
read_back nonce = refl
read_back tag = refl
read_back text = refl

encoded : (s : Sample) → is_encoded (to_base64 s) ≡ true
unfolding is_encoded is_base64_text units
encoded key = refl
encoded nonce = refl
encoded tag = refl
encoded text = refl

toy-IsDocumented : IsDocumented toy
toy-IsDocumented = record {
  decrypts = λ k iv aad t. refl;
  tag_size = λ k iv aad t. refl;
  read_back = read_back;
  encoded = encoded;
}

abbrev keyring : Keyring Sample
keyring = record { current_key_id = "v2"; keys = λ id. some key }

abbrev context : SecretContext
context = record { id = "s1"; organization_id = "org"; purpose = "connection_credentials" }

abbrev sealed : SealedSecret
sealed = record {
  id = "s1";
  organization_id = "org";
  purpose = "connection_credentials";
  key_id = "v1";
  wrapped_dek = "AAAA";
  wrapped_dek_iv = "BBBB";
  wrapped_dek_tag = "CCCC";
  ciphertext = "DDDD";
  payload_iv = "BBBB";
  payload_tag = "CCCC";
  aad_version = 1;
}

vault : Unit {0}
unfolding is_encoded is_base64_text units decode_parts decrypt_aead decrypt_parts require_key
    unwrap_dek seal open_secret rewrap
vault = tt

-- Another organization's context opens nothing.
closed : open_secret toy keyring sealed (record context { organization_id = "other" }) ≡ none
unfolding vault
closed = refl

seal-open_secret_example :
    (secret : SealedSecret) × (seal toy keyring key nonce nonce context text ≡ some secret)
    × (open_secret toy keyring secret context ≡ some text)
unfolding vault
seal-open_secret_example =
    seal-open_secret toy toy-IsDocumented keyring key nonce nonce context text key refl refl refl
      refl

rewrap-open_secret_example :
    open_secret toy keyring (record sealed { key_id = "v2" }) context ≡ some text
unfolding vault
rewrap-open_secret_example =
    rewrap-open_secret toy toy-IsDocumented keyring nonce key sealed
      (record sealed { key_id = "v2" }) context text refl refl refl refl

open_secret-context_example :
    (sealed.id ≡ "s1")
    × (sealed.organization_id ≡ "org")
    × (sealed.purpose ≡ "connection_credentials")
unfolding vault
open_secret-context_example = open_secret-context toy keyring sealed context text refl

put-read_example :
    (table : List SealedSecret) × (put toy keyring "new" key nonce nonce
        (some "s1")
        "org"
        "connection_credentials"
        text
        (sealed ∷ [])
      ≡ some ("s1", table))
    × (read toy keyring context table ≡ some text)
unfolding vault
put-read_example =
    put-read toy toy-IsDocumented keyring "new" key nonce nonce (some "s1") "org"
      "connection_credentials" text key (sealed ∷ []) refl refl refl refl
