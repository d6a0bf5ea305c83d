-- ===== src/Discovery/Address.antt =====
-- `parseServerUrl` and `isPrivateAddress` of packages/shared/src/mcp-discovery.ts. Lower case and
-- the reading of a number (`Number`, where `not_finite` stands for a number that is no integer too)
-- are the platform's.
use Prim.Native.Char.{Char, code}
use authlane.Prelude.{
  ℕ, String, Bool, true, false, not, ◌&&◌, ◌||◌, Option, none, some, List, [], ◌∷◌, all, leb, eqb,
  is_empty, starts_with, trim, if◌then◌else◌, ◌==◌, ◌<>◌,
}
use authlane.Prelude.Json.{Number, natural, negative, not_finite}
use authlane.OAuth.Trust.{UrlPlatform}

drop_slash : Char → String → String
drop_slash c String.[] = if eqb (code c) 47 then String.[] else String.◌∷◌ c String.[]
drop_slash c (String.◌∷◌ d s) = String.◌∷◌ c (drop_slash d s)

-- `value.replace(/\/$/, '')`.
unfoldable pub without_trailing_slash : String → String
unfolding drop_slash
without_trailing_slash String.[] = String.[]
without_trailing_slash (String.◌∷◌ c s) = drop_slash c s

pub record ServerAddress : Type 0 where
  pub url : String
  pub host : String

unfoldable pub parse_server_url : UrlPlatform → String → Option ServerAddress
unfolding without_trailing_slash
parse_server_url p value = elim (p.parse_url value) [
  | none ↦ none
  | some parsed ↦
      if not (parsed.protocol == "https:")
        || (not (is_empty parsed.username)
            || (not (is_empty parsed.password) || is_empty parsed.hostname))
      then none
      else some (record { url = without_trailing_slash parsed.href; host = parsed.hostname })
]

-- `value.includes(c)` for one character.
unfoldable pub has_char : ℕ → String → Bool
has_char n String.[] = false
has_char n (String.◌∷◌ c s) = eqb (code c) n || has_char n s

-- `value.split('.')`, with the text before the first dot.
split_from : String → String → List String
split_from word String.[] = word ∷ []
split_from word (String.◌∷◌ c s) =
    if eqb (code c) 46
    then word ∷ split_from String.[] s
    else split_from (word <> String.◌∷◌ c String.[]) s

unfoldable pub split_dots : String → List String
unfolding split_from
split_dots value = split_from String.[] value

abbrev pub is_octet : Number → Bool
is_octet (natural n) = leb n 255
is_octet (negative n) = false
is_octet not_finite = false

abbrev pub octet : Number → ℕ
octet (natural n) = n
octet (negative n) = 0
octet not_finite = 0

abbrev pub is_private_pair : ℕ → ℕ → Bool
is_private_pair a b =
    eqb a 0
    || eqb a 127
    || eqb a 10
    || (eqb a 172 && (leb 16 b && leb b 31))
    || (eqb a 192 && eqb b 168)
    || (eqb a 169 && eqb b 254)

abbrev pub are_private : (String → Number) → List String → Bool
are_private to_number (a ∷ b ∷ c ∷ d ∷ []) =
    all (λ part. is_octet (to_number part)) (a ∷ b ∷ c ∷ d ∷ [])
    && is_private_pair (octet (to_number a)) (octet (to_number b))
are_private to_number [] = false
are_private to_number (a ∷ []) = false
are_private to_number (a ∷ b ∷ []) = false
are_private to_number (a ∷ b ∷ c ∷ []) = false
are_private to_number (a ∷ b ∷ c ∷ d ∷ e ∷ rest) = false

unfoldable pub is_private_ipv4 : (String → Number) → String → Bool
unfolding split_dots
is_private_ipv4 to_number address = are_private to_number (split_dots address)

-- `/^\d+$/`.
all_digits : String → Bool
all_digits String.[] = true
all_digits (String.◌∷◌ c s) = (leb 48 (code c) && leb (code c) 57) && all_digits s

abbrev is_quad : List String → Bool
is_quad (a ∷ b ∷ c ∷ d ∷ []) =
    all (λ part. not (is_empty part) && all_digits part) (a ∷ b ∷ c ∷ d ∷ [])
is_quad [] = false
is_quad (a ∷ []) = false
is_quad (a ∷ b ∷ []) = false
is_quad (a ∷ b ∷ c ∷ []) = false
is_quad (a ∷ b ∷ c ∷ d ∷ e ∷ rest) = false

-- What follows a prefix.
unfoldable pub after_prefix : String → String → Option String
after_prefix String.[] value = some value
after_prefix (String.◌∷◌ c p) String.[] = none
after_prefix (String.◌∷◌ c p) (String.◌∷◌ d s) =
    let rest = after_prefix p s in if eqb (code c) (code d) then rest else none

abbrev quad : Option String → Option String
quad none = none
quad (some text) = if is_quad (split_dots text) then some text else none

-- The address inside an IPv4-mapped or IPv4-compatible one.
unfoldable pub mapped_ipv4 : String → Option String
unfolding after_prefix all_digits
mapped_ipv4 value = elim (quad (after_prefix "::ffff:" value)) [
  | some text ↦ some text
  | none ↦ quad (after_prefix "::" value)
]

is_hex : ℕ → Bool
is_hex n = (leb 48 n && leb n 57) || (leb 97 n && leb n 102)

-- `/^f[cd][0-9a-f]{2}:/`.
is_unique_local : String → Bool
unfolding is_hex
is_unique_local (String.◌∷◌ a (String.◌∷◌ b (String.◌∷◌ c (String.◌∷◌ d (String.◌∷◌ e rest))))) =
    eqb (code a) 102
    && ((eqb (code b) 99 || eqb (code b) 100)
        && (is_hex (code c) && (is_hex (code d) && eqb (code e) 58)))
is_unique_local _ = false

unfoldable pub is_private_ipv6 : String → Bool
unfolding is_unique_local
is_private_ipv6 value =
    value == "::" || (value == "::1" || (starts_with value "fe80:" || is_unique_local value))

unfoldable pub is_private_address : UrlPlatform → (String → Number) → String → Bool
unfolding has_char is_private_ipv4 mapped_ipv4 is_private_ipv6
is_private_address p to_number address =
    let value = p.lower (trim address) in
    if is_empty value
    then true
    else if has_char 46 value && not (has_char 58 value)
    then is_private_ipv4 to_number value
    else elim (mapped_ipv4 value) [
      | some text ↦ is_private_ipv4 to_number text
      | none ↦ is_private_ipv6 value
    ]
