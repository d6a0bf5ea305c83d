-- ===== src/Net/ClientIp.antt =====
-- `resolveClientIp` of apps/api/src/lib/client-ip.ts. `isIP`, the membership of an address in a
-- subnet and the reading of a number are the platform's.
use Prim.Native.Char.{code}
use authlane.Prelude.{
  ℕ, String, Bool, false, not, ◌&&◌, ◌||◌, Option, none, some, List, [], ◌∷◌, ◌++◌, map, any, leb,
  eqb, get_or, is_empty, starts_with, trim, if◌then◌else◌, ◌<>◌,
}
use authlane.Prelude.Json.{Number, natural, negative, not_finite}

-- `family_of` is `isIP`: 4, 6, or 0 for no address. A subnet has its network, prefix and family.
pub record IpPlatform : Type 0 where
  pub family_of : String → ℕ
  pub in_subnet : String → ℕ → ℕ → String → ℕ → Bool
  pub to_number : String → Number

unfoldable pub split_text : ℕ → String → String → List String
split_text separator word String.[] = word ∷ []
split_text separator word (String.◌∷◌ c s) =
    if eqb (code c) separator
    then word ∷ split_text separator String.[] s
    else split_text separator (word <> String.◌∷◌ c String.[]) s

-- `value.split(separator)` for one character.
unfoldable pub split : ℕ → String → List String
unfolding split_text
split separator value = split_text separator String.[] value

after : String → String → String
after String.[] s = s
after (String.◌∷◌ c p) String.[] = String.[]
after (String.◌∷◌ c p) (String.◌∷◌ d s) = after p s

module _ (p : IpPlatform) where
  abbrev pub is_ip : String → Bool
  is_ip address = not (eqb (p.family_of address) 0)

  unfoldable pub normalize : String → String
  unfolding after
  normalize address =
      if starts_with address "::ffff:" && eqb (p.family_of (after "::ffff:" address)) 4
      then after "::ffff:" address
      else address

  abbrev longest_prefix : ℕ → ℕ
  longest_prefix family = if eqb family 4 then 32 else 128

  -- A subnet that counts, against an address.
  abbrev within : String → Number → String → Bool
  within network (negative n) address = false
  within network not_finite address = false
  within network (natural prefix) address =
      let family = p.family_of network in
      (eqb family 4 || eqb family 6)
      && (leb prefix (longest_prefix family)
          && p.in_subnet network prefix family address
              (if eqb (p.family_of address) 4 then 4 else 6))

  abbrev in_parts : String → List String → Bool
  in_parts address [] = false
  in_parts address (network ∷ []) =
      within (normalize network) (natural (longest_prefix (p.family_of (normalize network))))
        address
  in_parts address (network ∷ prefix ∷ rest) =
      within (normalize network) (p.to_number prefix) address

  -- `trusted.check(address, family)`, for the list of the entries.
  unfoldable pub is_trusted : List String → String → Bool
  unfolding normalize split
  is_trusted cidrs address = any (λ cidr. in_parts address (split 47 (trim cidr))) cidrs

  -- The loop from the last address of the chain.
  unfoldable pub last_untrusted : List String → List String → Option String
  unfolding is_trusted
  last_untrusted cidrs [] = none
  last_untrusted cidrs (address ∷ rest) = elim (last_untrusted cidrs rest) [
    | some found ↦ some found
    | none ↦ if is_empty address || is_trusted cidrs address then none else some address
  ]

  abbrev pub first_or : String → List String → String
  first_or remote [] = remote
  first_or remote (address ∷ rest) = if is_empty address then remote else address

  unfoldable pub forwarded_addresses : String → List String
  unfolding normalize split
  forwarded_addresses header = map (λ value. normalize (trim value)) (split 44 header)

  abbrev pub of_chain : List String → String → List String → String
  of_chain cidrs remote forwarded =
      if any (λ address. not (is_ip address)) forwarded
      then remote
      else get_or (last_untrusted cidrs (forwarded ++ (remote ∷ []))) (first_or remote forwarded)

  unfoldable pub resolve_client_ip : Option String → Option String → List String → String
  unfolding last_untrusted forwarded_addresses
  resolve_client_ip remote_address forwarded_for cidrs =
      let remote = normalize (get_or remote_address "") in
      let header = get_or forwarded_for "" in
      if not (is_ip remote)
      then "unknown"
      else if not (is_trusted cidrs remote) || is_empty header
      then remote
      else of_chain cidrs remote (forwarded_addresses header)
