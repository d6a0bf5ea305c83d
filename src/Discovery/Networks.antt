-- ===== src/Discovery/Networks.antt =====
-- The IPv4 networks that must never be dialled, as ranges of 32-bit addresses, and what an address
-- that is not refused lies outside of. It says nothing of IPv6 beyond `::`, `::1` and `fe80:`.
use authlane.Prelude.{
  ℕ, ◌+◌, ◌*◌, ◌≡◌, refl, inl, inr, String, Bool, true, false, not, ◌&&◌, ◌||◌, Option, none, some,
  List, [], ◌∷◌, map, all, leb, is_empty, starts_with, trim, if◌then◌else◌, and-eq-true, ◌==◌,
  Bool-cases, Option-cases, arith,
}
use authlane.Prelude.Json.{Number, natural, negative, not_finite}
use authlane.OAuth.Trust.{UrlPlatform}
use authlane.Discovery.Address.{
  has_char, split_dots, is_octet, octet, is_private_pair, are_private, is_private_ipv4, mapped_ipv4,
  is_private_ipv6, is_private_address,
}

abbrev pub in_range : ℕ → ℕ → ℕ → Bool
in_range first last n = leb first n && leb n last

-- 0.0.0.0/8, 10.0.0.0/8, 127.0.0.0/8, 169.254.0.0/16, 172.16.0.0/12 and 192.168.0.0/16.
abbrev pub is_reserved : ℕ → Bool
is_reserved n =
    in_range 0 16777215 n
    || in_range 167772160 184549375 n
    || in_range 2130706432 2147483647 n
    || in_range 2851995648 2852061183 n
    || in_range 2886729728 2887778303 n
    || in_range 3232235520 3232301055 n

abbrev pub address_value : ℕ → ℕ → ℕ → ℕ → ℕ
address_value a b c d = ((a * 256 + b) * 256 + c) * 256 + d

-- The value of four parts, if each is a number up to 255.
abbrev pub value_of : Number → Number → Number → Number → Option ℕ
value_of (natural a) (natural b) (natural c) (natural d) =
    if leb a 255 && (leb b 255 && (leb c 255 && leb d 255))
    then some (address_value a b c d)
    else none
value_of _ _ _ _ = none

abbrev pub quad_value : List Number → Option ℕ
quad_value (x ∷ y ∷ z ∷ w ∷ []) = value_of x y z w
quad_value [] = none
quad_value (x ∷ []) = none
quad_value (x ∷ y ∷ []) = none
quad_value (x ∷ y ∷ z ∷ []) = none
quad_value (x ∷ y ∷ z ∷ w ∷ v ∷ rest) = none

reserved_pair :
    (a b c d : ℕ)
    → leb a 255 ≡ true
    → leb b 255 ≡ true
    → leb c 255 ≡ true
    → leb d 255 ≡ true
    → is_private_pair a b ≡ false
    → is_reserved (address_value a b c d) ≡ false
reserved_pair a b c d ha hb hc hd h = ground arith

abbrev pub OutsideNetworks : Option ℕ → Type 0
OutsideNetworks none = Unit
OutsideNetworks (some n) = is_reserved n ≡ false

quad-OutsideNetworks :
    (a b c d : ℕ)
    → (leb a 255 && (leb b 255 && (leb c 255 && (leb d 255 && true))) && is_private_pair a b)
      ≡ false
    → OutsideNetworks (quad_value (natural a ∷ natural b ∷ natural c ∷ natural d ∷ []))
quad-OutsideNetworks a b c d h =
    elim (Bool-cases (leb a 255 && (leb b 255 && (leb c 255 && leb d 255)))) [
      | inr e ↦ rw e tt
      | inl e ↦
          let ka = and-eq-true _ _ e in
          let kb = and-eq-true _ _ ka.1 in
          let kc = and-eq-true _ _ kb.1 in
          rw e (reserved_pair a b c d ka.0 kb.0 kc.0 kc.1 (rw (ka.0, kb.0, kc.0, kc.1) at h))
    ]

module _ (to_number : String → Number) where
  numbers_private :
      (x y z w : Number)
      → (all is_octet (x ∷ y ∷ z ∷ w ∷ []) && is_private_pair (octet x) (octet y)) ≡ false
      → OutsideNetworks (quad_value (x ∷ y ∷ z ∷ w ∷ []))
  numbers_private (natural a) (natural b) (natural c) (natural d) h = quad-OutsideNetworks a b c d h
  numbers_private (natural a) (natural b) (natural c) (negative d) h = tt
  numbers_private (natural a) (natural b) (natural c) not_finite h = tt
  numbers_private (natural a) (natural b) (negative c) w h = tt
  numbers_private (natural a) (natural b) not_finite w h = tt
  numbers_private (natural a) (negative b) z w h = tt
  numbers_private (natural a) not_finite z w h = tt
  numbers_private (negative a) y z w h = tt
  numbers_private not_finite y z w h = tt

  parts_private :
      (parts : List String)
      → are_private to_number parts ≡ false
      → OutsideNetworks (quad_value (map to_number parts))
  parts_private [] h = tt
  parts_private (a ∷ []) h = tt
  parts_private (a ∷ b ∷ []) h = tt
  parts_private (a ∷ b ∷ c ∷ []) h = tt
  parts_private (a ∷ b ∷ c ∷ d ∷ []) h =
      numbers_private (to_number a) (to_number b) (to_number c) (to_number d) h
  parts_private (a ∷ b ∷ c ∷ d ∷ e ∷ rest) h = tt

  -- The IPv4 address that a text writes.
  abbrev pub v4_value : String → Option ℕ
  v4_value text = quad_value (map to_number (split_dots text))

  pub ipv4-OutsideNetworks :
      (text : String) → is_private_ipv4 to_number text ≡ false → OutsideNetworks (v4_value text)
  unfolding is_private_ipv4
  ipv4-OutsideNetworks text h = parts_private (split_dots text) h

-- The IPv4 address that an address has, by itself or inside an IPv6 one.
abbrev pub v4_text : String → Option String
v4_text value =
    if has_char 46 value && not (has_char 58 value) then some value else mapped_ipv4 value

-- What is known of an address that may be dialled, in lower case and trimmed.
abbrev pub IsOutside : (String → Number) → String → Option String → Type 0
IsOutside to_number value (some text) = OutsideNetworks (v4_value to_number text)
IsOutside to_number value none =
    ((value == "::") ≡ false) × ((value == "::1") ≡ false) × (starts_with value "fe80:" ≡ false)

abbrev pub IsDialable : UrlPlatform → (String → Number) → String → Type 0
IsDialable p to_number address =
    let value = p.lower (trim address) in
    (is_empty value ≡ false) × IsOutside to_number value (v4_text value)

pub or_false : (a b : Bool) → (a || b) ≡ false → (a ≡ false) × (b ≡ false)
or_false a b h = ground arith

ipv6_outside :
    (value : String)
    → is_private_ipv6 value ≡ false
    → ((value == "::") ≡ false) × ((value == "::1") ≡ false) × (starts_with value "fe80:" ≡ false)
unfolding is_private_ipv6
ipv6_outside value h =
    let k = or_false _ _ h in let l = or_false _ _ k.1 in (k.0, l.0, (or_false _ _ l.1).0)

pub is_private_address-IsDialable :
    (p : UrlPlatform) (to_number : String → Number) (address : String)
    → is_private_address p to_number address ≡ false
    → IsDialable p to_number address
unfolding is_private_address
is_private_address-IsDialable p to_number address h =
    let value = p.lower (trim address) in
    elim (Bool-cases (is_empty value)) [
      | inl e ↦ absurd (ground (arith, rw (e, is_private_address) at h))
      | inr e ↦ elim (Bool-cases (has_char 46 value && not (has_char 58 value))) [
        | inl f ↦
            rw (e, f)
              (refl, ipv4-OutsideNetworks to_number value (rw (e, f, is_private_address) at h))
        | inr f ↦ elim (Option-cases (mapped_ipv4 value)) [
          | inr (text, g) ↦
              rw (e, f, g)
                (refl, ipv4-OutsideNetworks to_number text (rw (e, f, g, is_private_address) at h))
          | inl g ↦ rw (e, f, g) (refl, ipv6_outside value (rw (e, f, g, is_private_address) at h))
        ]
      ]
    ]
