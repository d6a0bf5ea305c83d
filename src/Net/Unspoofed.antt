-- ===== src/Net/Unspoofed.antt =====
-- What a client writes in front of the addresses that the proxies append does not count.
use Prim.Native.Char.{code}
use text.Mathlib.TextLemmas.{nil-append, cons-append}
use authlane.Prelude.{
  ◌≡◌, refl, ap, ◌∙◌, inl, inr, String, false, not, Option, some, List, [], ◌∷◌, ◌++◌, map, any,
  any-append, trim, eqb, get_or, is_empty, ◌<>◌, Bool-cases,
}
use authlane.Net.ClientIp.{
  IpPlatform, split_text, split, normalize, is_ip, last_untrusted, forwarded_addresses, of_chain,
  resolve_client_ip,
}

split_text-append :
    (word s t : String)
    → split_text 44 word (s <> ("," <> t)) ≡ split_text 44 word s ++ split_text 44 String.[] t
unfolding split_text
split_text-append word String.[] t =
    rw (nil-append ("," <> t), cons-append _ String.[] t, nil-append t) refl
split_text-append word (String.◌∷◌ c s) t =
    rw (cons-append c s ("," <> t)) (elim (Bool-cases (eqb (code c) 44)) [
      | inl e ↦ rw e (ap (λ rest. word ∷ rest) (split_text-append String.[] s t))
      | inr e ↦ rw e (split_text-append (word <> String.◌∷◌ c String.[]) s t)
    ])

module _ (p : IpPlatform) (cidrs : List String) where
  last_untrusted-append :
      (xs ys : List String) (a : String)
      → last_untrusted p cidrs ys ≡ some a
      → last_untrusted p cidrs (xs ++ ys) ≡ some a
  unfolding last_untrusted
  last_untrusted-append [] ys a h = h
  last_untrusted-append (x ∷ xs) ys a h = rw (last_untrusted-append xs ys a h) refl

  append-nested : (xs ys zs : List String) → (xs ++ ys) ++ zs ≡ xs ++ (ys ++ zs)
  append-nested [] ys zs = refl
  append-nested (x ∷ xs) ys zs = ap (λ rest. x ∷ rest) (append-nested xs ys zs)

  map-append : (f : String → String) (xs ys : List String) → map f (xs ++ ys) ≡ map f xs ++ map f ys
  map-append f [] ys = refl
  map-append f (x ∷ xs) ys = ap (λ rest. f x ∷ rest) (map-append f xs ys)

  forwarded_addresses-append :
      (forged real : String)
      → forwarded_addresses p (forged <> ("," <> real))
        ≡ forwarded_addresses p forged ++ forwarded_addresses p real
  unfolding forwarded_addresses split
  forwarded_addresses-append forged real =
      ap (map (λ value. normalize p (trim value))) (split_text-append String.[] forged real)
      ∙ map-append _ (split_text 44 String.[] forged) (split_text 44 String.[] real)

  of_chain-append :
      (remote a : String) (xs ys : List String)
      → any (λ address. not (is_ip p address)) xs ≡ false
      → last_untrusted p cidrs (ys ++ (remote ∷ [])) ≡ some a
      → of_chain p cidrs remote (xs ++ ys) ≡ of_chain p cidrs remote ys
  of_chain-append remote a xs ys valid found =
      rw
        (
          any-append (λ address. not (is_ip p address)) xs ys,
          valid,
          append-nested xs ys (remote ∷ []),
          last_untrusted-append xs (ys ++ (remote ∷ [])) a found,
          found,
        )
        refl

not_empty-prefixed : (forged real : String) → is_empty (forged <> ("," <> real)) ≡ false
not_empty-prefixed String.[] real = rw (nil-append ("," <> real), cons-append _ String.[] real) refl
not_empty-prefixed (String.◌∷◌ c s) real = rw (cons-append c s ("," <> real)) refl

-- If what the proxies append to the forwarded addresses is not empty, and it or the connecting
-- machine has an address outside the trusted subnets, then valid addresses that a client writes in
-- front of it do not change the address that is taken for the client's.
pub resolve_client_ip-unspoofed :
    (p : IpPlatform) (cidrs : List String) (remote_address : Option String) (forged real a : String)
    → is_empty real ≡ false
    → any (λ address. not (is_ip p address)) (forwarded_addresses p forged) ≡ false
    → last_untrusted p cidrs
        (forwarded_addresses p real ++ (normalize p (get_or remote_address "") ∷ []))
      ≡ some a
    → resolve_client_ip p remote_address (some (forged <> ("," <> real))) cidrs
      ≡ resolve_client_ip p remote_address (some real) cidrs
unfolding resolve_client_ip
resolve_client_ip-unspoofed p cidrs remote_address forged real a there valid found =
    rw
      (
        not_empty-prefixed forged real,
        there,
        forwarded_addresses-append p cidrs forged real,
        of_chain-append p cidrs (normalize p (get_or remote_address "")) a
            (forwarded_addresses p forged) (forwarded_addresses p real) valid found,
      )
      refl
