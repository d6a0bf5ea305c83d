-- ===== src/Net/Tests.antt =====
-- Requests behind one proxy, and the theorem at one of them.
use authlane.Prelude.{
  ◌≡◌, refl, String, some, List, [], ◌∷◌, is_empty, ◌||◌, trim, if◌then◌else◌, ◌==◌,
}
use authlane.Prelude.Json.{natural}
use authlane.Net.ClientIp.{
  IpPlatform, normalize, is_trusted, last_untrusted, forwarded_addresses, resolve_client_ip,
}
use authlane.Net.Unspoofed.{resolve_client_ip-unspoofed}

abbrev platform : IpPlatform
platform = record {
  family_of = λ address. if is_empty address || address == "x" then 0 else 4;
  in_subnet = λ network prefix family address of_address. network == address;
  to_number = λ text. natural 32;
}

abbrev proxies : List String
proxies = "10.0.0.1/32" ∷ []

from_client :
    resolve_client_ip platform (some "::ffff:10.0.0.1") (some "9.9.9.9, 10.0.0.1") proxies
    ≡ "9.9.9.9"
unfolding resolve_client_ip is_trusted normalize trim
from_client = refl

with_garbage : resolve_client_ip platform (some "10.0.0.1") (some "x,9.9.9.9") proxies ≡ "10.0.0.1"
unfolding resolve_client_ip is_trusted normalize trim
with_garbage = refl

an_address : last_untrusted platform proxies ("9.9.9.9" ∷ "10.0.0.1" ∷ []) ≡ some "9.9.9.9"
unfolding last_untrusted trim
an_address = refl

resolve_client_ip-unspoofed_example :
    resolve_client_ip platform (some "10.0.0.1") (some "1.1.1.1,9.9.9.9") proxies
    ≡ resolve_client_ip platform (some "10.0.0.1") (some "9.9.9.9") proxies
unfolding forwarded_addresses last_untrusted trim
resolve_client_ip-unspoofed_example =
    resolve_client_ip-unspoofed platform proxies (some "10.0.0.1") "1.1.1.1" "9.9.9.9" "9.9.9.9"
      refl refl refl
