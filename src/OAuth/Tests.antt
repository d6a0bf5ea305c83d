-- ===== src/OAuth/Tests.antt =====
-- Runs on concrete providers, and the theorems at concrete inputs.
use authlane.Prelude.{
  ◌≡◌, refl, true, false, none, some, [], ◌∷◌, ltb, ends_with, units, if◌then◌else◌, ◌==◌, trim,
  arith,
}
use authlane.Prelude.Json.{get}
use authlane.OAuth.Registry.{EndpointKind, includes, oauth_endpoints}
use authlane.OAuth.Trust.{McpEndpointProvenance, is_same_host_or_subdomain, is_trusted_mcp_endpoint}
use authlane.OAuth.Endpoints.{
  allowlist, validate_oauth_endpoint, scope_names, normalize_oauth_scope_names,
}
use authlane.OAuth.TokenRequest.{
  TokenRequest, FetchOptions, max_token_response_bytes, read_chunks, token_request,
}
use authlane.OAuth.Applications.{underscored, platform_oauth_credentials}
use authlane.OAuth.Samples.{token_url_of, url_platform}
use authlane.OAuth.Pinned.{
  Vouches, validate_oauth_endpoint-pinned, validate_oauth_endpoint-trusted, read_chunks-limit,
}

validation : Unit {0}
unfolding allowlist validate_oauth_endpoint oauth_endpoints is_trusted_mcp_endpoint
    is_same_host_or_subdomain ends_with scope_names normalize_oauth_scope_names get units
    underscored platform_oauth_credentials trim token_request read_chunks
validation = tt

abbrev vouched : McpEndpointProvenance
vouched = record { server_host = "github.com"; trust = none }

validate_oauth_endpoint-pinned_example :
    (includes token_url_of (allowlist false "github" EndpointKind.token) ≡ true)
    × (validate_oauth_endpoint url_platform false "github" EndpointKind.token token_url_of none
        ≡ some token_url_of)
unfolding validation
validate_oauth_endpoint-pinned_example =
    validate_oauth_endpoint-pinned url_platform false "github" EndpointKind.token token_url_of
      (some vouched) token_url_of refl refl

validate_oauth_endpoint-trusted_example :
    (origin : McpEndpointProvenance) × (some vouched ≡ some origin)
    × Vouches url_platform token_url_of origin
unfolding validation
validate_oauth_endpoint-trusted_example =
    validate_oauth_endpoint-trusted url_platform false "mcp-1" EndpointKind.token token_url_of
      (some vouched) token_url_of refl refl

-- A tenant's server without a recorded provenance has no endpoint.
unrecorded :
    validate_oauth_endpoint url_platform false "mcp-1" EndpointKind.token token_url_of none ≡ none
unfolding validation
unrecorded = refl

platform_application :
    platform_oauth_credentials
      (record {
        variable =
            λ name. if name == "AUTHLANE_OAUTH_google_drive_CLIENT_ID" then some " id " else none;
        upper = λ text. text;
      })
      "google-drive"
    ≡ some (record { client_id = "id"; client_secret = "" })
unfolding validation
platform_application = refl

abbrev both_credentials : FetchOptions
both_credentials = record {
  client_id = some "id";
  client_secret = some "key";
  mcp_provenance = none;
}

abbrev sent : TokenRequest
sent = record {
  url = token_url_of;
  authorization = some "Basic id:key";
  is_json = false;
  body = record { name = "code"; value = "c" } ∷ [];
}

read_chunks-limit_example :
    read_chunks [] ((1 ∷ 2 ∷ []) ∷ (3 ∷ []) ∷ [])
    ≡ (if ltb max_token_response_bytes 3 then none else some (1 ∷ 2 ∷ 3 ∷ []))
read_chunks-limit_example = read_chunks-limit [] ((1 ∷ 2 ∷ []) ∷ (3 ∷ []) ∷ []) (omega arith)
