-- ===== src/OAuth/TokenRequest.antt =====
-- `fetchOAuthToken` and `readLimitedJson` of oauth-endpoints.ts. The network, the encodings and
-- JSON are the platform's. A chunk is its list of bytes.
use authlane.Prelude.{
  ℕ, String, Bool, false, not, ◌||◌, Option, none, some, List, [], ◌∷◌, ◌++◌, filter, length, ltb,
  get_or, is_empty, if◌then◌else◌, ◌==◌, ◌<>◌,
}
use authlane.Prelude.Json.{Json, Fields, Number, natural, negative, not_finite, as_record}
use authlane.OAuth.Registry.{EndpointKind, has_basic_client_auth, has_json_token_body}
use authlane.OAuth.Trust.{UrlPlatform, McpEndpointProvenance}
use authlane.OAuth.Endpoints.{validate_oauth_endpoint}

pub record Param : Type 0 where
  pub name : String
  pub value : String

-- `URLSearchParams.set`, which replaces the first and drops the others.
abbrev pub set_param : String → String → List Param → List Param
set_param name value [] = record { name = name; value = value } ∷ []
set_param name value (q ∷ qs) =
    if q.name == name
    then record { name = name; value = value } ∷ filter (λ r. not (r.name == name)) qs
    else q ∷ set_param name value qs

abbrev pub delete_param : String → List Param → List Param
delete_param name params = filter (λ r. not (r.name == name)) params

pub record TokenRequest : Type 0 where
  pub url : String
  pub authorization : Option String
  pub is_json : Bool
  pub body : List Param

pub record TokenResponse : Type 0 where
  pub status : ℕ
  -- `Number(headers.get('content-length'))`.
  pub content_length : Number
  pub chunks : Option (List (List ℕ))

pub record TokenPlatform : Type 0 where
  pub urls : UrlPlatform
  pub demo : Bool
  pub base64 : String → String
  pub decode_json : List ℕ → Option Json
  -- `none` where the request fails.
  pub post : TokenRequest → Option TokenResponse

abbrev pub max_token_response_bytes : ℕ
max_token_response_bytes = 65536

-- The loop over the body's chunks, `bytes` being those read so far.
unfoldable pub read_chunks : List ℕ → List (List ℕ) → Option (List ℕ)
read_chunks bytes [] = some bytes
read_chunks bytes (chunk ∷ chunks) =
    let rest = read_chunks (bytes ++ chunk) chunks in
    if ltb max_token_response_bytes (length (bytes ++ chunk)) then none else rest

abbrev pub declares_too_large : Number → Bool
declares_too_large (natural n) = ltb max_token_response_bytes n
declares_too_large (negative n) = false
declares_too_large not_finite = false

unfoldable pub read_limited_json : TokenPlatform → TokenResponse → Option Fields
unfolding read_chunks
read_limited_json p response =
    if declares_too_large response.content_length then none else elim response.chunks [
      | none ↦ none
      | some chunks ↦ elim (read_chunks [] chunks) [
        | none ↦ none
        | some bytes ↦ elim (p.decode_json bytes) [ none ↦ none | some value ↦ as_record value ]
      ]
    ]

pub record FetchOptions : Type 0 where
  pub client_id : Option String
  pub client_secret : Option String
  pub mcp_provenance : Option McpEndpointProvenance

-- The request to an endpoint that was validated.
unfoldable pub token_request :
    TokenPlatform → String → String → List Param → FetchOptions → Option TokenRequest
token_request p service_id endpoint body options =
    if has_basic_client_auth service_id
    then if is_empty (get_or options.client_id "") || is_empty (get_or options.client_secret "")
      then none
      else some (record {
        url = endpoint;
        authorization = some (
            "Basic "
            <> p.base64 (get_or options.client_id "" <> (":" <> get_or options.client_secret "")));
        is_json = has_json_token_body service_id;
        body = delete_param "client_secret" (delete_param "client_id" body);
      })
    else some (record {
      url = endpoint;
      authorization = none;
      is_json = has_json_token_body service_id;
      body = body;
    })

-- The request that a call sends.
unfoldable pub sent_request :
    TokenPlatform → String → String → List Param → FetchOptions → Option TokenRequest
unfolding validate_oauth_endpoint token_request
sent_request p service_id token_url body options =
    elim (validate_oauth_endpoint p.urls p.demo service_id EndpointKind.token token_url
      options.mcp_provenance) [
        | none ↦ none
        | some endpoint ↦ token_request p service_id endpoint body options
      ]

-- The status and the body of the answer; `none` where the call throws.
unfoldable pub fetch_oauth_token :
    TokenPlatform → String → String → List Param → FetchOptions → Option (ℕ × Fields)
unfolding sent_request read_limited_json
fetch_oauth_token p service_id token_url body options =
    elim (sent_request p service_id token_url body options) [
      | none ↦ none
      | some request ↦ elim (p.post request) [
        | none ↦ none
        | some response ↦ elim (read_limited_json p response) [
          | none ↦ none
          | some fs ↦ some (response.status, fs)
        ]
      ]
    ]
