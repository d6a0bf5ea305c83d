-- ===== src/OAuth/Pinned.antt =====
-- Where credentials may go: the endpoints that validation accepts, and the request for a token.
use authlane.Prelude.{
  ℕ, ◌≤◌, ◌≡◌, refl, sym, subst, ◌⊎◌, inl, inr, String, Bool, true, false, ◌&&◌, Option, none, some,
  List, [], ◌∷◌, ◌++◌, any, all, length, length-append, append-nil, append_assoc, ltb, All,
  Option-cases, and-eq-true, if_some, unless_some, concat, starts_with, if◌then◌else◌, ◌==◌, arith,
}
use authlane.OAuth.Registry.{EndpointKind, oauth_endpoints, includes, has_basic_client_auth}
use authlane.OAuth.Trust.{
  UrlPlatform, McpEndpointTrust, McpEndpointProvenance, is_mcp_server_id, is_same_host_or_subdomain,
  is_https_url, is_trusted_with, is_trusted_mcp_endpoint,
}
use authlane.OAuth.Endpoints.{allowlist, validate_oauth_endpoint}
use authlane.OAuth.TokenRequest.{
  Param, delete_param, TokenRequest, TokenPlatform, FetchOptions, max_token_response_bytes,
  read_chunks, token_request,
}

no_url : {x : String} → none ≡ some x → ⊥
no_url h = ground arith

not_both : false ≡ true → ⊥
not_both h = ground arith

is_same_host_or_subdomain-https :
    (p : UrlPlatform) (anchor endpoint : String)
    → is_same_host_or_subdomain p anchor endpoint ≡ true
    → is_https_url p endpoint ≡ true
unfolding is_same_host_or_subdomain
is_same_host_or_subdomain-https p anchor endpoint h = elim (Option-cases (p.parse_url endpoint)) [
  | inl e ↦ absurd (not_both (rw (e, is_same_host_or_subdomain) at h))
  | inr (url, e) ↦ rw (e, is_https_url) (and-eq-true _ _ (rw (e, is_same_host_or_subdomain) at h)).0
]

is_trusted_with-origin :
    (p : UrlPlatform) (endpoint anchor : String) (trust : Option McpEndpointTrust)
    → is_trusted_with p endpoint anchor trust ≡ true
    → (is_https_url p endpoint ≡ true)
      × ((trust ≡ some McpEndpointTrust.issuer_declared)
          ⊎ (is_same_host_or_subdomain p anchor endpoint ≡ true))
is_trusted_with-origin p endpoint anchor none h =
    (is_same_host_or_subdomain-https p anchor endpoint h, inr h)
is_trusted_with-origin p endpoint anchor (some McpEndpointTrust.issuer_declared) h = (h, inl refl)
is_trusted_with-origin p endpoint anchor (some McpEndpointTrust.server_host) h =
    (is_same_host_or_subdomain-https p anchor endpoint h, inr h)

-- A provenance under which an endpoint is trusted.
abbrev pub Vouches : UrlPlatform → String → McpEndpointProvenance → Type 0
Vouches p endpoint origin =
    (is_https_url p endpoint ≡ true)
    × ((origin.trust ≡ some McpEndpointTrust.issuer_declared)
        ⊎ (is_same_host_or_subdomain p origin.server_host endpoint ≡ true))

is_trusted_mcp_endpoint-origin :
    (p : UrlPlatform) (endpoint : String) (provenance : Option McpEndpointProvenance)
    → is_trusted_mcp_endpoint p endpoint provenance ≡ true
    → (origin : McpEndpointProvenance) × (provenance ≡ some origin) × Vouches p endpoint origin
unfolding is_trusted_mcp_endpoint
is_trusted_mcp_endpoint-origin p endpoint none h = absurd (not_both h)
is_trusted_mcp_endpoint-origin p endpoint (some origin) h =
    (origin, refl, is_trusted_with-origin p endpoint origin.server_host origin.trust h)

-- The endpoint of a built-in service is one of the service's own list, whatever provenance comes
-- with the call: the result is the same as with none.
pub validate_oauth_endpoint-pinned :
    (p : UrlPlatform) (demo : Bool) (service_id : String) (kind : EndpointKind) (value : String)
    (provenance : Option McpEndpointProvenance) (endpoint : String)
    → is_mcp_server_id service_id ≡ false
    → validate_oauth_endpoint p demo service_id kind value provenance ≡ some endpoint
    → (includes endpoint (allowlist demo service_id kind) ≡ true)
      × (validate_oauth_endpoint p demo service_id kind value none ≡ some endpoint)
unfolding validate_oauth_endpoint
validate_oauth_endpoint-pinned p demo service_id kind value provenance endpoint built_in h =
    elim (Option-cases (p.parse_url value)) [
      | inl e ↦ absurd (no_url (rw (e, validate_oauth_endpoint) at h))
      | inr (url, e) ↦
          let g = if_some _ _ endpoint (rw (e, validate_oauth_endpoint, built_in) at h) in
          (rw (sym g.1) g.0, rw (e, validate_oauth_endpoint, built_in) (rw (g.0, g.1) refl))
    ]

-- The endpoint of a tenant's server has a recorded provenance, and is over https; unless an issuer
-- declared it, its host is the server's or a subdomain of that.
pub validate_oauth_endpoint-trusted :
    (p : UrlPlatform) (demo : Bool) (service_id : String) (kind : EndpointKind) (value : String)
    (provenance : Option McpEndpointProvenance) (endpoint : String)
    → is_mcp_server_id service_id ≡ true
    → validate_oauth_endpoint p demo service_id kind value provenance ≡ some endpoint
    → (origin : McpEndpointProvenance) × (provenance ≡ some origin) × Vouches p endpoint origin
unfolding validate_oauth_endpoint
validate_oauth_endpoint-trusted p demo service_id kind value provenance endpoint tenant h =
    elim (Option-cases (p.parse_url value)) [
      | inl e ↦ absurd (no_url (rw (e, validate_oauth_endpoint) at h))
      | inr (url, e) ↦
          let g = if_some _ _ endpoint (rw (e, validate_oauth_endpoint, tenant) at h) in
          is_trusted_mcp_endpoint-origin p endpoint provenance (rw (sym g.1) g.0)
    ]

-- Every endpoint of every built-in service is over https.
oauth_endpoints-https :
    All
      (λ e.
        (all (λ url. starts_with url "https://") e.authorization
          && all (λ url. starts_with url "https://") e.token)
        ≡ true)
      oauth_endpoints
unfolding oauth_endpoints
oauth_endpoints-https = ground arith

delete_param-gone :
    (name : String) (params : List Param)
    → any (λ q. q.name == name) (delete_param name params) ≡ false
delete_param-gone name [] = refl
delete_param-gone name (q ∷ qs) = ground (arith, delete_param-gone name qs)

any-delete_param :
    (test : Param → Bool) (name : String) (params : List Param)
    → any test params ≡ false
    → any test (delete_param name params) ≡ false
any-delete_param test name [] h = refl
any-delete_param test name (q ∷ qs) h = ground (arith, any-delete_param test name qs)

clean_body :
    (params : List Param)
    → let body = delete_param "client_secret" (delete_param "client_id" params) in
      (any (λ q. q.name == "client_secret") body ≡ false)
      × (any (λ q. q.name == "client_id") body ≡ false)
clean_body params = (
  delete_param-gone "client_secret" (delete_param "client_id" params),
  any-delete_param (λ q. q.name == "client_id") "client_secret" (delete_param "client_id" params)
      (delete_param-gone "client_id" params),
)

-- A service that takes the client's credentials in a header is sent neither in the body.
token_request-basic :
    (p : TokenPlatform) (service_id endpoint : String) (body : List Param) (options : FetchOptions)
    (request : TokenRequest)
    → has_basic_client_auth service_id ≡ true
    → token_request p service_id endpoint body options ≡ some request
    → (any (λ q. q.name == "client_secret") request.body ≡ false)
      × (any (λ q. q.name == "client_id") request.body ≡ false)
unfolding token_request
token_request-basic p service_id endpoint body options request basic h =
    let g = unless_some _ _ request (rw (token_request, basic) at h) in
    rw (sym g.1) (clean_body body)

-- The loop over the chunks reads the whole body where it fits into 64 KiB, and fails where it does
-- not.
pub read_chunks-limit :
    (bytes : List ℕ) (chunks : List (List ℕ))
    → length bytes ≤ max_token_response_bytes
    → let whole = bytes ++ concat chunks in
      read_chunks bytes chunks
      ≡ (if ltb max_token_response_bytes (length whole) then none else some whole)
unfolding read_chunks
read_chunks-limit bytes [] h = rw (append-nil bytes) (ground arith)
read_chunks-limit bytes (chunk ∷ chunks) h =
    let r = read_chunks-limit (bytes ++ chunk) chunks in
    subst
      (λ whole.
        read_chunks bytes (chunk ∷ chunks)
        ≡ (if ltb max_token_response_bytes (length whole) then none else some whole))
      (append_assoc bytes chunk (concat chunks))
      (ground (arith, length-append (bytes ++ chunk) (concat chunks), r))
