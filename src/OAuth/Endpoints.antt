-- ===== src/OAuth/Endpoints.antt =====
-- `validateOAuthEndpoint`, `parseOAuthProviderContext`, `validateOAuthProviderContext` and
-- `normalizeOAuthScopeNames` of oauth-endpoints.ts. A function that throws returns `none`.
use authlane.Prelude.{
  String, Bool, true, ◌&&◌, ◌||◌, Option, none, some, List, [], ◌∷◌, find, length, units, ltb,
  is_empty, ends_with, if◌then◌else◌, ◌==◌, ◌<>◌,
}
use authlane.Prelude.Json.{Json, Fields, get, as_string, as_record, as_array}
use authlane.Net.Url.{Url}
use authlane.OAuth.Registry.{
  EndpointKind, oauth_endpoints, demo_oauth_endpoints, of_kind, includes, ContextProfile,
  provider_context_field,
}
use authlane.OAuth.Trust.{
  UrlPlatform, McpEndpointProvenance, is_mcp_server_id, is_trusted_mcp_endpoint,
}

-- The endpoints that a built-in service may use; `demo` is `isLocalDemoEndpointEnabled()`.
unfoldable pub allowlist : Bool → String → EndpointKind → List String
unfolding oauth_endpoints
allowlist demo service_id kind =
    if service_id == "authlane-demo" && demo
    then of_kind kind demo_oauth_endpoints
    else elim (find (λ e. e.service_id == service_id) oauth_endpoints) [
      | none ↦ []
      | some e ↦ of_kind kind e
    ]

unfoldable pub validate_oauth_endpoint :
    UrlPlatform
    → Bool
    → String
    → EndpointKind
    → String
    → Option McpEndpointProvenance
    → Option String
unfolding is_trusted_mcp_endpoint allowlist
validate_oauth_endpoint p demo service_id kind value provenance = elim (p.parse_url value) [
  | none ↦ none
  | some url ↦
      if is_mcp_server_id service_id
      then (if is_trusted_mcp_endpoint p url.href provenance then some url.href else none)
      else (if includes url.href (allowlist demo service_id kind) then some url.href else none)
]

-- The conditions on the origin that a provider names.
abbrev pub is_provider_origin : UrlPlatform → String → Url → Bool
is_provider_origin p parent_domain url =
    url.protocol == "https:"
    && is_empty url.username
    && is_empty url.password
    && is_empty url.port
    && url.pathname == "/"
    && is_empty url.search
    && is_empty url.hash
    && ends_with (p.lower url.hostname) ("." <> parent_domain)

-- The base URL of the API in a token response: outside `none` the function throws, inside it
-- returns `undefined`.
unfoldable pub parse_origin :
    UrlPlatform → ContextProfile → Bool → Option String → Option (Option String)
parse_origin p profile required none = if required then none else some none
parse_origin p profile required (some value) =
    if is_empty value then (if required then none else some none) else elim (p.parse_url value) [
      | none ↦ none
      | some url ↦
          if is_provider_origin p profile.parent_domain url then some (some url.origin) else none
    ]

unfoldable pub parse_oauth_provider_context :
    UrlPlatform → String → Fields → Bool → Option (Option String)
unfolding parse_origin get
parse_oauth_provider_context p service_id response required =
    elim (provider_context_field service_id) [
      | none ↦ some none
      | some profile ↦ parse_origin p profile required (as_string (get profile.field response))
    ]

unfoldable pub validate_oauth_provider_context :
    UrlPlatform → String → Option Json → Option (Option String)
unfolding parse_oauth_provider_context
validate_oauth_provider_context p service_id none = some none
validate_oauth_provider_context p service_id (some value) =
    elim (provider_context_field service_id) [
      | none ↦ none
      | some profile ↦ elim (as_record value) [
        | none ↦ none
        | some fs ↦ parse_origin p profile true (as_string (get "apiBaseUrl" fs))
      ]
    ]

-- The name of one scope: a text, or the `name` of an object.
abbrev pub scope_name : Json → Option String
unfolding get
scope_name entry = elim (as_string (some entry)) [
  | some name ↦ some name
  | none ↦ elim (as_record entry) [ none ↦ none | some fs ↦ as_string (get "name" fs) ]
]

unfoldable pub scope_names : List Json → Option (List String)
unfolding scope_name units
scope_names [] = some []
scope_names (entry ∷ entries) = elim (scope_name entry) [
  | none ↦ none
  | some name ↦
      if is_empty name || ltb 1000 (units name)
      then none
      else elim (scope_names entries) [ none ↦ none | some names ↦ some (name ∷ names) ]
]

unfoldable pub normalize_oauth_scope_names : Json → Option (List String)
unfolding scope_names
normalize_oauth_scope_names value = elim (as_array (some value)) [
  | none ↦ none
  | some entries ↦ if ltb 1000 (length entries) then none else scope_names entries
]
