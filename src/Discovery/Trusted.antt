-- ===== src/Discovery/Trusted.antt =====
-- The metadata that a discovery run accepts names endpoints that the routes trust later.
use authlane.Prelude.{
  ◌≡◌, inl, inr, String, Bool, true, Option, none, some, is_empty, ◌<>◌, Bool-cases, Option-cases,
}
use authlane.Prelude.Json.{Json, as_record}
use authlane.OAuth.Trust.{UrlPlatform, McpEndpointTrust, is_trusted_mcp_endpoint}
use authlane.Discovery.Address.{ServerAddress}
use authlane.Discovery.Metadata.{
  McpDiscoveryDeps, McpOauthMetadata, MetadataResult, absent, untrusted, accepted, passes, accept,
  read_oauth_metadata, resolve_declared_issuer, read_issuer_metadata, names_issuer, read_guessed,
  read_declared, read_authorization_metadata,
}

abbrev pub Accepts : (McpOauthMetadata → Type 0) → MetadataResult → Type 0
Accepts P absent = Unit
Accepts P untrusted = Unit
Accepts P (accepted metadata) = P metadata

-- The judgement of a route on an endpoint that is stored with its trust.
abbrev pub judge : UrlPlatform → String → McpEndpointTrust → String → Bool
judge p host trust endpoint =
    is_trusted_mcp_endpoint p endpoint (some (record { server_host = host; trust = some trust }))

abbrev pub Trusts : UrlPlatform → String → McpOauthMetadata → Type 0
Trusts p host metadata =
    (judge p host metadata.endpoint_trust metadata.authorization_endpoint ≡ true)
    × ((judge p host metadata.endpoint_trust metadata.token_endpoint ≡ true)
        × (passes (judge p host metadata.endpoint_trust) metadata.registration_endpoint ≡ true))

module _ (p : UrlPlatform) (host : String) where
  accept-Trusts :
      (trust : McpEndpointTrust) (issuer authorization token registration : Option String)
      → Accepts
          (Trusts p host)
          (accept (judge p host trust) issuer trust authorization token registration)
  accept-Trusts trust issuer none none registration = tt
  accept-Trusts trust issuer (some authorization) none registration = tt
  accept-Trusts trust issuer none (some token) registration = tt
  accept-Trusts trust issuer (some authorization) (some token) registration =
      elim (Bool-cases (judge p host trust authorization)) [
        | inr e ↦ rw (e, Accepts) tt
        | inl e ↦ elim (Bool-cases (judge p host trust token)) [
          | inr f ↦ rw (e, f) tt
          | inl f ↦ elim (Bool-cases (passes (judge p host trust) registration)) [
            | inr g ↦ rw (e, f, g) tt
            | inl g ↦ rw (e, f, g) (e, (f, g))
          ]
        ]
      ]

  read_oauth_metadata-Trusts :
      (trust : McpEndpointTrust) (issuer : Option String) (payload : Option Json)
      → Accepts (Trusts p host) (read_oauth_metadata payload (judge p host trust) issuer trust)
  unfolding read_oauth_metadata
  read_oauth_metadata-Trusts trust issuer none = tt
  read_oauth_metadata-Trusts trust issuer (some payload) = elim (Option-cases (as_record payload)) [
    | inl e ↦ rw (e, read_oauth_metadata) tt
    | inr (fs, e) ↦ rw (e, read_oauth_metadata) (accept-Trusts trust issuer _ _ _)
  ]

module _ (deps : McpDiscoveryDeps) (server : ServerAddress) where
  read_guessed-Trusts : Accepts (Trusts deps.urls server.host) (read_guessed deps server)
  unfolding read_guessed is_trusted_mcp_endpoint
  read_guessed-Trusts =
      read_oauth_metadata-Trusts deps.urls server.host McpEndpointTrust.server_host none
        (deps.fetch_json (server.url <> "/.well-known/oauth-authorization-server"))

  read_declared-Trusts :
      (issuer : String) → Accepts (Trusts deps.urls server.host) (read_declared deps server issuer)
  unfolding read_declared is_trusted_mcp_endpoint
  read_declared-Trusts issuer = elim (Option-cases (read_issuer_metadata deps issuer)) [
    | inl e ↦ rw (e, read_declared) tt
    | inr (none, e) ↦ rw (e, read_declared) read_guessed-Trusts
    | inr (some json, e) ↦ elim (Bool-cases (names_issuer deps issuer json)) [
      | inr f ↦ rw (e, f, read_declared) tt
      | inl f ↦
          rw (e, f, read_declared)
            (read_oauth_metadata-Trusts deps.urls server.host McpEndpointTrust.issuer_declared
              (some issuer) (some json))
    ]
  ]

  pub read_authorization_metadata-Trusts :
      (challenge : Option String)
      → Accepts (Trusts deps.urls server.host) (read_authorization_metadata deps server challenge)
  unfolding read_authorization_metadata
  read_authorization_metadata-Trusts challenge =
      elim (Option-cases (resolve_declared_issuer deps server.host challenge)) [
        | inl e ↦ rw (e, read_authorization_metadata) read_guessed-Trusts
        | inr (issuer, e) ↦ elim (Bool-cases (is_empty issuer)) [
          | inl f ↦ rw (e, f, read_authorization_metadata) read_guessed-Trusts
          | inr f ↦ rw (e, f, read_authorization_metadata) (read_declared-Trusts issuer)
        ]
      ]
