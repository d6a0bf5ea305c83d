-- ===== src/Discovery/Metadata.antt =====
-- How a server's authorization endpoints are found and accepted: `readOAuthMetadata`,
-- `readAuthorizationMetadata`, `resolveDeclaredIssuer` and `readIssuerMetadata`.
use authlane.Prelude.{
  ℕ, String, Bool, true, false, ◌&&◌, Option, none, some, List, [], ◌∷◌, is_empty, if◌then◌else◌,
  ◌==◌, ◌<>◌,
}
use authlane.Prelude.Json.{
  Json, null, bool, num, str, arr, obj, Number, get, as_string, as_record, as_array,
}
use authlane.OAuth.Trust.{UrlPlatform, McpEndpointTrust, is_same_host_or_subdomain, is_https_url}
use authlane.Discovery.Address.{ServerAddress, without_trailing_slash}

pub data RpcMessage : Type 0 where
  initialize initialized list_tools : RpcMessage

pub record McpRpcResponse : Type 0 where
  pub status : ℕ
  pub session_id : Option String
  pub challenge : Option String
  pub payload : Option Json

-- A call that throws gives `none`. A server's answer depends on the
-- messages of the run before it, the message, the session and the access token. `resource_metadata` is the match in a challenge.
pub record McpDiscoveryDeps : Type 0 where
  pub urls : UrlPlatform
  pub to_number : String → Number
  pub resource_metadata : String → Option String
  pub resolve_host : String → Option (List String)
  pub fetch_json : String → Option Json
  pub call_rpc :
      String → List RpcMessage → RpcMessage → Option String → Option String → Option McpRpcResponse

pub record McpOauthMetadata : Type 0 where
  pub authorization_endpoint : String
  pub token_endpoint : String
  pub registration_endpoint : Option String
  pub issuer : Option String
  pub endpoint_trust : McpEndpointTrust

-- An exception is taken like absent metadata, as the caller takes it.
pub data MetadataResult : Type 0 where
  absent untrusted : MetadataResult
  accepted : McpOauthMetadata → MetadataResult

abbrev pub passes : (String → Bool) → Option String → Bool
passes is_trusted none = true
passes is_trusted (some endpoint) = is_trusted endpoint

-- Both endpoints, either or none.
abbrev pub accept :
    (String → Bool)
    → Option String
    → McpEndpointTrust
    → Option String
    → Option String
    → Option String
    → MetadataResult
accept is_trusted issuer trust none none registration = absent
accept is_trusted issuer trust (some authorization) none registration = untrusted
accept is_trusted issuer trust none (some token) registration = untrusted
accept is_trusted issuer trust (some authorization) (some token) registration =
    if is_trusted authorization && (is_trusted token && passes is_trusted registration)
    then accepted (record {
      authorization_endpoint = authorization;
      token_endpoint = token;
      registration_endpoint = registration;
      issuer = issuer;
      endpoint_trust = trust;
    })
    else untrusted

unfoldable pub read_oauth_metadata :
    Option Json → (String → Bool) → Option String → McpEndpointTrust → MetadataResult
unfolding get
read_oauth_metadata none is_trusted issuer trust = absent
read_oauth_metadata (some payload) is_trusted issuer trust = elim (as_record payload) [
  | none ↦ absent
  | some fs ↦
      accept is_trusted issuer trust (as_string (get "authorization_endpoint" fs))
        (as_string (get "token_endpoint" fs)) (as_string (get "registration_endpoint" fs))
]

module _ (deps : McpDiscoveryDeps) where
  abbrev first_issuer : Option Json → Option String
  first_issuer none = none
  first_issuer (some resource) = elim (as_record resource) [
    | none ↦ none
    | some fs ↦ elim (as_array (get "authorization_servers" fs)) [
      | none ↦ none
      | some servers ↦ first servers
    ]
  ]
    where
      first : List Json → Option String
      first [] = none
      first (issuer ∷ rest) = as_string (some issuer)

  abbrev https_issuer : Option String → Option String
  https_issuer none = none
  https_issuer (some issuer) =
      if is_https_url deps.urls issuer then some (without_trailing_slash issuer) else none

  abbrev declared_at : String → Option String → Option String
  declared_at server_host none = none
  declared_at server_host (some resource) =
      if is_same_host_or_subdomain deps.urls server_host resource
      then https_issuer (first_issuer (deps.fetch_json resource))
      else none

  unfoldable pub resolve_declared_issuer : String → Option String → Option String
  unfolding without_trailing_slash is_same_host_or_subdomain get
  resolve_declared_issuer server_host none = none
  resolve_declared_issuer server_host (some challenge) =
      declared_at server_host (deps.resource_metadata challenge)

  -- A document that is `null` counts as none.
  abbrev document : Option Json → Option Json
  document none = none
  document (some null) = none
  document (some (bool b)) = some (bool b)
  document (some (num n)) = some (num n)
  document (some (str s)) = some (str s)
  document (some (arr vs)) = some (arr vs)
  document (some (obj fs)) = some (obj fs)

  -- The first candidate that answers.
  abbrev first_document : List String → Option Json
  first_document [] = none
  first_document (candidate ∷ rest) =
      let later = first_document rest in
      elim (deps.fetch_json candidate) [ some json ↦ some json | none ↦ later ]

  abbrev candidates : String → String → List String
  candidates origin path =
      if is_empty path
      then (origin <> "/.well-known/oauth-authorization-server") ∷ []
      else (origin <> ("/.well-known/oauth-authorization-server" <> path))
        ∷ (origin <> (path <> "/.well-known/oauth-authorization-server"))
        ∷ []

  -- The outer `none` where the issuer cannot be parsed, and the function throws.
  unfoldable pub read_issuer_metadata : String → Option (Option Json)
  unfolding without_trailing_slash
  read_issuer_metadata issuer = elim (deps.urls.parse_url issuer) [
    | none ↦ none
    | some parsed ↦ some (
        document
          (first_document (candidates parsed.origin (without_trailing_slash parsed.pathname))))
  ]

  abbrev pub names_issuer : String → Json → Bool
  names_issuer issuer json = elim (as_record json) [
    | none ↦ false
    | some fs ↦ elim (as_string (get "issuer" fs)) [
      | none ↦ false
      | some declared ↦ without_trailing_slash declared == issuer
    ]
  ]

  unfoldable pub read_guessed : ServerAddress → MetadataResult
  unfolding read_oauth_metadata is_same_host_or_subdomain
  read_guessed server =
      read_oauth_metadata
        (deps.fetch_json (server.url <> "/.well-known/oauth-authorization-server"))
        (is_same_host_or_subdomain deps.urls server.host) none McpEndpointTrust.server_host

  unfoldable pub read_declared : ServerAddress → String → MetadataResult
  unfolding read_issuer_metadata read_oauth_metadata read_guessed get
  read_declared server issuer = elim (read_issuer_metadata issuer) [
    | none ↦ absent
    | some found ↦ elim found [
      | none ↦ read_guessed server
      | some json ↦
          if names_issuer issuer json
          then read_oauth_metadata (some json) (is_https_url deps.urls) (some issuer)
              McpEndpointTrust.issuer_declared
          else untrusted
    ]
  ]

  unfoldable pub read_authorization_metadata : ServerAddress → Option String → MetadataResult
  unfolding resolve_declared_issuer read_declared
  read_authorization_metadata server challenge =
      elim (resolve_declared_issuer server.host challenge) [
        | none ↦ read_guessed server
        | some issuer ↦ if is_empty issuer then read_guessed server else read_declared server issuer
      ]
