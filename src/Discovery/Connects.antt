-- ===== src/Discovery/Connects.antt =====
-- From discovery to the redirect: the metadata that a run reports, stored with its server, is
-- resolved to an authorization.
use authlane.Prelude.{◌≡◌, refl, sym, subst, ◌∙◌, String, true, false, Option, none, some, is_empty}
use authlane.Prelude.Json.{Json, null, str, obj, field, end}
use authlane.Net.Url.{Url}
use authlane.OAuth.Trust.{
  UrlPlatform, McpEndpointTrust, is_trusted_mcp_endpoint, is_https_url, is_same_host_or_subdomain,
}
use authlane.Flow.Tables.{McpServerConnectRow}
use authlane.Flow.Settings.{read_endpoint_trust, to_connect_config, mcp_endpoint_provenance}
use authlane.Flow.Resolution.{ok, resolve_mcp_authorization}
use authlane.Discovery.Address.{ServerAddress, parse_server_url}
use authlane.Discovery.Metadata.{McpDiscoveryDeps, McpOauthMetadata}
use authlane.Discovery.Run.{McpDiscovery, discovered, discover_mcp_server}
use authlane.Discovery.Trusted.{Trusts, judge}
use authlane.Discovery.Accepted.{discover_mcp_server-IsVetted}

-- The metadata as its column holds it.
abbrev trust_text : McpEndpointTrust → String
trust_text McpEndpointTrust.issuer_declared = "issuer-declared"
trust_text McpEndpointTrust.server_host = "server-host"

abbrev text_or_null : Option String → Json
text_or_null none = null
text_or_null (some text) = str text

abbrev pub stored_metadata : McpOauthMetadata → Json
stored_metadata m = obj (
    field "authorizationEndpoint" (str m.authorization_endpoint) (
      field "tokenEndpoint" (str m.token_endpoint) (
        field "registrationEndpoint" (text_or_null m.registration_endpoint) (
          field "issuer" (text_or_null m.issuer)
            (field "endpointTrust" (str (trust_text m.endpoint_trust)) end)))))

-- A server that is enabled, has a client and keeps what a run reported.
abbrev pub registered :
    McpServerConnectRow → String → String → McpOauthMetadata → McpServerConnectRow
registered row client_id server_url metadata = record row {
  server_url = server_url;
  enabled = true;
  auth_type = "oauth2";
  oauth_client_id = some client_id;
  oauth_metadata = some (stored_metadata metadata);
}

module _ (p : UrlPlatform) (host : String) (no_url : p.parse_url "" ≡ none) where
  empty_untrusted : (trust : McpEndpointTrust) → judge p host trust "" ≡ false
  unfolding is_trusted_mcp_endpoint is_same_host_or_subdomain
  empty_untrusted McpEndpointTrust.issuer_declared = rw (no_url, is_https_url) refl
  empty_untrusted McpEndpointTrust.server_host = rw (no_url, is_same_host_or_subdomain) refl

  judged-not_empty :
      (trust : McpEndpointTrust) (endpoint : String)
      → judge p host trust endpoint ≡ true
      → is_empty endpoint ≡ false
  judged-not_empty trust String.[] h = sym h ∙ empty_untrusted trust
  judged-not_empty trust (String.◌∷◌ c s) h = refl

module _ (p : UrlPlatform) where
  read-trust_text :
      (trust : McpEndpointTrust) → read_endpoint_trust (some (trust_text trust)) ≡ some trust
  unfolding read_endpoint_trust
  read-trust_text McpEndpointTrust.issuer_declared = refl
  read-trust_text McpEndpointTrust.server_host = refl

  registered-resolves :
      (row : McpServerConnectRow) (client_id server_url : String) (metadata : McpOauthMetadata)
      (url : Url)
      → p.parse_url "" ≡ none
      → is_empty client_id ≡ false
      → p.parse_url server_url ≡ some url
      → Trusts p url.hostname metadata
      → resolve_mcp_authorization p
          (some (to_connect_config (registered row client_id server_url metadata)))
        ≡ ok metadata.authorization_endpoint client_id
  unfolding resolve_mcp_authorization mcp_endpoint_provenance to_connect_config
  registered-resolves row client_id server_url metadata url no_url c e (a, (t, r)) =
      rw
        (
          read-trust_text metadata.endpoint_trust,
          c,
          judged-not_empty p url.hostname no_url metadata.endpoint_trust
              metadata.authorization_endpoint a,
          judged-not_empty p url.hostname no_url metadata.endpoint_trust metadata.token_endpoint t,
        )
        (rw (e, mcp_endpoint_provenance, a, t) refl)

-- What a run that succeeds reports connects: if the metadata it reports is stored with the server it
-- reports, a server that is enabled and has a client is resolved to the authorization endpoint that
-- was reported. The reported URL parses, with the host that was resolved, and the empty text does
-- not parse.
pub discover_mcp_server-connects :
    (deps : McpDiscoveryDeps) (server_id server_url : String) (access_token : Option String)
    (d : McpDiscovery) (metadata : McpOauthMetadata) (row : McpServerConnectRow)
    (client_id : String) (url : Url)
    → deps.urls.parse_url "" ≡ none
    → deps.urls.parse_url d.server_url ≡ some url
    → ((server : ServerAddress)
        → parse_server_url deps.urls server_url ≡ some server
        → url.hostname ≡ server.host)
    → discover_mcp_server deps server_id server_url access_token ≡ discovered d
    → d.oauth_metadata ≡ some metadata
    → is_empty client_id ≡ false
    → resolve_mcp_authorization deps.urls
        (some (to_connect_config (registered row client_id d.server_url metadata)))
      ≡ ok metadata.authorization_endpoint client_id
discover_mcp_server-connects deps server_id server_url access_token d metadata row client_id url
      no_url e same h kept c =
    let vetted = discover_mcp_server-IsVetted deps server_id server_url access_token d h in
    registered-resolves deps.urls row client_id d.server_url metadata url no_url c e (
      subst (λ host. Trusts deps.urls host metadata) (sym (same vetted.server vetted.parsed))
        (rw kept at vetted.trusted))
