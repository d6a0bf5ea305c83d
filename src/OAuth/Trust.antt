-- ===== src/OAuth/Trust.antt =====
-- Which endpoints of a tenant's MCP server are trusted: `isSameHostOrSubdomain` and
-- `isTrustedMcpEndpoint` of packages/shared/src/mcp-discovery.ts. `parse_url` and `lower`
-- (`toLowerCase`) are the platform's.
use authlane.Prelude.{
  String, Bool, false, ◌&&◌, ◌||◌, Option, none, some, ends_with, starts_with, ◌==◌, ◌<>◌,
}
use authlane.Net.Url.{Url}

pub record UrlPlatform : Type 0 where
  pub parse_url : String → Option Url
  pub lower : String → String

pub data McpEndpointTrust : Type 0 where
  issuer_declared server_host : McpEndpointTrust

pub record McpEndpointProvenance : Type 0 where
  pub server_host : String
  pub trust : Option McpEndpointTrust

abbrev pub is_mcp_server_id : String → Bool
is_mcp_server_id value = starts_with value "mcp-"

unfoldable pub is_same_host_or_subdomain : UrlPlatform → String → String → Bool
is_same_host_or_subdomain p anchor endpoint = elim (p.parse_url endpoint) [
  | none ↦ false
  | some parsed ↦
      let host = p.lower parsed.hostname in
      let registered = p.lower anchor in
      parsed.protocol == "https:" && (host == registered || ends_with host ("." <> registered))
]

abbrev pub is_https_url : UrlPlatform → String → Bool
is_https_url p value = elim (p.parse_url value) [
  | none ↦ false
  | some parsed ↦ parsed.protocol == "https:"
]

-- An endpoint under a provenance whose `trust` may not have been recorded.
abbrev pub is_trusted_with : UrlPlatform → String → String → Option McpEndpointTrust → Bool
is_trusted_with p endpoint anchor (some McpEndpointTrust.issuer_declared) = is_https_url p endpoint
is_trusted_with p endpoint anchor (some McpEndpointTrust.server_host) =
    is_same_host_or_subdomain p anchor endpoint
is_trusted_with p endpoint anchor none = is_same_host_or_subdomain p anchor endpoint

unfoldable pub is_trusted_mcp_endpoint : UrlPlatform → String → Option McpEndpointProvenance → Bool
is_trusted_mcp_endpoint p endpoint none = false
is_trusted_mcp_endpoint p endpoint (some provenance) =
    is_trusted_with p endpoint provenance.server_host provenance.trust
