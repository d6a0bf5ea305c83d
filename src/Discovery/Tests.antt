-- ===== src/Discovery/Tests.antt =====
-- A server that refuses its tools and names an issuer, and the theorems at it.
use authlane.Prelude.{
  ◌≡◌, refl, subst, trim, String, true, false, Option, none, some, [], ◌∷◌, starts_with, is_empty,
  if◌then◌else◌, ◌==◌,
}
use authlane.Prelude.Json.{Json, str, arr, obj, natural, field, end, cons, nil}
use authlane.Net.Url.{Url}
use authlane.OAuth.Trust.{UrlPlatform, McpEndpointTrust}
use authlane.Flow.Tables.{McpServerConnectRow}
use authlane.Flow.Settings.{to_connect_config}
use authlane.Flow.Resolution.{ok, resolve_mcp_authorization}
use authlane.Discovery.Address.{ServerAddress, parse_server_url, is_private_address}
use authlane.Discovery.Metadata.{McpDiscoveryDeps, McpOauthMetadata}
use authlane.Discovery.Run.{McpDiscovery, failed, discovered, blocked_host, discover_mcp_server}
use authlane.Discovery.Connects.{registered, discover_mcp_server-connects}

abbrev url_of : String → Url
url_of host = record {
  href = "https://mcp.example/";
  protocol = "https:";
  username = "";
  password = "";
  hostname = host;
  port = "";
  pathname = "/";
  search = "";
  hash = "";
  origin = "https://auth.example";
}

abbrev urls : UrlPlatform
urls = record {
  parse_url = λ text.
      if is_empty text
      then none
      else some (url_of (if starts_with text "https://mcp" then "mcp.example" else "auth.example"));
  lower = λ text. text;
}

abbrev document : String → Json
document url =
    if url == "https://mcp.example/meta"
    then obj (field "authorization_servers" (arr (cons (str "https://auth.example/") nil)) end)
    else obj (
        field "issuer" (str "https://auth.example") (
          field "authorization_endpoint" (str "https://auth.example/authorize")
            (field "token_endpoint" (str "https://auth.example/token") end)))

abbrev deps : String → McpDiscoveryDeps
deps address = record {
  urls = urls;
  to_number = λ part. natural (if part == "10" then 10 else 8);
  resource_metadata = λ challenge. some challenge;
  resolve_host = λ host. some (address ∷ []);
  fetch_json = λ url. some (document url);
  call_rpc = λ url before message session_id access_token. some (record {
    status = 401;
    session_id = none;
    challenge = some "https://mcp.example/meta";
    payload = none;
  });
}

abbrev metadata : McpOauthMetadata
metadata = record {
  authorization_endpoint = "https://auth.example/authorize";
  token_endpoint = "https://auth.example/token";
  registration_endpoint = none;
  issuer = some "https://auth.example";
  endpoint_trust = McpEndpointTrust.issuer_declared;
}

abbrev found : McpDiscovery
found = record {
  server_url = "https://mcp.example";
  oauth_metadata = some metadata;
  tools = [];
  authorization_required = true;
}

abbrev stored : McpServerConnectRow
stored = record {
  id = "mcp-1";
  organization_id = "org";
  name = "Files";
  server_url = "";
  auth_type = "none";
  enabled = false;
  oauth_client_id = none;
  oauth_client_secret_id = none;
  oauth_metadata = none;
  authorization_required = true;
}

a_run : discover_mcp_server (deps "8.8.8.8") "mcp-1" "https://mcp.example/" none ≡ discovered found
unfolding discover_mcp_server is_private_address trim
a_run = refl

mapped : is_private_address urls (λ part. natural 127) "::ffff:127.0.0.1" ≡ true
unfolding is_private_address trim
mapped = refl

unique_local : is_private_address urls (λ part. natural 8) "fd12:3456::1" ≡ true
unfolding is_private_address trim
unique_local = refl

link_local : is_private_address urls (λ part. natural 8) "fe90::1" ≡ false
unfolding is_private_address trim
link_local = refl

a_private_host :
    discover_mcp_server (deps "10.8.8.8") "mcp-1" "https://mcp.example/" none ≡ failed blocked_host
unfolding discover_mcp_server is_private_address trim
a_private_host = refl

abbrev host_of : Option ServerAddress → String
host_of none = ""
host_of (some server) = server.host

same_host :
    (server : ServerAddress)
    → parse_server_url urls "https://mcp.example/" ≡ some server
    → "mcp.example" ≡ server.host
unfolding parse_server_url
same_host server h = subst (λ o. "mcp.example" ≡ host_of o) h refl

discover_mcp_server-connects_example :
    resolve_mcp_authorization urls
      (some (to_connect_config (registered stored "client" "https://mcp.example" metadata)))
    ≡ ok "https://auth.example/authorize" "client"
discover_mcp_server-connects_example =
    discover_mcp_server-connects (deps "8.8.8.8") "mcp-1" "https://mcp.example/" none found metadata
      stored "client" (url_of "mcp.example") refl refl same_host a_run refl refl
