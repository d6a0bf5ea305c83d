-- ===== src/Discovery/Accepted.antt =====
-- What a discovery run that succeeds has established.
use authlane.Prelude.{
  ◌≡◌, refl, inl, inr, String, Bool, true, false, Option, none, some, List, [], ◌∷◌, any, All,
  Bool-cases, Option-cases, arith,
}
use authlane.Tools.Discovered.{DiscoveredTool}
use authlane.Discovery.Address.{ServerAddress, parse_server_url, is_private_address}
use authlane.Discovery.Metadata.{
  McpDiscoveryDeps, McpOauthMetadata, MetadataResult, absent, untrusted, accepted,
  read_authorization_metadata,
}
use authlane.Discovery.Run.{
  ToolContract, listed, unauthorized, unreachable, McpDiscovery, McpDiscoveryResult, failed,
  discovered, untrusted_endpoint, kept_metadata, with_metadata, discover_contract, is_blocked,
  discover_mcp_server,
}
use authlane.Discovery.Networks.{IsDialable, or_false, is_private_address-IsDialable}
use authlane.Discovery.Trusted.{Accepts, Trusts, read_authorization_metadata-Trusts}

-- An address list that has an address, and of which every address may be dialled.
abbrev pub AreDialable : McpDiscoveryDeps → Option (List String) → Type 0
AreDialable deps none = ⊥
AreDialable deps (some []) = ⊥
AreDialable deps (some (address ∷ addresses)) =
    All (IsDialable deps.urls deps.to_number) (address ∷ addresses)

abbrev Kept : (McpOauthMetadata → Type 0) → Option McpOauthMetadata → Type 0
Kept P none = Unit
Kept P (some metadata) = P metadata

abbrev Vetted : McpDiscoveryDeps → ServerAddress → McpDiscoveryResult → Type 0
Vetted deps server (failed code) = Unit
Vetted deps server (discovered d) =
    (d.server_url ≡ server.url) × Kept (Trusts deps.urls server.host) d.oauth_metadata

module _ (deps : McpDiscoveryDeps) (server : ServerAddress) where
  with_metadata-Vetted :
      (challenge : Option String) (tools : List DiscoveredTool) (required : Bool)
      → Vetted deps server (with_metadata deps server challenge tools required)
  with_metadata-Vetted challenge tools required =
      go (read_authorization_metadata deps server challenge)
        (read_authorization_metadata-Trusts deps server challenge)
    where
      go :
          (result : MetadataResult)
          → Accepts (Trusts deps.urls server.host) result
          → Vetted deps server (elim (kept_metadata result) [
            | none ↦ failed untrusted_endpoint
            | some metadata ↦ discovered (record {
              server_url = server.url;
              oauth_metadata = metadata;
              tools = tools;
              authorization_required = required;
            })
          ])
      go absent h = (refl, tt)
      go untrusted h = tt
      go (accepted metadata) h = (refl, h)

  discover_contract-Vetted :
      (server_id : String) (contract : ToolContract)
      → Vetted deps server (discover_contract deps server_id server contract)
  discover_contract-Vetted server_id unreachable = tt
  discover_contract-Vetted server_id (unauthorized challenge) =
      with_metadata-Vetted challenge [] true
  discover_contract-Vetted server_id (listed payload challenge) =
      with_metadata-Vetted challenge _ false

any-All :
    (deps : McpDiscoveryDeps) (addresses : List String)
    → any (is_private_address deps.urls deps.to_number) addresses ≡ false
    → All (IsDialable deps.urls deps.to_number) addresses
any-All deps [] h = tt
any-All deps (address ∷ rest) h =
    let k = or_false (is_private_address deps.urls deps.to_number address) _ h in
    (is_private_address-IsDialable deps.urls deps.to_number address k.0, any-All deps rest k.1)

is_blocked-AreDialable :
    (deps : McpDiscoveryDeps) (addresses : Option (List String))
    → is_blocked deps addresses ≡ false
    → AreDialable deps addresses
is_blocked-AreDialable deps none h = ground arith
is_blocked-AreDialable deps (some []) h = ground arith
is_blocked-AreDialable deps (some (address ∷ addresses)) h = any-All deps (address ∷ addresses) h

module _ (deps : McpDiscoveryDeps) (server_url : String) where
  -- What a run that succeeds has established.
  pub record IsVetted (d : McpDiscovery) : Type 0 where
    pub server : ServerAddress
    pub parsed : parse_server_url deps.urls server_url ≡ some server
    pub dialable : AreDialable deps (deps.resolve_host server.host)
    pub same_url : d.server_url ≡ server.url
    pub trusted : Kept (Trusts deps.urls server.host) d.oauth_metadata

  abbrev Succeeds : McpDiscoveryResult → Type 0
  Succeeds (failed code) = Unit
  Succeeds (discovered d) = IsVetted d

  Vetted-Succeeds :
      (server : ServerAddress)
      → parse_server_url deps.urls server_url ≡ some server
      → AreDialable deps (deps.resolve_host server.host)
      → (result : McpDiscoveryResult) → Vetted deps server result
      → Succeeds result
  Vetted-Succeeds server parsed dialable (failed code) h = tt
  Vetted-Succeeds server parsed dialable (discovered d) (url, trusted) = record {
    server = server;
    parsed = parsed;
    dialable = dialable;
    same_url = url;
    trusted = trusted;
  }

  discover_mcp_server-Succeeds :
      (server_id : String) (access_token : Option String)
      → Succeeds (discover_mcp_server deps server_id server_url access_token)
  unfolding discover_mcp_server
  discover_mcp_server-Succeeds server_id access_token =
      elim (Option-cases (parse_server_url deps.urls server_url)) [
        | inl e ↦ rw (e, discover_mcp_server) tt
        | inr (server, e) ↦ elim (Bool-cases (is_blocked deps (deps.resolve_host server.host))) [
          | inl f ↦ rw (e, f, discover_mcp_server) tt
          | inr f ↦
              rw (e, f, discover_mcp_server)
                (Vetted-Succeeds server e (is_blocked-AreDialable deps _ f) _
                  (discover_contract-Vetted deps server server_id _))
        ]
      ]

pub discover_mcp_server-IsVetted :
    (deps : McpDiscoveryDeps) (server_id server_url : String) (access_token : Option String)
    (d : McpDiscovery)
    → discover_mcp_server deps server_id server_url access_token ≡ discovered d
    → IsVetted deps server_url d
discover_mcp_server-IsVetted deps server_id server_url access_token d h =
    rw h at (discover_mcp_server-Succeeds deps server_url server_id access_token)
