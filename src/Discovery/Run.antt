-- ===== src/Discovery/Run.antt =====
-- The handshake and the discovery run: `readToolContract` and `discoverMcpServer`.
use authlane.Prelude.{
  String, Bool, true, false, Option, none, some, List, [], ◌∷◌, any, if◌then◌else◌, eqb,
}
use authlane.Prelude.Json.{Json, get, as_record}
use authlane.Outbox.Delivery.{response_ok}
use authlane.Tools.Discovered.{DiscoveredTool, normalize_discovered_tools}
use authlane.Discovery.Address.{ServerAddress, parse_server_url, is_private_address}
use authlane.Discovery.Metadata.{
  RpcMessage, initialize, initialized, list_tools, McpRpcResponse, McpDiscoveryDeps,
  McpOauthMetadata, MetadataResult, absent, untrusted, accepted, read_authorization_metadata,
}

pub data ToolContract : Type 0 where
  listed : Option Json → Option String → ToolContract
  unauthorized : Option String → ToolContract
  unreachable : ToolContract

-- The answer to `tools/list`.
abbrev listing : Option McpRpcResponse → ToolContract
listing none = unreachable
listing (some answer) =
    if eqb answer.status 401
    then unauthorized answer.challenge
    else if response_ok answer.status
    then listed answer.payload answer.challenge
    else unreachable

pub data McpDiscoveryFailureCode : Type 0 where
  invalid_url blocked_host untrusted_endpoint unreachable_server : McpDiscoveryFailureCode

pub record McpDiscovery : Type 0 where
  pub server_url : String
  pub oauth_metadata : Option McpOauthMetadata
  pub tools : List DiscoveredTool
  pub authorization_required : Bool

pub data McpDiscoveryResult : Type 0 where
  failed : McpDiscoveryFailureCode → McpDiscoveryResult
  discovered : McpDiscovery → McpDiscoveryResult

-- The result in its envelope, or bare.
abbrev rpc_result : Json → Json
rpc_result payload = elim (as_record payload) [
  | none ↦ payload
  | some fs ↦ elim (get "result" fs) [
    | none ↦ payload
    | some result ↦ elim (as_record result) [ none ↦ payload | some inner ↦ result ]
  ]
]

abbrev tools_of : String → Option Json → List DiscoveredTool
tools_of server_id none = []
tools_of server_id (some payload) = normalize_discovered_tools server_id (rpc_result payload)

-- The metadata that a run keeps; the outer `none` is the refusal.
abbrev pub kept_metadata : MetadataResult → Option (Option McpOauthMetadata)
kept_metadata absent = some none
kept_metadata untrusted = none
kept_metadata (accepted metadata) = some (some metadata)

module _ (deps : McpDiscoveryDeps) where
  -- `tools/list` after the messages of the handshake.
  abbrev ask_tools : String → List RpcMessage → Option String → Option String → ToolContract
  ask_tools url before session_id access_token =
      listing (deps.call_rpc url before list_tools session_id access_token)

  unfoldable pub read_tool_contract : String → Option String → ToolContract
  read_tool_contract url access_token = elim (deps.call_rpc url [] initialize none access_token) [
    | none ↦ ask_tools url (initialize ∷ []) none access_token
    | some opened ↦
        if eqb opened.status 401
        then unauthorized opened.challenge
        else if response_ok opened.status
        then ask_tools url (initialize ∷ initialized ∷ []) opened.session_id access_token
        else ask_tools url (initialize ∷ []) none access_token
  ]

  abbrev pub with_metadata :
      ServerAddress → Option String → List DiscoveredTool → Bool → McpDiscoveryResult
  with_metadata server challenge tools authorization_required =
      elim (kept_metadata (read_authorization_metadata deps server challenge)) [
        | none ↦ failed untrusted_endpoint
        | some metadata ↦ discovered (record {
          server_url = server.url;
          oauth_metadata = metadata;
          tools = tools;
          authorization_required = authorization_required;
        })
      ]

  abbrev pub discover_contract : String → ServerAddress → ToolContract → McpDiscoveryResult
  discover_contract server_id server unreachable = failed unreachable_server
  discover_contract server_id server (unauthorized challenge) =
      with_metadata server challenge [] true
  discover_contract server_id server (listed payload challenge) =
      with_metadata server challenge (tools_of server_id payload) false

  abbrev pub is_blocked : Option (List String) → Bool
  is_blocked none = true
  is_blocked (some []) = true
  is_blocked (some (address ∷ addresses)) =
      any (is_private_address deps.urls deps.to_number) (address ∷ addresses)

  unfoldable pub discover_mcp_server : String → String → Option String → McpDiscoveryResult
  unfolding read_tool_contract read_authorization_metadata parse_server_url
  discover_mcp_server server_id server_url access_token =
      elim (parse_server_url deps.urls server_url) [
        | none ↦ failed invalid_url
        | some server ↦
            if is_blocked (deps.resolve_host server.host)
            then failed blocked_host
            else discover_contract server_id server (read_tool_contract server.url access_token)
      ]
