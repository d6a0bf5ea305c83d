-- ===== src/Servers/Writes.antt =====
-- The functions of mcp-servers.ts that write, as functions of the time and the tables.
use authlane.Prelude.{
  ℕ, String, Bool, true, false, not, ◌&&◌, Option, none, some, List, [], ◌∷◌, ◌++◌, any, filter,
  get_or, if◌then◌else◌, ◌==◌,
}
use authlane.Prelude.Json.{Json}
use authlane.Store.Rows.{update_where}
use authlane.Tools.Safety.{ToolRisk}
use authlane.Tools.Discovered.{DiscoveredTool}
use authlane.Servers.Tables.{McpServer, McpServerTool, ServerState}

pub record McpServerDraft : Type 0 where
  pub organization_id : String
  pub name : String
  pub server_url : String
  pub auth_type : String

abbrev drafted : String → McpServerDraft → ℕ → McpServer
drafted id draft now = record {
  id = id;
  organization_id = draft.organization_id;
  name = draft.name;
  server_url = draft.server_url;
  auth_type = draft.auth_type;
  discovered_at = none;
  discovery_error = none;
  oauth_metadata = none;
  oauth_client_id = none;
  oauth_client_secret_id = none;
  oauth_client_source = none;
  oauth_client_error = none;
  enabled = false;
  authorization_required = false;
  created_at = now;
  updated_at = now;
}

unfoldable pub create_mcp_server : String → McpServerDraft → ℕ → ServerState → ServerState
create_mcp_server id draft now st = record st { servers = st.servers ++ drafted id draft now ∷ [] }

pub record DiscoverySnapshot : Type 0 where
  pub server_url : String
  pub oauth_metadata : Option Json
  pub tools : List DiscoveredTool
  pub authorization_required : Bool

abbrev pub is_tool : String → String → McpServerTool → Bool
is_tool server_id name t = t.server_id == server_id && t.name == name

abbrev pub new_tool : String → ℕ → DiscoveredTool → McpServerTool
new_tool server_id now tool = record {
  server_id = server_id;
  name = tool.name;
  description = some tool.description;
  input_schema = tool.input_schema;
  declared_annotations = tool.declared_annotations;
  risk = ToolRisk.write;
  approved = true;
  first_seen_at = now;
  last_seen_at = now;
}

abbrev pub seen_again : ℕ → DiscoveredTool → McpServerTool → McpServerTool
seen_again now tool t = record t {
  description = some tool.description;
  input_schema = tool.input_schema;
  declared_annotations = tool.declared_annotations;
  last_seen_at = now;
}

unfoldable pub save_tool : String → ℕ → DiscoveredTool → List McpServerTool → List McpServerTool
save_tool server_id now tool tools =
    if any (is_tool server_id tool.name) tools
    then update_where (is_tool server_id tool.name) (seen_again now tool) tools
    else tools ++ new_tool server_id now tool ∷ []

unfoldable pub save_tools :
    String → ℕ → List DiscoveredTool → List McpServerTool → List McpServerTool
unfolding save_tool
save_tools server_id now [] tools = tools
save_tools server_id now (tool ∷ rest) tools =
    save_tools server_id now rest (save_tool server_id now tool tools)

abbrev pub discovered : DiscoverySnapshot → ℕ → McpServer → McpServer
discovered snapshot now s = record s {
  server_url = snapshot.server_url;
  oauth_metadata = snapshot.oauth_metadata;
  discovered_at = some now;
  discovery_error = none;
  enabled = true;
  authorization_required = snapshot.authorization_required;
  updated_at = now;
}

abbrev pub update_server : String → (McpServer → McpServer) → ServerState → ServerState
update_server server_id set st = record st {
  servers = update_where (λ s. s.id == server_id) set st.servers;
}

unfoldable pub save_discovery_success : String → DiscoverySnapshot → ℕ → ServerState → ServerState
unfolding save_tools
save_discovery_success server_id snapshot now st =
    record (update_server server_id (discovered snapshot now) st) {
      tools = save_tools server_id now snapshot.tools st.tools;
    }

unfoldable pub save_discovery_failure : String → String → ℕ → ServerState → ServerState
save_discovery_failure server_id message now =
    update_server server_id (λ s. record s { discovery_error = some message; updated_at = now })

unfoldable pub save_mcp_oauth_client :
    String → String → Option String → String → ℕ → ServerState → ServerState
save_mcp_oauth_client server_id client_id client_secret_id source now =
    update_server server_id (λ s. record s {
      oauth_client_id = some client_id;
      oauth_client_secret_id = client_secret_id;
      oauth_client_source = some source;
      oauth_client_error = none;
      updated_at = now;
    })

unfoldable pub save_mcp_oauth_client_error : String → Option String → ℕ → ServerState → ServerState
save_mcp_oauth_client_error server_id message now =
    update_server server_id (λ s. record s { oauth_client_error = message; updated_at = now })

unfoldable pub clear_mcp_oauth_client : String → ℕ → ServerState → ServerState
clear_mcp_oauth_client server_id now = update_server server_id (λ s. record s {
  oauth_client_id = none;
  oauth_client_secret_id = none;
  oauth_client_source = none;
  updated_at = now;
})

-- The tools go with their server.
unfoldable pub delete_mcp_server : String → ServerState → ServerState
delete_mcp_server server_id st = record {
  servers = filter (λ s. not (s.id == server_id)) st.servers;
  tools = filter (λ t. not (t.server_id == server_id)) st.tools;
}

-- A decision that is absent leaves what there is.
unfoldable pub update_mcp_server_tool :
    String → String → Option ToolRisk → Option Bool → ServerState → ServerState
update_mcp_server_tool server_id name risk approved st = record st {
  tools =
      update_where (is_tool server_id name)
        (λ t. record t { risk = get_or risk t.risk; approved = get_or approved t.approved })
        st.tools;
}
