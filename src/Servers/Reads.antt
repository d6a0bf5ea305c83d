-- ===== src/Servers/Reads.antt =====
-- The functions of mcp-servers.ts that read. The tables are in the order in which rows are selected,
-- and a tenant's rows are those of its organization.
use authlane.Prelude.{
  ℕ, String, Bool, false, ◌&&◌, Option, none, some, List, [], any, filter, find, map, take, ltb,
  get_or, if◌then◌else◌, ◌==◌,
}
use authlane.Tools.Discovered.{DiscoveredTool}
use authlane.Servers.Tables.{McpServer, McpServerTool, ServerState}

-- The server of the join.
abbrev pub is_on : String → McpServer → Bool
is_on server_id s = s.id == server_id && s.enabled

abbrev pub is_issuable : String → McpServerTool → Bool
is_issuable server_id t = t.server_id == server_id && t.approved

abbrev pub to_tool : McpServerTool → DiscoveredTool
to_tool t = record {
  server_id = t.server_id;
  name = t.name;
  description = get_or t.description "";
  input_schema = t.input_schema;
  declared_annotations = t.declared_annotations;
  risk = t.risk;
}

unfoldable pub read_mcp_server_tools : String → ServerState → List DiscoveredTool
read_mcp_server_tools server_id st =
    if any (is_on server_id) st.servers
    then map to_tool (filter (is_issuable server_id) st.tools)
    else []

unfoldable pub list_mcp_server_tools_for_review : String → ServerState → List McpServerTool
list_mcp_server_tools_for_review server_id st =
    if any (λ s. s.id == server_id) st.servers
    then filter (λ t. t.server_id == server_id) st.tools
    else []

unfoldable pub list_mcp_servers_for_organization : String → ServerState → List McpServer
list_mcp_servers_for_organization organization_id st =
    filter (λ s. s.organization_id == organization_id) st.servers

unfoldable pub read_mcp_server_oauth_client : String → String → ServerState → Option McpServer
read_mcp_server_oauth_client organization_id server_id st =
    find (λ s. s.id == server_id && s.organization_id == organization_id) st.servers

abbrev is_before : ℕ → Option ℕ → Bool
is_before t none = false
is_before t (some d) = ltb d t

unfoldable pub list_mcp_servers_due_for_discovery : ℕ → ℕ → ServerState → List McpServer
list_mcp_servers_due_for_discovery discovered_before limit st =
    take limit (filter (λ s. s.enabled && is_before discovered_before s.discovered_at) st.servers)
