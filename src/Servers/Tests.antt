-- ===== src/Servers/Tests.antt =====
-- Runs of the writes on a small table, and the theorems at concrete inputs.
use authlane.Prelude.{◌≡◌, refl, String, false, none, some, List, [], ◌∷◌, All}
use authlane.Prelude.Json.{null}
use authlane.Tools.Safety.{ToolRisk}
use authlane.Tools.Discovered.{DiscoveredTool}
use authlane.Servers.Tables.{ServerState}
use authlane.Servers.Writes.{
  create_mcp_server, DiscoverySnapshot, save_tool, save_tools, save_discovery_success,
  update_mcp_server_tool,
}
use authlane.Servers.Reads.{read_mcp_server_tools}
use authlane.Servers.Review.{
  decision, Stands, save_discovery_success-Stands, issued, save_discovery_success-issued,
}
use authlane.Servers.Discovered.{
  create, succeed, decide, Write, write, writes, IsDiscovered, writes-IsDiscovered,
}

abbrev tool : String → DiscoveredTool
tool name = record {
  server_id = "mcp-1";
  name = name;
  description = "d";
  input_schema = null;
  declared_annotations = none;
  risk = ToolRisk.write;
}

abbrev snapshot : List DiscoveredTool → DiscoverySnapshot
snapshot tools = record {
  server_url = "https://mcp.example";
  oauth_metadata = none;
  tools = tools;
  authorization_required = false;
}

abbrev empty : ServerState
empty = record { servers = []; tools = [] }

abbrev history : List Write
history =
    create "mcp-1"
      (record {
        organization_id = "org";
        name = "Server";
        server_url = "https://mcp.example";
        auth_type = "oauth2";
      })
      1
    ∷ succeed "mcp-1" (snapshot (tool "a" ∷ tool "b" ∷ [])) 2
    ∷ decide "mcp-1" "a" (some ToolRisk.read) none
    ∷ []

runs : Unit {0}
unfolding writes write create_mcp_server save_discovery_success save_tools save_tool
    update_mcp_server_tool read_mcp_server_tools
runs = tt

abbrev now_on : ServerState
now_on = writes history empty

-- The tool that was reviewed keeps its risk, and the one that has vanished is still issued.
after_rediscovery :
    read_mcp_server_tools "mcp-1"
      (save_discovery_success "mcp-1" (snapshot (tool "a" ∷ [])) 9 now_on)
    ≡ record (tool "a") { risk = ToolRisk.read } ∷ tool "b" ∷ []
unfolding runs
after_rediscovery = refl

save_discovery_success-Stands_example : Stands (decision "mcp-1" "a" now_on.tools) (
    decision "mcp-1" "a" (save_discovery_success "mcp-1" (snapshot (tool "a" ∷ [])) 9 now_on).tools)
save_discovery_success-Stands_example =
    save_discovery_success-Stands "mcp-1" "mcp-1" "a" (snapshot (tool "a" ∷ [])) 9 now_on

save_discovery_success-issued_example :
    issued "mcp-1" "b" (save_discovery_success "mcp-1" (snapshot (tool "a" ∷ [])) 9 now_on)
    ≡ issued "mcp-1" "b" now_on
unfolding runs
save_discovery_success-issued_example =
    save_discovery_success-issued "mcp-1" "b" (snapshot (tool "a" ∷ [])) 9 now_on refl (refl, tt)

writes-IsDiscovered_example : All IsDiscovered now_on.servers
writes-IsDiscovered_example = writes-IsDiscovered history empty tt
