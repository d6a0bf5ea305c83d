-- ===== src/Servers/Discovered.antt =====
-- A server is on only once it was discovered, whatever is written in between.
use authlane.Prelude.{
  ℕ, ◌≡◌, refl, String, Bool, true, false, not, Option, List, [], ◌∷◌, is_some, All, All-append,
  All-filter, arith, ◌==◌,
}
use authlane.Store.Rows.{update_where-All}
use authlane.Tools.Safety.{ToolRisk}
use authlane.Servers.Tables.{McpServer, ServerState}
use authlane.Servers.Writes.{
  McpServerDraft, create_mcp_server, DiscoverySnapshot, save_discovery_success,
  save_discovery_failure, save_mcp_oauth_client, save_mcp_oauth_client_error,
  clear_mcp_oauth_client, delete_mcp_server, update_mcp_server_tool, update_server,
}

-- The calls that write, each at its time.
pub data Write : Type 0 where
  create : String → McpServerDraft → ℕ → Write
  succeed : String → DiscoverySnapshot → ℕ → Write
  fail : String → String → ℕ → Write
  register : String → String → Option String → String → ℕ → Write
  explain : String → Option String → ℕ → Write
  clear : String → ℕ → Write
  delete : String → Write
  decide : String → String → Option ToolRisk → Option Bool → Write

unfoldable pub write : Write → ServerState → ServerState
unfolding create_mcp_server save_discovery_success save_discovery_failure save_mcp_oauth_client
    save_mcp_oauth_client_error clear_mcp_oauth_client delete_mcp_server update_mcp_server_tool
write (create id draft now) st = create_mcp_server id draft now st
write (succeed id snapshot now) st = save_discovery_success id snapshot now st
write (fail id message now) st = save_discovery_failure id message now st
write (register id client secret source now) st =
    save_mcp_oauth_client id client secret source now st
write (explain id message now) st = save_mcp_oauth_client_error id message now st
write (clear id now) st = clear_mcp_oauth_client id now st
write (delete id) st = delete_mcp_server id st
write (decide id name risk approved) st = update_mcp_server_tool id name risk approved st

unfoldable pub writes : List Write → ServerState → ServerState
unfolding write
writes [] st = st
writes (w ∷ ws) st = writes ws (write w st)

abbrev pub IsDiscovered : McpServer → Type 0
IsDiscovered s = s.enabled ≡ true → is_some s.discovered_at ≡ true

update_server-IsDiscovered :
    (id : String) (set : McpServer → McpServer)
    → ((s : McpServer) → IsDiscovered s → IsDiscovered (set s))
    → (st : ServerState) → All IsDiscovered st.servers
    → All IsDiscovered (update_server id set st).servers
update_server-IsDiscovered id set keep st =
    update_where-All IsDiscovered (λ s. s.id == id) set (λ s hit h. keep s h) st.servers

write-IsDiscovered :
    (w : Write) (st : ServerState)
    → All IsDiscovered st.servers
    → All IsDiscovered (write w st).servers
unfolding write
write-IsDiscovered (create id draft now) st h =
    All-append IsDiscovered st.servers _ h ((λ e. absurd (not_on e)), tt)
  where
    not_on : false ≡ true → ⊥
    not_on e = ground arith
write-IsDiscovered (succeed id snapshot now) st h =
    update_server-IsDiscovered id _ (λ s k e. refl) st h
write-IsDiscovered (fail id message now) st h = update_server-IsDiscovered id _ (λ s k. k) st h
write-IsDiscovered (register id client secret source now) st h =
    update_server-IsDiscovered id _ (λ s k. k) st h
write-IsDiscovered (explain id message now) st h = update_server-IsDiscovered id _ (λ s k. k) st h
write-IsDiscovered (clear id now) st h = update_server-IsDiscovered id _ (λ s k. k) st h
write-IsDiscovered (delete id) st h = All-filter IsDiscovered (λ s. not (s.id == id)) st.servers h
write-IsDiscovered (decide id name risk approved) st h = h

-- However calls that write follow each other, a server that is on has been discovered.
pub writes-IsDiscovered :
    (ws : List Write) (st : ServerState)
    → All IsDiscovered st.servers
    → All IsDiscovered (writes ws st).servers
unfolding writes
writes-IsDiscovered [] st h = h
writes-IsDiscovered (w ∷ ws) st h = writes-IsDiscovered ws (write w st) (write-IsDiscovered w st h)
