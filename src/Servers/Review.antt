-- ===== src/Servers/Review.antt =====
-- What a tenant decided on a tool, and which tools are issued, when a server is discovered again.
use authlane.Prelude.{
  ℕ, ◌≡◌, ◌⊎◌, ◌∙◌, ap, refl, sym, inl, inr, String, Bool, true, false, ◌&&◌, Option, none, some,
  List, [], ◌∷◌, any, filter, find, map, or_else, All, Bool-cases, ◌==◌, eq_iff, if◌then◌else◌,
  arith,
}
use authlane.Store.Rows.{update_where, update_where-Pointwise}
use authlane.Store.Keyed.{Related, Pointwise-find, find-append_new, find-update_miss}
use authlane.Tools.Safety.{ToolRisk}
use authlane.Tools.Discovered.{DiscoveredTool}
use authlane.Servers.Tables.{McpServer, McpServerTool, ServerState}
use authlane.Servers.Writes.{
  DiscoverySnapshot, is_tool, new_tool, seen_again, save_tool, save_tools, discovered,
  save_discovery_success,
}
use authlane.Servers.Reads.{is_on, is_issuable, to_tool, read_mcp_server_tools}

abbrev decision_of : Option McpServerTool → Option (ToolRisk × Bool)
decision_of none = none
decision_of (some t) = some (t.risk, t.approved)

-- The risk and the approval of a tool.
abbrev pub decision : String → String → List McpServerTool → Option (ToolRisk × Bool)
decision server_id name tools = decision_of (find (is_tool server_id name) tools)

-- A decision stays; a tool without one has none after, or counts as writing and approved.
abbrev pub Stands : Option (ToolRisk × Bool) → Option (ToolRisk × Bool) → Type 0
Stands before after = (after ≡ before) ⊎ ((before ≡ none) × (after ≡ some (ToolRisk.write, true)))

Stands-trans : (a b c : Option (ToolRisk × Bool)) → Stands a b → Stands b c → Stands a c
Stands-trans a b c (inl e) (inl f) = inl (f ∙ e)
Stands-trans a b c (inl e) (inr (f, g)) = inr (sym e ∙ f, g)
Stands-trans a b c (inr (e, f)) (inl g) = inr (e, g ∙ f)
Stands-trans a b c (inr (e, f)) (inr (g, h)) = absurd (no_decision (sym g ∙ f))
  where
    no_decision : ◌≡◌ {A = Option (ToolRisk × Bool)} none (some (ToolRisk.write, true)) → ⊥
    no_decision k = ground arith

-- A row that was seen again.
record SameTool (x y : McpServerTool) : Type 0 where
  server : y.server_id ≡ x.server_id
  name : y.name ≡ x.name
  risk : y.risk ≡ x.risk
  approved : y.approved ≡ x.approved

same_decision : (x y : Option McpServerTool) → Related SameTool x y → decision_of y ≡ decision_of x
same_decision none none h = refl
same_decision none (some y) h = absurd h
same_decision (some x) none h = absurd h
same_decision (some x) (some y) h = rw (h.risk, h.approved) refl

save_tool-Stands :
    (id server_id name : String) (now : ℕ) (tool : DiscoveredTool) (tools : List McpServerTool)
    → Stands (decision server_id name tools) (decision server_id name (save_tool id now tool tools))
unfolding save_tool
save_tool-Stands id server_id name now tool tools =
    elim (Bool-cases (any (is_tool id tool.name) tools)) [
      | inl e ↦
          rw (e, save_tool)
            (inl (
              same_decision _ _ (
                Pointwise-find SameTool (is_tool server_id name)
                  (λ x y h. rw (h.server, h.name) refl) tools _
                  (update_where-Pointwise SameTool (is_tool id tool.name) (seen_again now tool)
                    (λ t. ground arith) (λ t h. ground arith) tools))))
      | inr e ↦
          rw (e, save_tool, find-append_new (is_tool server_id name) tools (new_tool id now tool))
            (added (find (is_tool server_id name) tools)
              (is_tool server_id name (new_tool id now tool)))
    ]
  where
    added :
        (found : Option McpServerTool) (b : Bool)
        → Stands
            (decision_of found)
            (decision_of (or_else found (if b then some (new_tool id now tool) else none)))
    added (some t) b = inl refl
    added none true = inr (refl, refl)
    added none false = inl refl

save_tools-Stands :
    (id server_id name : String) (now : ℕ) (new : List DiscoveredTool) (tools : List McpServerTool)
    → Stands (decision server_id name tools) (decision server_id name (save_tools id now new tools))
unfolding save_tools
save_tools-Stands id server_id name now [] tools = inl refl
save_tools-Stands id server_id name now (tool ∷ rest) tools =
    Stands-trans _ _ _ (save_tool-Stands id server_id name now tool tools)
      (save_tools-Stands id server_id name now rest (save_tool id now tool tools))

-- A successful discovery keeps every decision of the tenant on a tool, of this server or another; a
-- tool that it adds counts as writing and is approved.
pub save_discovery_success-Stands :
    (id server_id name : String) (snapshot : DiscoverySnapshot) (now : ℕ) (st : ServerState)
    → Stands
        (decision server_id name st.tools)
        (decision server_id name (save_discovery_success id snapshot now st).tools)
unfolding save_discovery_success
save_discovery_success-Stands id server_id name snapshot now st =
    save_tools-Stands id server_id name now snapshot.tools st.tools

-- The tool of a name among those that are issued.
abbrev pub issued : String → String → ServerState → Option DiscoveredTool
issued server_id name st = find (λ t. t.name == name) (read_mcp_server_tools server_id st)

abbrev row_of : String → String → McpServerTool → Bool
row_of server_id name t = is_issuable server_id t && t.name == name

abbrev tool_of : Option McpServerTool → Option DiscoveredTool
tool_of none = none
tool_of (some t) = some (to_tool t)

find-issuable :
    (server_id name : String) (tools : List McpServerTool)
    → find (λ t. t.name == name) (map to_tool (filter (is_issuable server_id) tools))
      ≡ tool_of (find (row_of server_id name) tools)
find-issuable server_id name [] = refl
find-issuable server_id name (t ∷ ts) = elim (Bool-cases (is_issuable server_id t)) [
  | inr e ↦ rw e (find-issuable server_id name ts)
  | inl e ↦ elim (Bool-cases (t.name == name)) [
    | inl f ↦ rw (e, f) refl
    | inr f ↦ rw (e, f) (find-issuable server_id name ts)
  ]
]

save_tool-row :
    (server_id name : String) (now : ℕ) (tool : DiscoveredTool) (tools : List McpServerTool)
    → (tool.name == name) ≡ false
    → find (row_of server_id name) (save_tool server_id now tool tools)
      ≡ find (row_of server_id name) tools
unfolding save_tool
save_tool-row server_id name now tool tools other =
    elim (Bool-cases (any (is_tool server_id tool.name) tools)) [
      | inl e ↦
          rw (e, save_tool)
            (find-update_miss (row_of server_id name) (is_tool server_id tool.name)
              (seen_again now tool) (λ t. refl) apart tools)
      | inr e ↦
          rw
            (
              e,
              save_tool,
              find-append_new (row_of server_id name) tools (new_tool server_id now tool),
              not_new,
            )
            (alone (find (row_of server_id name) tools))
    ]
  where
    apart :
        (t : McpServerTool) → row_of server_id name t ≡ true → is_tool server_id tool.name t ≡ false
    apart t h = ground (arith, eq_iff t.name name, eq_iff t.name tool.name, eq_iff tool.name name)

    not_new : row_of server_id name (new_tool server_id now tool) ≡ false
    not_new = ground arith

    alone : (o : Option McpServerTool) → or_else o none ≡ o
    alone none = refl
    alone (some t) = refl

save_tools-row :
    (server_id name : String) (now : ℕ) (new : List DiscoveredTool) (tools : List McpServerTool)
    → All (λ t. (t.name == name) ≡ false) new
    → find (row_of server_id name) (save_tools server_id now new tools)
      ≡ find (row_of server_id name) tools
unfolding save_tools
save_tools-row server_id name now [] tools h = refl
save_tools-row server_id name now (tool ∷ rest) tools h =
    save_tools-row server_id name now rest (save_tool server_id now tool tools) h.1
    ∙ save_tool-row server_id name now tool tools h.0

on_after :
    (server_id : String) (snapshot : DiscoverySnapshot) (now : ℕ) (servers : List McpServer)
    → any (is_on server_id) servers ≡ true
    → any
        (is_on server_id)
        (update_where (λ s. s.id == server_id) (discovered snapshot now) servers)
      ≡ true
on_after server_id snapshot now [] h = h
on_after server_id snapshot now (s ∷ ss) h = elim (Bool-cases (s.id == server_id)) [
  | inl e ↦ rw (e, e) refl
  | inr e ↦ rw (e, e) (on_after server_id snapshot now ss (rw e at h))
]

-- A tool that was issued, and that a successful discovery does not find any more, is issued after it
-- as before.
pub save_discovery_success-issued :
    (server_id name : String) (snapshot : DiscoverySnapshot) (now : ℕ) (st : ServerState)
    → any (is_on server_id) st.servers ≡ true
    → All (λ t. (t.name == name) ≡ false) snapshot.tools
    → issued server_id name (save_discovery_success server_id snapshot now st)
      ≡ issued server_id name st
unfolding save_discovery_success read_mcp_server_tools
save_discovery_success-issued server_id name snapshot now st on gone =
    rw (on_after server_id snapshot now st.servers on, on)
      (find-issuable server_id name (save_tools server_id now snapshot.tools st.tools)
        ∙ ap tool_of (save_tools-row server_id name now snapshot.tools st.tools gone)
        ∙ sym (find-issuable server_id name st.tools))
