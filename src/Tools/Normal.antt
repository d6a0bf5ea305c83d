-- ===== src/Tools/Normal.antt =====
-- The tools that discovery stores, and what they become.
use authlane.Prelude.{
  ◌≤◌, ◌≡◌, refl, inl, inr, subst, String, Bool, true, false, not, ◌||◌, none, some, List, [], ◌∷◌,
  all, is_empty, units, ltb, All, All-map, Option-cases, unless_some, ◌==◌, eq_iff, arith,
}
use authlane.Prelude.Json.{Json, Fields, as_string, as_record, as_array, get}
use authlane.Store.Rows.{has_distinct}
use authlane.OAuth.Registry.{includes}
use authlane.Tools.Safety.{ToolRisk, ToolAccessPolicy, get_tool_risk, is_tool_allowed}
use authlane.Tools.Discovered.{
  DiscoveredTool, read_string, is_long_name, discovered_tool, named_tool, entry_tool,
  normalize_entries, normalize_discovered_tools, discovered_tools_to_integration,
}

-- A stored tool: it belongs to the server, has a name within the limit, and counts as a write.
pub record IsStored (server_id : String) (tool : DiscoveredTool) : Type 0 where
  pub of_server : tool.server_id ≡ server_id
  pub named : is_empty tool.name ≡ false
  pub short : units tool.name ≤ 128
  pub written : tool.risk ≡ ToolRisk.write

abbrev Fresh : String → List String → DiscoveredTool → Type 0
Fresh server_id seen tool = IsStored server_id tool × (includes tool.name seen ≡ false)

no_tool : {tool : DiscoveredTool} → none ≡ some tool → ⊥
no_tool h = ground arith

stored :
    (server_id name : String) (seen : List String) (entry : Fields) (long : Bool)
    → (is_empty name || (ltb 128 (units name) || (includes name seen || long))) ≡ false
    → Fresh server_id seen (discovered_tool server_id name entry)
stored server_id name seen entry long h = (
  record { of_server = refl; named = ground arith; short = ground arith; written = refl },
  ground arith,
)

named_tool-Fresh :
    (server_id : String) (seen : List String) (entry : Fields) (tool : DiscoveredTool)
    → named_tool server_id seen entry ≡ some tool
    → Fresh server_id seen tool
unfolding named_tool
named_tool-Fresh server_id seen entry tool h =
    elim (Option-cases (read_string 128 (get "name" entry))) [
      | inl e ↦ absurd (no_tool (rw (e, named_tool) at h))
      | inr (name, e) ↦
          let g = unless_some _ _ tool (rw (e, named_tool) at h) in
          subst (Fresh server_id seen) g.1
            (stored server_id name seen entry (is_long_name (as_string (get "name" entry))) g.0)
    ]

entry_tool-Fresh :
    (server_id : String) (seen : List String) (entry : Json) (tool : DiscoveredTool)
    → entry_tool server_id seen entry ≡ some tool
    → Fresh server_id seen tool
unfolding entry_tool
entry_tool-Fresh server_id seen entry tool h = elim (Option-cases (as_record entry)) [
  | inl e ↦ absurd (no_tool (rw (e, entry_tool) at h))
  | inr (fs, e) ↦ named_tool-Fresh server_id seen fs tool (rw (e, entry_tool) at h)
]

unseen-all :
    (id : String) (seen : List String) (tools : List DiscoveredTool)
    → All (λ t. includes t.name (id ∷ seen) ≡ false) tools
    → all (λ t. not (t.name == id)) tools ≡ true
unseen-all id seen [] h = refl
unseen-all id seen (t ∷ ts) h =
    ground (arith, eq_iff id t.name, eq_iff t.name id, unseen-all id seen ts h.1)

normalize_entries-Fresh :
    (server_id : String) (seen : List String) (entries : List Json)
    → let tools = normalize_entries server_id seen entries in
      All (Fresh server_id seen) tools × (has_distinct (λ t. t.name) tools ≡ true)
unfolding normalize_entries
normalize_entries-Fresh server_id seen [] = (tt, refl)
normalize_entries-Fresh server_id seen (entry ∷ entries) =
    elim (Option-cases (entry_tool server_id seen entry)) [
      | inl e ↦ rw (e, normalize_entries) (normalize_entries-Fresh server_id seen entries)
      | inr (tool, e) ↦
          let fresh = entry_tool-Fresh server_id seen entry tool e in
          let rest = normalize_entries-Fresh server_id (tool.name ∷ seen) entries in
          let unseen = unseen-all tool.name seen _ (
            All-map (Fresh server_id (tool.name ∷ seen))
              (λ t. includes t.name (tool.name ∷ seen) ≡ false) (λ t k. k.1)
              (normalize_entries server_id (tool.name ∷ seen) entries) rest.0) in
          rw (e, normalize_entries)
            (
              (
                fresh,
                All-map (Fresh server_id (tool.name ∷ seen)) (Fresh server_id seen)
                    (λ t k. (k.0, ground (arith, k.1)))
                    (normalize_entries server_id (tool.name ∷ seen) entries) rest.0,
              ),
              ground (arith, unseen, rest.1),
            )
    ]

-- Whatever a server answers, the tools that are stored belong to it, have distinct names of one to
-- 128 code units, and count as writes.
pub normalize_discovered_tools-IsStored :
    (server_id : String) (payload : Json)
    → let tools = normalize_discovered_tools server_id payload in
      All (IsStored server_id) tools × (has_distinct (λ t. t.name) tools ≡ true)
unfolding normalize_discovered_tools
normalize_discovered_tools-IsStored server_id payload = elim (Option-cases (as_record payload)) [
  | inl e ↦ rw (e, normalize_discovered_tools) (tt, refl)
  | inr (fs, e) ↦
      rw (e, normalize_discovered_tools)
        (elim (Option-cases (as_array (get "tools" fs))) [
          | inl f ↦ rw f (tt, refl)
          | inr (entries, f) ↦
              let h = normalize_entries-Fresh server_id [] entries in
              rw f (
                All-map (Fresh server_id []) (IsStored server_id) (λ t k. k.0)
                    (normalize_entries server_id [] entries) h.0,
                h.1,
              )
        ])
]

unoffered :
    (server_id : String) (tools : List DiscoveredTool)
    → All (IsStored server_id) tools
    → All
        (λ t.
          (is_tool_allowed t.annotations ToolAccessPolicy.read_only ≡ false)
          × (get_tool_risk t.annotations ≡ ToolRisk.write))
        (discovered_tools_to_integration tools)
unfolding is_tool_allowed get_tool_risk
unoffered server_id [] h = tt
unoffered server_id (t ∷ ts) h = (rw h.0.written (refl, refl), unoffered server_id ts h.1)

-- A tenant's server cannot bring a tool past the read-only policy, whatever it claims of its tools:
-- as discovery stores them, all are refused and shown as writes.
pub discovered_tools_to_integration-refused :
    (server_id : String) (payload : Json)
    → All
        (λ t.
          (is_tool_allowed t.annotations ToolAccessPolicy.read_only ≡ false)
          × (get_tool_risk t.annotations ≡ ToolRisk.write))
        (discovered_tools_to_integration (normalize_discovered_tools server_id payload))
discovered_tools_to_integration-refused server_id payload =
    unoffered server_id (normalize_discovered_tools server_id payload)
      (normalize_discovered_tools-IsStored server_id payload).0
