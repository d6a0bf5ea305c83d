-- ===== src/Tools/Tests.antt =====
-- Runs on concrete tools, and the theorems at concrete inputs.
use authlane.Prelude.{◌≡◌, refl, String, true, false, none, [], ◌∷◌, map, filter, All, trim, units}
use authlane.Prelude.Json.{Json, null, str, arr, obj, field, end, cons, nil, get}
use authlane.Store.Rows.{has_distinct}
use authlane.Tools.Safety.{
  ToolRisk, ToolDefinition, ToolAccessPolicy, get_tool_risk, is_tool_allowed,
}
use authlane.Tools.Discovered.{
  slice, read_string, named_tool, entry_tool, normalize_entries, normalize_discovered_tools,
  discovered_tools_to_integration,
}
use authlane.Tools.Merge.{DiscoveredProviderTool, additions, merge_provider_tools}
use authlane.Tools.Policy.{merge_provider_tools-read_only}
use authlane.Tools.Normal.{
  IsStored, normalize_discovered_tools-IsStored, discovered_tools_to_integration-refused,
}

-- A server that calls its delete tool read-only, and names it twice.
abbrev claimed : Json
claimed = obj (
    field "tools"
      (arr (
        cons
          (obj (
            field "name" (str " delete ")
              (field "annotations" (obj (field "readOnlyHint" null end)) end)))
          (cons null (cons (obj (field "name" (str "delete") end)) nil))))
      end)

tools : Unit {0}
unfolding slice read_string named_tool entry_tool normalize_entries normalize_discovered_tools get
    trim units additions merge_provider_tools is_tool_allowed
tools = tt

one_delete : map (λ t. t.name) (normalize_discovered_tools "mcp-1" claimed) ≡ "delete" ∷ []
unfolding tools
one_delete = refl

normalize_discovered_tools-IsStored_example :
    let stored = normalize_discovered_tools "mcp-1" claimed in
    All (IsStored "mcp-1") stored × (has_distinct (λ t. t.name) stored ≡ true)
normalize_discovered_tools-IsStored_example = normalize_discovered_tools-IsStored "mcp-1" claimed

discovered_tools_to_integration-refused_example :
    All
      (λ t.
        (is_tool_allowed t.annotations ToolAccessPolicy.read_only ≡ false)
        × (get_tool_risk t.annotations ≡ ToolRisk.write))
      (discovered_tools_to_integration (normalize_discovered_tools "mcp-1" claimed))
discovered_tools_to_integration-refused_example =
    discovered_tools_to_integration-refused "mcp-1" claimed

abbrev list_tool : ToolDefinition
list_tool = record {
  name = "github_list";
  description = "";
  input_schema = null;
  annotations = record {
    read_only_hint = true;
    destructive_hint = false;
    idempotent_hint = true;
    open_world_hint = false;
  };
}

abbrev offer : String → DiscoveredProviderTool
offer name = record {
  name = name;
  description = "";
  input_schema = null;
  declared_annotations = none;
}

-- The contract's tool is not offered twice.
merges :
    map
      (λ t. t.name)
      (merge_provider_tools
        (λ a b. false)
        (list_tool ∷ [])
        (offer "list" ∷ offer "drop" ∷ [])
        ("github_" ∷ []))
    ≡ "github_list" ∷ "drop" ∷ []
unfolding tools
merges = refl

merge_provider_tools-read_only_example :
    filter
      (λ t. is_tool_allowed t.annotations ToolAccessPolicy.read_only)
      (merge_provider_tools (λ a b. false) (list_tool ∷ []) (offer "drop" ∷ []) [])
    ≡ filter (λ t. is_tool_allowed t.annotations ToolAccessPolicy.read_only) (list_tool ∷ [])
merge_provider_tools-read_only_example =
    merge_provider_tools-read_only (λ a b. false) (list_tool ∷ []) (offer "drop" ∷ []) []
