-- ===== src/Tools/Merge.antt =====
-- `mergeProviderTools` of provider-tool-merge.ts. `before` is the order of `localeCompare`, which is
-- the platform's.
use authlane.Prelude.{
  String, Bool, true, false, not, Option, List, [], ◌∷◌, ◌++◌, map, filter, any, if◌then◌else◌,
  ◌<>◌,
}
use authlane.Prelude.Json.{Json}
use authlane.OAuth.Registry.{includes}
use authlane.Tools.Safety.{ToolAnnotations, ToolDefinition}

pub record DiscoveredProviderTool : Type 0 where
  pub name : String
  pub description : String
  pub input_schema : Json
  pub declared_annotations : Option Json

abbrev pub unreviewed_provider_annotations : ToolAnnotations
unreviewed_provider_annotations = record {
  read_only_hint = false;
  destructive_hint = false;
  idempotent_hint = false;
  open_world_hint = true;
}

abbrev pub contract_names : String → List String → List String
contract_names name prefixes = name ∷ map (λ p. p <> name) prefixes

-- Whether the contract has the tool, under any of its names.
abbrev pub is_declared : List ToolDefinition → List String → String → Bool
is_declared declared prefixes name =
    any (λ n. includes n (map (λ tool. tool.name) declared)) (contract_names name prefixes)

abbrev pub unreviewed : DiscoveredProviderTool → ToolDefinition
unreviewed tool = record {
  name = tool.name;
  description = tool.description;
  input_schema = tool.input_schema;
  annotations = unreviewed_provider_annotations;
}

-- `Array.prototype.sort`, which is stable, as an insertion.
abbrev pub insert :
    (String → String → Bool) → ToolDefinition → List ToolDefinition → List ToolDefinition
insert before tool [] = tool ∷ []
insert before tool (t ∷ ts) =
    if before t.name tool.name then t ∷ insert before tool ts else tool ∷ t ∷ ts

abbrev pub sort_by_name : (String → String → Bool) → List ToolDefinition → List ToolDefinition
sort_by_name before [] = []
sort_by_name before (tool ∷ tools) = insert before tool (sort_by_name before tools)

unfoldable pub additions :
    (String → String → Bool)
    → List ToolDefinition
    → List DiscoveredProviderTool
    → List String
    → List ToolDefinition
additions before declared discovered prefixes =
    sort_by_name before
      (map unreviewed (filter (λ tool. not (is_declared declared prefixes tool.name)) discovered))

unfoldable pub merge_provider_tools :
    (String → String → Bool)
    → List ToolDefinition
    → List DiscoveredProviderTool
    → List String
    → List ToolDefinition
unfolding additions
merge_provider_tools before declared discovered prefixes =
    declared ++ additions before declared discovered prefixes
