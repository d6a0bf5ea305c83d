-- ===== src/Tools/Discovered.antt =====
-- `normalizeDiscoveredTools` and `discoveredToolsToIntegration` of mcp-discovery.ts.
use Prim.Native.Char.{Char, code}
use authlane.Prelude.{
  ℕ, ◌-◌, String, Bool, true, false, ◌||◌, Option, none, some, List, [], ◌∷◌, map, get_or, is_empty,
  trim, units, leb, ltb, if◌then◌else◌,
}
use authlane.Prelude.Json.{Json, str, Fields, obj, field, end, get, as_string, as_record, as_array}
use authlane.OAuth.Registry.{includes}
use authlane.Tools.Safety.{ToolRisk, ToolDefinition}

pub record DiscoveredTool : Type 0 where
  pub server_id : String
  pub name : String
  pub description : String
  pub input_schema : Json
  pub declared_annotations : Option Json
  pub risk : ToolRisk

abbrev pub width : Char → ℕ
width c = if ltb (code c) 65536 then 1 else 2

-- `s.slice(0, max)`; a character that the limit would cut in half is left out, since a text has no
-- halves.
unfoldable pub slice : ℕ → String → String
slice max String.[] = String.[]
slice max (String.◌∷◌ c s) =
    let rest = slice (max - width c) s in if leb (width c) max then String.◌∷◌ c rest else String.[]

abbrev read_text : ℕ → Option String → Option String
read_text max none = none
read_text max (some text) = if is_empty (trim text) then none else some (slice max (trim text))

-- `readString`.
unfoldable pub read_string : ℕ → Option Json → Option String
unfolding slice trim
read_string max value = read_text max (as_string value)

-- The value if it is an object.
abbrev pub record_or_none : Option Json → Option Json
record_or_none none = none
record_or_none (some value) = elim (as_record value) [ none ↦ none | some fs ↦ some value ]

-- Whether a name is over its limit before it is cut.
abbrev pub is_long_name : Option String → Bool
is_long_name none = false
is_long_name (some text) = ltb 128 (units (trim text))

abbrev pub discovered_tool : String → String → Fields → DiscoveredTool
discovered_tool server_id name entry = record {
  server_id = server_id;
  name = name;
  description = get_or (read_string 1024 (get "description" entry)) "";
  input_schema =
      get_or (record_or_none (get "inputSchema" entry)) (obj (field "type" (str "object") end));
  declared_annotations = record_or_none (get "annotations" entry);
  risk = ToolRisk.write;
}

-- The tool of one entry, if it has a name that is new.
unfoldable pub named_tool : String → List String → Fields → Option DiscoveredTool
unfolding read_string get units trim
named_tool server_id seen entry = elim (read_string 128 (get "name" entry)) [
  | none ↦ none
  | some name ↦
      if is_empty name
        || (ltb 128 (units name)
            || (includes name seen || is_long_name (as_string (get "name" entry))))
      then none
      else some (discovered_tool server_id name entry)
]

unfoldable pub entry_tool : String → List String → Json → Option DiscoveredTool
unfolding named_tool
entry_tool server_id seen entry = elim (as_record entry) [
  | none ↦ none
  | some fs ↦ named_tool server_id seen fs
]

-- The loop over the entries, with the names that were seen.
unfoldable pub normalize_entries : String → List String → List Json → List DiscoveredTool
unfolding entry_tool
normalize_entries server_id seen [] = []
normalize_entries server_id seen (entry ∷ entries) = elim (entry_tool server_id seen entry) [
  | none ↦ normalize_entries server_id seen entries
  | some tool ↦ tool ∷ normalize_entries server_id (tool.name ∷ seen) entries
]

unfoldable pub normalize_discovered_tools : String → Json → List DiscoveredTool
unfolding normalize_entries get
normalize_discovered_tools server_id payload = elim (as_record payload) [
  | none ↦ []
  | some fs ↦ elim (as_array (get "tools" fs)) [
    | none ↦ []
    | some entries ↦ normalize_entries server_id [] entries
  ]
]

abbrev is_read : ToolRisk → Bool
is_read ToolRisk.read = true
is_read ToolRisk.write = false
is_read ToolRisk.destructive = false

abbrev is_destructive : ToolRisk → Bool
is_destructive ToolRisk.destructive = true
is_destructive ToolRisk.read = false
is_destructive ToolRisk.write = false

abbrev pub to_definition : DiscoveredTool → ToolDefinition
to_definition tool = record {
  name = tool.name;
  description = tool.description;
  input_schema = tool.input_schema;
  annotations = record {
    read_only_hint = is_read tool.risk;
    destructive_hint = is_destructive tool.risk;
    idempotent_hint = false;
    open_world_hint = true;
  };
}

-- The definitions by their names; the names of one server's tools are distinct.
abbrev pub discovered_tools_to_integration : List DiscoveredTool → List ToolDefinition
discovered_tools_to_integration tools = map to_definition tools
