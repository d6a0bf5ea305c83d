-- ===== src/Tools/Safety.antt =====
-- What a tool may do, and which tools a policy admits: tool-safety.ts.
use authlane.Prelude.{String, Bool, true, false, not, ◌&&◌, ◌||◌, if◌then◌else◌}
use authlane.Prelude.Json.{Json}

pub record ToolAnnotations : Type 0 where
  pub read_only_hint : Bool
  pub destructive_hint : Bool
  pub idempotent_hint : Bool
  pub open_world_hint : Bool

pub data ToolRisk : Type 0 where
  read write destructive : ToolRisk

pub data ToolAccessPolicy : Type 0 where
  read_only full : ToolAccessPolicy

pub record ToolDefinition : Type 0 where
  pub name : String
  pub description : String
  pub input_schema : Json
  pub annotations : ToolAnnotations

unfoldable pub get_tool_risk : ToolAnnotations → ToolRisk
get_tool_risk annotations =
    if annotations.destructive_hint
    then ToolRisk.destructive
    else if annotations.read_only_hint
    then ToolRisk.read
    else ToolRisk.write

abbrev is_full : ToolAccessPolicy → Bool
is_full full = true
is_full read_only = false

unfoldable pub is_tool_allowed : ToolAnnotations → ToolAccessPolicy → Bool
is_tool_allowed annotations policy =
    is_full policy || (annotations.read_only_hint && not annotations.destructive_hint)
