-- ===== src/Thread/Runs.antt =====
-- The runs that agent-thread.ts builds from a thread, and the tool activity of a result.
use authlane.Prelude.{
  starts_with, String, Bool, false, not, ◌&&◌, Option, none, some, List, [], ◌∷◌, ◌++◌, map, filter,
  get_or, trim, if◌then◌else◌, ◌==◌,
}
use authlane.Prelude.Json.{
  Json, bool, str, arr, obj, end, field, of_list, get, as_record, as_array, as_string,
}
use authlane.Thread.Types.{
  AgentProvider, ApprovalRequest, AgentResult, PendingRun, AgentThreadState,
}

-- `{ type: 'tool-approval-request', ...request }`.
abbrev pub approval_activity : ApprovalRequest → Json
approval_activity request = obj (
    field "type" (str "tool-approval-request") (
      field "approvalId" (str request.approval_id) (
        field "toolCall"
          (obj (field "toolName" (str request.tool_name) (field "input" request.input end))) end)))

abbrev tool_type : Option String → Bool
tool_type none = false
tool_type (some t) = starts_with t "tool-" && not (t == "tool-approval-request")

-- The test on one part of a message's content.
unfoldable pub is_tool_part : Json → Bool
unfolding get
is_tool_part part = elim (as_record part) [
  | none ↦ false
  | some fs ↦ tool_type (as_string (get "type" fs))
]

abbrev tool_parts_of : Option (List Json) → List Json
tool_parts_of none = []
tool_parts_of (some parts) = filter is_tool_part parts

-- The parts of one message.
unfoldable pub message_tool_parts : Json → List Json
unfolding get is_tool_part
message_tool_parts message = elim (as_record message) [
  | none ↦ []
  | some fs ↦ tool_parts_of (as_array (get "content" fs))
]

abbrev pub flat_map : (Json → List Json) → List Json → List Json
flat_map f [] = []
flat_map f (v ∷ vs) = f v ++ flat_map f vs

unfoldable pub extract_tool_activity : AgentResult → List Json
unfolding message_tool_parts
extract_tool_activity response =
    map approval_activity (get_or response.approval_requests [])
    ++ flat_map message_tool_parts (get_or response.response_messages [])

-- The inputs of the two builders.
pub record RunInput : Type 0 where
  pub run_id : String
  pub external_user_id : String
  pub provider : AgentProvider
  pub model : String

-- `{ role: 'user', content: text }`.
abbrev pub user_message : String → Json
user_message text = obj (field "role" (str "user") (field "content" (str text) end))

unfoldable pub build_user_run : AgentThreadState → RunInput → String → PendingRun
build_user_run state input text = record {
  id = input.run_id;
  user_text = some (trim text);
  approval_decision = none;
  is_retry = none;
  request = record {
    external_user_id = input.external_user_id;
    provider = input.provider;
    model = input.model;
    messages = state.model_messages ++ user_message (trim text) ∷ [];
  };
}

abbrev reason : Bool → String
reason approved =
    if approved
    then "Operator approved this Sandbox action."
    else "Operator denied this Sandbox action."

abbrev pub approval_response : Bool → ApprovalRequest → Json
approval_response approved request = obj (
    field "type" (str "tool-approval-response") (
      field "approvalId" (str request.approval_id)
        (field "approved" (bool approved) (field "reason" (str (reason approved)) end))))

-- `{ role: 'tool', content: [...] }`, an answer to each pending approval.
abbrev pub approval_message : Bool → List ApprovalRequest → Json
approval_message approved pending = obj (
    field "role" (str "tool")
      (field "content" (arr (of_list (map (approval_response approved) pending))) end))

unfoldable pub build_approval_run : AgentThreadState → RunInput → Bool → PendingRun
build_approval_run state input approved = record {
  id = input.run_id;
  user_text = none;
  approval_decision = some approved;
  is_retry = none;
  request = record {
    external_user_id = input.external_user_id;
    provider = input.provider;
    model = input.model;
    messages = state.model_messages ++ approval_message approved state.pending_approvals ∷ [];
  };
}
