-- ===== src/Thread/Types.antt =====
-- The types of agent-thread.ts. A value of type `unknown` is a `Json`; an optional field is an
-- `Option`.
use authlane.Prelude.{String, Bool, true, false, Option, List, [], none}
use authlane.Prelude.Json.{Json}

pub data AgentProvider : Type 0 where
  openai anthropic google : AgentProvider

pub data ThreadStatus : Type 0 where
  idle submitting approval_required failed : ThreadStatus

pub record ApprovalRequest : Type 0 where
  pub approval_id : String
  pub tool_name : String
  pub input : Json

pub data AgentStreamEvent : Type 0 where
  text_delta : (text : String) → AgentStreamEvent
  tool_call : (tool_call_id tool_name : String) (input : Json) → AgentStreamEvent
  tool_result :
      (tool_call_id tool_name : String) (output : Json) (truncated : Bool) → AgentStreamEvent
  tool_error : (tool_call_id tool_name : String) → AgentStreamEvent
  tool_denied : (tool_call_id tool_name : String) → AgentStreamEvent

pub data ToolEntryState : Type 0 where
  running done error denied : ToolEntryState

pub data ResultStatus : Type 0 where
  succeeded failed approval_required : ResultStatus

pub record RunError : Type 0 where
  pub message : String
  pub code : Option String
  pub hint : Option String
  pub doc_url : Option String

-- `error?: { code; message; hint? }` of a result.
pub record ResultError : Type 0 where
  pub code : String
  pub message : String
  pub hint : Option String

pub record AgentResult : Type 0 where
  pub status : ResultStatus
  pub text : Option String
  pub finish_reason : Option String
  pub response_messages : Option (List Json)
  pub approval_requests : Option (List ApprovalRequest)
  pub usage : Option Json
  pub error : Option ResultError

pub record AgentRunRequest : Type 0 where
  pub external_user_id : String
  pub provider : AgentProvider
  pub model : String
  pub messages : List Json

pub record AgentRunSnapshot : Type 0 where
  pub id : String
  pub request : AgentRunRequest
  pub response : Option AgentResult
  pub error : Option RunError
  pub tool_activity : List Json

-- A tool step's own fields.
pub record ToolStep : Type 0 where
  pub tool_call_id : String
  pub tool_name : String
  pub input : Json
  pub output : Option Json
  pub truncated : Option Bool
  pub state : ToolEntryState

pub data ChatEntry : Type 0 where
  user : (id text run_id : String) → ChatEntry
  assistant : (id text run_id : String) → ChatEntry
  progress : (id run_id : String) → ChatEntry
  approval :
      (id : String) (requests : List ApprovalRequest) (run_id : String) (decision : Option Bool)
      → ChatEntry
  error : (id message : String) (hint : Option String) (run_id : String) → ChatEntry
  tool : (id run_id : String) (step : ToolStep) → ChatEntry

abbrev pub entry_id : ChatEntry → String
entry_id (user id text run_id) = id
entry_id (assistant id text run_id) = id
entry_id (progress id run_id) = id
entry_id (approval id requests run_id decision) = id
entry_id (ChatEntry.error id message hint run_id) = id
entry_id (tool id run_id step) = id

abbrev pub entry_run_id : ChatEntry → String
entry_run_id (user id text run_id) = run_id
entry_run_id (assistant id text run_id) = run_id
entry_run_id (progress id run_id) = run_id
entry_run_id (approval id requests run_id decision) = run_id
entry_run_id (ChatEntry.error id message hint run_id) = run_id
entry_run_id (tool id run_id step) = run_id

abbrev pub is_progress : ChatEntry → Bool
is_progress (progress id run_id) = true
is_progress (user id text run_id) = false
is_progress (assistant id text run_id) = false
is_progress (approval id requests run_id decision) = false
is_progress (ChatEntry.error id message hint run_id) = false
is_progress (tool id run_id step) = false

abbrev pub is_error : ChatEntry → Bool
is_error (ChatEntry.error id message hint run_id) = true
is_error (user id text run_id) = false
is_error (assistant id text run_id) = false
is_error (progress id run_id) = false
is_error (approval id requests run_id decision) = false
is_error (tool id run_id step) = false

pub record PendingRun : Type 0 where
  pub id : String
  pub request : AgentRunRequest
  pub user_text : Option String
  pub approval_decision : Option Bool
  pub is_retry : Option Bool

pub record AgentThreadState : Type 0 where
  pub model_messages : List Json
  pub entries : List ChatEntry
  pub runs : List AgentRunSnapshot
  pub selected_run_id : Option String
  pub pending_approvals : List ApprovalRequest
  pub status : ThreadStatus
  pub draft : String

pub data AgentThreadAction : Type 0 where
  draft_changed : (draft : String) → AgentThreadAction
  run_started : (run : PendingRun) → AgentThreadAction
  run_stream_event : (run_id : String) (event : AgentStreamEvent) → AgentThreadAction
  run_succeeded : (run_id : String) (response : AgentResult) → AgentThreadAction
  run_failed : (run_id : String) (error : RunError) → AgentThreadAction
  run_selected : (run_id : String) → AgentThreadAction
  reset : AgentThreadAction

abbrev pub initial_agent_thread_state : AgentThreadState
initial_agent_thread_state = record {
  model_messages = [];
  entries = [];
  runs = [];
  selected_run_id = none;
  pending_approvals = [];
  status = ThreadStatus.idle;
  draft = "";
}
