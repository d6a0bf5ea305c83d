-- ===== src/Thread/Reducer.antt =====
-- `agentThreadReducer` of agent-thread.ts and the functions that it calls.
use authlane.Prelude.{
  String, Bool, true, false, not, ◌&&◌, ◌||◌, Option, none, some, List, [], ◌∷◌, ◌++◌, map, filter,
  find, length, ltb, get_or, is_some, is_empty, trim, if◌then◌else◌, ◌==◌, ◌<>◌,
}
use authlane.Thread.Types.{
  ThreadStatus, ApprovalRequest, AgentStreamEvent, text_delta, tool_call, tool_result, tool_error,
  tool_denied, ToolEntryState, running, done, denied, ResultStatus, RunError, ResultError,
  AgentResult, AgentRunSnapshot, ToolStep, ChatEntry, user, assistant, progress, approval, tool,
  entry_id, entry_run_id, is_progress, is_error, PendingRun, AgentThreadState, AgentThreadAction,
  draft_changed, run_started, run_stream_event, run_succeeded, run_failed, run_selected, reset,
  initial_agent_thread_state,
}
use authlane.Thread.Runs.{extract_tool_activity}

-- `!(entry.runId === runId && entry.kind === 'progress')`.
abbrev pub no_progress : String → ChatEntry → Bool
no_progress run_id entry = not (entry_run_id entry == run_id && is_progress entry)

abbrev pub no_progress_or_error : String → ChatEntry → Bool
no_progress_or_error run_id entry =
    not (entry_run_id entry == run_id && (is_progress entry || is_error entry))

-- An open approval takes the run's decision.
abbrev pub decide : Option Bool → ChatEntry → ChatEntry
decide (some d) (approval id requests run_id none) = approval id requests run_id (some d)
decide (some d) (approval id requests run_id (some e)) = approval id requests run_id (some e)
decide (some d) (user id text run_id) = user id text run_id
decide (some d) (assistant id text run_id) = assistant id text run_id
decide (some d) (progress id run_id) = progress id run_id
decide (some d) (ChatEntry.error id message hint run_id) = ChatEntry.error id message hint run_id
decide (some d) (tool id run_id step) = tool id run_id step
decide none entry = entry

-- A text that is present and not empty.
abbrev pub is_text : Option String → Bool
is_text none = false
is_text (some s) = not (is_empty s)

abbrev is_true : Option Bool → Bool
is_true none = false
is_true (some b) = b

-- The entry for the user's own text, unless the run is a retry.
abbrev pub user_entry : PendingRun → List ChatEntry
user_entry run =
    if is_text run.user_text && not (is_true run.is_retry)
    then user (run.id <> "_user") (get_or run.user_text "") run.id ∷ []
    else []

unfoldable pub start_run : AgentThreadState → PendingRun → AgentThreadState
start_run state run = record state {
  draft = if is_text run.user_text then "" else state.draft;
  entries =
      (map (decide run.approval_decision) (filter (no_progress_or_error run.id) state.entries)
        ++ user_entry run)
      ++ progress (run.id <> "_progress") run.id ∷ [];
  runs =
      filter (λ candidate. not (candidate.id == run.id)) state.runs
      ++ record {
        id = run.id;
        request = run.request;
        response = none;
        error = none;
        tool_activity = [];
      }
        ∷ [];
  selected_run_id = some run.id;
  pending_approvals = if is_some run.approval_decision then [] else state.pending_approvals;
  status = ThreadStatus.submitting;
}

abbrev pub assistant_id : String → String
assistant_id run_id = run_id <> "_assistant"

abbrev pub tool_id : String → String → String
tool_id run_id tool_call_id = run_id <> ("_tool_" <> tool_call_id)

abbrev is_assistant : Option ChatEntry → Bool
is_assistant (some (assistant id text run_id)) = true
is_assistant (some (user id text run_id)) = false
is_assistant (some (progress id run_id)) = false
is_assistant (some (approval id requests run_id decision)) = false
is_assistant (some (ChatEntry.error id message hint run_id)) = false
is_assistant (some (tool id run_id step)) = false
is_assistant none = false

-- A further piece of the assistant's text.
abbrev pub extend : String → String → ChatEntry → ChatEntry
extend target more (assistant id text run_id) =
    if id == target then assistant id (text <> more) run_id else assistant id text run_id
extend target more (user id text run_id) = user id text run_id
extend target more (progress id run_id) = progress id run_id
extend target more (approval id requests run_id decision) = approval id requests run_id decision
extend target more (ChatEntry.error id message hint run_id) = ChatEntry.error id message hint run_id
extend target more (tool id run_id step) = tool id run_id step

-- The outcome of a tool step.
abbrev pub patch : String → (ToolStep → ToolStep) → ChatEntry → ChatEntry
patch target change (tool id run_id step) =
    if id == target then tool id run_id (change step) else tool id run_id step
patch target change (user id text run_id) = user id text run_id
patch target change (assistant id text run_id) = assistant id text run_id
patch target change (progress id run_id) = progress id run_id
patch target change (approval id requests run_id decision) = approval id requests run_id decision
patch target change (ChatEntry.error id message hint run_id) =
    ChatEntry.error id message hint run_id

abbrev pub append_text : String → String → List ChatEntry → List ChatEntry
append_text run_id text entries =
    if is_assistant (find (λ entry. entry_id entry == assistant_id run_id) entries)
    then map (extend (assistant_id run_id) text) entries
    else entries ++ assistant (assistant_id run_id) text run_id ∷ []

unfoldable pub stream_entries : String → AgentStreamEvent → List ChatEntry → List ChatEntry
stream_entries run_id (text_delta text) entries = append_text run_id text entries
stream_entries run_id (tool_call tool_call_id tool_name input) entries =
    entries
    ++ tool (tool_id run_id tool_call_id) run_id (record {
      tool_call_id = tool_call_id;
      tool_name = tool_name;
      input = input;
      output = none;
      truncated = none;
      state = running;
    })
      ∷ []
stream_entries run_id (tool_result tool_call_id tool_name output truncated) entries =
    map
      (patch (tool_id run_id tool_call_id)
        (λ step. record step { state = done; output = some output; truncated = some truncated }))
      entries
stream_entries run_id (tool_error tool_call_id tool_name) entries =
    map (patch (tool_id run_id tool_call_id) (λ step. record step { state = ToolEntryState.error }))
      entries
stream_entries run_id (tool_denied tool_call_id tool_name) entries =
    map (patch (tool_id run_id tool_call_id) (λ step. record step { state = denied })) entries

unfoldable pub apply_stream_event : AgentThreadState → String → AgentStreamEvent → AgentThreadState
unfolding stream_entries
apply_stream_event state run_id event = record state {
  entries = stream_entries run_id event (filter (no_progress run_id) state.entries);
}

-- `...(error.hint ? { hint: error.hint } : {})`.
abbrev hint_of : Option String → Option String
hint_of hint = if is_text hint then hint else none

abbrev pub fail_snapshot : String → RunError → AgentRunSnapshot → AgentRunSnapshot
fail_snapshot run_id error run = if run.id == run_id then record run { error = some error } else run

unfoldable pub fail_run : AgentThreadState → String → RunError → AgentThreadState
fail_run state run_id error = record state {
  status = ThreadStatus.failed;
  entries =
      filter (no_progress run_id) state.entries
      ++ ChatEntry.error (run_id <> "_error") error.message (hint_of error.hint) run_id ∷ [];
  runs = map (fail_snapshot run_id error) state.runs;
}

-- `entries[entries.findIndex((entry) => entry.id === id)] = value`, at the end if there is none.
abbrev pub put_entry : String → ChatEntry → List ChatEntry → List ChatEntry
put_entry id value [] = value ∷ []
put_entry id value (entry ∷ entries) =
    if entry_id entry == id then value ∷ entries else entry ∷ put_entry id value entries

abbrev is_failed : ResultStatus → Bool
is_failed ResultStatus.failed = true
is_failed ResultStatus.succeeded = false
is_failed ResultStatus.approval_required = false

abbrev error_message : Option ResultError → String
error_message none = "Agent execution failed."
error_message (some error) = error.message

abbrev error_hint : Option ResultError → Option String
error_hint none = none
error_hint (some error) = hint_of error.hint

abbrev pub outcome_error : String → AgentResult → ChatEntry
outcome_error run_id response =
    ChatEntry.error (run_id <> "_error") (error_message response.error) (error_hint response.error)
      run_id

-- The outcome of a finished run among the entries.
abbrev pub outcome_entries : String → AgentResult → List ChatEntry → List ChatEntry
outcome_entries run_id response entries =
    if is_failed response.status
    then entries ++ outcome_error run_id response ∷ []
    else if is_text (some (trim (get_or response.text "")))
    then put_entry (assistant_id run_id)
        (assistant (assistant_id run_id) (get_or response.text "") run_id) entries
    else entries

abbrev pub approval_entry : String → List ApprovalRequest → List ChatEntry
approval_entry run_id pending =
    if ltb 0 (length pending) then approval (run_id <> "_approval") pending run_id none ∷ [] else []

abbrev pub completed_status : AgentResult → List ApprovalRequest → ThreadStatus
completed_status response pending =
    if is_failed response.status
    then ThreadStatus.failed
    else if ltb 0 (length pending)
    then ThreadStatus.approval_required
    else ThreadStatus.idle

unfoldable pub complete_snapshot : String → AgentResult → AgentRunSnapshot → AgentRunSnapshot
unfolding extract_tool_activity
complete_snapshot run_id response run =
    if run.id == run_id
    then record run {
      response = some response;
      error = none;
      tool_activity = extract_tool_activity response;
    }
    else run

-- The state after a run of which a snapshot was found.
unfoldable pub completed :
    AgentThreadState → String → AgentResult → AgentRunSnapshot → AgentThreadState
unfolding complete_snapshot
completed state run_id response snapshot =
    let pending = get_or response.approval_requests [] in
    record state {
      model_messages = snapshot.request.messages ++ get_or response.response_messages [];
      entries =
          outcome_entries run_id response (filter (no_progress run_id) state.entries)
          ++ approval_entry run_id pending;
      runs = map (complete_snapshot run_id response) state.runs;
      pending_approvals = pending;
      status = completed_status response pending;
    }

unfoldable pub complete_run : AgentThreadState → String → AgentResult → AgentThreadState
unfolding completed
complete_run state run_id response = elim (find (λ run. run.id == run_id) state.runs) [
  | none ↦ state
  | some snapshot ↦ completed state run_id response snapshot
]

unfoldable pub agent_thread_reducer : AgentThreadState → AgentThreadAction → AgentThreadState
agent_thread_reducer state reset = initial_agent_thread_state
agent_thread_reducer state (draft_changed draft) = record state { draft = draft }
agent_thread_reducer state (run_selected run_id) = record state { selected_run_id = some run_id }
agent_thread_reducer state (run_started run) = start_run state run
agent_thread_reducer state (run_stream_event run_id event) = apply_stream_event state run_id event
agent_thread_reducer state (run_failed run_id error) = fail_run state run_id error
agent_thread_reducer state (run_succeeded run_id response) = complete_run state run_id response

-- The thread after a sequence of actions.
unfoldable pub run_actions : AgentThreadState → List AgentThreadAction → AgentThreadState
run_actions state [] = state
run_actions state (action ∷ actions) = run_actions (agent_thread_reducer state action) actions
