-- ===== src/Thread/Tests.antt =====
-- Runs of the reducer on concrete threads, and the theorems at concrete inputs.
use authlane.Prelude.{
  ◌≡◌, ◌≤◌, refl, true, false, none, some, List, [], ◌∷◌, ◌++◌, filter, trim, arith,
}
use authlane.Prelude.Json.{null, str}
use authlane.Thread.Types.{
  openai, ApprovalRequest, text_delta, tool_call, tool_result, AgentResult, ResultStatus,
  PendingRun, ThreadStatus, AgentThreadState, AgentThreadAction, user, assistant, tool, done,
  run_started, run_stream_event, run_succeeded, initial_agent_thread_state,
}
use authlane.Thread.Runs.{RunInput, build_user_run, build_approval_run}
use authlane.Thread.Reducer.{
  assistant_id, no_progress, start_run, apply_stream_event, fail_run, complete_run,
  agent_thread_reducer, run_actions,
}
use authlane.Thread.Entries.{spinners, run_actions-spinners}
use authlane.Thread.Stream.{deltas, streamed_text, streamed-completed}
use authlane.Thread.Approvals.{IsConsistent, run_actions-IsConsistent}

abbrev input : RunInput
input = record { run_id = "r1"; external_user_id = "u"; provider = openai; model = "m" }

abbrev plain : AgentResult
plain = record {
  status = ResultStatus.succeeded;
  text = some "Hello.";
  finish_reason = some "stop";
  response_messages = some (str "answer" ∷ []);
  approval_requests = none;
  usage = none;
  error = none;
}

abbrev request : ApprovalRequest
request = record { approval_id = "a1"; tool_name = "delete"; input = null }

abbrev asking : AgentResult
asking = record plain { text = none; approval_requests = some (request ∷ []) }

abbrev first_run : PendingRun
first_run = record {
  id = "r1";
  request = record {
    external_user_id = "u";
    provider = openai;
    model = "m";
    messages = str "hi" ∷ [];
  };
  user_text = some "hi";
  approval_decision = none;
  is_retry = none;
}

abbrev approving_run : PendingRun
approving_run = record first_run { id = "r2"; user_text = none; approval_decision = some true }

reducer : Unit {0}
unfolding run_actions agent_thread_reducer start_run apply_stream_event fail_run complete_run
    build_user_run build_approval_run trim
reducer = tt

-- A run with a streamed answer and a tool step, and then its final text.
one_turn :
    (run_actions initial_agent_thread_state (
      run_started (build_user_run initial_agent_thread_state input " hi ")
      ∷ run_stream_event "r1" (text_delta "Hel")
      ∷ run_stream_event "r1" (tool_call "c" "list" null)
      ∷ run_stream_event "r1" (tool_result "c" "list" (str "ok") false)
      ∷ run_stream_event "r1" (text_delta "lo")
      ∷ run_succeeded "r1" plain
      ∷ [])).entries
    ≡ user "r1_user" "hi" "r1"
      ∷ assistant "r1_assistant" "Hello." "r1"
      ∷ tool "r1_tool_c" "r1" (record {
        tool_call_id = "c";
        tool_name = "list";
        input = null;
        output = some (str "ok");
        truncated = some false;
        state = done;
      })
      ∷ []
unfolding reducer
one_turn = refl

abbrev asked : AgentThreadState
asked =
    agent_thread_reducer (start_run initial_agent_thread_state first_run)
      (run_succeeded "r1" asking)

asks_for_approval : asked.status ≡ ThreadStatus.approval_required
unfolding reducer
asks_for_approval = refl

initial-IsConsistent : IsConsistent initial_agent_thread_state
initial-IsConsistent = ground arith

abbrev life : List AgentThreadAction
life = run_started first_run ∷ run_succeeded "r1" asking ∷ run_started approving_run ∷ []

run_actions-spinners_example :
    spinners "r2" (run_actions initial_agent_thread_state life).entries ≤ 1
run_actions-spinners_example =
    run_actions-spinners "r2" initial_agent_thread_state life (omega arith)

abbrev started : AgentThreadState
started = start_run initial_agent_thread_state first_run

streamed_text_example : run_actions started (deltas "r1" ("Hel" ∷ "lo" ∷ [])) ≡ record started {
  entries =
      filter (no_progress "r1") started.entries ++ assistant (assistant_id "r1") "Hello" "r1" ∷ [];
}
unfolding start_run
streamed_text_example = streamed_text "r1" "Hel" ("lo" ∷ []) started (refl, (refl, tt))

streamed-completed_example :
    (agent_thread_reducer
      (run_actions started (deltas "r1" ("Hel" ∷ "lo" ∷ [])))
      (run_succeeded "r1" plain)).entries
    ≡ user "r1_user" "hi" "r1" ∷ assistant "r1_assistant" "Hello." "r1" ∷ []
unfolding start_run trim
streamed-completed_example =
    streamed-completed "r1" "Hel" ("lo" ∷ []) "Hello." started plain
      (record {
        id = "r1";
        request = first_run.request;
        response = none;
        error = none;
        tool_activity = [];
      })
      (refl, (refl, tt)) refl refl refl refl

run_actions-IsConsistent_example : IsConsistent (run_actions initial_agent_thread_state life)
run_actions-IsConsistent_example =
    run_actions-IsConsistent initial_agent_thread_state life initial-IsConsistent
