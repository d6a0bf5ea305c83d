-- ===== src/Thread/History.antt =====
-- The runs of a thread and the messages that the model is sent.
use authlane.Prelude.{
  ℕ, ◌≤◌, ◌≡◌, refl, ◌∙◌, String, Bool, false, not, Option-cases, inl, inr, none, some, List, [],
  ◌∷◌, ◌++◌, map, filter, find, find-append, All, count_if, count_if-append, get_or, trim,
  if◌then◌else◌, ◌==◌, eq_iff, eq_refl, arith,
}
use authlane.Thread.Types.{
  AgentStreamEvent, AgentResult, AgentRunSnapshot, PendingRun, RunError, AgentThreadState,
  AgentThreadAction, draft_changed, run_started, run_stream_event, run_succeeded, run_failed,
  run_selected, reset,
}
use authlane.Thread.Runs.{
  RunInput, user_message, approval_message, build_user_run, build_approval_run,
}
use authlane.Thread.Reducer.{
  start_run, apply_stream_event, fail_snapshot, fail_run, complete_snapshot, completed,
  complete_run, agent_thread_reducer, run_actions,
}

-- How often a run identifier occurs among the snapshots.
abbrev pub occurs : String → List AgentRunSnapshot → ℕ
occurs r runs = count_if (λ run. run.id == r) runs

occurs-map :
    (r : String) (f : AgentRunSnapshot → AgentRunSnapshot)
    → ((run : AgentRunSnapshot) → (f run).id ≡ run.id)
    → (runs : List AgentRunSnapshot) → occurs r (map f runs) ≡ occurs r runs
occurs-map r f keep [] = refl
occurs-map r f keep (run ∷ runs) = ground (arith, keep run, occurs-map r f keep runs)

occurs-filter :
    (q r : String) (runs : List AgentRunSnapshot)
    → occurs r (filter (λ run. not (run.id == q)) runs) ≡ (if q == r then 0 else occurs r runs)
occurs-filter q r [] = ground (arith, eq_iff q r)
occurs-filter q r (run ∷ runs) =
    ground (arith, eq_iff q r, eq_iff run.id q, eq_iff run.id r, occurs-filter q r runs)

occurs-start_run :
    (r : String) (s : AgentThreadState) (run : PendingRun)
    → occurs r (start_run s run).runs ≡ (if run.id == r then 1 else occurs r s.runs)
unfolding start_run
occurs-start_run r s run =
    let others = filter (λ (candidate : AgentRunSnapshot). not (candidate.id == run.id)) s.runs in
    let fresh : AgentRunSnapshot = record {
      id = run.id;
      request = run.request;
      response = none;
      error = none;
      tool_activity = [];
    } in
    ground (
      arith,
      eq_iff run.id r,
      occurs-filter run.id r s.runs,
      count_if-append (λ candidate. candidate.id == r) others (fresh ∷ []),
    )

complete_snapshot-id :
    (run_id : String) (response : AgentResult) (run : AgentRunSnapshot)
    → (complete_snapshot run_id response run).id ≡ run.id
unfolding complete_snapshot
complete_snapshot-id run_id response run = ground arith

fail_snapshot-id :
    (run_id : String) (error : RunError) (run : AgentRunSnapshot)
    → (fail_snapshot run_id error run).id ≡ run.id
fail_snapshot-id run_id error run = ground arith

occurs-complete_run :
    (r run_id : String) (response : AgentResult) (s : AgentThreadState)
    → occurs r (complete_run s run_id response).runs ≡ occurs r s.runs
unfolding complete_run completed
occurs-complete_run r run_id response s =
    elim (Option-cases (find (λ run. run.id == run_id) s.runs)) [
      | inl e ↦ rw (e, complete_run)
      | inr (run, e) ↦
          rw (e, complete_run)
            (occurs-map r (complete_snapshot run_id response) (complete_snapshot-id run_id response)
              s.runs)
    ]

occurs-step :
    (r : String) (s : AgentThreadState) (a : AgentThreadAction)
    → occurs r s.runs ≤ 1
    → occurs r (agent_thread_reducer s a).runs ≤ 1
unfolding agent_thread_reducer apply_stream_event fail_run
occurs-step r s reset h = omega arith
occurs-step r s (draft_changed draft) h = h
occurs-step r s (run_selected run_id) h = h
occurs-step r s (run_stream_event run_id event) h = h
occurs-step r s (run_started run) h = ground (arith, occurs-start_run r s run)
occurs-step r s (run_failed run_id error) h =
    omega (arith, occurs-map r (fail_snapshot run_id error) (fail_snapshot-id run_id error) s.runs)
occurs-step r s (run_succeeded run_id response) h =
    omega (arith, occurs-complete_run r run_id response s)

-- Every run has at most one snapshot, also after a retry under the same identifier.
run_actions-occurs :
    (r : String) (s : AgentThreadState) (actions : List AgentThreadAction)
    → occurs r s.runs ≤ 1
    → occurs r (run_actions s actions).runs ≤ 1
unfolding run_actions
run_actions-occurs r s [] h = h
run_actions-occurs r s (a ∷ actions) h =
    run_actions-occurs r (agent_thread_reducer s a) actions (occurs-step r s a h)

-- The actions of one run: its start, its streamed events and its result.
abbrev pub events_of :
    String → List AgentStreamEvent → List AgentThreadAction → List AgentThreadAction
events_of run_id [] rest = rest
events_of run_id (e ∷ es) rest = run_stream_event run_id e ∷ events_of run_id es rest

abbrev pub turn : PendingRun → List AgentStreamEvent → AgentResult → List AgentThreadAction
turn run events response =
    run_started run ∷ events_of run.id events (run_succeeded run.id response ∷ [])

abbrev fresh_snapshot : PendingRun → AgentRunSnapshot
fresh_snapshot run = record {
  id = run.id;
  request = run.request;
  response = none;
  error = none;
  tool_activity = [];
}

other_runs :
    (id : String) (runs : List AgentRunSnapshot)
    → All (λ run. (run.id == id) ≡ false) (filter (λ run. not (run.id == id)) runs)
other_runs id [] = tt
other_runs id (run ∷ runs) = ground (arith, other_runs id runs)

find-start_run :
    (s : AgentThreadState) (run : PendingRun)
    → find (λ candidate. candidate.id == run.id) (start_run s run).runs ≡ some (fresh_snapshot run)
unfolding start_run
find-start_run s run =
    find-append (λ candidate. candidate.id == run.id) _ (fresh_snapshot run ∷ [])
      (other_runs run.id s.runs)
    ∙ ground (arith, eq_refl run.id)

model_messages-finish :
    (s : AgentThreadState) (run_id : String) (snapshot : AgentRunSnapshot) (response : AgentResult)
    (events : List AgentStreamEvent)
    → find (λ run. run.id == run_id) s.runs ≡ some snapshot
    → (run_actions s (events_of run_id events (run_succeeded run_id response ∷ []))).model_messages
      ≡ snapshot.request.messages ++ get_or response.response_messages []
unfolding run_actions agent_thread_reducer apply_stream_event complete_run completed
model_messages-finish s run_id snapshot response [] e = rw (e, complete_run)
model_messages-finish s run_id snapshot response (event ∷ events) e =
    model_messages-finish (apply_stream_event s run_id event) run_id snapshot response events e

-- A turn of the user adds the trimmed text and the response's messages to the conversation, in
-- that order, whatever is streamed in between.
turn-build_user_run :
    (s : AgentThreadState) (input : RunInput) (text : String) (events : List AgentStreamEvent)
    (response : AgentResult)
    → (run_actions s (turn (build_user_run s input text) events response)).model_messages
      ≡ (s.model_messages ++ user_message (trim text) ∷ []) ++ get_or response.response_messages []
unfolding run_actions agent_thread_reducer build_user_run
turn-build_user_run s input text events response =
    model_messages-finish (start_run s (build_user_run s input text)) input.run_id
      (fresh_snapshot (build_user_run s input text)) response events
      (find-start_run s (build_user_run s input text))

-- A turn of an approval adds one answer to every pending request, and the response's messages.
turn-build_approval_run :
    (s : AgentThreadState) (input : RunInput) (approved : Bool) (events : List AgentStreamEvent)
    (response : AgentResult)
    → (run_actions s (turn (build_approval_run s input approved) events response)).model_messages
      ≡ (s.model_messages ++ approval_message approved s.pending_approvals ∷ [])
        ++ get_or response.response_messages []
unfolding run_actions agent_thread_reducer build_approval_run
turn-build_approval_run s input approved events response =
    model_messages-finish (start_run s (build_approval_run s input approved)) input.run_id
      (fresh_snapshot (build_approval_run s input approved)) response events
      (find-start_run s (build_approval_run s input approved))
