-- ===== src/Thread/Entries.antt =====
-- The progress entries of a thread: how each action changes their number for every run.
use native.Mathlib.Nat.{le_refl}
use authlane.Prelude.{
  ℕ, ◌≤◌, ◌≡◌, refl, String, Bool, ◌&&◌, Option, none, some, List, [], ◌∷◌, ◌++◌, map, filter, find,
  is_some, count_if, count_if-append, if◌then◌else◌, ◌==◌, ◌<>◌, get_or, ◌∙◌, eq_iff, arith,
  Option-cases, inl, inr,
}
use authlane.Thread.Types.{
  AgentStreamEvent, text_delta, tool_call, tool_result, tool_error, tool_denied, AgentResult,
  ApprovalRequest, RunError, AgentRunSnapshot, ToolStep, ChatEntry, assistant, progress, approval,
  tool, entry_run_id, is_progress, PendingRun, AgentThreadState, AgentThreadAction, draft_changed,
  run_started, run_stream_event, run_succeeded, run_failed, run_selected, reset,
}
use authlane.Thread.Reducer.{
  no_progress, no_progress_or_error, decide, user_entry, start_run, extend, patch, append_text,
  stream_entries, apply_stream_event, fail_run, put_entry, outcome_error, outcome_entries,
  approval_entry, completed, complete_run, agent_thread_reducer, run_actions, assistant_id,
}

abbrev pub is_spinner : String → ChatEntry → Bool
is_spinner r entry = entry_run_id entry == r && is_progress entry

-- The number of progress entries that a run has.
abbrev pub spinners : String → List ChatEntry → ℕ
spinners r entries = count_if (is_spinner r) entries

spinners-filter :
    (q r : String) (entries : List ChatEntry)
    → spinners r (filter (no_progress q) entries) ≡ (if q == r then 0 else spinners r entries)
spinners-filter q r [] = ground (arith, eq_iff q r)
spinners-filter q r (e ∷ es) = ground (
  arith,
  eq_iff q r,
  eq_iff (entry_run_id e) q,
  eq_iff (entry_run_id e) r,
  spinners-filter q r es,
)

spinners-filter_error :
    (q r : String) (entries : List ChatEntry)
    → spinners r (filter (no_progress_or_error q) entries)
      ≡ (if q == r then 0 else spinners r entries)
spinners-filter_error q r [] = ground (arith, eq_iff q r)
spinners-filter_error q r (e ∷ es) = ground (
  arith,
  eq_iff q r,
  eq_iff (entry_run_id e) q,
  eq_iff (entry_run_id e) r,
  spinners-filter_error q r es,
)

spinners-map :
    (r : String) (f : ChatEntry → ChatEntry)
    → ((e : ChatEntry) → is_spinner r (f e) ≡ is_spinner r e)
    → (entries : List ChatEntry) → spinners r (map f entries) ≡ spinners r entries
spinners-map r f keep [] = refl
spinners-map r f keep (e ∷ es) = ground (arith, keep e, spinners-map r f keep es)

is_spinner-decide :
    (r : String) (d : Option Bool) (e : ChatEntry) → is_spinner r (decide d e) ≡ is_spinner r e
is_spinner-decide r none e = refl
is_spinner-decide r (some d) (approval id requests run_id none) = refl
is_spinner-decide r (some d) (approval id requests run_id (some x)) = refl
is_spinner-decide r (some d) _ = refl

is_spinner-extend :
    (r target more : String) (e : ChatEntry) → is_spinner r (extend target more e) ≡ is_spinner r e
is_spinner-extend r target more (assistant id text run_id) = ground arith
is_spinner-extend r target more _ = refl

is_spinner-patch :
    (r target : String) (change : ToolStep → ToolStep) (e : ChatEntry)
    → is_spinner r (patch target change e) ≡ is_spinner r e
is_spinner-patch r target change (tool id run_id step) = ground arith
is_spinner-patch r target change _ = refl

spinners-append_text :
    (r run_id text : String) (entries : List ChatEntry)
    → spinners r (append_text run_id text entries) ≡ spinners r entries
spinners-append_text r run_id text entries = ground (
  arith,
  spinners-map r (extend (assistant_id run_id) text)
      (is_spinner-extend r (assistant_id run_id) text) entries,
  count_if-append (is_spinner r) entries (assistant (assistant_id run_id) text run_id ∷ []),
)

spinners-stream_entries :
    (r run_id : String) (event : AgentStreamEvent) (entries : List ChatEntry)
    → spinners r (stream_entries run_id event entries) ≡ spinners r entries
unfolding stream_entries
spinners-stream_entries r run_id (text_delta text) entries =
    spinners-append_text r run_id text entries
spinners-stream_entries r run_id (tool_call tool_call_id tool_name input) entries =
    grind (arith, count_if-append)
spinners-stream_entries r run_id (tool_result tool_call_id tool_name output truncated) entries =
    spinners-map r _ (is_spinner-patch r _ _) entries
spinners-stream_entries r run_id (tool_error tool_call_id tool_name) entries =
    spinners-map r _ (is_spinner-patch r _ _) entries
spinners-stream_entries r run_id (tool_denied tool_call_id tool_name) entries =
    spinners-map r _ (is_spinner-patch r _ _) entries

spinners-put_entry :
    (r id text run_id : String) (entries : List ChatEntry)
    → spinners r (put_entry id (assistant id text run_id) entries) ≤ spinners r entries
spinners-put_entry r id text run_id [] = ground arith
spinners-put_entry r id text run_id (e ∷ es) =
    ground (arith, spinners-put_entry r id text run_id es)

spinners-outcome_entries :
    (r run_id : String) (response : AgentResult) (entries : List ChatEntry)
    → spinners r (outcome_entries run_id response entries) ≤ spinners r entries
spinners-outcome_entries r run_id response entries = ground (
  arith,
  spinners-put_entry r (assistant_id run_id) (get_or response.text "") run_id entries,
  count_if-append (is_spinner r) entries (outcome_error run_id response ∷ []),
)

spinners-approval_entry :
    (r run_id : String) (pending : List ApprovalRequest)
    → spinners r (approval_entry run_id pending) ≡ 0
spinners-approval_entry r run_id pending = ground arith

spinners-completed :
    (r run_id : String) (response : AgentResult) (s : AgentThreadState) (run : AgentRunSnapshot)
    → spinners r (completed s run_id response run).entries
      ≤ (if run_id == r then 0 else spinners r s.entries)
unfolding completed
spinners-completed r run_id response s run =
    let kept = filter (no_progress run_id) s.entries in
    let asked = approval_entry run_id (get_or response.approval_requests []) in
    omega (
      arith,
      count_if-append (is_spinner r) (outcome_entries run_id response kept) asked,
      spinners-approval_entry r run_id (get_or response.approval_requests []),
      spinners-outcome_entries r run_id response kept,
      spinners-filter run_id r s.entries,
    )

spinners-user_entry : (r : String) (run : PendingRun) → spinners r (user_entry run) ≡ 0
spinners-user_entry r run = ground arith

spinners-start_run :
    (r : String) (s : AgentThreadState) (run : PendingRun)
    → spinners r (start_run s run).entries ≡ (if run.id == r then 1 else spinners r s.entries)
unfolding start_run
spinners-start_run r s run =
    let kept = filter (no_progress_or_error run.id) s.entries in
    let decided = map (decide run.approval_decision) kept in
    ground (
      arith,
      eq_iff run.id r,
      count_if-append (is_spinner r) (decided ++ user_entry run)
          (progress (run.id <> "_progress") run.id ∷ []),
      count_if-append (is_spinner r) decided (user_entry run),
      spinners-user_entry r run,
      spinners-map r (decide run.approval_decision) (is_spinner-decide r run.approval_decision)
          kept,
      spinners-filter_error run.id r s.entries,
    )

spinners-apply :
    (r run_id : String) (event : AgentStreamEvent) (s : AgentThreadState)
    → spinners r (apply_stream_event s run_id event).entries
      ≡ (if run_id == r then 0 else spinners r s.entries)
unfolding apply_stream_event
spinners-apply r run_id event s =
    spinners-stream_entries r run_id event _ ∙ spinners-filter run_id r s.entries

spinners-fail_run :
    (r run_id : String) (error : RunError) (s : AgentThreadState)
    → spinners r (fail_run s run_id error).entries
      ≡ (if run_id == r then 0 else spinners r s.entries)
unfolding fail_run
spinners-fail_run r run_id error s =
    grind (arith, count_if-append, spinners-filter run_id r s.entries)

spinners-complete_run :
    (r run_id : String) (response : AgentResult) (s : AgentThreadState)
    → spinners r (complete_run s run_id response).entries ≤ (
        if is_some (find (λ run. run.id == run_id) s.runs) && run_id == r
        then 0
        else spinners r s.entries)
unfolding complete_run
spinners-complete_run r run_id response s =
    elim (Option-cases (find (λ run. run.id == run_id) s.runs)) [
      | inl e ↦ rw (e, complete_run) (le_refl _)
      | inr (run, e) ↦ rw (e, complete_run) (spinners-completed r run_id response s run)
    ]

-- What an action makes of the number of progress entries of the run `r`.
abbrev pub ProgressAfter : String → AgentThreadState → AgentThreadAction → ℕ → Type 0
ProgressAfter r s reset m = m ≡ 0
ProgressAfter r s (draft_changed draft) m = m ≡ spinners r s.entries
ProgressAfter r s (run_selected run_id) m = m ≡ spinners r s.entries
ProgressAfter r s (run_started run) m = m ≡ (if run.id == r then 1 else spinners r s.entries)
ProgressAfter r s (run_stream_event run_id event) m =
    m ≡ (if run_id == r then 0 else spinners r s.entries)
ProgressAfter r s (run_failed run_id error) m =
    m ≡ (if run_id == r then 0 else spinners r s.entries)
ProgressAfter r s (run_succeeded run_id response) m = m ≤ (
    if is_some (find (λ run. run.id == run_id) s.runs) && run_id == r
    then 0
    else spinners r s.entries)

-- How every action changes the number of progress entries of any run.
reducer-ProgressAfter :
    (r : String) (s : AgentThreadState) (a : AgentThreadAction)
    → ProgressAfter r s a (spinners r (agent_thread_reducer s a).entries)
unfolding agent_thread_reducer
reducer-ProgressAfter r s reset = refl
reducer-ProgressAfter r s (draft_changed draft) = refl
reducer-ProgressAfter r s (run_selected run_id) = refl
reducer-ProgressAfter r s (run_started run) = spinners-start_run r s run
reducer-ProgressAfter r s (run_stream_event run_id event) = spinners-apply r run_id event s
reducer-ProgressAfter r s (run_failed run_id error) = spinners-fail_run r run_id error s
reducer-ProgressAfter r s (run_succeeded run_id response) =
    spinners-complete_run r run_id response s

spinners-step :
    (r : String) (s : AgentThreadState) (a : AgentThreadAction)
    → spinners r s.entries ≤ 1
    → spinners r (agent_thread_reducer s a).entries ≤ 1
spinners-step r s reset h = ground (arith, reducer-ProgressAfter r s reset)
spinners-step r s (draft_changed d) h = ground (arith, reducer-ProgressAfter r s (draft_changed d))
spinners-step r s a h = ground (arith, reducer-ProgressAfter r s a)

-- However the actions of several runs interleave, no run ever shows two progress entries.
pub run_actions-spinners :
    (r : String) (s : AgentThreadState) (actions : List AgentThreadAction)
    → spinners r s.entries ≤ 1
    → spinners r (run_actions s actions).entries ≤ 1
unfolding run_actions
run_actions-spinners r s [] h = h
run_actions-spinners r s (a ∷ actions) h =
    run_actions-spinners r (agent_thread_reducer s a) actions (spinners-step r s a h)
