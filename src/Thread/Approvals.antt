-- ===== src/Thread/Approvals.antt =====
-- The approvals that a thread waits for, and its status.
use authlane.Prelude.{
  ◌<◌, ◌≡◌, refl, String, Bool, true, false, none, some, List, [], ◌∷◌, map, filter, find, length,
  get_or, All, All-append, Option-cases, ◌⊎◌, inl, inr, ◌==◌, arith,
}
use authlane.Thread.Types.{
  ThreadStatus, ChatEntry, user, assistant, progress, approval, tool, PendingRun, AgentResult,
  AgentRunSnapshot, AgentThreadState, AgentThreadAction, run_started, run_succeeded, reset,
}
use authlane.Thread.Reducer.{
  no_progress_or_error, decide, user_entry, start_run, apply_stream_event, fail_run, completed,
  complete_run, agent_thread_reducer, run_actions,
}

-- The status tells whether an approval is wanted.
pub record IsConsistent (s : AgentThreadState) : Type 0 where
  pub asks : s.status ≡ ThreadStatus.approval_required → 0 < length s.pending_approvals
  pub settled : s.status ≡ ThreadStatus.idle → s.pending_approvals ≡ []

length_zero {ℓ} : {A : Type ℓ} (xs : List A) → (0 < length xs) ⊎ (xs ≡ [])
length_zero [] = inr refl
length_zero (x ∷ xs) = inl (omega arith)

completed-IsConsistent :
    (s : AgentThreadState) (run_id : String) (response : AgentResult) (run : AgentRunSnapshot)
    → IsConsistent (completed s run_id response run)
unfolding completed
completed-IsConsistent s run_id response run =
    ground (arith, length_zero (get_or response.approval_requests []))

complete_run-IsConsistent :
    (s : AgentThreadState) (run_id : String) (response : AgentResult)
    → IsConsistent s
    → IsConsistent (complete_run s run_id response)
unfolding complete_run
complete_run-IsConsistent s run_id response h =
    elim (Option-cases (find (λ run. run.id == run_id) s.runs)) [
      | inl e ↦ rw (e, complete_run) h
      | inr (run, e) ↦ rw (e, complete_run) (completed-IsConsistent s run_id response run)
    ]

reducer-IsConsistent :
    (s : AgentThreadState) (a : AgentThreadAction)
    → IsConsistent s
    → IsConsistent (agent_thread_reducer s a)
unfolding agent_thread_reducer start_run apply_stream_event fail_run
reducer-IsConsistent s (run_succeeded run_id response) h =
    complete_run-IsConsistent s run_id response h
reducer-IsConsistent s reset h = ground arith
reducer-IsConsistent s a h = ground arith

-- After any actions the thread asks for an approval only while one is pending, and it is idle only
-- when none is.
pub run_actions-IsConsistent :
    (s : AgentThreadState) (actions : List AgentThreadAction)
    → IsConsistent s
    → IsConsistent (run_actions s actions)
unfolding run_actions
run_actions-IsConsistent s [] h = h
run_actions-IsConsistent s (a ∷ actions) h =
    run_actions-IsConsistent (agent_thread_reducer s a) actions (reducer-IsConsistent s a h)

-- An approval entry that nobody has decided.
abbrev pub is_open : ChatEntry → Bool
is_open (approval id requests run_id none) = true
is_open (approval id requests run_id (some d)) = false
is_open (user id text run_id) = false
is_open (assistant id text run_id) = false
is_open (progress id run_id) = false
is_open (ChatEntry.error id message hint run_id) = false
is_open (tool id run_id step) = false

is_open-decide : (d : Bool) (e : ChatEntry) → is_open (decide (some d) e) ≡ false
is_open-decide d (approval id requests run_id none) = refl
is_open-decide d (approval id requests run_id (some x)) = refl
is_open-decide d _ = refl

decided :
    (d : Bool) (entries : List ChatEntry)
    → All (λ e. is_open e ≡ false) (map (decide (some d)) entries)
decided d [] = tt
decided d (e ∷ es) = (is_open-decide d e, decided d es)

user_entry-All : (run : PendingRun) → All (λ e. is_open e ≡ false) (user_entry run)
user_entry-All run = ground arith

-- Starting a run that carries a decision closes every open approval of the thread.
start_run-decided :
    (s : AgentThreadState) (run : PendingRun) (d : Bool)
    → run.approval_decision ≡ some d
    → All (λ e. is_open e ≡ false) (agent_thread_reducer s (run_started run)).entries
      × ((agent_thread_reducer s (run_started run)).pending_approvals ≡ [])
unfolding agent_thread_reducer start_run
start_run-decided s run d e = (
  rw e (
      All-append (λ e. is_open e ≡ false) _ (progress _ run.id ∷ [])
        (All-append (λ e. is_open e ≡ false) _ (user_entry run)
          (decided d (filter (no_progress_or_error run.id) s.entries)) (user_entry-All run))
        (refl, tt)),
  rw e refl,
)
