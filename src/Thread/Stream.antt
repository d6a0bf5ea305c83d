-- ===== src/Thread/Stream.antt =====
-- The streamed answer: the text of a run's deltas, and the final text that replaces it.
use authlane.Prelude.{
  ◌≡◌, refl, ap, ◌∙◌, get_or, is_empty, trim, String, false, some, List, [], ◌∷◌, ◌++◌, map,
  map-append, filter, find, All, filter-eq_self, filter-append, All-filter, All-filter_self,
  find-append, find-eq-none, ◌==◌, ◌<>◌, eq_refl, arith,
}
use authlane.Thread.Types.{
  ResultStatus, AgentResult, AgentRunSnapshot, text_delta, ChatEntry, assistant, entry_id,
  AgentThreadState, AgentThreadAction, run_stream_event, run_succeeded,
}
use authlane.Thread.Reducer.{
  no_progress, assistant_id, extend, append_text, apply_stream_event, put_entry, approval_entry,
  complete_run, agent_thread_reducer, run_actions,
}

-- No entry has the identifier of the run's answer.
abbrev pub NoAnswer : String → List ChatEntry → Type 0
NoAnswer run_id = All (λ entry. (entry_id entry == assistant_id run_id) ≡ false)

map-extend :
    (run_id more : String) (entries : List ChatEntry)
    → NoAnswer run_id entries
    → map (extend (assistant_id run_id) more) entries ≡ entries
map-extend run_id more [] h = refl
map-extend run_id more (assistant id text r ∷ es) h = ground (arith, map-extend run_id more es h.1)
map-extend run_id more (e ∷ es) h = ground (arith, map-extend run_id more es h.1)

-- The first piece opens the answer.
append_text-first :
    (run_id text : String) (entries : List ChatEntry)
    → NoAnswer run_id entries
    → append_text run_id text entries ≡ entries ++ assistant (assistant_id run_id) text run_id ∷ []
append_text-first run_id text entries h =
    rw (find-eq-none (λ entry. entry_id entry == assistant_id run_id) entries h) refl

-- A further piece extends it.
append_text-next :
    (run_id text more : String) (entries : List ChatEntry)
    → NoAnswer run_id entries
    → append_text run_id more (entries ++ assistant (assistant_id run_id) text run_id ∷ [])
      ≡ entries ++ assistant (assistant_id run_id) (text <> more) run_id ∷ []
append_text-next run_id text more entries h =
    let answer = assistant (assistant_id run_id) text run_id in
    ground (
      arith,
      find-append (λ entry. entry_id entry == assistant_id run_id) entries (answer ∷ []) h,
      eq_refl (assistant_id run_id),
      map-append (extend (assistant_id run_id) more) entries (answer ∷ []),
      map-extend run_id more entries h,
    )

-- The pieces of a streamed text, put together.
abbrev pub joined : String → List String → String
joined text [] = text
joined text (more ∷ texts) = joined (text <> more) texts

abbrev pub deltas : String → List String → List AgentThreadAction
deltas run_id [] = []
deltas run_id (text ∷ texts) = run_stream_event run_id (text_delta text) ∷ deltas run_id texts

-- The entries that stay, followed by the answer so far.
abbrev answered : String → String → List ChatEntry → List ChatEntry
answered run_id text entries =
    filter (no_progress run_id) entries ++ assistant (assistant_id run_id) text run_id ∷ []

filter-answered :
    (run_id text : String) (entries : List ChatEntry)
    → filter (no_progress run_id) (answered run_id text entries) ≡ answered run_id text entries
filter-answered run_id text entries =
    let kept = filter (no_progress run_id) entries in
    ground (
      arith,
      filter-append (no_progress run_id) kept (assistant (assistant_id run_id) text run_id ∷ []),
      filter-eq_self (no_progress run_id) kept (All-filter_self (no_progress run_id) entries),
    )

append_text-answered :
    (run_id text more : String) (entries : List ChatEntry)
    → NoAnswer run_id entries
    → append_text run_id more (filter (no_progress run_id) (answered run_id text entries))
      ≡ answered run_id (text <> more) entries
append_text-answered run_id text more entries h =
    ap (append_text run_id more) (filter-answered run_id text entries)
    ∙ append_text-next run_id text more (filter (no_progress run_id) entries)
        (All-filter _ (no_progress run_id) entries h)

streamed_next :
    (run_id text : String) (texts : List String) (entries : List ChatEntry) (s : AgentThreadState)
    → NoAnswer run_id entries
    → run_actions (record s { entries = answered run_id text entries }) (deltas run_id texts)
      ≡ record s { entries = answered run_id (joined text texts) entries }
unfolding run_actions agent_thread_reducer apply_stream_event
streamed_next run_id text [] entries s h = refl
streamed_next run_id text (more ∷ texts) entries s h =
    ap (λ es. run_actions (record s { entries = es }) (deltas run_id texts))
      (append_text-answered run_id text more entries h)
    ∙ streamed_next run_id (text <> more) texts entries s h

-- Streaming a text in pieces leaves one answer, which holds the pieces in order, in the place of
-- the run's progress entry; nothing else of the thread changes.
pub streamed_text :
    (run_id text : String) (texts : List String) (s : AgentThreadState)
    → NoAnswer run_id s.entries
    → run_actions s (deltas run_id (text ∷ texts)) ≡ record s {
      entries =
          filter (no_progress run_id) s.entries
          ++ assistant (assistant_id run_id) (joined text texts) run_id ∷ [];
    }
unfolding run_actions agent_thread_reducer apply_stream_event
streamed_text run_id text texts s h =
    ap (λ es. run_actions (record s { entries = es }) (deltas run_id texts))
      (append_text-first run_id text (filter (no_progress run_id) s.entries)
        (All-filter _ (no_progress run_id) s.entries h))
    ∙ streamed_next run_id text texts s.entries s h

put_entry-answer :
    (run_id text final : String) (entries : List ChatEntry)
    → NoAnswer run_id entries
    → put_entry
        (assistant_id run_id)
        (assistant (assistant_id run_id) final run_id)
        (entries ++ assistant (assistant_id run_id) text run_id ∷ [])
      ≡ entries ++ assistant (assistant_id run_id) final run_id ∷ []
put_entry-answer run_id text final [] h = ground (arith, eq_refl (assistant_id run_id))
put_entry-answer run_id text final (e ∷ es) h =
    ground (arith, put_entry-answer run_id text final es h.1)

-- The final text of a successful run takes the place of the text that was streamed for it, so the
-- answer shows once.
pub streamed-completed :
    (run_id text : String) (texts : List String) (final : String) (s : AgentThreadState)
    (response : AgentResult) (snapshot : AgentRunSnapshot)
    → NoAnswer run_id s.entries
    → find (λ run. run.id == run_id) s.runs ≡ some snapshot
    → response.status ≡ ResultStatus.succeeded
    → response.text ≡ some final
    → is_empty (trim final) ≡ false
    → (agent_thread_reducer
        (run_actions s (deltas run_id (text ∷ texts)))
        (run_succeeded run_id response)).entries
      ≡ (filter (no_progress run_id) s.entries ++ assistant (assistant_id run_id) final run_id ∷ [])
        ++ approval_entry run_id (get_or response.approval_requests [])
unfolding agent_thread_reducer complete_run
streamed-completed run_id text texts final s response snapshot h known ok said full =
    rw (streamed_text run_id text texts s h) (
      rw (known, complete_run)
        (ground (
          arith,
          filter-answered run_id (joined text texts) s.entries,
          put_entry-answer run_id (joined text texts) final (filter (no_progress run_id) s.entries)
              (All-filter _ (no_progress run_id) s.entries h),
        )))
