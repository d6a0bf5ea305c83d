-- ===== src/Outbox/Lifecycle.antt =====
-- What an event goes through: its attempts are bounded, and a delivered or failed event stays as it
-- is.
use authlane.Prelude.{
  false, zero, suc, ℕ, ◌+◌, ◌≤◌, ◌<◌, ◌≡◌, ◌⊎◌, String, true, none, List, All, ◌==◌, arith,
}
use authlane.Store.Tables.{EventStatus, OutboxEvent}
use authlane.Store.Rows.{update_where, update_where-All}
use authlane.Outbox.Delivery.{DeliveryResult, deliver_webhook}
use authlane.Outbox.Rules.{process_event_rule, process_events_rule}
use authlane.Outbox.Batch.{
  backoff, Services, BatchState, Outcome, is_claimable, claim, skip_delivery, record_delivery,
  process_event, process_events, after_delivery, final,
}

-- An event keeps within its budget of ten attempts, and its columns agree with its status.
pub record IsSound (e : OutboxEvent) : Type 0 where
  pub open_budget :
      (e.status ≡ EventStatus.pending) ⊎ (e.status ≡ EventStatus.processing) → e.attempts < 10
  pub failed_spent : e.status ≡ EventStatus.failed → e.attempts ≡ 10
  pub budget : e.attempts ≤ 10
  pub claimed_dated : e.status ≡ EventStatus.processing → ¬ (e.processing_at ≡ none)
  pub free_undated : e.status ≡ EventStatus.pending → e.processing_at ≡ none

claim-IsSound :
    (now : ℕ) (id : String) (e : OutboxEvent)
    → is_claimable now id e ≡ true
    → IsSound e
    → IsSound (claim now e)
unfolding is_claimable
claim-IsSound now id e hit h = ground arith

record_delivery-IsSound :
    (now : ℕ) (result : DeliveryResult) (attempts : ℕ) (e : OutboxEvent)
    → attempts < 10
    → IsSound e
    → IsSound (record_delivery now (attempts + 1) result e)
unfolding record_delivery
record_delivery-IsSound now result attempts e bound h = ground arith

skip_delivery-IsSound : (now : ℕ) (e : OutboxEvent) → IsSound e → IsSound (skip_delivery now e)
skip_delivery-IsSound now e h = ground arith

-- An outcome whose events all have a property.
abbrev Holds : (List OutboxEvent → Type 0) → Outcome → Type 0
Holds P o = P (final o).events

claimed-IsSound :
    (now : ℕ) (id : String) (events : List OutboxEvent)
    → All IsSound events
    → All IsSound (update_where (is_claimable now id) (claim now) events)
claimed-IsSound now id events h =
    update_where-All IsSound (is_claimable now id) (claim now) (claim-IsSound now id) events h

process_event-IsSound :
    (v : Services) (now : ℕ) (event : OutboxEvent) (st : BatchState)
    → event.attempts < 10
    → All IsSound st.events
    → All IsSound (final (process_event v now event st)).events
unfolding after_delivery
process_event-IsSound v now event st bound h =
    process_event_rule (λ b. All IsSound b.events) v now event st h
      λ _.
        let claimed = claimed-IsSound now event.id st.events h in
        (
          claimed,
          update_where-All IsSound (λ e. e.id == event.id) (skip_delivery now)
              (λ r _ sound. skip_delivery-IsSound now r sound) _ claimed,
          λ config _.
              let result = (deliver_webhook v.platform event config now).0 in
              update_where-All IsSound (λ e. e.id == event.id)
                (record_delivery now (event.attempts + 1) result)
                (λ r _ sound. record_delivery-IsSound now result event.attempts r bound sound) _
                claimed,
        )

-- A batch keeps every event within ten attempts, also where the events were selected from an older
-- state of the table: an event that is pending or processing has tries left, and one that failed
-- has used all ten.
pub process_events-IsSound :
    (v : Services) (now : ℕ) (pending : List OutboxEvent) (st : BatchState)
    → All (λ e. e.attempts < 10) pending
    → All IsSound st.events
    → All IsSound (final (process_events v now pending st)).events
process_events-IsSound v now pending st =
    process_events_rule (λ b. All IsSound b.events) v now (λ e. e.attempts < 10)
      (process_event-IsSound v now) pending st

backoff_range : (n : ℕ) → 1 ≤ n → n ≤ 9 → (2000 ≤ backoff n) × (backoff n ≤ 512000)
unfolding backoff
backoff_range zero h k = absurd (omega arith)
backoff_range (suc zero) h k = omega arith
backoff_range (suc (suc zero)) h k = omega arith
backoff_range (suc (suc (suc zero))) h k = omega arith
backoff_range (suc (suc (suc (suc zero)))) h k = omega arith
backoff_range (suc (suc (suc (suc (suc zero))))) h k = omega arith
backoff_range (suc (suc (suc (suc (suc (suc zero)))))) h k = omega arith
backoff_range (suc (suc (suc (suc (suc (suc (suc zero))))))) h k = omega arith
backoff_range (suc (suc (suc (suc (suc (suc (suc (suc zero)))))))) h k = omega arith
backoff_range (suc (suc (suc (suc (suc (suc (suc (suc (suc zero))))))))) h k = omega arith
backoff_range (suc (suc (suc (suc (suc (suc (suc (suc (suc (suc n)))))))))) h k =
    absurd (omega arith)

-- A failed delivery is tried again after 2 to 512 seconds, so the limit of an hour never applies;
-- the tenth failure is final.
pub record_delivery-retries :
    (now attempts : ℕ) (result : DeliveryResult) (e : OutboxEvent)
    → result.delivered ≡ false
    → attempts < 10
    → let r = record_delivery now (attempts + 1) result e in
      ((r.status ≡ EventStatus.failed) × (attempts ≡ 9))
      ⊎ ((r.status ≡ EventStatus.pending)
          × (attempts < 9)
          × (now + 2000 ≤ r.available_at)
          × (r.available_at ≤ now + 512000))
unfolding record_delivery
record_delivery-retries now attempts result e miss bound =
    ground (arith, backoff_range (attempts + 1))
