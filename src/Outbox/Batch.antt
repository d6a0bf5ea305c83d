-- ===== src/Outbox/Batch.antt =====
-- `processOutboxBatch` of outbox.ts. The state is the table of events, the requests that were sent,
-- and the counter. Each step reads the table as it is then, so the list `pending` may be older than
-- the table: that is how a second worker shows. The secret store and the organizations' metadata
-- are functions; `read_secret` is `none` where the store throws.
use authlane.Prelude.{
  ℕ, ◌+◌, ◌-◌, ◌*◌, ◌^◌, String, Bool, true, false, ◌&&◌, ◌||◌, Option, none, some, List, [], ◌∷◌,
  ◌++◌, filter, any, take, leb, ltb, min, if◌then◌else◌, ◌==◌,
}
use authlane.Store.Tables.{EventStatus, OutboxEvent}
use authlane.Store.Rows.{update_where}
use authlane.Outbox.Delivery.{
  Platform, WebhookRequest, DeliveryResult, WebhookConfig, deliver_webhook, webhook_config,
}

pub record Services : Type 0 where
  pub platform : Platform
  -- `organization.metadata` by the organization's id.
  pub tenant_metadata : String → Option String
  -- By the secret's id, the organization's id and the purpose.
  pub read_secret : String → String → String → Option String

pub record BatchState : Type 0 where
  pub events : List OutboxEvent
  pub sent : List WebhookRequest
  pub processed : ℕ

-- A batch ends, or an exception leaves it.
pub data Outcome : Type 0 where
  finished : BatchState → Outcome
  aborted : BatchState → Outcome

abbrev pub is_pending : EventStatus → Bool
is_pending EventStatus.pending = true
is_pending EventStatus.processing = false
is_pending EventStatus.delivered = false
is_pending EventStatus.failed = false

abbrev pub is_processing : EventStatus → Bool
is_processing EventStatus.processing = true
is_processing EventStatus.pending = false
is_processing EventStatus.delivered = false
is_processing EventStatus.failed = false

-- A comparison with a null column does not hold.
abbrev pub before : Option ℕ → ℕ → Bool
before none t = false
before (some s) t = ltb s t

abbrev pub stale_processing : ℕ → ℕ
stale_processing now = now - 5 * 60000

abbrev pub is_stale : ℕ → OutboxEvent → Bool
is_stale now e = is_processing e.status && before e.processing_at (stale_processing now)

-- The rows that a batch selects, and those that it may claim.
unfoldable pub is_due : ℕ → OutboxEvent → Bool
is_due now e = (is_pending e.status && leb e.available_at now) || is_stale now e

unfoldable pub is_claimable : ℕ → String → OutboxEvent → Bool
is_claimable now id e = e.id == id && (is_pending e.status || is_stale now e)

abbrev pub claim : ℕ → OutboxEvent → OutboxEvent
claim now e = record e { status = EventStatus.processing; processing_at = some now }

abbrev pub skip_delivery : ℕ → OutboxEvent → OutboxEvent
skip_delivery now e = record e {
  status = EventStatus.delivered;
  delivered_at = some now;
  processing_at = none;
}

-- How long a failed event waits.
unfoldable pub backoff : ℕ → ℕ
backoff attempts = min 3600000 (2 ^ attempts * 1000)

-- The row after a delivery was tried, `attempts` being the selected row's number and one.
unfoldable pub record_delivery : ℕ → ℕ → DeliveryResult → OutboxEvent → OutboxEvent
unfolding backoff
record_delivery now attempts result e =
    if result.delivered
    then record e {
      status = EventStatus.delivered;
      attempts = attempts;
      delivered_at = some now;
      processing_at = none;
      last_error = none;
    }
    else record e {
      status = if leb 10 attempts then EventStatus.failed else EventStatus.pending;
      attempts = attempts;
      available_at = now + backoff attempts;
      processing_at = none;
      last_error = result.error;
    }

abbrev pub set_event : String → (OutboxEvent → OutboxEvent) → List OutboxEvent → List OutboxEvent
set_event id change events = update_where (λ e. e.id == id) change events

abbrev pub log_request : Option WebhookRequest → List WebhookRequest → List WebhookRequest
log_request none sent = sent
log_request (some request) sent = sent ++ request ∷ []

-- The state after an event whose organization has no webhook.
abbrev pub after_skip : ℕ → OutboxEvent → BatchState → BatchState
after_skip now event st = record st {
  events = set_event event.id (skip_delivery now) st.events;
  processed = st.processed + 1;
}

-- The state after a delivery was tried.
unfoldable pub after_delivery : Services → ℕ → OutboxEvent → WebhookConfig → BatchState → BatchState
unfolding record_delivery
after_delivery v now event config st =
    let (result, request) = deliver_webhook v.platform event config now in
    record {
      events = set_event event.id (record_delivery now (event.attempts + 1) result) st.events;
      sent = log_request request st.sent;
      processed = st.processed + 1;
    }

-- The loop's body behind the claim.
unfoldable pub deliver_claimed : Services → ℕ → OutboxEvent → BatchState → Outcome
unfolding after_delivery
deliver_claimed v now event st =
    elim (webhook_config v.platform (v.tenant_metadata event.organization_id)) [
      | none ↦ finished (after_skip now event st)
      | some stored ↦
          elim (v.read_secret stored.secret_id event.organization_id "webhook_signing_secret") [
            | none ↦ aborted st
            | some secret ↦
                finished
                  (after_delivery v now event (record { url = stored.url; secret = secret }) st)
          ]
    ]

-- One round of the loop: an event that another worker holds or has finished is passed over.
unfoldable pub process_event : Services → ℕ → OutboxEvent → BatchState → Outcome
unfolding deliver_claimed is_claimable
process_event v now event st =
    if any (is_claimable now event.id) st.events
    then deliver_claimed v now event
        (record st { events = update_where (is_claimable now event.id) (claim now) st.events })
    else finished st

unfoldable pub process_events : Services → ℕ → List OutboxEvent → BatchState → Outcome
process_events v now [] st = finished st
process_events v now (event ∷ pending) st = elim (process_event v now event st) [
  | finished st' ↦ process_events v now pending st'
  | aborted st' ↦ aborted st'
]

-- The selection names no order, so the model takes the table's.
abbrev pub select_pending : ℕ → List OutboxEvent → List OutboxEvent
select_pending now events = take 25 (filter (is_due now) events)

unfoldable pub process_outbox_batch : Services → ℕ → List OutboxEvent → Outcome
unfolding process_events is_due
process_outbox_batch v now events =
    process_events v now (select_pending now events)
      (record { events = events; sent = []; processed = 0 })

-- The state in which a batch ends, either way.
abbrev pub final : Outcome → BatchState
final (finished st) = st
final (aborted st) = st
