-- ===== src/Outbox/Tests.antt =====
-- Runs of the worker on concrete tables, and the theorems at concrete inputs.
use authlane.Prelude.{
  ℕ, ◌+◌, ◌≤◌, ◌<◌, ◌≡◌, ◌⊎◌, refl, String, true, false, any, Option, none, some, List, [], ◌∷◌,
  All, units, ends_with, decimal, ◌<>◌, arith,
}
use authlane.Prelude.Json.{null, str, obj, field, end, get}
use authlane.Net.Url.{Url}
use authlane.Store.Tables.{ConnectionStatus, Connection, EventStatus, OutboxEvent, new_event}
use authlane.Store.Rows.{Pointwise, count_if-distinct}
use authlane.Outbox.Delivery.{
  Platform, DeliveryResult, is_valid_webhook_url, validate_webhook_url, webhook_request,
  deliver_webhook, webhook_config,
}
use authlane.Outbox.Batch.{
  Services, BatchState, aborted, is_due, is_claimable, backoff, record_delivery, after_delivery,
  deliver_claimed, process_event, process_events, process_outbox_batch, final,
}
use authlane.Outbox.Expiry.{
  Supply, is_over, still, expire_connection, expire_connections, mark_expired_connections,
}
use authlane.Outbox.Lifecycle.{IsSound, process_events-IsSound, record_delivery-retries}
use authlane.Outbox.Terminal.{Kept, rows_with, process_events-Kept}
use authlane.Outbox.Requests.{FromBatch, process_events-FromBatch}
use authlane.Outbox.Abort.{is_held, Held, process_events-blocked}
use authlane.Outbox.Transitions.{rows_of, mark_expired_connections_complete}

abbrev hook_url : Url
hook_url = record {
  href = "https://example.org/hook";
  protocol = "https:";
  username = "";
  password = "";
  hostname = "example.org";
  port = "";
  pathname = "/hook";
  search = "";
  hash = "";
  origin = "https://example.org";
}

-- A platform whose network answers with the given status.
abbrev platform : Option ℕ → Platform
platform answer = record {
  parse_json = λ text. some (
      obj (
        field "webhookUrl" (str "https://example.org/hook")
          (field "webhookSecretId" (str "s1") end)));
  stringify = λ json. "{}";
  parse_url = λ text. some hook_url;
  hmac = λ key text. key <> text;
  to_iso = decimal;
  post = λ request. answer;
}

abbrev services : Option ℕ → Option String → Services
services answer secret = record {
  platform = platform answer;
  tenant_metadata = λ id. some "{}";
  read_secret = λ id organization purpose. secret;
}

abbrev first : OutboxEvent
first = new_event "e1" 0 "org" "connection.expired" null

abbrev second : OutboxEvent
second = new_event "e2" 0 "org" "connection.error" null

abbrev gone : OutboxEvent
gone = record (new_event "e3" 0 "org" "connection.error" null) {
  status = EventStatus.failed;
  attempts = 10;
}

abbrev table : List OutboxEvent
table = first ∷ gone ∷ second ∷ []

abbrev start : BatchState
start = record { events = table; sent = []; processed = 0 }

worker : Unit {0}
unfolding process_outbox_batch process_events process_event is_due is_claimable backoff
    record_delivery after_delivery deliver_claimed deliver_webhook webhook_config webhook_request
    validate_webhook_url is_valid_webhook_url units ends_with decimal get expire_connections
    expire_connection mark_expired_connections still is_over
worker = tt

-- Both open events are delivered; the failed one is not touched.
delivers :
    (final (process_outbox_batch (services (some 200) (some "k")) 9 table)).events
    ≡ record first { status = EventStatus.delivered; attempts = 1; delivered_at = some 9 }
      ∷ gone
      ∷ record second { status = EventStatus.delivered; attempts = 1; delivered_at = some 9 }
      ∷ []
unfolding worker
delivers = refl

-- After a failure an event waits for two seconds.
waits :
    (final (process_outbox_batch (services (some 500) (some "k")) 9 (first ∷ []))).events
    ≡ record first {
      attempts = 1;
      available_at = 2009;
      last_error = some "Webhook returned HTTP 500";
    }
      ∷ []
unfolding worker
waits = refl

table-IsSound : All IsSound table
table-IsSound = ground arith

process_events-IsSound_example :
    All IsSound
      (final (process_events (services none (some "k")) 9 (first ∷ second ∷ []) start)).events
process_events-IsSound_example =
    process_events-IsSound (services none (some "k")) 9 (first ∷ second ∷ []) start (ground arith)
      table-IsSound

abbrev failure : DeliveryResult
failure = record { delivered = false; error = none }

table-distinct : (id : String) → rows_with id table ≤ 1
table-distinct id = count_if-distinct (λ e. e.id) id table refl

process_events-Kept_example :
    Pointwise Kept table
      (final (process_events (services none (some "k")) 9 (first ∷ gone ∷ []) start)).events
process_events-Kept_example =
    process_events-Kept (services none (some "k")) 9 (first ∷ gone ∷ []) start table-distinct

abbrev first_connection : Connection
first_connection = record {
  id = "c1";
  organization_id = "org";
  external_user_id = "u";
  service_id = "github";
  status = ConnectionStatus.connected;
  credential_secret_id = some "s";
  metadata = null;
  connected_at = some 1;
  expires_at = some 5;
  last_checked_at = none;
  last_error_code = none;
  refresh_lock_token = none;
  refresh_lock_expires_at = none;
  version = 3;
  created_at = 1;
  updated_at = 1;
}

abbrev connections : List Connection
connections = first_connection ∷ record first_connection { id = "c2"; expires_at = none } ∷ []

abbrev supply : Supply
supply = record { new_id = decimal; db_now = 9; to_iso = decimal }

mark_expired_connections_complete_example :
    All (λ c. is_over 9 c ≡ false) (mark_expired_connections supply 9 connections table).connections
unfolding is_over
mark_expired_connections_complete_example =
    mark_expired_connections_complete supply 9 connections table (omega arith)

connections-distinct : (id : String) → rows_of id connections ≤ 1
connections-distinct id = count_if-distinct (λ c. c.id) id connections refl

process_events-FromBatch_example :
    All
      (FromBatch (services (some 200) (some "k")) (first ∷ []))
      (final (process_events (services (some 200) (some "k")) 9 (first ∷ []) start)).sent
process_events-FromBatch_example =
    process_events-FromBatch (services (some 200) (some "k")) 9 (first ∷ []) start refl

abbrev none_tried : ℕ
none_tried = 0

record_delivery-retries_example :
    let r = record_delivery 9 (none_tried + 1) failure first in
    ((r.status ≡ EventStatus.failed) × (none_tried ≡ 9))
    ⊎ ((r.status ≡ EventStatus.pending)
        × (none_tried < 9)
        × (9 + 2000 ≤ r.available_at)
        × (r.available_at ≤ 9 + 512000))
record_delivery-retries_example =
    record_delivery-retries 9 none_tried failure first refl (omega arith)

-- With no readable secret the second event stays where it is.
process_events-blocked_example :
    (one : BatchState) × (two : BatchState) × (process_events
        (services (some 200) none)
        9
        (first ∷ second ∷ [])
        start
      ≡ aborted one)
    × (process_events (services (some 200) none) 300010 (first ∷ []) one ≡ aborted two)
    × (any (is_held first.id) one.events ≡ true)
    × Pointwise (Held first.id) start.events one.events
    × Pointwise (Held first.id) one.events two.events
    × (two.sent ≡ start.sent)
    × (two.processed ≡ start.processed)
unfolding worker
process_events-blocked_example =
    process_events-blocked (services (some 200) none) 9 300010 first (second ∷ []) [] start
      (record { url = "https://example.org/hook"; secret_id = "s1" }) refl refl refl (omega arith)
