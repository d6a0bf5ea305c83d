-- ===== src/Outbox/Requests.antt =====
-- The requests that a batch sends.
use mathlib.Core.List.{Memᴰ}
use authlane.Prelude.{ℕ, ◌≡◌, refl, inl, inr, true, List, [], ◌∷◌, All, All-append, Bool-cases}
use authlane.Store.Tables.{OutboxEvent}
use authlane.Outbox.Delivery.{
  WebhookRequest, WebhookConfig, validate_webhook_url, sign_webhook, webhook_body, webhook_request,
  deliver_webhook,
}
use authlane.Outbox.Rules.{Configured, after_claim, process_event_rule, process_events_rule}
use authlane.Outbox.Batch.{Services, BatchState, after_delivery, process_events, final}

-- A request that tells one event to the organization that the event belongs to: at the URL that
-- the organization stored, which passes the check, and signed with the organization's secret.
pub record IsAddressed (v : Services) (event : OutboxEvent) (r : WebhookRequest) : Type 0 where
  pub config : WebhookConfig
  pub configured : Configured v event config
  pub valid : validate_webhook_url v.platform r.url ≡ true
  pub to_tenant : r.url ≡ config.url
  pub signed : r.signature ≡ sign_webhook v.platform config.secret r.timestamp r.body
  pub keyed : r.idempotency_key ≡ event.id
  pub told : r.body ≡ webhook_body v.platform event

abbrev pub FromBatch : Services → List OutboxEvent → WebhookRequest → Type 0
FromBatch v pending r = (event : OutboxEvent) × Memᴰ event pending × IsAddressed v event r

after_delivery-FromBatch :
    (v : Services) (now : ℕ) (pending : List OutboxEvent) (event : OutboxEvent)
    (config : WebhookConfig) (st : BatchState)
    → Memᴰ event pending
    → Configured v event config
    → All (FromBatch v pending) st.sent
    → All (FromBatch v pending) (after_delivery v now event config st).sent
unfolding after_delivery deliver_webhook webhook_request
after_delivery-FromBatch v now pending event config st m c h =
    elim (Bool-cases (validate_webhook_url v.platform config.url)) [
      | inl valid ↦ rw valid (
          All-append (FromBatch v pending) st.sent
            (webhook_request v.platform event config now ∷ []) h
            (
              (
                event,
                m,
                record {
                  config = config;
                  configured = c;
                  valid = valid;
                  to_tenant = refl;
                  signed = refl;
                  keyed = refl;
                  told = refl;
                },
              ),
              tt,
            ))
      | inr invalid ↦ rw invalid h
    ]

members : (events : List OutboxEvent) → All (λ e. Memᴰ e events) events
members [] = tt
members (e ∷ es) = (Memᴰ.head refl, weaken es (members es))
  where
    weaken : (xs : List OutboxEvent) → All (λ x. Memᴰ x es) xs → All (λ x. Memᴰ x (e ∷ es)) xs
    weaken [] h = tt
    weaken (x ∷ xs) h = (Memᴰ.tail h.0, weaken xs h.1)

-- Every request of a batch tells one of its events, at a URL that passes the check and that the
-- event's own organization stored, under that organization's signature over the timestamp and the
-- body that the request carries.
pub process_events-FromBatch :
    (v : Services) (now : ℕ) (pending : List OutboxEvent) (st : BatchState)
    → st.sent ≡ []
    → All (FromBatch v pending) (final (process_events v now pending st)).sent
process_events-FromBatch v now pending st empty =
    process_events_rule (λ b. All (FromBatch v pending) b.sent) v now (λ e. Memᴰ e pending)
      (λ event b m h.
        process_event_rule (λ s. All (FromBatch v pending) s.sent) v now event b h
          λ _. (
            h,
            h,
            λ config c.
                after_delivery-FromBatch v now pending event config (after_claim now event b) m c h,
          ))
      pending st (members pending) (rw empty tt)
