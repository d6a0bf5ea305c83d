-- ===== src/Outbox/Rules.antt =====
-- Rules for what holds of a batch: by cases of one event, and by induction over the batch.
use authlane.Prelude.{
  ℕ, ◌≡◌, refl, ◌⊎◌, inl, inr, true, some, List, [], ◌∷◌, any, All, Bool-cases, Option-cases,
}
use authlane.Store.Tables.{OutboxEvent}
use authlane.Store.Rows.{update_where}
use authlane.Outbox.Delivery.{StoredWebhookConfig, WebhookConfig, webhook_config}
use authlane.Outbox.Batch.{
  Services, BatchState, Outcome, finished, aborted, is_claimable, claim, after_skip, after_delivery,
  deliver_claimed, process_event, process_events, final,
}

pub Outcome-cases :
    (o : Outcome) → ((st : BatchState) × (o ≡ finished st)) ⊎ ((st : BatchState) × (o ≡ aborted st))
Outcome-cases (finished st) = inl (st, refl)
Outcome-cases (aborted st) = inr (st, refl)

-- The state of a batch that has claimed the event.
abbrev pub after_claim : ℕ → OutboxEvent → BatchState → BatchState
after_claim now event st = record st {
  events = update_where (is_claimable now event.id) (claim now) st.events;
}

-- The organization of the event has stored this URL and this signing secret.
abbrev pub Configured : Services → OutboxEvent → WebhookConfig → Type 0
Configured v event config =
    (stored : StoredWebhookConfig) × (webhook_config v.platform
        (v.tenant_metadata event.organization_id)
      ≡ some stored)
    × (config.url ≡ stored.url)
    × (v.read_secret stored.secret_id event.organization_id "webhook_signing_secret"
        ≡ some config.secret)

module _ (P : BatchState → Type 0) (v : Services) (now : ℕ) where
  deliver_claimed_rule :
      (event : OutboxEvent) (st : BatchState)
      → P st
      → P (after_skip now event st)
      → ((config : WebhookConfig)
          → Configured v event config
          → P (after_delivery v now event config st))
      → P (final (deliver_claimed v now event st))
  unfolding deliver_claimed
  deliver_claimed_rule event st same skipped delivered =
      elim (Option-cases (webhook_config v.platform (v.tenant_metadata event.organization_id))) [
        | inl e ↦ rw (e, deliver_claimed) skipped
        | inr (stored, e) ↦
            rw (e, deliver_claimed)
              (elim (Option-cases
                (v.read_secret stored.secret_id event.organization_id "webhook_signing_secret")) [
                  | inl f ↦ rw f same
                  | inr (secret, f) ↦ rw f (delivered _ (stored, e, refl, f))
                ])
      ]

  pub process_event_rule :
      (event : OutboxEvent) (st : BatchState)
      → P st
      → (any (is_claimable now event.id) st.events ≡ true
          → P (after_claim now event st)
            × P (after_skip now event (after_claim now event st))
            × ((config : WebhookConfig)
                → Configured v event config
                → P (after_delivery v now event config (after_claim now event st))))
      → P (final (process_event v now event st))
  unfolding process_event
  process_event_rule event st same claimed =
      elim (Bool-cases (any (is_claimable now event.id) st.events)) [
        | inl e ↦
            rw e (
              let c = claimed e in
              deliver_claimed_rule event (after_claim now event st) c.0 c.1 c.2)
        | inr e ↦ rw e same
      ]

  pub process_events_rule :
      (Q : OutboxEvent → Type 0)
      → ((event : OutboxEvent) (st : BatchState)
          → Q event
          → P st
          → P (final (process_event v now event st)))
      → (pending : List OutboxEvent) (st : BatchState) → All Q pending
      → P st
      → P (final (process_events v now pending st))
  unfolding process_events
  process_events_rule Q step [] st q h = h
  process_events_rule Q step (event ∷ pending) st q h =
      let k = step event st q.0 h in
      elim (Outcome-cases (process_event v now event st)) [
        | inl (st', e) ↦
            rw (e, process_events) (process_events_rule Q step pending st' q.1 (rw e at k))
        | inr (st', e) ↦ rw (e, process_events) (rw e at k)
      ]
