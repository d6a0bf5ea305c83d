-- ===== src/Outbox/Abort.antt =====
-- A webhook secret that cannot be read.
use authlane.Prelude.{
  ℕ, ◌+◌, ◌*◌, ◌<◌, ◌≡◌, ◌⊎◌, refl, inl, inr, String, Bool, true, ◌&&◌, none, some, List, [], ◌∷◌,
  any, and-eq-true, eq_iff, ◌==◌, arith,
}
use authlane.Store.Tables.{EventStatus, OutboxEvent}
use authlane.Store.Rows.{update_where, update_where-Pointwise, Pointwise}
use authlane.Outbox.Delivery.{StoredWebhookConfig, webhook_config}
use authlane.Outbox.Batch.{
  Services, BatchState, aborted, is_processing, is_claimable, claim, deliver_claimed, process_event,
  process_events,
}
use authlane.Outbox.Rules.{after_claim}

deliver_claimed-blocked :
    (v : Services) (now : ℕ) (event : OutboxEvent) (st : BatchState) (stored : StoredWebhookConfig)
    → webhook_config v.platform (v.tenant_metadata event.organization_id) ≡ some stored
    → v.read_secret stored.secret_id event.organization_id "webhook_signing_secret" ≡ none
    → deliver_claimed v now event st ≡ aborted st
unfolding deliver_claimed
deliver_claimed-blocked v now event st stored configured lost =
    rw (configured, deliver_claimed) (rw lost refl)

-- The event is claimed.
abbrev pub is_held : String → OutboxEvent → Bool
is_held id e = e.id == id && is_processing e.status

-- A row that a batch leaves as it was, or claimed, with its attempts as they were.
abbrev pub Held : String → OutboxEvent → OutboxEvent → Type 0
Held id x y =
    (y ≡ x)
    ⊎ ((x.id ≡ id) × (y.id ≡ id) × (y.status ≡ EventStatus.processing) × (y.attempts ≡ x.attempts))

claimed-Held :
    (now : ℕ) (id : String) (events : List OutboxEvent)
    → Pointwise (Held id) events (update_where (is_claimable now id) (claim now) events)
unfolding is_claimable
claimed-Held now id =
    update_where-Pointwise (Held id) (is_claimable now id) (claim now) (λ e. inl refl)
      (λ e hit.
        let same = (eq_iff e.id id).0 (and-eq-true (e.id == id) _ hit).0 in
        inr (same, same, refl, refl))

any-is_held :
    (now : ℕ) (id : String) (events : List OutboxEvent)
    → any (is_claimable now id) events ≡ true
    → any (is_held id) (update_where (is_claimable now id) (claim now) events) ≡ true
unfolding is_claimable
any-is_held now id [] h = h
any-is_held now id (e ∷ rest) h = ground (arith, any-is_held now id rest)

-- Five minutes later the claim is stale.
any-is_claimable :
    (now later : ℕ) (id : String) (events : List OutboxEvent)
    → now + 5 * 60000 < later
    → any (is_claimable now id) events ≡ true
    → any (is_claimable later id) (update_where (is_claimable now id) (claim now) events) ≡ true
unfolding is_claimable
any-is_claimable now later id [] late h = h
any-is_claimable now later id (e ∷ rest) late h =
    ground (arith, any-is_claimable now later id rest late)

blocked_batch :
    (v : Services) (now : ℕ) (event : OutboxEvent) (rest : List OutboxEvent) (st : BatchState)
    (stored : StoredWebhookConfig)
    → any (is_claimable now event.id) st.events ≡ true
    → webhook_config v.platform (v.tenant_metadata event.organization_id) ≡ some stored
    → v.read_secret stored.secret_id event.organization_id "webhook_signing_secret" ≡ none
    → process_events v now (event ∷ rest) st ≡ aborted (after_claim now event st)
unfolding process_events process_event
blocked_batch v now event rest st stored free configured lost =
    rw (free, process_events, process_event)
      (rw
        (
          deliver_claimed-blocked v now event (after_claim now event st) stored configured lost,
          process_events,
        )
        refl)

-- Where the signing secret of an event's organization cannot be read, the batch ends there with an
-- exception: nothing is sent for any event from it on, and it is left claimed, with its attempts as
-- they were. A batch that begins with it more than five minutes later ends in the same way, so the
-- event never reaches its last attempt.
pub process_events-blocked :
    (v : Services) (now later : ℕ) (event : OutboxEvent) (rest others : List OutboxEvent)
    (st : BatchState) (stored : StoredWebhookConfig)
    → any (is_claimable now event.id) st.events ≡ true
    → webhook_config v.platform (v.tenant_metadata event.organization_id) ≡ some stored
    → v.read_secret stored.secret_id event.organization_id "webhook_signing_secret" ≡ none
    → now + 5 * 60000 < later
    → (first : BatchState) × (second : BatchState) × (process_events v now (event ∷ rest) st
        ≡ aborted first)
      × (process_events v later (event ∷ others) first ≡ aborted second)
      × (any (is_held event.id) first.events ≡ true)
      × Pointwise (Held event.id) st.events first.events
      × Pointwise (Held event.id) first.events second.events
      × (second.sent ≡ st.sent)
      × (second.processed ≡ st.processed)
process_events-blocked v now later event rest others st stored free configured lost late =
    let first = after_claim now event st in
    (
      first,
      after_claim later event first,
      blocked_batch v now event rest st stored free configured lost,
      blocked_batch v later event others first stored
          (any-is_claimable now later event.id st.events late free) configured lost,
      any-is_held now event.id st.events free,
      claimed-Held now event.id st.events,
      claimed-Held later event.id first.events,
      refl,
      refl,
    )
