-- ===== src/Outbox/Terminal.antt =====
-- What a batch leaves alone: the identity and the contents of every row, and all of a row that is
-- delivered or has failed for good.
use authlane.Prelude.{
  ℕ, ◌+◌, ◌≤◌, ◌≡◌, refl, ap, ◌∙◌, inl, inr, String, Bool, true, false, List, [], ◌∷◌, any,
  count_if, All, Bool-cases, if◌then◌else◌, ◌==◌, arith,
}
use authlane.Store.Tables.{EventStatus, OutboxEvent}
use authlane.Store.Rows.{
  update_where, Pointwise, update_where-none, update_where-Pointwise, Pointwise-refl,
  Pointwise-trans, any-count,
}
use authlane.Outbox.Delivery.{DeliveryResult, deliver_webhook}
use authlane.Outbox.Rules.{process_event_rule, process_events_rule}
use authlane.Outbox.Batch.{
  Services, BatchState, is_claimable, claim, skip_delivery, record_delivery, set_event,
  after_delivery, process_event, process_events, final,
}

-- An event that is delivered or has failed for good.
abbrev pub is_terminal : EventStatus → Bool
is_terminal EventStatus.delivered = true
is_terminal EventStatus.failed = true
is_terminal EventStatus.pending = false
is_terminal EventStatus.processing = false

abbrev Same : OutboxEvent → OutboxEvent → Type 0
Same x y =
    (y.id ≡ x.id)
    × (y.payload ≡ x.payload)
    × (y.event_type ≡ x.event_type)
    × (y.organization_id ≡ x.organization_id)

-- What every round keeps of a row: its identity and its contents, and all of it once it is
-- terminal.
pub record Kept (x y : OutboxEvent) : Type 0 where
  pub same_id : y.id ≡ x.id
  pub same_payload : y.payload ≡ x.payload
  pub same_type : y.event_type ≡ x.event_type
  pub same_organization : y.organization_id ≡ x.organization_id
  pub terminal : is_terminal x.status ≡ true → y ≡ x

Kept-refl : (x : OutboxEvent) → Kept x x
Kept-refl x = ground arith

Kept-trans : (x y z : OutboxEvent) → Kept x y → Kept y z → Kept x z
Kept-trans x y z h k = record {
  same_id = k.same_id ∙ h.same_id;
  same_payload = k.same_payload ∙ h.same_payload;
  same_type = k.same_type ∙ h.same_type;
  same_organization = k.same_organization ∙ h.same_organization;
  terminal = λ t. let e = h.terminal t in k.terminal (rw e t) ∙ e;
}

-- How many rows have an identifier.
abbrev pub rows_with : String → List OutboxEvent → ℕ
rows_with id events = count_if (λ e. e.id == id) events

claimable-le :
    (now : ℕ) (id : String) (events : List OutboxEvent)
    → count_if (is_claimable now id) events ≤ rows_with id events
unfolding is_claimable
claimable-le now id [] = omega arith
claimable-le now id (e ∷ es) = ground (arith, claimable-le now id es)

claim-Kept :
    (now : ℕ) (id : String) (e : OutboxEvent) → is_claimable now id e ≡ true → Kept e (claim now e)
unfolding is_claimable
claim-Kept now id e h = ground arith

rows_with-Pointwise :
    (id : String) (xs ys : List OutboxEvent)
    → Pointwise Kept xs ys
    → rows_with id ys ≡ rows_with id xs
rows_with-Pointwise id [] [] h = refl
rows_with-Pointwise id [] (y ∷ ys) h = absurd h
rows_with-Pointwise id (x ∷ xs) [] h = absurd h
rows_with-Pointwise id (x ∷ xs) (y ∷ ys) h = rw (h.0.same_id, rows_with-Pointwise id xs ys h.1)

module _ (now : ℕ) (id : String) (change : OutboxEvent → OutboxEvent)
    (same : (e : OutboxEvent) → Same e (change e)) where
  abbrev round : List OutboxEvent → List OutboxEvent
  round events = set_event id change (update_where (is_claimable now id) (claim now) events)

  round-none : (events : List OutboxEvent) → rows_with id events ≡ 0 → round events ≡ events
  round-none events h =
      let unclaimed : count_if (is_claimable now id) events ≡ 0 =
        omega (arith, claimable-le now id events) in
      ap (set_event id change)
        (update_where-none (is_claimable now id) (claim now) events unclaimed)
      ∙ update_where-none (λ e. e.id == id) change events h

  -- The round on one row.
  abbrev round_row : OutboxEvent → OutboxEvent
  round_row e =
      let c = if is_claimable now id e then claim now e else e in if c.id == id then change c else c

  round_row-hit : (e : OutboxEvent) → is_claimable now id e ≡ true → Kept e (round_row e)
  unfolding is_claimable
  round_row-hit e h = ground (arith, same (claim now e))

  round_row-miss : (e : OutboxEvent) → (e.id == id) ≡ false → round_row e ≡ e
  unfolding is_claimable
  round_row-miss e h = ground arith

  claimable_head :
      (e : OutboxEvent) (es : List OutboxEvent)
      → rows_with id es ≡ 0
      → any (is_claimable now id) (e ∷ es) ≡ true
      → is_claimable now id e ≡ true
  claimable_head e es none_left hit =
      ground (arith, any-count (is_claimable now id) es, claimable-le now id es)

  claimable_tail :
      (e : OutboxEvent) (es : List OutboxEvent)
      → (e.id == id) ≡ false
      → any (is_claimable now id) (e ∷ es) ≡ true
      → any (is_claimable now id) es ≡ true
  unfolding is_claimable
  claimable_tail e es miss hit = ground arith

  round-Kept :
      (events : List OutboxEvent)
      → rows_with id events ≤ 1
      → any (is_claimable now id) events ≡ true
      → Pointwise Kept events (round events)
  round-Kept [] one hit = tt
  round-Kept (e ∷ es) one hit = elim (Bool-cases (e.id == id)) [
    | inl here ↦
        let none_left : rows_with id es ≡ 0 = ground arith in
        (
          round_row-hit e (claimable_head e es none_left hit),
          rw (round-none es none_left) (Pointwise-refl Kept Kept-refl es),
        )
    | inr there ↦ (
      rw (round_row-miss e there) (Kept-refl e),
      round-Kept es (ground arith) (claimable_tail e es there hit),
    )
  ]

-- A table that stands to `start` as the rows after some rounds, with one row to an identifier.
abbrev Follows : List OutboxEvent → List OutboxEvent → Type 0
Follows start events = Pointwise Kept start events × ((id : String) → rows_with id events ≤ 1)

follow :
    (start xs ys : List OutboxEvent) → Follows start xs → Pointwise Kept xs ys → Follows start ys
follow start xs ys h k = (
  Pointwise-trans Kept Kept-trans start xs ys h.0 k,
  λ id. rw (rows_with-Pointwise id xs ys k) (h.1 id),
)

skip_delivery-Same : (now : ℕ) (e : OutboxEvent) → Same e (skip_delivery now e)
skip_delivery-Same now e = ground arith

record_delivery-Same :
    (now attempts : ℕ) (result : DeliveryResult) (e : OutboxEvent)
    → Same e (record_delivery now attempts result e)
unfolding record_delivery
record_delivery-Same now attempts result e = ground arith

process_event-Follows :
    (v : Services) (now : ℕ) (start : List OutboxEvent) (event : OutboxEvent) (st : BatchState)
    → Unit {0}
    → Follows start st.events
    → Follows start (final (process_event v now event st)).events
unfolding after_delivery
process_event-Follows v now start event st _ h =
    process_event_rule (λ b. Follows start b.events) v now event st h
      λ hit. (
        follow start st.events _ h (
            update_where-Pointwise Kept (is_claimable now event.id) (claim now) Kept-refl
              (claim-Kept now event.id) st.events),
        follow start st.events _ h (
            round-Kept now event.id (skip_delivery now) (skip_delivery-Same now) st.events
              (h.1 event.id) hit),
        λ config _.
            let result = (deliver_webhook v.platform event config now).0 in
            follow start st.events _ h (
              round-Kept now event.id (record_delivery now (event.attempts + 1) result)
                (record_delivery-Same now (event.attempts + 1) result) st.events (h.1 event.id)
                hit),
      )

All-Unit : (events : List OutboxEvent) → All (λ e. Unit {0}) events
All-Unit [] = tt
All-Unit (e ∷ es) = (tt, All-Unit es)

-- A batch changes rows only in place: every row keeps its identifier, type, organization and
-- payload, and a row that is delivered or failed stays exactly as it is. This holds for any list of
-- selected events, however old, where the identifiers of the table are distinct.
pub process_events-Kept :
    (v : Services) (now : ℕ) (pending : List OutboxEvent) (st : BatchState)
    → ((id : String) → rows_with id st.events ≤ 1)
    → Pointwise Kept st.events (final (process_events v now pending st)).events
process_events-Kept v now pending st one =
    (process_events_rule (λ b. Follows st.events b.events) v now (λ e. Unit {0})
      (process_event-Follows v now st.events) pending st (All-Unit pending)
      (Pointwise-refl Kept Kept-refl st.events, one)).0
