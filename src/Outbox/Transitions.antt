-- ===== src/Outbox/Transitions.antt =====
-- How connections expire: one step to a row, one event to a step, and none left over.
use authlane.Prelude.{
  ℕ, ◌+◌, ◌≤◌, ◌≡◌, refl, ap, ◌∙◌, ◌⊎◌, inl, inr, String, Bool, true, false, List, [], ◌∷◌, filter,
  any, count_if, length, take, take-eq_self, length-append, All, All-map, Bool-cases, if◌then◌else◌,
  ◌==◌, eq_refl, arith,
}
use authlane.Store.Tables.{ConnectionStatus, Connection, OutboxEvent}
use authlane.Store.Rows.{
  update_where, Pointwise, update_where-Pointwise, Pointwise-refl, Pointwise-trans, any-count,
}
use authlane.Outbox.Expiry.{
  ExpiryState, Supply, is_connected, is_over, still, expire, expired_event, expire_connection,
  expire_connections, mark_expired_connections,
}

-- A row stays as it is, or goes from connected to expired, under the next version.
abbrev pub Expires : ℕ → Connection → Connection → Type 0
Expires now x y =
    (y ≡ x)
    ⊎ ((x.status ≡ ConnectionStatus.connected)
        × (y ≡ record x {
          status = ConnectionStatus.expired;
          version = x.version + 1;
          updated_at = now;
        }))

Expires-trans : (now : ℕ) (x y z : Connection) → Expires now x y → Expires now y z → Expires now x z
Expires-trans now x y z (inl e) k = rw e at k
Expires-trans now x y z (inr (c, e)) (inl f) = inr (c, f ∙ e)
Expires-trans now x y z (inr (c, e)) (inr (d, f)) = ground (arith, ap (λ r. r.status) e)

expire-Expires :
    (now : ℕ) (row c : Connection) → still row c ≡ true → Expires now c (expire now row c)
unfolding still
expire-Expires now row c h = ground arith

expire_connection-Pointwise :
    (supply : Supply) (now : ℕ) (row : Connection) (st : ExpiryState)
    → Pointwise (Expires now) st.connections (expire_connection supply now row st).connections
unfolding expire_connection
expire_connection-Pointwise supply now row st = elim (Bool-cases (any (still row) st.connections)) [
  | inl e ↦ rw e (
      update_where-Pointwise (Expires now) (still row) (expire now row) (λ c. inl refl)
        (expire-Expires now row) st.connections)
  | inr e ↦ rw e (Pointwise-refl (Expires now) (λ c. inl refl) st.connections)
]

expire_connections-Pointwise :
    (supply : Supply) (now : ℕ) (rows : List Connection) (st : ExpiryState)
    → Pointwise (Expires now) st.connections (expire_connections supply now rows st).connections
unfolding expire_connections
expire_connections-Pointwise supply now [] st =
    Pointwise-refl (Expires now) (λ c. inl refl) st.connections
expire_connections-Pointwise supply now (row ∷ rows) st =
    Pointwise-trans (Expires now) (Expires-trans now) st.connections _ _
      (expire_connection-Pointwise supply now row st)
      (expire_connections-Pointwise supply now rows (expire_connection supply now row st))

-- Nothing but expiry happens to a connection, and its version moves on once.
pub mark_expired_connections-Expires :
    (supply : Supply) (now : ℕ) (connections : List Connection) (events : List OutboxEvent)
    → Pointwise
        (Expires now)
        connections
        (mark_expired_connections supply now connections events).connections
unfolding mark_expired_connections
mark_expired_connections-Expires supply now connections events =
    expire_connections-Pointwise supply now (take 100 (filter (is_over now) connections)) _

-- A connection past its time is one that the remaining rows will expire.
abbrev Covered : ℕ → List Connection → Connection → Type 0
Covered now rows c = is_over now c ≡ true → any (λ row. still row c) rows ≡ true

update-Covered :
    (now : ℕ) (row : Connection) (rows connections : List Connection)
    → All (Covered now (row ∷ rows)) connections
    → All (Covered now rows) (update_where (still row) (expire now row) connections)
unfolding is_over
update-Covered now row rows [] h = tt
update-Covered now row rows (c ∷ cs) h = elim (Bool-cases (still row c)) [
  | inl e ↦ rw e ((λ o. ground arith), update-Covered now row rows cs h.1)
  | inr e ↦ rw e ((λ o. ground (arith, h.0 o)), update-Covered now row rows cs h.1)
]

skip-Covered :
    (now : ℕ) (row : Connection) (rows connections : List Connection)
    → any (still row) connections ≡ false
    → All (Covered now (row ∷ rows)) connections
    → All (Covered now rows) connections
skip-Covered now row rows [] miss h = tt
skip-Covered now row rows (c ∷ cs) miss h =
    ((λ o. ground (arith, h.0 o)), skip-Covered now row rows cs (ground arith) h.1)

expire_connection-Covered :
    (supply : Supply) (now : ℕ) (row : Connection) (rows : List Connection) (st : ExpiryState)
    → All (Covered now (row ∷ rows)) st.connections
    → All (Covered now rows) (expire_connection supply now row st).connections
unfolding expire_connection
expire_connection-Covered supply now row rows st h =
    elim (Bool-cases (any (still row) st.connections)) [
      | inl e ↦ rw e (update-Covered now row rows st.connections h)
      | inr e ↦ rw e (skip-Covered now row rows st.connections e h)
    ]

expire_connections-Covered :
    (supply : Supply) (now : ℕ) (rows : List Connection) (st : ExpiryState)
    → All (Covered now rows) st.connections
    → All (Covered now []) (expire_connections supply now rows st).connections
unfolding expire_connections
expire_connections-Covered supply now [] st h = h
expire_connections-Covered supply now (row ∷ rows) st h =
    expire_connections-Covered supply now rows (expire_connection supply now row st)
      (expire_connection-Covered supply now row rows st h)

still_self : (now : ℕ) (c : Connection) → is_over now c ≡ true → still c c ≡ true
unfolding is_over still
still_self now c h = ground (arith, eq_refl c.id)

more-Covered :
    (now : ℕ) (b : Bool) (row : Connection) (rows connections : List Connection)
    → All (Covered now rows) connections
    → All (Covered now (if b then row ∷ rows else rows)) connections
more-Covered now true row rows connections h =
    All-map (Covered now rows) (Covered now (row ∷ rows)) (λ c k o. ground (arith, k o)) connections
      h
more-Covered now false row rows connections h = h

selected-Covered :
    (now : ℕ) (connections : List Connection)
    → All (Covered now (filter (is_over now) connections)) connections
selected-Covered now [] = tt
selected-Covered now (c ∷ cs) = (
  λ o. rw o (ground (arith, still_self now c o)),
  more-Covered now (is_over now c) c _ cs (selected-Covered now cs),
)

-- Where at most a hundred connections are past their time, none is left so by one run.
pub mark_expired_connections_complete :
    (supply : Supply) (now : ℕ) (connections : List Connection) (events : List OutboxEvent)
    → length (filter (is_over now) connections) ≤ 100
    → All
        (λ c. is_over now c ≡ false)
        (mark_expired_connections supply now connections events).connections
unfolding mark_expired_connections
mark_expired_connections_complete supply now connections events few =
    All-map (Covered now []) (λ c. is_over now c ≡ false) (λ c h. ground (arith, h)) _
      (expire_connections-Covered supply now (take 100 (filter (is_over now) connections))
        (record { connections = connections; events = events; transitioned = 0 })
        (rw (take-eq_self 100 (filter (is_over now) connections) few)
          (selected-Covered now connections)))

-- Counting.
abbrev pub connected : List Connection → ℕ
connected connections = count_if (λ c. is_connected c.status) connections

abbrev pub rows_of : String → List Connection → ℕ
rows_of id connections = count_if (λ c. c.id == id) connections

update-connected :
    (now : ℕ) (row : Connection) (connections : List Connection)
    → connected (update_where (still row) (expire now row) connections)
        + count_if (still row) connections
      ≡ connected connections
unfolding still
update-connected now row [] = refl
update-connected now row (c ∷ cs) = ground (arith, update-connected now row cs)

update-rows_of :
    (now : ℕ) (id : String) (row : Connection) (connections : List Connection)
    → rows_of id (update_where (still row) (expire now row) connections) ≡ rows_of id connections
update-rows_of now id row [] = refl
update-rows_of now id row (c ∷ cs) = ground (arith, update-rows_of now id row cs)

still-le :
    (row : Connection) (connections : List Connection)
    → count_if (still row) connections ≤ rows_of row.id connections
unfolding still
still-le row [] = omega arith
still-le row (c ∷ cs) = ground (arith, still-le row cs)

-- What the state of a run counts together: every transition has its event and took one connected
-- row, and identifiers stay distinct.
record Balanced (before events : ℕ) (st : ExpiryState) : Type 0 where
  taken : connected st.connections + st.transitioned ≡ before
  told : length st.events ≡ events + st.transitioned
  distinct : (id : String) → rows_of id st.connections ≤ 1

expire_connection-Balanced :
    (supply : Supply) (now before events : ℕ) (row : Connection) (st : ExpiryState)
    → Balanced before events st
    → Balanced before events (expire_connection supply now row st)
unfolding expire_connection
expire_connection-Balanced supply now before events row st h =
    elim (Bool-cases (any (still row) st.connections)) [
      | inl e ↦ rw e (record {
        taken = omega (
          arith,
          h.taken,
          update-connected now row st.connections,
          any-count (still row) st.connections e,
          still-le row st.connections,
          h.distinct row.id,
        );
        told = omega (
          arith,
          h.told,
          length-append st.events (expired_event supply st.transitioned row ∷ []),
        );
        distinct = λ id. rw (update-rows_of now id row st.connections) (h.distinct id);
      })
      | inr e ↦ rw e h
    ]

expire_connections-Balanced :
    (supply : Supply) (now before events : ℕ) (rows : List Connection) (st : ExpiryState)
    → Balanced before events st
    → Balanced before events (expire_connections supply now rows st)
unfolding expire_connections
expire_connections-Balanced supply now before events [] st h = h
expire_connections-Balanced supply now before events (row ∷ rows) st h =
    expire_connections-Balanced supply now before events rows (expire_connection supply now row st)
      (expire_connection-Balanced supply now before events row st h)

-- The number that a run returns is the number of connections it expired and of events it added,
-- where the identifiers of the connections are distinct.
mark_expired_connections-counts :
    (supply : Supply) (now : ℕ) (connections : List Connection) (events : List OutboxEvent)
    → ((id : String) → rows_of id connections ≤ 1)
    → let st = mark_expired_connections supply now connections events in
      (connected st.connections + st.transitioned ≡ connected connections)
      × (length st.events ≡ length events + st.transitioned)
unfolding mark_expired_connections
mark_expired_connections-counts supply now connections events one =
    let b =
      expire_connections-Balanced supply now (connected connections) (length events)
        (take 100 (filter (is_over now) connections))
        (record { connections = connections; events = events; transitioned = 0 })
        (record { taken = omega arith; told = omega arith; distinct = one }) in
    (b.taken, b.told)
