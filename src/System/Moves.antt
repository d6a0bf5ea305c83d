-- ===== src/System/Moves.antt =====
-- Every operation on the connections makes a move of every user's life.
use authlane.Prelude.{
  ℕ, ◌≡◌, refl, sym, inl, inr, String, Bool, true, Option, none, some, List, is_some, find-true,
  get_or, eq_iff, ◌==◌, Bool-cases, arith,
}
use authlane.Store.Tables.{ConnectionStatus, Connection, OutboxEvent}
use authlane.Store.Rows.{Pointwise}
use authlane.Store.Keyed.{Related, Pointwise-find}
use authlane.Outbox.Expiry.{is_connected, Supply, mark_expired_connections}
use authlane.Outbox.Transitions.{Expires, mark_expired_connections-Expires}
use authlane.Refresh.Types.{TokenRefreshData, RefreshEnvironment, RefreshState}
use authlane.Refresh.Job.{refresh_token}
use authlane.Refresh.Changes.{Refreshes, is_final, refresh_token-Refreshes}
use authlane.Flow.Callback.{fail_exchange, redeemable, callback, CallbackQuery}
use authlane.Flow.Binding.{Exchanged, Redeems, distinct_ids, callback-Redeems}
use authlane.Flow.Types.{FlowState, FlowEnvironment, state_of}
use authlane.System.Life.{User, life_of, owns, life, Operation, calls_back, lapses, Move}

-- Rows changed one by one.
Related-Move :
    (user : User) (op : Operation) (P : Connection → Connection → Type 0)
    → ((x y : Connection)
        → owns user x ≡ true
        → P x y
        → Move user op (life_of (some x)) (life_of (some y)))
    → (x y : Option Connection) → ((c : Connection) → x ≡ some c → owns user c ≡ true)
    → Related P x y
    → Move user op (life_of x) (life_of y)
Related-Move user op P f none none k h = Move.stay refl
Related-Move user op P f none (some y) k h = absurd h
Related-Move user op P f (some x) none k h = absurd h
Related-Move user op P f (some x) (some y) k h = f x y (k x refl) h

pub Pointwise-Move :
    (user : User) (op : Operation) (P : Connection → Connection → Type 0)
    → ((x y : Connection) → P x y → owns user y ≡ owns user x)
    → ((x y : Connection)
        → owns user x ≡ true
        → P x y
        → Move user op (life_of (some x)) (life_of (some y)))
    → (xs ys : List Connection) → Pointwise P xs ys
    → Move user op (life user xs) (life user ys)
Pointwise-Move user op P same f xs ys h =
    Related-Move user op P f _ _ (λ c e. find-true (owns user) xs c e)
      (Pointwise-find P (owns user) same xs ys h)

Expires-Move :
    (user : User) (now : ℕ) (x y : Connection)
    → Expires now x y
    → Move user lapses (life_of (some x)) (life_of (some y))
Expires-Move user now x y (inl e) = Move.stay (rw e refl)
Expires-Move user now x y (inr (c, e)) =
    Move.lapse x.id (is_some x.credential_secret_id) refl (rw c refl) (rw e refl)

Expires-owns :
    (user : User) (now : ℕ) (x y : Connection) → Expires now x y → owns user y ≡ owns user x
Expires-owns user now x y (inl e) = rw e refl
Expires-owns user now x y (inr (c, e)) = rw e refl

pub mark_expired_connections-Move :
    (user : User) (supply : Supply) (now : ℕ) (connections : List Connection)
    (events : List OutboxEvent)
    → Move user lapses
        (life user connections)
        (life user (mark_expired_connections supply now connections events).connections)
mark_expired_connections-Move user supply now connections events =
    Pointwise-Move user lapses (Expires now) (Expires-owns user now)
      (λ x y k h. Expires-Move user now x y h) connections _
      (mark_expired_connections-Expires supply now connections events)

Refreshes-Move :
    (user : User) (id : String) (failing : Bool) (x y : Connection)
    → Refreshes id failing x y
    → Move user (Operation.refreshes id) (life_of (some x)) (life_of (some y))
Refreshes-Move user id failing x y h = elim (Bool-cases (x.id == id)) [
  | inr e ↦ Move.stay (rw (h.other e) refl)
  | inl e ↦
      Move.refresh x.id x.status y.status (is_some x.credential_secret_id)
        (is_some y.credential_secret_id) (rw ((eq_iff x.id id).0 e) refl)
        (elim h.status [ inl k ↦ inl k | inr k ↦ inr k.1 ]) h.credential refl (rw h.same_id refl)
]

Refreshes-owns :
    (user : User) (id : String) (failing : Bool) (x y : Connection)
    → Refreshes id failing x y
    → owns user y ≡ owns user x
Refreshes-owns user id failing x y h = rw (h.same_organization, h.same_user, h.same_service) refl

pub refresh_token-Move :
    {S : Type 0} (user : User) (env : RefreshEnvironment S) (data' : TokenRefreshData)
    (st : RefreshState S)
    → ((connections : List Connection) → env.meanwhile connections ≡ connections)
    → ((connections : List Connection) → env.afterwards connections ≡ connections)
    → Move user
        (Operation.refreshes data'.connection_id)
        (life user st.connections)
        (life user (refresh_token env data' st).1.connections)
refresh_token-Move user env data' st quiet calm =
    let failing = is_final (refresh_token env data' st).0 in
    Pointwise-Move user (Operation.refreshes data'.connection_id)
      (Refreshes data'.connection_id failing) (Refreshes-owns user data'.connection_id failing)
      (λ x y k h. Refreshes-Move user data'.connection_id failing x y h) st.connections _
      (refresh_token-Refreshes env data' st quiet calm)

exchange_failed-Move :
    (user : User) (code : String) (now : ℕ) (x : Connection)
    → Move user
        (calls_back (some x.id))
        (life_of (some x))
        (life_of (some (fail_exchange code now x.status x)))
exchange_failed-Move user code now x = elim (Bool-cases (is_connected x.status)) [
  | inl e ↦ rw (e, is_connected_eq x.status e) (Move.stay refl)
  | inr e ↦
      rw e (Move.exchange_failed x.id x.status (is_some x.credential_secret_id) refl e refl refl)
]
  where
    is_connected_eq :
        (s : ConnectionStatus) → is_connected s ≡ true → s ≡ ConnectionStatus.connected
    is_connected_eq s e = ground arith

Exchanged-Move :
    (user : User) (now : ℕ) (x y : Connection)
    → Exchanged now x y
    → Move user (calls_back (some x.id)) (life_of (some x)) (life_of (some y))
Exchanged-Move user now x y (Exchanged.failed code e) = rw e (exchange_failed-Move user code now x)
Exchanged-Move user now x y (Exchanged.connected secret_id expires_at e) =
    Move.exchange x.id x.status (is_some x.credential_secret_id) refl refl (rw e refl)

Exchanged-owns :
    (user : User) (now : ℕ) (x y : Connection) → Exchanged now x y → owns user y ≡ owns user x
Exchanged-owns user now x y (Exchanged.failed code e) = rw e refl
Exchanged-owns user now x y (Exchanged.connected secret_id expires_at e) = rw e refl

-- The connection that the transaction of a callback's state names.
abbrev pub called_id :
    {S : Type 0} → FlowEnvironment S → CallbackQuery → FlowState S → Option String
called_id env query st =
    elim (redeemable env query.service_id (get_or query.state "") st.transactions) [
      | none ↦ none
      | some t ↦ some t.connection_id
    ]

module _ {S : Type 0} (user : User) (env : FlowEnvironment S) where
  Redeems-Move :
      (query : CallbackQuery) (st : FlowState S) (x y : Connection)
      → Redeems env query st x y
      → Move user (calls_back (called_id env query st)) (life_of (some x)) (life_of (some y))
  Redeems-Move query st x y (inl e) = Move.stay (rw e refl)
  Redeems-Move query st x y (inr (t, a, b, c, d, e)) =
      rw (a, called_id, sym b) (Exchanged-Move user env.later x y e)

  Redeems-owns :
      (query : CallbackQuery) (st : FlowState S) (x y : Connection)
      → Redeems env query st x y
      → owns user y ≡ owns user x
  Redeems-owns query st x y (inl e) = rw e refl
  Redeems-owns query st x y (inr (t, a, b, c, d, e)) = Exchanged-owns user env.later x y e

  pub callback-Move :
      (query : CallbackQuery) (st : FlowState S)
      → ((connections : List Connection) → env.meanwhile connections ≡ connections)
      → distinct_ids st.connections ≡ true
      → Move user
          (calls_back (called_id env query st))
          (life user st.connections)
          (life user (state_of (callback env query st)).connections)
  callback-Move query st quiet d =
      Pointwise-Move user (calls_back (called_id env query st)) (Redeems env query st)
        (Redeems-owns query st) (λ x y k h. Redeems-Move query st x y h) st.connections _
        (callback-Redeems env query st quiet d)
