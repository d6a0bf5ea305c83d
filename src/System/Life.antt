-- ===== src/System/Life.antt =====
-- The life of one user's connection to one service, without the rows: its identifier, its status, and
-- whether there are credentials. A move of a life names the operation that makes it, and what the
-- operation is about: a user, the connection of a transaction or of a job, or a service.
use authlane.Prelude.{
  ◌≡◌, ◌⊎◌, refl, String, Bool, true, false, Option, none, some, List, [], ◌∷◌, find, is_some, inl,
  inr, arith,
}
use authlane.Store.Tables.{ConnectionStatus, Connection}
use authlane.Outbox.Expiry.{is_connected}
use authlane.Flow.ApiKey.{of_user}

pub record User : Type 0 where
  pub organization_id : String
  pub external_user_id : String
  pub service_id : String

pub data Life : Type 0 where
  absent : Life
  alive : String → ConnectionStatus → Bool → Life

abbrev pub life_of : Option Connection → Life
life_of none = absent
life_of (some c) = alive c.id c.status (is_some c.credential_secret_id)

abbrev pub owns : User → Connection → Bool
owns user c = of_user user.organization_id user.external_user_id user.service_id c

abbrev pub life : User → List Connection → Life
life user connections = life_of (find (owns user) connections)

-- `none` where a request has no usable session, or a state no transaction.
pub data Operation : Type 0 where
  asks connects_key leaves : Option User → Operation
  calls_back : Option String → Operation
  refreshes : String → Operation
  loses : String → String → Operation
  lapses : Operation

pub data Move (user : User) (op : Operation) (l m : Life) : Type 0 where
  stay : m ≡ l → Move user op l m
  ask :
      (id : String)
      → op ≡ asks (some user)
      → l ≡ absent
      → m ≡ alive id ConnectionStatus.pending false
      → Move user op l m
  begin :
      (id : String)
      → op ≡ connects_key (some user)
      → l ≡ absent
      → m ≡ alive id ConnectionStatus.connected true
      → Move user op l m
  replace :
      (id : String) (s : ConnectionStatus) (c : Bool)
      → op ≡ connects_key (some user)
      → l ≡ alive id s c
      → m ≡ alive id ConnectionStatus.connected true
      → Move user op l m
  exchange :
      (id : String) (s : ConnectionStatus) (c : Bool)
      → op ≡ calls_back (some id)
      → l ≡ alive id s c
      → m ≡ alive id ConnectionStatus.connected true
      → Move user op l m
  exchange_failed :
      (id : String) (s : ConnectionStatus) (c : Bool)
      → op ≡ calls_back (some id)
      → is_connected s ≡ false
      → l ≡ alive id s c
      → m ≡ alive id ConnectionStatus.error c
      → Move user op l m
  refresh :
      (id : String) (s t : ConnectionStatus) (c d : Bool)
      → op ≡ refreshes id
      → (t ≡ s) ⊎ (t ≡ ConnectionStatus.error)
      → (c ≡ true → d ≡ true)
      → l ≡ alive id s c
      → m ≡ alive id t d
      → Move user op l m
  lapse :
      (id : String) (c : Bool)
      → op ≡ lapses
      → l ≡ alive id ConnectionStatus.connected c
      → m ≡ alive id ConnectionStatus.expired c
      → Move user op l m
  lose :
      (id : String) (s : ConnectionStatus) (c : Bool)
      → op ≡ loses user.organization_id user.service_id
      → l ≡ alive id s c
      → m ≡ alive id ConnectionStatus.expired false
      → Move user op l m
  leave : op ≡ leaves (some user) → m ≡ absent → Move user op l m

-- A life under the operations of a list, the latest first.
pub data Moves (user : User) (l : Life) : List Operation → Life → Type 0 where
  here : Moves user l [] l
  then :
      {ops : List Operation} {m n : Life} (op : Operation)
      → Moves user l ops m
      → Move user op m n
      → Moves user l (op ∷ ops) n

-- A connected connection has its credentials.
abbrev pub IsSound : Life → Type 0
IsSound absent = Unit
IsSound (alive id s c) = is_connected s ≡ true → c ≡ true

pub Move-IsSound :
    (user : User) (op : Operation) (l m : Life) → Move user op l m → IsSound l → IsSound m
Move-IsSound user op l m (stay e) h = rw e h
Move-IsSound user op l m (ask id o a e) h = rw e (λ f. absurd (ground arith))
Move-IsSound user op l m (begin id o a e) h = rw e (λ f. refl)
Move-IsSound user op l m (replace id s c o a e) h = rw e (λ f. refl)
Move-IsSound user op l m (exchange id s c o a e) h = rw e (λ f. refl)
Move-IsSound user op l m (exchange_failed id s c o f a e) h = rw e (λ g. absurd (ground arith))
Move-IsSound user op l m (refresh id s t c d o (inl e) k a b) h =
    rw b (λ g. k (rw a at h (rw e at g)))
Move-IsSound user op l m (refresh id s t c d o (inr e) k a b) h =
    rw (b, e) (λ g. absurd (ground arith))
Move-IsSound user op l m (lapse id c o a e) h = rw e (λ g. absurd (ground arith))
Move-IsSound user op l m (lose id s c o a e) h = rw e (λ g. absurd (ground arith))
Move-IsSound user op l m (leave o e) h = rw e tt

pub Moves-IsSound :
    {user : User} {l : Life} {ops : List Operation} {m : Life}
    → Moves user l ops m
    → IsSound l
    → IsSound m
Moves-IsSound here h = h
Moves-IsSound (then op r s) h = Move-IsSound _ op _ _ s (Moves-IsSound r h)
