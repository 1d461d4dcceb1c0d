-- ===== src/Startup/Broker.antt =====
-- `NewClient` of the RabbitMQ and the MinIO adapter, on what they change outside the process.
use fluxa.Base.{
  ℕ, ◌+◌, ◌-◌, String, ◌==◌, Bool, false, ◌&&◌, ◌||◌, Option, none, some, List, [], ◌∷◌, insert,
  if◌then◌else◌,
}
use fluxa.Domain.{GoError, wrapped, Result, ok, err}
use fluxa.World.{Reply, done, refused, unconfirmed}

-- A queue that is bound to an exchange with a key.
pub record Binding : Type 0 where
  pub queue : String
  pub exchange : String
  pub key : String

-- The broker's topology, the object store's buckets, the connections and channels that the process
-- holds, and a counter of the calls made so far.
pub record Outside : Type 0 where
  pub exchanges : List (String × String)
  pub queues : List String
  pub bindings : List Binding
  pub buckets : List String
  pub connections : ℕ
  pub channels : ℕ
  -- The pools of database connections.
  pub pools : ℕ
  -- The connections to the scorer.
  pub scorers : ℕ
  -- The addresses that the process listens on.
  pub listening : List String
  pub tick : ℕ

abbrev pub Start : Type 0 → Type 0
Start A = Outside → A × Outside

abbrev pub has : String → List String → Bool
has x [] = false
has x (y ∷ ys) = x == y || has x ys

abbrev pub same_binding : Binding → Binding → Bool
same_binding a b = a.queue == b.queue && a.exchange == b.exchange && a.key == b.key

abbrev pub has_binding : Binding → List Binding → Bool
has_binding b [] = false
has_binding b (c ∷ cs) = same_binding b c || has_binding b cs

-- Declaring what is there already changes nothing.
abbrev pub add_exchange : String → String → Outside → Outside
add_exchange name kind o = record o { exchanges = insert name kind o.exchanges }

abbrev pub with_name : String → List String → List String
with_name name names = if has name names then names else name ∷ names

abbrev pub with_binding : Binding → List Binding → List Binding
with_binding b bs = if has_binding b bs then bs else b ∷ bs

abbrev pub add_queue : String → Outside → Outside
add_queue name o = record o { queues = with_name name o.queues }

abbrev pub add_binding : Binding → Outside → Outside
add_binding b o = record o { bindings = with_binding b o.bindings }

abbrev pub add_bucket : String → Outside → Outside
add_bucket name o = record o { buckets = name ∷ o.buckets }

abbrev pub after_call : Outside → Outside
after_call o = record o { tick = o.tick + 1 }

-- `ch.Close()` and `conn.Close()`, whose errors the callers drop.
abbrev pub close_channel : Outside → Outside
close_channel o = after_call (record o { channels = o.channels - 1 })

abbrev pub close_connection : Outside → Outside
close_connection o = after_call (record o { connections = o.connections - 1 })

abbrev pub topology_exchanges : List (String × String)
topology_exchanges = ("events", "direct") ∷ ("alerts", "fanout") ∷ []

abbrev pub topology_queues : List Binding
topology_queues =
    (record { queue = "events"; exchange = "events"; key = "events" })
    ∷ (record { queue = "alerts"; exchange = "alerts"; key = "" })
    ∷ []

module _ (reply : ℕ → Reply) where
  -- A call that changes the outside and whose error is wrapped.
  abbrev call_settled : Reply → String → (Outside → Outside) → Start (Option GoError)
  call_settled done context f o = (none, after_call (f o))
  call_settled (refused e) context f o = (some (wrapped context e), after_call o)
  call_settled (unconfirmed e) context f o = (some (wrapped context e), after_call (f o))

  unfoldable pub call : String → (Outside → Outside) → Start (Option GoError)
  call context f o = call_settled (reply o.tick) context f o

  -- A handle that the process holds only if the call gives it one.
  abbrev open_settled : Reply → String → (Outside → Outside) → Start (Option GoError)
  open_settled done context f o = (none, after_call (f o))
  open_settled (refused e) context f o = (some (wrapped context e), after_call o)
  open_settled (unconfirmed e) context f o = (some (wrapped context e), after_call o)

  unfoldable pub open_handle : String → (Outside → Outside) → Start (Option GoError)
  open_handle context f o = open_settled (reply o.tick) context f o

  -- The two loops, over a list of calls: the first error ends them.
  abbrev then_call : Option GoError → Start (Option GoError) → Start (Option GoError)
  then_call none k o = k o
  then_call (some e) k o = (some e, o)

  unfoldable pub declare_exchanges : List (String × String) → Start (Option GoError)
  declare_exchanges [] o = (none, o)
  declare_exchanges ((name, kind) ∷ es) o =
      let (failure, o1) = call "rabbitmq: declare exchange" (add_exchange name kind) o in
      then_call failure (declare_exchanges es) o1

  unfoldable pub declare_queues : List Binding → Start (Option GoError)
  declare_queues [] o = (none, o)
  declare_queues (b ∷ bs) o =
      let (failure, o1) = call "rabbitmq: declare queue" (add_queue b.queue) o in
      then_call failure
        (λ o2.
          let (unbound, o3) = call "rabbitmq: bind queue" (add_binding b) o2 in
          then_call unbound (declare_queues bs) o3)
        o1

  -- `declareTopology`.
  unfoldable pub declare_topology : Start (Option GoError)
  declare_topology o =
      let (failure, o1) = declare_exchanges topology_exchanges o in
      then_call failure (declare_queues topology_queues) o1

  -- `NewClient` of the RabbitMQ adapter: `none` is a client.
  unfoldable pub new_broker : Start (Option GoError)
  new_broker o =
      let (undialed, o1) =
        open_handle "rabbitmq: failed to dial" (λ o. record o { connections = o.connections + 1 })
          o in
      elim undialed [
        | some e ↦ (some e, o1)
        | none ↦
            let (unopened, o2) =
              open_handle "rabbitmq: failed to open channel"
                (λ o. record o { channels = o.channels + 1 }) o1 in
            elim unopened [
              | some e ↦ (some e, close_connection o2)
              | none ↦
                  let (undeclared, o3) = declare_topology o2 in
                  elim undeclared [
                    | some e ↦ (some e, close_connection (close_channel o3))
                    | none ↦ (none, o3)
                  ]
            ]
      ]

  abbrev bucket_exists : Reply → String → Start (Result Bool)
  bucket_exists done bucket o = (ok (has bucket o.buckets), after_call o)
  bucket_exists (refused e) bucket o =
      (err (wrapped "minio: failed to check bucket" e), after_call o)
  bucket_exists (unconfirmed e) bucket o =
      (err (wrapped "minio: failed to check bucket" e), after_call o)

  -- `NewClient` of the MinIO adapter, once `minio.New` has made a client.
  unfoldable pub ensure_bucket : String → Start (Option GoError)
  ensure_bucket bucket o =
      let (found, o1) = bucket_exists (reply o.tick) bucket o in
      elim found [
        | err e ↦ (some e, o1)
        | ok exists ↦
            if exists
            then (none, o1)
            else call "minio: failed to create bucket" (add_bucket bucket) o1
      ]

  -- `NewClient` of the MinIO adapter; `minio.New` opens no connection.
  unfoldable pub new_storage : String → Start (Option GoError)
  new_storage bucket o =
      let (unmade, o1) = call "minio: failed to create client" (λ o. o) o in
      elim unmade [ some e ↦ (some e, o1) | none ↦ ensure_bucket bucket o1 ]
