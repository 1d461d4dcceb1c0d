-- ===== src/Startup/Topology.antt =====
-- What the adapters' `NewClient` leave behind.
use fluxa.Base.{
  ℕ, ◌+◌, String, ◌==◌, Bool, true, false, ◌&&◌, Option, none, some, List, [], ◌∷◌, ◌≡◌, refl, ◌⊎◌,
  arith, eq_refl, lookup, insert, lookup-insert, lookup-insert_other,
}
use fluxa.Domain.{GoError}
use fluxa.World.{Reply}
use fluxa.Startup.Broker.{
  Outside, Binding, has, has_binding, add_exchange, add_queue, add_binding, after_call, call,
  topology_exchanges, topology_queues, open_handle, declare_exchanges, declare_queues,
  declare_topology, new_broker, ensure_bucket, new_storage,
}

abbrev is_kind : Option String → String → Bool
is_kind none kind = false
is_kind (some k) kind = k == kind

-- The exchanges, queues and bindings that the services publish to and consume from.
unfoldable pub declared : Outside → Bool
declared o =
    is_kind (lookup "events" o.exchanges) "direct"
    && is_kind (lookup "alerts" o.exchanges) "fanout"
    && has "events" o.queues
    && has "alerts" o.queues
    && has_binding (record { queue = "events"; exchange = "events"; key = "events" }) o.bindings
    && has_binding (record { queue = "alerts"; exchange = "alerts"; key = "" }) o.bindings

-- What the calls do if none of them fails.
unfoldable with_exchanges : List (String × String) → Outside → Outside
with_exchanges [] o = o
with_exchanges ((name, kind) ∷ es) o = with_exchanges es (after_call (add_exchange name kind o))

unfoldable with_queues : List Binding → Outside → Outside
with_queues [] o = o
with_queues (b ∷ bs) o =
    with_queues bs (after_call (add_binding b (after_call (add_queue b.queue o))))

with_topology-declared :
    (o : Outside)
    → declared (with_queues topology_queues (with_exchanges topology_exchanges o)) ≡ true
unfolding with_queues with_exchanges declared
with_topology-declared o = ground (
  arith,
  lookup-insert "alerts" "fanout" (insert "events" "direct" o.exchanges),
  lookup-insert_other "alerts" "events" "fanout" (insert "events" "direct" o.exchanges),
  lookup-insert "events" "direct" o.exchanges,
)

abbrev pub IsSameHandles : Outside → Outside → Type 0
IsSameHandles o o1 =
    (o1.connections ≡ o.connections)
    × (o1.channels ≡ o.channels)
    × (o1.pools ≡ o.pools)
    × (o1.scorers ≡ o.scorers)
    × (o1.listening ≡ o.listening)
    × (o1.buckets ≡ o.buckets)

module _ (reply : ℕ → Reply) where
  call-IsSameHandles :
      (context : String) (f : Outside → Outside) (o : Outside)
      → IsSameHandles o (f o)
      → IsSameHandles o (call reply context f o).1
  unfolding call
  call-IsSameHandles context f o h = ground arith

  call_done :
      (context : String) (f : Outside → Outside) (o : Outside)
      → (call reply context f o).0 ≡ none
      → (call reply context f o).1 ≡ after_call (f o)
  unfolding call
  call_done context f o h = ground arith

  declare_exchanges-IsSameHandles :
      (es : List (String × String)) (o : Outside) → IsSameHandles o (declare_exchanges reply es o).1
  unfolding declare_exchanges
  declare_exchanges-IsSameHandles [] o = (refl, refl, refl, refl, refl, refl)
  declare_exchanges-IsSameHandles ((name, kind) ∷ es) o =
      let f = add_exchange name kind in
      let context : String = "rabbitmq: declare exchange" in
      ground (
        arith,
        call-IsSameHandles context f o (refl, refl, refl, refl, refl, refl),
        declare_exchanges-IsSameHandles es (call reply context f o).1,
      )

  declare_queues-IsSameHandles :
      (bs : List Binding) (o : Outside) → IsSameHandles o (declare_queues reply bs o).1
  unfolding declare_queues
  declare_queues-IsSameHandles [] o = (refl, refl, refl, refl, refl, refl)
  declare_queues-IsSameHandles (b ∷ bs) o =
      let o1 = (call reply "rabbitmq: declare queue" (add_queue b.queue) o).1 in
      let o2 = (call reply "rabbitmq: bind queue" (add_binding b) o1).1 in
      ground (
        arith,
        call-IsSameHandles "rabbitmq: declare queue" (add_queue b.queue) o (ground arith),
        call-IsSameHandles "rabbitmq: bind queue" (add_binding b) o1 (ground arith),
        declare_queues-IsSameHandles bs o2,
      )

  declare_exchanges_done :
      (es : List (String × String)) (o : Outside)
      → (declare_exchanges reply es o).0 ≡ none
      → (declare_exchanges reply es o).1 ≡ with_exchanges es o
  unfolding declare_exchanges with_exchanges
  declare_exchanges_done [] o h = refl
  declare_exchanges_done ((name, kind) ∷ es) o h =
      let context : String = "rabbitmq: declare exchange" in
      ground (
        arith,
        call_done context (add_exchange name kind) o,
        declare_exchanges_done es (call reply context (add_exchange name kind) o).1,
      )

  declare_queues_done :
      (bs : List Binding) (o : Outside)
      → (declare_queues reply bs o).0 ≡ none
      → (declare_queues reply bs o).1 ≡ with_queues bs o
  unfolding declare_queues with_queues
  declare_queues_done [] o h = refl
  declare_queues_done (b ∷ bs) o h =
      let o1 = (call reply "rabbitmq: declare queue" (add_queue b.queue) o).1 in
      let o2 = (call reply "rabbitmq: bind queue" (add_binding b) o1).1 in
      ground (
        arith,
        call_done "rabbitmq: declare queue" (add_queue b.queue) o,
        call_done "rabbitmq: bind queue" (add_binding b) o1,
        declare_queues_done bs o2,
      )

  declare_topology-IsSameHandles : (o : Outside) → IsSameHandles o (declare_topology reply o).1
  unfolding declare_topology
  declare_topology-IsSameHandles o =
      let o1 = (declare_exchanges reply topology_exchanges o).1 in
      ground (
        arith,
        declare_exchanges-IsSameHandles topology_exchanges o,
        declare_queues-IsSameHandles topology_queues o1,
      )

  declare_topology-declared :
      (o : Outside)
      → (declare_topology reply o).0 ≡ none
      → declared (declare_topology reply o).1 ≡ true
  unfolding declare_topology
  declare_topology-declared o h = ground (
    arith,
    declare_exchanges_done topology_exchanges o,
    declare_queues_done topology_queues (declare_exchanges reply topology_exchanges o).1,
    with_topology-declared o,
  )

  -- A start of the RabbitMQ client that succeeds holds one connection and one channel more, and all
  -- exchanges, queues and bindings that the services use are declared; a start that fails, at
  -- whatever call, leaves as many connections and channels open as there were. Nothing else that
  -- the process holds and no bucket is touched.
  pub new_broker-declared :
      (o : Outside)
      → let (failure, o1) = new_broker reply o in
        ((failure ≡ none)
          × (o1.connections ≡ o.connections + 1)
          × (o1.channels ≡ o.channels + 1)
          × (o1.pools ≡ o.pools)
          × (o1.scorers ≡ o.scorers)
          × (o1.listening ≡ o.listening)
          × (o1.buckets ≡ o.buckets)
          × (declared o1 ≡ true))
        ⊎ ((e : GoError) × (failure ≡ some e) × IsSameHandles o o1)
  unfolding new_broker open_handle
  new_broker-declared o =
      let o1 = after_call (record o { connections = o.connections + 1 }) in
      let o2 = after_call (record o1 { channels = o1.channels + 1 }) in
      ground (arith, declare_topology-declared o2, declare_topology-IsSameHandles o2)

  -- A start of the MinIO client that succeeds leaves the bucket there, and takes no bucket away.
  pub new_storage_lem :
      (bucket other : String) (o : Outside)
      → (new_storage reply bucket o).0 ≡ none
      → (has bucket (new_storage reply bucket o).1.buckets ≡ true)
        × (has other o.buckets ≡ true → has other (new_storage reply bucket o).1.buckets ≡ true)
  unfolding new_storage ensure_bucket call
  new_storage_lem bucket other o h = ground (arith, eq_refl bucket)
