-- ===== src/Startup/Ready.antt =====
-- What a service has once it serves.
use fluxa.Base.{
  List, ◌∷◌, ℕ, ◌+◌, String, Bool, true, false, not, ◌||◌, Option, none, some, ◌≡◌, refl, inl, inr,
  arith, ℤ,
}
use fluxa.Domain.{ok, Result-cases}
use fluxa.World.{Reply}
use fluxa.Engine.{Scorer}
use fluxa.Config.{Config, load_from_env}
use fluxa.Startup.Broker.{Outside, has, call, open_handle, new_broker, ensure_bucket, new_storage}
use fluxa.Startup.Scoring.{Settings, start_processor, start_grpc}
use fluxa.Startup.Topology.{declared, new_broker-declared, new_storage_lem}
use fluxa.Startup.Services.{
  Service, ingest_service, processor_service, alert_service, query_service, grpc_service, Running,
  handlers, processing_by, serving, clients, given, has_scorer, with_scorer, new_database, listen,
  ingest_main, processor_main, alert_main, query_main, grpc_main, main_of, start,
}

-- What each service stands on.
abbrev pub uses_broker : Service → Bool
uses_broker ingest_service = true
uses_broker processor_service = true
uses_broker alert_service = true
uses_broker query_service = false
uses_broker grpc_service = false

abbrev pub uses_bucket : Service → Bool
uses_bucket ingest_service = true
uses_bucket processor_service = true
uses_bucket alert_service = false
uses_bucket query_service = false
uses_bucket grpc_service = false

abbrev pub uses_database : Service → Bool
uses_database ingest_service = false
uses_database processor_service = true
uses_database alert_service = false
uses_database query_service = true
uses_database grpc_service = true

-- The address that a service answers requests at.
abbrev pub answers_at : Service → List String → Bool
answers_at ingest_service listening = has ":8080" listening
answers_at processor_service listening = true
answers_at alert_service listening = true
answers_at query_service listening = has ":8083" listening
answers_at grpc_service listening = has ":9095" listening

abbrev pub one_if : Bool → ℕ
one_if true = 1
one_if false = 0

given_lem : (client : Option Scorer) → clients client ≡ one_if (given client)
given_lem none = refl
given_lem (some client) = refl

-- The service holds one AMQP connection with one channel if it uses the broker, one pool if it uses
-- the database and one connection to the scorer if it has a client of it, and no others; and what it
-- uses is in order.
pub record IsReady (service : Service) (c : Config) (r : Running) (o o1 : Outside) : Type 0 where
  pub connections : o1.connections ≡ o.connections + one_if (uses_broker service)
  pub channels : o1.channels ≡ o.channels + one_if (uses_broker service)
  pub pools : o1.pools ≡ o.pools + one_if (uses_database service)
  pub scorers : o1.scorers ≡ o.scorers + one_if (has_scorer r)
  pub topology : not (uses_broker service) || declared o1 ≡ true
  pub bucket : not (uses_bucket service) || has c.minio_bucket o1.buckets ≡ true
  pub listening : answers_at service o1.listening ≡ true

module _ (s : Settings) (atoi : String → Option ℤ) (reply : ℕ → Reply) where
  new_database_done :
      (o : Outside)
      → (new_database s atoi reply o).0 ≡ none
      → let o1 = (new_database s atoi reply o).1 in
        (o1.pools ≡ o.pools + 1)
        × (o1.scorers ≡ o.scorers)
        × (o1.connections ≡ o.connections)
        × (o1.channels ≡ o.channels)
  unfolding new_database open_handle call
  new_database_done o h = ground arith

  new_broker_done :
      (o : Outside)
      → (new_broker reply o).0 ≡ none
      → let o1 = (new_broker reply o).1 in
        (o1.connections ≡ o.connections + 1)
        × (o1.channels ≡ o.channels + 1)
        × (o1.pools ≡ o.pools)
        × (o1.scorers ≡ o.scorers)
        × (declared o1 ≡ true)
  new_broker_done o h = ground (arith, new_broker-declared reply o)

  new_storage_done :
      (bucket : String) (o : Outside)
      → (new_storage reply bucket o).0 ≡ none
      → let o1 = (new_storage reply bucket o).1 in
        (o1.connections ≡ o.connections)
        × (o1.channels ≡ o.channels)
        × (o1.pools ≡ o.pools)
        × (o1.scorers ≡ o.scorers)
        × (declared o1 ≡ declared o)
        × (has bucket o1.buckets ≡ true)
  unfolding new_storage ensure_bucket call declared
  new_storage_done bucket o h = ground (arith, new_storage_lem reply bucket bucket o h)

  listen_keeps :
      (complaint address : String) (o : Outside)
      → let o1 = (listen s atoi reply complaint address o).1 in
        (o1.connections ≡ o.connections)
        × (o1.channels ≡ o.channels)
        × (o1.pools ≡ o.pools)
        × (o1.scorers ≡ o.scorers)
        × (declared o1 ≡ declared o)
        × (o1.buckets ≡ o.buckets)
  unfolding listen open_handle declared
  listen_keeps complaint address o = ground arith

  listen_done :
      (complaint address : String) (o : Outside)
      → (listen s atoi reply complaint address o).0 ≡ none
      → (listen s atoi reply complaint address o).1.listening ≡ address ∷ o.listening
  unfolding listen open_handle
  listen_done complaint address o h = ground arith

  -- What the service runs with is what its part of the wiring made of the rules file.
  abbrev pub IsWired : Service → Config → Running → Type 0
  IsWired processor_service c (processing_by p) = start_processor s c.rules_file ≡ ok p
  IsWired processor_service c _ = ⊥
  IsWired grpc_service c (serving g) = start_grpc s c.rules_file ≡ ok g
  IsWired grpc_service c _ = ⊥
  IsWired ingest_service c r = r ≡ handlers
  IsWired alert_service c r = r ≡ handlers
  IsWired query_service c r = r ≡ handlers

  ingest_main-IsReady :
      (c : Config) (r : Running) (o o1 : Outside)
      → ingest_main s atoi reply c o ≡ (ok r, o1)
      → IsReady ingest_service c r o o1 × (r ≡ handlers)
  unfolding ingest_main
  ingest_main-IsReady c r o o1 h =
      let b = (new_broker reply o).1 in
      let b1 = (new_storage reply c.minio_bucket b).1 in
      let b2 = (listen s atoi reply "Metrics server error" ":9091" b1).1 in
      ground (
        arith,
        new_broker_done o,
        new_storage_done c.minio_bucket b,
        listen_keeps "Metrics server error" ":9091" b1,
        listen_keeps "HTTP server error" ":8080" b2,
        listen_done "HTTP server error" ":8080" b2,
      )

  alert_main-IsReady :
      (c : Config) (r : Running) (o o1 : Outside)
      → alert_main s atoi reply o ≡ (ok r, o1)
      → IsReady alert_service c r o o1 × (r ≡ handlers)
  unfolding alert_main call declared
  alert_main-IsReady c r o o1 h =
      ground (
        arith,
        new_broker_done o,
        listen_keeps "Metrics server error" ":9094" (new_broker reply o).1,
      )

  query_main-IsReady :
      (c : Config) (r : Running) (o o1 : Outside)
      → query_main s atoi reply o ≡ (ok r, o1)
      → IsReady query_service c r o o1 × (r ≡ handlers)
  unfolding query_main
  query_main-IsReady c r o o1 h =
      let b = (new_database s atoi reply o).1 in
      let b1 = (listen s atoi reply "Metrics server error" ":9093" b).1 in
      ground (
        arith,
        new_database_done o,
        listen_keeps "Metrics server error" ":9093" b,
        listen_keeps "HTTP server error" ":8083" b1,
        listen_done "HTTP server error" ":8083" b1,
      )

  grpc_main-IsReady :
      (c : Config) (r : Running) (o o1 : Outside)
      → grpc_main s atoi reply c o ≡ (ok r, o1)
      → IsReady grpc_service c r o o1 × IsWired grpc_service c r
  unfolding grpc_main
  grpc_main-IsReady c r o o1 h = elim (Result-cases (start_grpc s c.rules_file)) [
    | inl (g, made) ↦
        let b = (new_database s atoi reply o).1 in
        let a = with_scorer s atoi reply g.scorer b in
        let b1 = (listen s atoi reply "Metrics server error" ":9096" a).1 in
        let is : r ≡ serving g = ground arith in
        let scored = given_lem g.scorer in
        (
          ground (
            arith,
            new_database_done o,
            listen_keeps "Metrics server error" ":9096" a,
            listen_keeps "Failed to listen on :9095" ":9095" b1,
            listen_done "Failed to listen on :9095" ":9095" b1,
          ),
          rw is made,
        )
    | inr (e, failed) ↦ absurd (ground arith)
  ]

  processor_main-IsReady :
      (c : Config) (r : Running) (o o1 : Outside)
      → processor_main s atoi reply c o ≡ (ok r, o1)
      → IsReady processor_service c r o o1 × IsWired processor_service c r
  unfolding processor_main call declared
  processor_main-IsReady c r o o1 h = elim (Result-cases (start_processor s c.rules_file)) [
    | inl (p, made) ↦
        let b = (new_database s atoi reply o).1 in
        let b1 = (new_broker reply b).1 in
        let b2 = (new_storage reply c.minio_bucket b1).1 in
        let is : r ≡ processing_by p = ground arith in
        let scored = given_lem p.scorer in
        (
          ground (
            arith,
            new_database_done o,
            new_broker_done b,
            new_storage_done c.minio_bucket b1,
            listen_keeps "Metrics server error" ":9092" (with_scorer s atoi reply p.scorer b2),
          ),
          rw is made,
        )
    | inr (e, failed) ↦ absurd (ground arith)
  ]

  by_service :
      (service : Service) (c : Config) (r : Running) (o o1 : Outside)
      → main_of s atoi reply service c o ≡ (ok r, o1)
      → IsReady service c r o o1 × IsWired service c r
  by_service ingest_service c r o o1 h = ingest_main-IsReady c r o o1 h
  by_service processor_service c r o o1 h = processor_main-IsReady c r o o1 h
  by_service alert_service c r o o1 h = alert_main-IsReady c r o o1 h
  by_service query_service c r o o1 h = query_main-IsReady c r o o1 h
  by_service grpc_service c r o o1 h = grpc_main-IsReady c r o o1 h

  -- A service that serves has loaded its configuration; holds one AMQP connection and one channel
  -- more than before if it uses the broker and none more otherwise, one database pool more if it
  -- uses the database and none more otherwise, and one connection to the scorer more if it has a
  -- client of the scorer and none more otherwise; finds the broker's topology declared and its
  -- bucket there, where it uses them; listens at its address, where it answers requests; and
  -- evaluates events with what its wiring made of the rules file.
  pub start-IsReady :
      (service : Service) (r : Running) (o o1 : Outside)
      → start s atoi reply service o ≡ (ok r, o1)
      → (c : Config) × (load_from_env atoi s.getenv ≡ ok c)
        × IsReady service c r o o1
        × IsWired service c r
  unfolding start
  start-IsReady service r o o1 h = elim (Result-cases (load_from_env atoi s.getenv)) [
    | inr (e, unset) ↦ absurd (ground arith)
    | inl (c, loaded) ↦
        let (ready, wired) = by_service service c r o o1 (ground arith) in (c, loaded, ready, wired)
  ]
