-- ===== src/Startup/Services.antt =====
-- `NewClient` of internal/db/db.go, and `main` of each service up to where it serves. `err` is the
-- error that it prints before `os.Exit(1)`, for a listener with the words in front of it.
use fluxa.Base.{ℕ, ◌+◌, String, Bool, true, false, Option, none, some, ◌∷◌, ℤ}
use fluxa.Domain.{GoError, Result, ok, err}
use fluxa.World.{Reply}
use fluxa.Config.{Config, load_from_env}
use fluxa.Engine.{Scorer}
use fluxa.Processor.{Processor}
use fluxa.FraudEval.{Server}
use fluxa.Startup.Broker.{Outside, Start, call, open_handle, new_broker, new_storage}
use fluxa.Startup.Scoring.{Settings, start_processor, start_grpc}

pub data Service : Type 0 where
  ingest_service processor_service alert_service query_service grpc_service : Service

-- What a service serves with, beyond the clients.
pub data Running : Type 0 where
  handlers : Running
  processing_by : Processor → Running
  serving : Server → Running

abbrev pub given : Option Scorer → Bool
given none = false
given (some client) = true

abbrev pub clients : Option Scorer → ℕ
clients none = 0
clients (some client) = 1

-- Whether it has a client of the scorer.
abbrev pub has_scorer : Running → Bool
has_scorer handlers = false
has_scorer (processing_by p) = given p.scorer
has_scorer (serving g) = given g.scorer

module _ (s : Settings) (atoi : String → Option ℤ) (reply : ℕ → Reply) where
  -- `NewClient` of the database. A pool whose ping fails is not closed.
  unfoldable pub new_database : Start (Option GoError)
  new_database o =
      let (unopened, o1) =
        open_handle reply "failed to open database" (λ o. record o { pools = o.pools + 1 }) o in
      elim unopened [
        | some e ↦ (some e, o1)
        | none ↦ call reply "failed to ping database" (λ o. o) o1
      ]

  -- A client that the service cannot do without.
  abbrev pub need : Start (Option GoError) → Start (Result Running) → Start (Result Running)
  need make rest o =
      let (failure, o1) = make o in elim failure [ some e ↦ (err e, o1) | none ↦ rest o1 ]

  abbrev pub run : Running → Start (Result Running)
  run r o = (ok r, o)

  -- `Consume`, and `net.Listen` or the first half of `ListenAndServe`, up to what they answer.
  abbrev pub register_consumer : Start (Option GoError)
  register_consumer = call reply "rabbitmq: consume" (λ o. o)

  unfoldable pub listen : String → String → Start (Option GoError)
  listen complaint address =
      open_handle reply complaint (λ o. record o { listening = address ∷ o.listening })

  -- `go func() { … ListenAndServe(address) … }`, the server of /metrics: the goroutine is taken to
  -- listen where it is started, and its error is only printed.
  abbrev pub with_metrics : String → Start (Result Running) → Start (Result Running)
  with_metrics address rest o = rest (listen "Metrics server error" address o).1

  -- The connection to the scorer that a client of it stands for. It is made without a call.
  abbrev pub with_scorer : Option Scorer → Outside → Outside
  with_scorer client o = record o { scorers = o.scorers + clients client }

  unfoldable pub ingest_main : Config → Start (Result Running)
  ingest_main c = need (new_broker reply) (
      need (new_storage reply c.minio_bucket)
        (with_metrics ":9091" (need (listen "HTTP server error" ":8080") (run handlers))))

  unfoldable pub processor_main : Config → Start (Result Running)
  processor_main c = need new_database (
      need (new_broker reply) (
        need (new_storage reply c.minio_bucket) (λ o. elim (start_processor s c.rules_file) [
          | err e ↦ (err e, o)
          | ok p ↦
              with_metrics ":9092" (need register_consumer (run (processing_by p)))
                (with_scorer p.scorer o)
        ])))

  unfoldable pub alert_main : Start (Result Running)
  alert_main =
      need (new_broker reply) (with_metrics ":9094" (need register_consumer (run handlers)))

  unfoldable pub query_main : Start (Result Running)
  query_main =
      need new_database
        (with_metrics ":9093" (need (listen "HTTP server error" ":8083") (run handlers)))

  unfoldable pub grpc_main : Config → Start (Result Running)
  grpc_main c = need new_database (λ o. elim (start_grpc s c.rules_file) [
    | err e ↦ (err e, o)
    | ok server ↦
        with_metrics ":9096"
          (need (listen "Failed to listen on :9095" ":9095") (run (serving server)))
          (with_scorer server.scorer o)
  ])

  abbrev pub main_of : Service → Config → Start (Result Running)
  main_of ingest_service c = ingest_main c
  main_of processor_service c = processor_main c
  main_of alert_service c = alert_main
  main_of query_service c = query_main
  main_of grpc_service c = grpc_main c

  -- `main`, which starts with `LoadFromEnv` in every service.
  unfoldable pub start : Service → Start (Result Running)
  start service o = elim (load_from_env atoi s.getenv) [
    | err e ↦ (err e, o)
    | ok c ↦ main_of service c o
  ]
