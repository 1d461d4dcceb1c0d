-- ===== src/Startup/Shutdown.antt =====
-- How the services end: `Close` of the RabbitMQ client and of the database client, what each `main`
-- closes when it returns, and the goroutine of the gRPC server that waits for a signal.
use fluxa.Base.{ℕ, ◌-◌, ◌*◌, Bool, Option, none, some, ltb, nat_eq, if◌then◌else◌}
use fluxa.Domain.{Time, second, GoError}
use fluxa.World.{Reply, done, refused, unconfirmed}
use fluxa.Startup.Broker.{Outside, Start, after_call}
use fluxa.Startup.Services.{
  Service, ingest_service, processor_service, alert_service, query_service, grpc_service, Running,
  has_scorer,
}

-- `os.Exit(1)` runs no deferred call; a `main` that returns has run all of them.
pub data Ending : Type 0 where
  exited : GoError → Ending
  returned : Ending

module _ (reply : ℕ → Reply) where
  -- A call whose error is passed on as it is.
  abbrev close_settled : Reply → (Outside → Outside) → Start (Option GoError)
  close_settled done f o = (none, after_call (f o))
  close_settled (refused e) f o = (some e, after_call o)
  close_settled (unconfirmed e) f o = (some e, after_call (f o))

  abbrev close : (Outside → Outside) → Start (Option GoError)
  close f o = close_settled (reply o.tick) f o

  -- `Close` of the RabbitMQ client: if the channel cannot be closed the connection stays open.
  unfoldable pub close_broker : Start (Option GoError)
  close_broker o =
      let (failure, o1) = close (λ o. record o { channels = o.channels - 1 }) o in
      elim failure [
        | some e ↦ (some e, o1)
        | none ↦ close (λ o. record o { connections = o.connections - 1 }) o1
      ]

  -- `Close` of the database client.
  unfoldable pub close_database : Start (Option GoError)
  close_database o = close (λ o. record o { pools = o.pools - 1 }) o

  -- A deferred call, whose error nobody sees.
  abbrev deferred : Start (Option GoError) → Outside → Outside
  deferred f o = (f o).1

  -- `Close` of the scorer's client, which is deferred where there is one.
  unfoldable pub close_scorer : Running → Outside → Outside
  close_scorer r o =
      if has_scorer r then deferred (close (λ o. record o { scorers = o.scorers - 1 })) o else o

  -- What `main` has deferred, the last one first.
  unfoldable pub run_deferred : Service → Running → Outside → Outside
  run_deferred ingest_service r o = o
  run_deferred processor_service r o =
      deferred close_database (deferred close_broker (close_scorer r o))
  run_deferred alert_service r o = deferred close_broker o
  run_deferred query_service r o = deferred close_database o
  run_deferred grpc_service r o = deferred close_database (close_scorer r o)

  -- The end of `main`, by what its server has returned; the loops over deliveries have no error, and
  -- that of the tracing's shutdown is only logged.
  unfoldable pub end_main : Service → Running → Option GoError → Start Ending
  end_main processor_service r _ o = (returned, run_deferred processor_service r o)
  end_main alert_service r _ o = (returned, run_deferred alert_service r o)
  end_main ingest_service r (some e) o = (exited e, o)
  end_main ingest_service r none o = (returned, run_deferred ingest_service r o)
  end_main query_service r (some e) o = (exited e, o)
  end_main query_service r none o = (returned, run_deferred query_service r o)
  end_main grpc_service r (some e) o = (exited e, o)
  end_main grpc_service r none o = (returned, run_deferred grpc_service r o)

-- How the server stopped, and how long after the signal.
pub data Stopping : Type 0 where
  drained : Time → Stopping
  forced : Time → Stopping

abbrev pub stopped_after : Stopping → Time
stopped_after (drained t) = t
stopped_after (forced t) = t

abbrev pub grace : Time
grace = 10 * second

-- The goroutine of the gRPC server, from the signal on: the `select` between the end of
-- `GracefulStop`, if there is one, and the timer. Where both are ready Go takes either.
unfoldable pub stop_server : Bool → Option Time → Stopping
stop_server either none = forced grace
stop_server either (some t) =
    if ltb t grace
    then drained t
    else if nat_eq t grace
    then (if either then drained t else forced grace)
    else forced grace
