-- ===== src/Startup/Released.antt =====
-- What a service gives back when it ends.
use fluxa.Base.{
  ℕ, ◌+◌, ◌-◌, ◌≤◌, ◌<◌, String, Bool, Option, none, some, ◌≡◌, refl, inl, inr, Bool-cases, arith,
  ℤ,
}
use fluxa.Domain.{Time, GoError, ok}
use fluxa.World.{Reply, done}
use fluxa.Config.{Config}
use fluxa.Startup.Broker.{Outside}
use fluxa.Startup.Scoring.{Settings}
use fluxa.Startup.Services.{
  Service, ingest_service, processor_service, alert_service, query_service, grpc_service, Running,
  has_scorer, start,
}
use fluxa.Startup.Shutdown.{
  Ending, exited, returned, close_broker, close_database, close_scorer, run_deferred, end_main,
  grace, stop_server, drained, stopped_after,
}
use fluxa.Startup.Ready.{IsReady, IsWired, one_if, start-IsReady}

-- As many connections, channels and pools as before, and as many connections to the scorer.
abbrev pub IsReleased : Outside → Outside → Type 0
IsReleased o o1 =
    (o1.connections ≡ o.connections)
    × (o1.channels ≡ o.channels)
    × (o1.pools ≡ o.pools)
    × (o1.scorers ≡ o.scorers)

-- What a service leaves, by how it ends. Ingest defers nothing.
abbrev pub Leaves : Service → Outside → Outside → Ending → Outside → Type 0
Leaves service o o1 (exited e) o2 = o2 ≡ o1
Leaves ingest_service o o1 returned o2 = o2 ≡ o1
Leaves _ o o1 returned o2 = IsReleased o o2

-- From here on every call succeeds.
abbrev pub IsCalm : (ℕ → Reply) → Outside → Type 0
IsCalm reply o = (n : ℕ) → o.tick ≤ n → reply n ≡ done

module _ (reply : ℕ → Reply) (o : Outside) (calm : IsCalm reply o) where
  close_broker_done :
      let o1 = (close_broker reply o).1 in
      (o1.connections ≡ o.connections - 1)
      × (o1.channels ≡ o.channels - 1)
      × (o1.pools ≡ o.pools)
      × (o1.scorers ≡ o.scorers)
      × (o1.tick ≡ o.tick + 2)
  unfolding close_broker
  close_broker_done = ground (arith, calm o.tick (omega arith), calm (o.tick + 1) (omega arith))

  close_database_done :
      let o1 = (close_database reply o).1 in
      (o1.connections ≡ o.connections)
      × (o1.channels ≡ o.channels)
      × (o1.pools ≡ o.pools - 1)
      × (o1.scorers ≡ o.scorers)
  unfolding close_database
  close_database_done = ground (arith, calm o.tick (omega arith))

  close_scorer_done :
      (r : Running)
      → let o1 = close_scorer reply r o in
        (o1.connections ≡ o.connections)
        × (o1.channels ≡ o.channels)
        × (o1.pools ≡ o.pools)
        × (o1.scorers ≡ o.scorers - one_if (has_scorer r))
        × (o.tick ≤ o1.tick)
  unfolding close_scorer
  close_scorer_done r = elim (Bool-cases (has_scorer r)) [
    | inl with_client ↦ ground (arith, calm o.tick (omega arith), with_client)
    | inr without ↦ ground (arith, without)
  ]

module _ (s : Settings) (atoi : String → Option ℤ) (reply : ℕ → Reply) where
  ready-end_main :
      (service : Service) (c : Config) (r : Running) (o o1 o2 : Outside) (served : Option GoError)
      → IsReady service c r o o1
      → IsReleased o1 o2
      → IsCalm reply o2
      → IsWired s atoi reply service c r
      → let (ending, o3) = end_main reply service r served o2 in Leaves service o o2 ending o3
  unfolding end_main run_deferred
  ready-end_main ingest_service c r o o1 o2 none ready kept calm wired = refl
  ready-end_main ingest_service c r o o1 o2 (some e) ready kept calm wired = refl
  ready-end_main processor_service c r o o1 o2 served ready kept calm wired =
      let a = close_scorer reply r o2 in
      let b = (close_broker reply a).1 in
      let f = close_scorer_done reply o2 calm r in
      let d = close_broker_done reply a (λ n le. calm n (omega (arith, le, f))) in
      let k = close_database_done reply b (λ n le. calm n (omega (arith, le, d, f))) in
      (ground arith)
  ready-end_main alert_service c r o o1 o2 served ready kept calm wired =
      let d = close_broker_done reply o2 calm in ground arith
  ready-end_main query_service c r o o1 o2 none ready kept calm wired =
      let d = close_database_done reply o2 calm in ground arith
  ready-end_main query_service c r o o1 o2 (some e) ready kept calm wired = refl
  ready-end_main grpc_service c r o o1 o2 none ready kept calm wired =
      let a = close_scorer reply r o2 in
      let f = close_scorer_done reply o2 calm r in
      let k = close_database_done reply a (λ n le. calm n (omega (arith, le, f))) in (ground arith)
  ready-end_main grpc_service c r o o1 o2 (some e) ready kept calm wired = refl

  -- A service that started, and whose work has left it the connections, channels, pools and
  -- connections to the scorer that it had, gives all of them back when `main` returns and the closing calls succeed, for every service
  -- but ingest, which defers nothing and closes nothing; where `main` exits with the server's error nothing is closed.
  pub start-end_main :
      (service : Service) (r : Running) (o o1 o2 : Outside) (served : Option GoError)
      → start s atoi reply service o ≡ (ok r, o1)
      → IsReleased o1 o2
      → IsCalm reply o2
      → let (ending, o3) = end_main reply service r served o2 in Leaves service o o2 ending o3
  start-end_main service r o o1 o2 served h kept calm =
      let (c, loaded, ready, wired) = start-IsReady s atoi reply service r o o1 h in
      ready-end_main service c r o o1 o2 served ready kept calm wired

-- The gRPC server stops within ten seconds of the signal, and is cut off only if the requests that it
-- is at take that long.
stop_server_bound :
    (either : Bool) (drain : Option Time)
    → let stopping = stop_server either drain in
      (stopped_after stopping ≤ grace)
      × ((t : Time) → drain ≡ some t → t < grace → stopping ≡ drained t)
unfolding stop_server
stop_server_bound either none = (ground arith, λ t. ground arith)
stop_server_bound either (some t) = (ground arith, λ u. ground arith)
