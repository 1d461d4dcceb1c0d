-- ===== src/Examples/Starting.antt =====
-- The services at their start.
use fluxa.Base.{
  String, Option, ℤ, ℕ, nat_eq, ◌==◌, ◌≡◌, ◌⊎◌, refl, true, none, some, [], if◌then◌else◌,
}
use fluxa.Domain.{GoError, ok, err, one_float, plain, Event}
use fluxa.World.{Env, World, Reply, done, refused}
use fluxa.Engine.{Engine, EvalQuerier, evaluate_with_scorer}
use fluxa.Processor.{Processor}
use fluxa.FraudEval.{Server}
use fluxa.Startup.{
  Outside, Settings, declare_topology, declare_exchanges, declare_queues, new_broker,
  start_processor, start_grpc, new_engine, scorer_tau, new_database, new_storage, ensure_bucket,
  open_handle, call, processor_main, start, processor_service, processing_by,
}
use fluxa.Startup.{end_main}
use fluxa.Startup.Released.{Leaves, start-end_main}
use fluxa.Startup.Ready.{IsReady, IsWired, start-IsReady}
use fluxa.Config.{Config, load_from_env, validate_config}
use fluxa.Startup.Agreement.{start_processor-start_grpc}
use fluxa.Examples.Data.{rules, risky}

abbrev nothing : Outside
nothing = record {
  exchanges = [];
  queues = [];
  bindings = [];
  buckets = [];
  connections = 0;
  channels = 0;
  pools = 0;
  scorers = 0;
  listening = [];
  tick = 0;
}

-- The fifth call is refused.
abbrev fifth_refused : ℕ → Reply
fifth_refused n = if nat_eq n 4 then refused (plain "precondition failed") else done

abbrev settings : Settings
settings = record {
  getenv = λ name. if name == "SCORER_TAU" then "1" else "";
  read_file = λ path. ok "rules";
  parse_rules = λ yaml. ok rules;
  parse_float = λ t. some one_float;
  dial_scorer = λ endpoint. ok risky;
}

start_processor-start_grpc_example :
    ((e : GoError) × (start_processor settings "/app/rules.yaml" ≡ err e)
      × (start_grpc settings "/app/rules.yaml" ≡ err e))
    ⊎ ((p : Processor) × (g : Server) × (engine : Engine) × (start_processor settings
            "/app/rules.yaml"
          ≡ ok p)
        × (start_grpc settings "/app/rules.yaml" ≡ ok g)
        × (p.fraud ≡ some engine)
        × ((env : Env) (e : Event) (q : EvalQuerier) (w : World)
            → evaluate_with_scorer env engine e q p.scorer w
              ≡ evaluate_with_scorer env g.engine e q g.scorer w))
start_processor-start_grpc_example = start_processor-start_grpc settings "/app/rules.yaml"

abbrev all_done : ℕ → Reply
all_done n = done

abbrev no_number : String → Option ℤ
no_number text = none

abbrev deployed : Settings
deployed = record settings {
  getenv = λ name.
      if name == "SCORER_TAU"
      then "1"
      else if name == "DB_HOST"
      then "db"
      else if name == "DB_USER"
      then "fluxa"
      else if name == "DB_PASSWORD"
      then "secret"
      else "";
}

abbrev wired : Processor
wired = record {
  fraud = some (record { rules = rules; tau = one_float });
  scorer = some risky;
  has_publisher = true;
}

start-IsReady_example :
    let o1 = (start deployed no_number all_done processor_service nothing).1 in
    (c : Config) × (load_from_env no_number deployed.getenv ≡ ok c)
    × IsReady processor_service c (processing_by wired) nothing o1
    × IsWired deployed no_number all_done processor_service c (processing_by wired)
unfolding start load_from_env validate_config processor_main new_database open_handle call
    new_broker new_storage ensure_bucket start_processor new_engine scorer_tau declare_topology
    declare_exchanges declare_queues
start-IsReady_example =
    start-IsReady deployed no_number all_done processor_service (processing_by wired) nothing
      (start deployed no_number all_done processor_service nothing).1 refl

-- The processor starts, leaves what it has as it is, and its channel of deliveries is closed.
start-end_main_example :
    let o1 = (start deployed no_number all_done processor_service nothing).1 in
    let (ending, o3) = end_main all_done processor_service (processing_by wired) none o1 in
    Leaves processor_service nothing o1 ending o3
unfolding start load_from_env validate_config processor_main new_database open_handle call
    new_broker new_storage ensure_bucket start_processor new_engine scorer_tau declare_topology
    declare_exchanges declare_queues
start-end_main_example =
    let o1 = (start deployed no_number all_done processor_service nothing).1 in
    start-end_main deployed no_number all_done processor_service (processing_by wired) nothing o1 o1
      none refl (refl, refl, refl, refl) (λ n le. refl)
