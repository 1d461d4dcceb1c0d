-- ===== src/Startup/Scoring.antt =====
-- `NewEngine`, and how the two services that evaluate events take the scorer and its threshold from
-- the environment. Files, YAML, the parsing of floats and the dialling are parameters.
use fluxa.Base.{◌*◌, ◌^◌, String, ◌==◌, true, Option, none, some, pos, if◌then◌else◌}
use fluxa.Domain.{Float64, zero_float, finite, wrapped, Result, ok, err, RulesConfig}
use fluxa.Config.{get_env}
use fluxa.Engine.{Engine, Scorer}
use fluxa.Processor.{Processor}
use fluxa.FraudEval.{Server}

-- The float64 nearest to 0.87.
unfoldable pub default_tau : Float64
default_tau = finite (pos (7_836_263_351_624_663 * 2 ^ 1021))

-- What a service reads at its start.
pub record Settings : Type 0 where
  pub getenv : String → String
  pub read_file : String → Result String
  pub parse_rules : String → Result RulesConfig
  pub parse_float : String → Option Float64
  -- `scorer.NewClient` at an endpoint.
  pub dial_scorer : String → Result Scorer

-- `NewEngine`: the threshold of the scorer is zero.
unfoldable pub new_engine : Settings → String → Result Engine
new_engine s path = elim (s.read_file path) [
  | err e ↦ err (wrapped "fraud: read rules file" e)
  | ok yaml ↦ elim (s.parse_rules yaml) [
    | err e ↦ err (wrapped "fraud: parse rules file" e)
    | ok rules ↦ ok (record { rules = rules; tau = zero_float })
  ]
]

unfoldable pub scorer_tau : Settings → Float64
scorer_tau s =
    let t = s.getenv "SCORER_TAU" in
    elim (if t == "" then none else s.parse_float t) [ none ↦ default_tau | some v ↦ v ]

abbrev pub scorer_client : Settings → Result Scorer
scorer_client s = s.dial_scorer (get_env s.getenv "SCORER_ENDPOINT" "ml-scorer:9097")

-- The processor: the threshold is set before the client is made.
unfoldable pub start_processor : Settings → String → Result Processor
start_processor s path = elim (new_engine s path) [
  | err e ↦ err e
  | ok engine ↦ ok (record {
    fraud = some (record engine { tau = scorer_tau s });
    scorer = elim (scorer_client s) [ err e ↦ none | ok client ↦ some client ];
    has_publisher = true;
  })
]

-- The gRPC server's own copy of the threshold and of the client.
unfoldable pub grpc_default_tau : Float64
grpc_default_tau = finite (pos (7_836_263_351_624_663 * 2 ^ 1021))

unfoldable pub grpc_tau : Settings → Float64
grpc_tau s =
    let t = s.getenv "SCORER_TAU" in
    if t == ""
    then grpc_default_tau
    else (elim (s.parse_float t) [ none ↦ grpc_default_tau | some v ↦ v ])

unfoldable pub grpc_scorer_client : Settings → Result Scorer
grpc_scorer_client s =
    let endpoint = s.getenv "SCORER_ENDPOINT" in
    s.dial_scorer (if endpoint == "" then "ml-scorer:9097" else endpoint)

-- The gRPC server: the threshold and the client are set together, or neither is.
unfoldable pub start_grpc : Settings → String → Result Server
start_grpc s path = elim (new_engine s path) [
  | err e ↦ err e
  | ok engine ↦ elim (grpc_scorer_client s) [
    | err e ↦ ok (record { engine = engine; version = "fluxa-rules-v1.0"; scorer = none })
    | ok client ↦ ok (record {
      engine = record engine { tau = grpc_tau s };
      version = "fluxa-rules-v1.0";
      scorer = some client;
    })
  ]
]
