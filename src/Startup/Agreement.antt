-- ===== src/Startup/Agreement.antt =====
-- The processor and the gRPC server judge an event alike.
use fluxa.Base.{String, true, none, some, ◌≡◌, refl, ◌⊎◌, inl, inr, arith}
use fluxa.Domain.{GoError, ok, err, Result-cases, Event}
use fluxa.World.{Env, World}
use fluxa.Engine.{Engine, EvalQuerier, evaluate, evaluate_with_scorer}
use fluxa.Processor.{Processor}
use fluxa.FraudEval.{Server}
use fluxa.Startup.Scoring.{
  Settings, new_engine, scorer_tau, scorer_client, default_tau, grpc_tau, grpc_default_tau,
  grpc_scorer_client, start_processor, start_grpc,
}

grpc_tau-scorer_tau : (s : Settings) → grpc_tau s ≡ scorer_tau s
unfolding grpc_tau scorer_tau default_tau grpc_default_tau
grpc_tau-scorer_tau s = ground arith

grpc_scorer_client-scorer_client : (s : Settings) → grpc_scorer_client s ≡ scorer_client s
unfolding grpc_scorer_client
grpc_scorer_client-scorer_client s = ground arith

-- With the same environment and rules file the processor and the gRPC server both fail to start
-- with the same error, or both start; and then their engines evaluate every event to the same
-- flags, score and version, whether or not the scorer could be dialled.
pub start_processor-start_grpc :
    (s : Settings) (path : String)
    → ((e : GoError) × (start_processor s path ≡ err e) × (start_grpc s path ≡ err e))
      ⊎ ((p : Processor) × (g : Server) × (engine : Engine) × (start_processor s path ≡ ok p)
          × (start_grpc s path ≡ ok g)
          × (p.fraud ≡ some engine)
          × ((env : Env) (e : Event) (q : EvalQuerier) (w : World)
              → evaluate_with_scorer env engine e q p.scorer w
                ≡ evaluate_with_scorer env g.engine e q g.scorer w))
unfolding start_processor start_grpc evaluate_with_scorer evaluate
start_processor-start_grpc s path = elim (Result-cases (new_engine s path)) [
  | inr (e, unread) ↦ inl (e, ground (arith, unread), ground (arith, unread))
  | inl (engine, read) ↦ elim (Result-cases (scorer_client s)) [
    | inr (x, undialled) ↦
        let tuned : Engine = record engine { tau = scorer_tau s } in
        inr (
          record { fraud = some tuned; scorer = none; has_publisher = true },
          record { engine = engine; version = "fluxa-rules-v1.0"; scorer = none },
          tuned,
          ground (arith, read, undialled),
          ground (arith, read, undialled, grpc_scorer_client-scorer_client s),
          refl,
          λ env e q w. refl,
        )
    | inl (client, dialled) ↦
        let tuned : Engine = record engine { tau = scorer_tau s } in
        inr (
          record { fraud = some tuned; scorer = some client; has_publisher = true },
          record { engine = tuned; version = "fluxa-rules-v1.0"; scorer = some client },
          tuned,
          ground (arith, read, dialled),
          ground (arith, read, dialled, grpc_scorer_client-scorer_client s, grpc_tau-scorer_tau s),
          refl,
          λ env e q w. refl,
        )
  ]
]
