-- ===== src/FraudEval/Defs.antt =====
-- `EvaluateTransaction`. Log lines and latencies are left out.
use Prim.Native.String.{◌++◌ as ◌⊹◌}
use fluxa.Base.{String, ◌==◌, ◌||◌, Option, none, some, List, [], ◌∷◌, map, if◌then◌else◌}
use fluxa.Domain.{
  Time, Float64, text, Metadata, invalid_event, error_text, Event, validate, FraudFlag, inline,
}
use fluxa.World.{Env, M, pure, ◌>>=◌, ◌>>◌, on_error, time_now, inc_counter, observe_histogram}
use fluxa.Store.{insert_event, insert_fraud_flag}
use fluxa.Engine.{Engine, Scorer, store_querier, evaluate_with_scorer, unavailable}

pub record EvaluateRequest : Type 0 where
  pub event_id : String
  pub user_id : String
  pub amount : Float64
  pub currency : String
  pub merchant : String
  pub transaction_time : Option Time
  pub metadata : List (String × String)

pub data Code : Type 0 where
  invalid_argument deadline_exceeded canceled unavailable_code internal : Code

pub data Decision : Type 0 where
  allow flag : Decision

pub record ProtoFlag : Type 0 where
  pub rule_name : String
  pub rule_value : String

pub record EvaluateResponse : Type 0 where
  pub decision : Decision
  pub flags : List ProtoFlag
  pub evaluated_by : String
  pub ml_score : Float64

pub data Answer : Type 0 where
  status : Code → String → Answer
  response : EvaluateResponse → Answer

-- `ctx.Err()`: nil, a deadline that passed, or a cancellation.
pub data ContextError : Type 0 where
  deadline cancellation : ContextError

abbrev pub context_status : ContextError → Answer
context_status deadline = status deadline_exceeded "context deadline exceeded"
context_status cancellation = status canceled "context canceled"

pub record Server : Type 0 where
  pub engine : Engine
  pub version : String
  pub scorer : Option Scorer

abbrev pub text_values : List (String × String) → Metadata
text_values [] = []
text_values ((k, v) ∷ m) = (k, text v) ∷ text_values m

-- `protoToEvent`: a nil map where the request has no metadata.
abbrev pub proto_metadata : List (String × String) → Option Metadata
proto_metadata [] = none
proto_metadata (x ∷ xs) = some (text_values (x ∷ xs))

abbrev pub proto_to_event : EvaluateRequest → Time → Event
proto_to_event req time = record {
  event_id = req.event_id;
  user_id = req.user_id;
  amount = req.amount;
  currency = req.currency;
  merchant = req.merchant;
  timestamp = time;
  metadata = proto_metadata req.metadata;
}

abbrev pub proto_flag : FraudFlag → ProtoFlag
proto_flag f = record { rule_name = f.rule_name; rule_value = f.rule_value }

abbrev pub to_proto_flags : List FraudFlag → List ProtoFlag
to_proto_flags = map proto_flag

abbrev pub decision_from_flags : List FraudFlag → Decision
decision_from_flags [] = allow
decision_from_flags (_ ∷ _) = flag

abbrev pub evaluated_by : String → String → String
evaluated_by version model =
    if model == "" || model == unavailable then version else version ⊹ ("+ml-" ⊹ model)

module _ (env : Env) where
  -- The body of the loop over the flags.
  unfoldable pub store_flag : Float64 → FraudFlag → M (Unit {0})
  store_flag score f = do
    failed ← insert_fraud_flag env (record f { ml_score = score })
    on_error failed (λ _. pure tt)
        (inc_counter "fraud_flags_grpc_total" ("rule" ∷ f.rule_name ∷ []))

  unfoldable pub store_flags : Float64 → List FraudFlag → M (Unit {0})
  store_flags score [] = pure tt
  store_flags score (f ∷ fs) = do store_flag score f; store_flags score fs

  -- From the evaluation on, for an event that is stored.
  unfoldable pub evaluate_stored : Server → Event → M Answer
  evaluate_stored s event = do
    (flags, score, model) ← evaluate_with_scorer env s.engine event (store_querier env) s.scorer
    store_flags score flags
    observe_histogram "fraud_eval_latency_seconds" ("service" ∷ "fraud-grpc" ∷ [])
    pure (
        response (record {
          decision = decision_from_flags flags;
          flags = to_proto_flags flags;
          evaluated_by = evaluated_by s.version model;
          ml_score = score;
        }))

  -- From the validation on, for a request with a transaction time.
  unfoldable pub evaluate_event : Server → Event → Option ContextError → M Answer
  evaluate_event s event context = do
    now ← time_now env
    elim (validate now event) [
      | some x ↦ pure (status invalid_argument (error_text (invalid_event x)))
      | none ↦ elim context [
        | some c ↦ pure (context_status c)
        | none ↦ do
          failed ← insert_event env event event.event_id inline none
          on_error failed (λ _. pure (status unavailable_code "failed to persist event"))
              (evaluate_stored s event)
      ]
    ]

  -- `EvaluateTransaction`, with what `ctx.Err()` says after the validation. The engine's error is
  -- always nil, so its branch is not reached.
  unfoldable pub evaluate_transaction : Server → EvaluateRequest → Option ContextError → M Answer
  evaluate_transaction s req context = do
    start ← time_now env
    if req.event_id == ""
        then pure (status invalid_argument "event_id is required")
        else elim req.transaction_time [
          | none ↦ pure (status invalid_argument "transaction_time is required")
          | some time ↦ evaluate_event s (proto_to_event req time) context
        ]
