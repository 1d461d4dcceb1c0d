-- ===== src/Metrics/Servers.antt =====
-- The samples of the ingest, the gRPC and the query service and of the alert consumer.
use fluxa.Base.{String, true, Option, none, List, [], ◌∷◌, ◌≡◌, refl, inl, inr, arith}
use fluxa.Domain.{Float64, Event, Result-cases, QueueMessage, FraudFlag, inline}
use fluxa.World.{Env, World, counter, histogram, read, write, next}
use fluxa.Store.{get_event_by_id, insert_event, insert_fraud_flag}
use fluxa.Store.Events.{insert_event_frame}
use fluxa.Engine.{store_querier, evaluate_with_scorer}
use fluxa.Engine.Frame.{evaluate_with_scorer_frame}
use fluxa.Ports.{storage_put, publish}
use fluxa.Ingest.{Request, make_message, enqueue, ingest_event, handle_ingest}
use fluxa.FraudEval.{
  Server, EvaluateRequest, ContextError, store_flag, store_flags, evaluate_stored, evaluate_event,
  evaluate_transaction,
}
use fluxa.Query.{handle_get_event}
use fluxa.Consumer.{consume_event, consume_alert}
use fluxa.Processor.{Processor}
use fluxa.Metrics.Defs.{new_metrics, record_sample, to_prom_labels}
use fluxa.Metrics.Pipeline.{is_registered, registered, registered-process_message}

module _ (service : String) where
  ingested_registered :
      is_registered service (counter "events_ingested_total" ("service" ∷ "ingest" ∷ [])) ≡ true
  unfolding record_sample new_metrics to_prom_labels
  ingested_registered = refl

  ingest_latency_registered :
      is_registered service (histogram "ingest_latency_seconds" ("service" ∷ "ingest" ∷ [])) ≡ true
  unfolding record_sample new_metrics to_prom_labels
  ingest_latency_registered = refl

  grpc_flags_registered :
      (rule : String)
      → is_registered service (counter "fraud_flags_grpc_total" ("rule" ∷ rule ∷ [])) ≡ true
  unfolding record_sample new_metrics to_prom_labels
  grpc_flags_registered rule = refl

  eval_latency_registered :
      is_registered service (histogram "fraud_eval_latency_seconds" ("service" ∷ "fraud-grpc" ∷ []))
      ≡ true
  unfolding record_sample new_metrics to_prom_labels
  eval_latency_registered = refl

  query_total_registered :
      (status : String)
      → is_registered service (counter "query_total" ("status" ∷ status ∷ [])) ≡ true
  unfolding record_sample new_metrics to_prom_labels
  query_total_registered status = refl

  alerts_registered : is_registered service (counter "alerts_consumed_total" []) ≡ true
  unfolding record_sample new_metrics to_prom_labels
  alerts_registered = refl

  module _ (env : Env) where
    make_message_samples :
        (e : Event) (correlation bytes : String) (w : World)
        → (make_message env e correlation bytes w).1.samples ≡ w.samples
    unfolding make_message storage_put write
    make_message_samples e correlation bytes w = ground arith

    registered-enqueue :
        (e : Event) (correlation : String) (msg : QueueMessage) (w : World)
        → registered service (enqueue env e correlation msg w).1 ≡ registered service w
    unfolding enqueue publish write
    registered-enqueue e correlation msg w =
        ground (arith, ingested_registered, ingest_latency_registered)

    registered-ingest_event :
        (e : Event) (correlation : String) (w : World)
        → registered service (ingest_event env e correlation w).1 ≡ registered service w
    unfolding ingest_event
    registered-ingest_event e correlation w =
        grind (arith, make_message_samples, registered-enqueue)

    pub registered-handle_ingest :
        (r : Request) (w : World)
        → registered service (handle_ingest env r w).1 ≡ registered service w
    unfolding handle_ingest
    registered-handle_ingest r w = grind (arith, registered-ingest_event, ingested_registered)

    registered-store_flag :
        (score : Float64) (f : FraudFlag) (w : World)
        → registered service (store_flag env score f w).1 ≡ registered service w
    unfolding store_flag insert_fraud_flag write
    registered-store_flag score f w = ground (arith, grpc_flags_registered f.rule_name)

    registered-store_flags :
        (score : Float64) (fs : List FraudFlag) (w : World)
        → registered service (store_flags env score fs w).1 ≡ registered service w
    unfolding store_flags
    registered-store_flags score [] w = refl
    registered-store_flags score (f ∷ fs) w = ground (
      arith,
      registered-store_flag score f w,
      registered-store_flags score fs (store_flag env score f w).1,
    )

    registered-evaluate_stored :
        (s : Server) (e : Event) (w : World)
        → registered service (evaluate_stored env s e w).1 ≡ registered service w
    unfolding evaluate_stored
    registered-evaluate_stored s e w =
        let ((fs, score, model), w1) =
          evaluate_with_scorer env s.engine e (store_querier env) s.scorer w in
        ground (
          arith,
          evaluate_with_scorer_frame env s.engine e s.scorer w,
          registered-store_flags score fs w1,
          eval_latency_registered,
        )

    registered-evaluate_event :
        (s : Server) (e : Event) (context : Option ContextError) (w : World)
        → registered service (evaluate_event env s e context w).1 ≡ registered service w
    unfolding evaluate_event
    registered-evaluate_event s e context w =
        let w1 = (insert_event env e e.event_id inline none (next w)).1 in
        ground (
          arith,
          insert_event_frame env e e.event_id inline none (next w),
          registered-evaluate_stored s e w1,
        )

    pub registered-evaluate_transaction :
        (s : Server) (r : EvaluateRequest) (context : Option ContextError) (w : World)
        → registered service (evaluate_transaction env s r context w).1 ≡ registered service w
    unfolding evaluate_transaction
    registered-evaluate_transaction s r context w = grind (arith, registered-evaluate_event)

    pub registered-handle_get_event :
        (method path : String) (w : World)
        → registered service (handle_get_event env method path w).1 ≡ registered service w
    unfolding handle_get_event get_event_by_id read
    registered-handle_get_event method path w = ground (
      arith,
      query_total_registered "missing_event_id",
      query_total_registered "not_found",
      query_total_registered "error",
      query_total_registered "found",
    )

    pub registered-consume_event :
        (p : Processor) (body : String) (w : World)
        → registered service (consume_event env p body w).1 ≡ registered service w
    unfolding consume_event
    registered-consume_event p body w = elim (Result-cases (env.codec.parse_message body)) [
      | inr (x, broken) ↦ ground arith
      | inl (msg, parsed) ↦ ground (arith, registered-process_message service env p msg w)
    ]

    pub registered-consume_alert :
        (body : String) (w : World)
        → registered service (consume_alert env body w).1 ≡ registered service w
    unfolding consume_alert
    registered-consume_alert body w = ground (arith, alerts_registered)
