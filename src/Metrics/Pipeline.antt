-- ===== src/Metrics/Pipeline.antt =====
-- The samples of the processor, the ingest service and the consume loops.
use fluxa.Base.{
  String, Bool, true, Option, none, some, List, [], ◌∷◌, ◌≡◌, refl, inl, inr, arith, Option-cases,
  Bool-cases,
}
use fluxa.Domain.{
  Float64, Result-cases, Event, error_text, PayloadMode, inline, s3, other, QueueMessage, FraudFlag,
}
use fluxa.World.{Env, World, Sample, counter, histogram, read, write}
use fluxa.Idempotency.{check_and_mark, mark_failed}
use fluxa.Idempotency.Frame.{check_and_mark_frame, mark_success_frame}
use fluxa.Store.{insert_event, insert_fraud_flag}
use fluxa.Store.Events.{insert_event_frame}
use fluxa.Engine.Frame.{evaluate_with_scorer_frame}
use fluxa.Ports.{storage_get, publish}
use fluxa.Processor.{
  Processor, stored_key, observe_process, fetch_payload, check_payload, raise_one, raise_flags,
  evaluate_fraud, finish, persist, work, process, fail_permanent, process_message,
}
use fluxa.Processor.Steps.{check_payload_frame}
use fluxa.Metrics.Defs.{new_metrics, record_sample, to_prom_labels, fits_vector, all_registered}

module _ (service : String) where
  abbrev pub is_registered : Sample → Bool
  is_registered s = fits_vector (record_sample (new_metrics service) s)

  abbrev pub registered : World → Bool
  registered w = all_registered (new_metrics service) w.samples

  -- The calls of the code, each with the labels that it passes.
  processed_total_registered :
      (status : String)
      → is_registered
          (counter "events_processed_total" ("service" ∷ "processor" ∷ "status" ∷ status ∷ []))
        ≡ true
  unfolding record_sample new_metrics to_prom_labels
  processed_total_registered status = refl

  process_latency_registered :
      is_registered (histogram "process_latency_seconds" ("service" ∷ "processor" ∷ [])) ≡ true
  unfolding record_sample new_metrics to_prom_labels
  process_latency_registered = refl

  fraud_flags_registered :
      (rule : String) → is_registered (counter "fraud_flags_total" ("rule" ∷ rule ∷ [])) ≡ true
  unfolding record_sample new_metrics to_prom_labels
  fraud_flags_registered rule = refl

  module _ (env : Env) (p : Processor) where
    registered-fetch_payload :
        (mode : PayloadMode) (payload key : Option String) (w : World)
        → registered (fetch_payload env mode payload key w).1 ≡ registered w
    unfolding fetch_payload storage_get read
    registered-fetch_payload inline none key w = refl
    registered-fetch_payload inline (some b) key w = refl
    registered-fetch_payload s3 b none w = refl
    registered-fetch_payload s3 b (some k) w = ground (arith, processed_total_registered "failure")
    registered-fetch_payload (other s) b key w = refl

    registered-raise_one :
        (pubs : Bool) (score : Float64) (f : FraudFlag) (w : World)
        → registered (raise_one env pubs score f w).1 ≡ registered w
    unfolding raise_one insert_fraud_flag publish write
    registered-raise_one pubs score f w = ground (arith, fraud_flags_registered f.rule_name)

    registered-raise_flags :
        (pubs : Bool) (score : Float64) (fs : List FraudFlag) (w : World)
        → registered (raise_flags env pubs score fs w).1 ≡ registered w
    unfolding raise_flags
    registered-raise_flags pubs score [] w = refl
    registered-raise_flags pubs score (f ∷ fs) w = ground (
      arith,
      registered-raise_one pubs score f w,
      registered-raise_flags pubs score fs (raise_one env pubs score f w).1,
    )

    registered-evaluate_fraud :
        (e : Event) (w : World) → registered (evaluate_fraud env p e w).1 ≡ registered w
    unfolding evaluate_fraud
    registered-evaluate_fraud e w = elim (Option-cases p.fraud) [
      | inl absent ↦ ground arith
      | inr (engine, present) ↦ grind (arith, evaluate_with_scorer_frame, registered-raise_flags)
    ]

    registered-finish :
        (msg : QueueMessage) (e : Event) (w : World)
        → registered (finish env p msg e w).1 ≡ registered w
    unfolding finish
    registered-finish msg e w =
        let w1 = (observe_process w).1 in
        let w2 = (evaluate_fraud env p e w1).1 in
        ground (
          arith,
          registered-evaluate_fraud e w1,
          mark_success_frame env msg.event_id w2,
          process_latency_registered,
          processed_total_registered "success",
        )

    registered-persist :
        (msg : QueueMessage) (e : Event) (w : World)
        → registered (persist env p msg e w).1 ≡ registered w
    unfolding persist
    registered-persist msg e w =
        let key = stored_key msg.payload_mode msg.s3_key in
        let w1 = (insert_event env e msg.correlation_id msg.payload_mode key w).1 in
        ground (
          arith,
          insert_event_frame env e msg.correlation_id msg.payload_mode key w,
          registered-finish msg e w1,
          processed_total_registered "failure",
        )

    registered-work :
        (msg : QueueMessage) (w : World) → registered (work env p msg w).1 ≡ registered w
    unfolding work
    registered-work msg w =
        let (payload, w1) = fetch_payload env msg.payload_mode msg.payload_inline msg.s3_key w in
        let fetched = registered-fetch_payload msg.payload_mode msg.payload_inline msg.s3_key w in
        elim (Result-cases payload) [
          | inr (y, unfetched) ↦ ground arith
          | inl (bytes, got) ↦
              let w2 = (check_payload env msg bytes w1).1 in
              let same = check_payload_frame env msg bytes w1 in
              elim (Result-cases (check_payload env msg bytes w1).0) [
                | inr (y, bad) ↦ ground arith
                | inl (e, good) ↦ ground (arith, registered-persist msg e w2)
              ]
        ]

    registered-process :
        (msg : QueueMessage) (w : World) → registered (process env p msg w).1 ≡ registered w
    unfolding process
    registered-process msg w =
        let (c, w1) = check_and_mark env msg.event_id w in
        let frame = check_and_mark_frame env msg.event_id w in
        elim (Result-cases c) [
          | inr (x, failed) ↦ ground (arith, processed_total_registered "failure")
          | inl (already, claimed) ↦ elim (Bool-cases already) [
            | inl skip ↦ ground arith
            | inr mine ↦ ground (arith, registered-work msg w1)
          ]
        ]

    registered-fail_permanent :
        (id reason : String) (w : World)
        → registered (fail_permanent env id reason w).1 ≡ registered w
    unfolding fail_permanent mark_failed write
    registered-fail_permanent id reason w = ground (arith, processed_total_registered "failure")

    -- Every sample of the processor reaches a vector that is registered, with the labels that it
    -- was registered with.
    pub registered-process_message :
        (msg : QueueMessage) (w : World) → registered (process_message env p msg w).1 ≡ registered w
    unfolding process_message
    registered-process_message msg w =
        let (r, w1) = process env p msg w in
        let counts = registered-process msg w in
        elim (Option-cases r) [
          | inl finished ↦ ground arith
          | inr (e, stopped) ↦
              ground (arith, registered-fail_permanent msg.event_id (error_text e) w1)
        ]
