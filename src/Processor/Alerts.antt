-- ===== src/Processor/Alerts.antt =====
-- The alerts that the processor publishes.
use fluxa.Base.{
  String, Bool, none, List, [], ◌∷◌, ◌≡◌, refl, ◌⊎◌, inl, inr, arith, Bool-cases, Option-cases,
}
use fluxa.Domain.{
  is_non_retryable, Float64, Result-cases, ok, Event, FraudFlag, alert_message, QueueMessage,
  error_text,
}
use fluxa.World.{Env, World, write}
use fluxa.Idempotency.{check_and_mark, mark_failed}
use fluxa.Idempotency.Frame.{check_and_mark_frame, mark_success_frame}
use fluxa.Store.{insert_event, insert_fraud_flag}
use fluxa.Store.Flags.{insert_fraud_flag_stores}
use fluxa.Ports.{publish}
use fluxa.Engine.{store_querier, evaluate_with_scorer}
use fluxa.Engine.Frame.{evaluate_with_scorer_frame}
use fluxa.Processor.Defs.{
  Processor, stored_key, observe_process, fetch_payload, check_payload, raise_one, raise_flags,
  evaluate_fraud, finish, persist, work, process, fail_permanent, process_message,
}
use fluxa.Processor.Steps.{fetch_payload_frame, check_payload_frame}
use fluxa.Processor.Grounded.{
  IsGrounded, Keeps, IsGrounded-same, IsGrounded-Keeps, flags-Keeps, alerts-Keeps,
  insert_fraud_flag-IsGrounded, insert_event-IsGrounded,
}

module _ (env : Env) where
  -- An alert is published only for a flag whose INSERT was confirmed.
  raise_one-cases :
      (pubs : Bool) (score : Float64) (f : FraudFlag) (w : World)
      → let scored : FraudFlag = record f { ml_score = score } in
        let (failure, w1) = insert_fraud_flag env scored w in
        let w2 = (raise_one env pubs score f w).1 in
        (w2.events ≡ w1.events)
        × (w2.flags ≡ w1.flags)
        × ((w2.published ≡ w1.published)
            ⊎ ((body : String) × (failure ≡ none)
                × (env.codec.print_alert (alert_message scored) ≡ ok body)
                × (w2.published
                    ≡ record { exchange = "alerts"; routing_key = ""; body = body }
                      ∷ w1.published)))
  unfolding raise_one publish write
  raise_one-cases pubs score f w =
      let scored : FraudFlag = record f { ml_score = score } in
      elim (Option-cases (insert_fraud_flag env scored w).0) [
        | inr (e, refused) ↦ (ground arith, ground arith, inl (ground arith))
        | inl inserted ↦ elim (Result-cases (env.codec.print_alert (alert_message scored))) [
          | inr (e, unprintable) ↦ (ground arith, ground arith, inl (ground arith))
          | inl (body, printed) ↦ ground arith
        ]
      ]

  raise_one-IsGrounded :
      (pubs : Bool) (score : Float64) (f : FraudFlag) (w : World)
      → IsGrounded env w
      → IsGrounded env (raise_one env pubs score f w).1
  raise_one-IsGrounded pubs score f w g =
      let scored : FraudFlag = record f { ml_score = score } in
      let w1 = (insert_fraud_flag env scored w).1 in
      let w2 = (raise_one env pubs score f w).1 in
      let (events, flags, published) = raise_one-cases pubs score f w in
      let stored : IsGrounded env w1 = insert_fraud_flag-IsGrounded env scored w g in
      let keeps : Keeps w1 w2 = record {
        events = λ id h. ground arith;
        flags = λ id h. ground arith;
      } in
      elim published [
        | inl same ↦ IsGrounded-Keeps env flags same keeps stored
        | inr (body, inserted, printed, added) ↦
            let (event, flag) = insert_fraud_flag_stores env scored w inserted in
            record {
              flags = rw flags (flags-Keeps env w1.flags keeps stored.flags);
              alerts = rw added (
                inr (scored, printed, keeps.events f.event_id event, keeps.flags f.flag_id flag),
                alerts-Keeps env w1.published keeps stored.alerts,
              );
            }
      ]

  raise_flags-IsGrounded :
      (pubs : Bool) (score : Float64) (fs : List FraudFlag) (w : World)
      → IsGrounded env w
      → IsGrounded env (raise_flags env pubs score fs w).1
  unfolding raise_flags
  raise_flags-IsGrounded pubs score [] w g = g
  raise_flags-IsGrounded pubs score (f ∷ fs) w g =
      raise_flags-IsGrounded pubs score fs (raise_one env pubs score f w).1
        (raise_one-IsGrounded pubs score f w g)

  evaluate_fraud-IsGrounded :
      (p : Processor) (e : Event) (w : World)
      → IsGrounded env w
      → IsGrounded env (evaluate_fraud env p e w).1
  unfolding evaluate_fraud
  evaluate_fraud-IsGrounded p e w g = elim (Option-cases p.fraud) [
    | inl absent ↦ rw absent g
    | inr (engine, present) ↦
        let ((fs, score, version), w1) =
          evaluate_with_scorer env engine e (store_querier env) p.scorer w in
        let (events, _, flags, _, published, _) =
          evaluate_with_scorer_frame env engine e p.scorer w in
        rw present (
          raise_flags-IsGrounded p.has_publisher score fs w1
            (IsGrounded-same env events flags published g))
  ]

  finish-IsGrounded :
      (p : Processor) (msg : QueueMessage) (e : Event) (w : World)
      → IsGrounded env w
      → IsGrounded env (finish env p msg e w).1
  unfolding finish
  finish-IsGrounded p msg e w g =
      let w1 = (observe_process w).1 in
      let w2 = (evaluate_fraud env p e w1).1 in
      let (events, flags, _, published, _) = mark_success_frame env msg.event_id w2 in
      IsGrounded-same env events flags published
        (evaluate_fraud-IsGrounded p e w1 (IsGrounded-same env refl refl refl g))

  persist-IsGrounded :
      (p : Processor) (msg : QueueMessage) (e : Event) (w : World)
      → IsGrounded env w
      → IsGrounded env (persist env p msg e w).1
  unfolding persist
  persist-IsGrounded p msg e w g =
      let key = stored_key msg.payload_mode msg.s3_key in
      let (failure, w1) = insert_event env e msg.correlation_id msg.payload_mode key w in
      let stored = insert_event-IsGrounded env e msg.correlation_id msg.payload_mode key w g in
      elim (Option-cases failure) [
        | inr (x, failed) ↦ IsGrounded-same env (ground arith) (ground arith) (ground arith) stored
        | inl inserted ↦
            let is : (persist env p msg e w).1 ≡ (finish env p msg e w1).1 = ground arith in
            rw is (finish-IsGrounded p msg e w1 stored)
      ]

  work-IsGrounded :
      (p : Processor) (msg : QueueMessage) (w : World)
      → IsGrounded env w
      → IsGrounded env (work env p msg w).1
  unfolding work
  work-IsGrounded p msg w g =
      let (payload, w1) = fetch_payload env msg.payload_mode msg.payload_inline msg.s3_key w in
      let ((events, _), flags, published) =
        fetch_payload_frame env msg.payload_mode msg.payload_inline msg.s3_key w in
      let fetched : IsGrounded env w1 = IsGrounded-same env events flags published g in
      elim (Result-cases payload) [
        | inr (x, failed) ↦ IsGrounded-same env (ground arith) (ground arith) (ground arith) fetched
        | inl (bytes, got) ↦
            let (event, w2) = check_payload env msg bytes w1 in
            let is = check_payload_frame env msg bytes w1 in
            let checked : IsGrounded env w2 =
              IsGrounded-same env (ground arith) (ground arith) (ground arith) fetched in
            elim (Result-cases event) [
              | inr (x, bad) ↦
                  IsGrounded-same env (ground arith) (ground arith) (ground arith) checked
              | inl (e, good) ↦
                  let same : (work env p msg w).1 ≡ (persist env p msg e w2).1 = ground arith in
                  rw same (persist-IsGrounded p msg e w2 checked)
            ]
      ]

  process-IsGrounded :
      (p : Processor) (msg : QueueMessage) (w : World)
      → IsGrounded env w
      → IsGrounded env (process env p msg w).1
  unfolding process
  process-IsGrounded p msg w g =
      let (claim, w1) = check_and_mark env msg.event_id w in
      let (events, flags, _, published, _) = check_and_mark_frame env msg.event_id w in
      let claimed : IsGrounded env w1 = IsGrounded-same env events flags published g in
      elim (Result-cases claim) [
        | inr (x, failed) ↦ IsGrounded-same env (ground arith) (ground arith) (ground arith) claimed
        | inl (already, answered) ↦ elim (Bool-cases already) [
          | inl skip ↦ IsGrounded-same env (ground arith) (ground arith) (ground arith) claimed
          | inr mine ↦
              let same : (process env p msg w).1 ≡ (work env p msg w1).1 = ground arith in
              rw same (work-IsGrounded p msg w1 claimed)
        ]
      ]

  fail_permanent-IsGrounded :
      (id reason : String) (w : World)
      → IsGrounded env w
      → IsGrounded env (fail_permanent env id reason w).1
  unfolding fail_permanent mark_failed write
  fail_permanent-IsGrounded id reason w g =
      IsGrounded-same env (ground arith) (ground arith) (ground arith) g

  pub process_message-IsGrounded :
      (p : Processor) (msg : QueueMessage) (w : World)
      → IsGrounded env w
      → IsGrounded env (process_message env p msg w).1
  unfolding process_message
  process_message-IsGrounded p msg w g =
      let (failure, w1) = process env p msg w in
      let done = process-IsGrounded p msg w g in
      elim (Option-cases failure) [
        | inl finished ↦ IsGrounded-same env (ground arith) (ground arith) (ground arith) done
        | inr (e, stopped) ↦ elim (Bool-cases (is_non_retryable e)) [
          | inr transient ↦ IsGrounded-same env (ground arith) (ground arith) (ground arith) done
          | inl permanent ↦
              let w2 = (fail_permanent env msg.event_id (error_text e) w1).1 in
              let same : (process_message env p msg w).1 ≡ w2 = ground arith in
              rw same (fail_permanent-IsGrounded msg.event_id (error_text e) w1 done)
        ]
      ]
