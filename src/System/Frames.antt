-- ===== src/System/Frames.antt =====
-- What the handlers of the services leave alone in the tables.
use fluxa.Base.{
  ◌==◌, ◌≤◌, String, true, Option, none, List, [], ◌∷◌, ◌≡◌, refl, inl, inr, arith, Bool-cases,
  Option-cases, count_rows,
}
use fluxa.Domain.{
  Result-cases, validate, Float64, Event, QueueMessage, FraudFlag, PayloadMode, inline,
}
use fluxa.World.{Env, World, next, event_key, read, write}
use fluxa.Store.{find_event, has_event, insert_event, insert_fraud_flag, get_event_by_id}
use fluxa.Store.Events.{insert_event_frame, insert_event_keeps, insert_event_once}
use fluxa.Engine.{store_querier, evaluate_with_scorer}
use fluxa.Engine.Frame.{evaluate_with_scorer_frame}
use fluxa.Ports.{storage_put, publish}
use fluxa.Ingest.{or_uuid, Request, make_message, enqueue, ingest_event, handle_ingest}
use fluxa.FraudEval.{
  Server, EvaluateRequest, ContextError, proto_to_event, store_flag, store_flags, evaluate_stored,
  evaluate_event, evaluate_transaction,
}
use fluxa.Query.{handle_get_event}
use fluxa.Consumer.{consume_alert}
use fluxa.Processor.Steps.{IsSameTables}

module _ (env : Env) where
  make_message_tables :
      (e : Event) (correlation bytes : String) (w : World)
      → IsSameTables w (make_message env e correlation bytes w).1
  unfolding make_message storage_put write
  make_message_tables e correlation bytes w = ground arith

  enqueue_tables :
      (e : Event) (correlation : String) (msg : QueueMessage) (w : World)
      → IsSameTables w (enqueue env e correlation msg w).1
  unfolding enqueue publish write
  enqueue_tables e correlation msg w = ground arith

  ingest_event_tables :
      (e : Event) (correlation : String) (w : World)
      → IsSameTables w (ingest_event env e correlation w).1
  unfolding ingest_event
  ingest_event_tables e correlation w =
      let (named, w1) = or_uuid env e.event_id w in
      let event : Event = record e { event_id = named } in
      elim (Option-cases (validate (env.now w1.tick) event)) [
        | inr (x, bad) ↦ ground arith
        | inl valid ↦ elim (Result-cases (env.codec.print_event event)) [
          | inr (x, unprintable) ↦ ground arith
          | inl (bytes, printed) ↦
              let (made, w2) = make_message env event correlation bytes (next w1) in
              let before = make_message_tables event correlation bytes (next w1) in
              elim (Result-cases made) [
                | inr (x, failed) ↦ ground arith
                | inl (msg, ready) ↦ ground (arith, enqueue_tables event correlation msg w2)
              ]
        ]
      ]

  -- Accepting an event stores nothing in the tables.
  pub handle_ingest_tables : (r : Request) (w : World) → IsSameTables w (handle_ingest env r w).1
  unfolding handle_ingest
  handle_ingest_tables r w =
      let (correlation, w1) = or_uuid env r.correlation_id (next w) in
      elim (Result-cases (env.codec.decode_event r.body)) [
        | inr (x, broken) ↦ ground arith
        | inl (e, decoded) ↦ ground (arith, ingest_event_tables e correlation w1)
      ]

  pub handle_get_event_tables :
      (method path : String) (w : World) → IsSameTables w (handle_get_event env method path w).1
  unfolding handle_get_event get_event_by_id read
  handle_get_event_tables method path w = ground arith

  pub consume_alert_tables :
      (body : String) (w : World) → IsSameTables w (consume_alert env body w).1
  unfolding consume_alert
  consume_alert_tables body w = ground arith

  store_flags_tables :
      (score : Float64) (fs : List FraudFlag) (w : World)
      → IsSameTables w (store_flags env score fs w).1
  unfolding store_flags store_flag insert_fraud_flag write
  store_flags_tables score [] w = (refl, refl)
  store_flags_tables score (f ∷ fs) w =
      ground (arith, store_flags_tables score fs (store_flag env score f w).1)

  pub evaluate_stored_tables :
      (s : Server) (e : Event) (w : World) → IsSameTables w (evaluate_stored env s e w).1
  unfolding evaluate_stored
  evaluate_stored_tables s e w =
      let ((fs, score, model), w1) =
        evaluate_with_scorer env s.engine e (store_querier env) s.scorer w in
      ground (
        arith,
        evaluate_with_scorer_frame env s.engine e s.scorer w,
        store_flags_tables score fs w1,
      )

  -- An evaluation writes no key, loses no event and gives no id a second row.
  abbrev pub IsGrown : World → World → Type 0
  IsGrown w w' =
      (w'.keys ≡ w.keys)
      × ((id : String) → has_event id w ≡ true → has_event id w' ≡ true)
      × ((id : String)
          → count_rows event_key id w.events ≤ 1
          → count_rows event_key id w'.events ≤ 1)

  insert_event-IsGrown :
      (e : Event) (correlation : String) (mode : PayloadMode) (key : Option String) (w : World)
      → IsGrown w (insert_event env e correlation mode key w).1
  insert_event-IsGrown e correlation mode key w = (
    (insert_event_frame env e correlation mode key w).0,
    λ id h. elim (Option-cases (find_event id w)) [
      | inl absent ↦ absurd (ground arith)
      | inr (old, found) ↦
          ground (arith, insert_event_keeps env e correlation mode key id old w found)
    ],
    λ id h. insert_event_once env e correlation mode key id w h,
  )

  evaluate_event-IsGrown :
      (s : Server) (e : Event) (context : Option ContextError) (w : World)
      → IsGrown w (evaluate_event env s e context w).1
  unfolding evaluate_event
  evaluate_event-IsGrown s e context w =
      let w1 = (insert_event env e e.event_id inline none (next w)).1 in
      let (keys, has, once) = insert_event-IsGrown e e.event_id inline none (next w) in
      let after = evaluate_stored_tables s e w1 in
      (ground arith, λ id h. ground (arith, has id), λ id h. ground (arith, once id))

  pub evaluate_transaction-IsGrown :
      (s : Server) (r : EvaluateRequest) (context : Option ContextError) (w : World)
      → IsGrown w (evaluate_transaction env s r context w).1
  unfolding evaluate_transaction
  evaluate_transaction-IsGrown s r context w = elim (Bool-cases (r.event_id == "")) [
    | inl empty ↦ (ground arith, λ id h. ground arith, λ id h. ground arith)
    | inr named ↦ elim (Option-cases r.transaction_time) [
      | inl untimed ↦ (ground arith, λ id h. ground arith, λ id h. ground arith)
      | inr (time, timed) ↦
          let (keys, has, once) =
            evaluate_event-IsGrown s (proto_to_event r time) context (next w) in
          (ground arith, λ id h. ground (arith, has id), λ id h. ground (arith, once id))
    ]
  ]
