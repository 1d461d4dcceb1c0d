-- ===== src/System/Grounded.antt =====
-- Flags and alerts in the states that the services reach.
use fluxa.Base.{
  String, ◌==◌, Bool, Option, none, List, [], ◌∷◌, ◌≡◌, refl, inl, inr, arith, Bool-cases,
  Option-cases,
}
use fluxa.Domain.{Float64, Result-cases, Event, FraudFlag, validate, inline}
use fluxa.World.{Env, World, Published, next}
use fluxa.Store.{insert_event, insert_fraud_flag}
use fluxa.Engine.{store_querier, evaluate_with_scorer}
use fluxa.Engine.Frame.{evaluate_with_scorer_frame}
use fluxa.Processor.{Processor, process_message}
use fluxa.Processor.Grounded.{
  IsGrounded, IsGrounded-same, IsGrounded-aside, insert_fraud_flag-IsGrounded,
  insert_event-IsGrounded,
}
use fluxa.Processor.Alerts.{process_message-IsGrounded}
use fluxa.Consumer.{consume_event, consume_alert}
use fluxa.Ingest.{Request, handle_ingest}
use fluxa.Ingest.Published.{handle_ingest-IsAside}
use fluxa.System.Frames.{handle_ingest_tables}
use fluxa.Query.Reads.{handle_get_event_frame}
use fluxa.FraudEval.{
  Server, EvaluateRequest, ContextError, proto_to_event, store_flag, store_flags, evaluate_stored,
  evaluate_event, evaluate_transaction,
}
use fluxa.System.Defs.{
  State, Step, ingest, settle, requeue, evaluate, look, alert, pass, Reach, here, later,
}

module _ (env : Env) where
  consume_event-IsGrounded :
      (p : Processor) (body : String) (w : World)
      → IsGrounded env w
      → IsGrounded env (consume_event env p body w).1
  unfolding consume_event
  consume_event-IsGrounded p body w g = elim (Result-cases (env.codec.parse_message body)) [
    | inr (x, broken) ↦ IsGrounded-same env (ground arith) (ground arith) (ground arith) g
    | inl (msg, parses) ↦
        let same : (consume_event env p body w).1 ≡ (process_message env p msg w).1 =
          ground arith in
        rw same (process_message-IsGrounded env p msg w g)
  ]

  store_flags-IsGrounded :
      (score : Float64) (fs : List FraudFlag) (w : World)
      → IsGrounded env w
      → IsGrounded env (store_flags env score fs w).1
  unfolding store_flags store_flag
  store_flags-IsGrounded score [] w g = g
  store_flags-IsGrounded score (f ∷ fs) w g =
      let scored : FraudFlag = record f { ml_score = score } in
      store_flags-IsGrounded score fs (store_flag env score f w).1 (
        IsGrounded-same env {w = (insert_fraud_flag env scored w).1} (ground arith) (ground arith)
          (ground arith) (insert_fraud_flag-IsGrounded env scored w g))

  evaluate_stored-IsGrounded :
      (s : Server) (e : Event) (w : World)
      → IsGrounded env w
      → IsGrounded env (evaluate_stored env s e w).1
  unfolding evaluate_stored
  evaluate_stored-IsGrounded s e w g =
      let ((fs, score, model), w1) =
        evaluate_with_scorer env s.engine e (store_querier env) s.scorer w in
      let (events, _, flags, _, published, _) =
        evaluate_with_scorer_frame env s.engine e s.scorer w in
      IsGrounded-same env refl refl refl
        (store_flags-IsGrounded score fs w1 (IsGrounded-same env events flags published g))

  evaluate_event-IsGrounded :
      (s : Server) (e : Event) (context : Option ContextError) (w : World)
      → IsGrounded env w
      → IsGrounded env (evaluate_event env s e context w).1
  unfolding evaluate_event
  evaluate_event-IsGrounded s e context w g =
      let (failure, w1) = insert_event env e e.event_id inline none (next w) in
      let looked : IsGrounded env (next w) = IsGrounded-same env refl refl refl g in
      let stored : IsGrounded env w1 =
        insert_event-IsGrounded env e e.event_id inline none (next w) looked in
      elim (Option-cases (validate (env.now w.tick) e)) [
        | inr (x, bad) ↦ IsGrounded-same env (ground arith) (ground arith) (ground arith) g
        | inl valid ↦ elim (Option-cases context) [
          | inr (c, over) ↦ IsGrounded-same env (ground arith) (ground arith) (ground arith) g
          | inl runs ↦ elim (Option-cases failure) [
            | inr (x, failed) ↦
                IsGrounded-same env (ground arith) (ground arith) (ground arith) stored
            | inl inserted ↦
                let same : (evaluate_event env s e context w).1 ≡ (evaluate_stored env s e w1).1 =
                  ground arith in
                rw same (evaluate_stored-IsGrounded s e w1 stored)
          ]
        ]
      ]

  evaluate_transaction-IsGrounded :
      (s : Server) (r : EvaluateRequest) (context : Option ContextError) (w : World)
      → IsGrounded env w
      → IsGrounded env (evaluate_transaction env s r context w).1
  unfolding evaluate_transaction
  evaluate_transaction-IsGrounded s r context w g = elim (Bool-cases (r.event_id == "")) [
    | inl empty ↦ IsGrounded-same env (ground arith) (ground arith) (ground arith) g
    | inr named ↦ elim (Option-cases r.transaction_time) [
      | inl untimed ↦ IsGrounded-same env (ground arith) (ground arith) (ground arith) g
      | inr (time, timed) ↦
          let e = proto_to_event r time in
          let same : (evaluate_transaction env s r context w).1
              ≡ (evaluate_event env s e context (next w)).1 =
            ground arith in
          rw same
            (evaluate_event-IsGrounded s e context (next w) (IsGrounded-same env refl refl refl g))
    ]
  ]

  handle_ingest-IsGrounded :
      (r : Request) (w : World) → IsGrounded env w → IsGrounded env (handle_ingest env r w).1
  handle_ingest-IsGrounded r w g =
      let (events, _) = handle_ingest_tables env r w in
      let (flags, published) = handle_ingest-IsAside env r w in
      elim published [
        | inl same ↦ IsGrounded-same env events flags same g
        | inr (m, aside, added) ↦ IsGrounded-aside env m events flags added (rw aside refl) g
      ]

  consume_alert-IsGrounded :
      (body : String) (w : World) → IsGrounded env w → IsGrounded env (consume_alert env body w).1
  unfolding consume_alert
  consume_alert-IsGrounded body w g =
      IsGrounded-same env (ground arith) (ground arith) (ground arith) g

  module _ (p : Processor) (s : Server) (routed : Published → Bool) where
    Step-IsGrounded :
        {t u : State} → Step env p s routed t u → IsGrounded env t.world → IsGrounded env u.world
    Step-IsGrounded {t} (ingest r new grown) g = handle_ingest-IsGrounded r t.world g
    Step-IsGrounded {t} (settle body front back waits acks) g =
        consume_event-IsGrounded p body t.world g
    Step-IsGrounded {t} (requeue body front back waits nacks) g =
        consume_event-IsGrounded p body t.world g
    Step-IsGrounded {t} (evaluate r context) g =
        evaluate_transaction-IsGrounded s r context t.world g
    Step-IsGrounded {t} (look method path) g =
        let (events, _, flags, _, published) = handle_get_event_frame env method path t.world in
        IsGrounded-same env events flags published g
    Step-IsGrounded {t} (alert body) g = consume_alert-IsGrounded body t.world g
    Step-IsGrounded (pass n) g = IsGrounded-same env refl refl refl g

    -- In every state that the services reach, each stored flag belongs to an event that is stored,
    -- and each message at the exchange `alerts` is the alert of a flag whose id and whose event are
    -- stored, if that was so at the start.
    pub Reach-IsGrounded :
        {t u : State} → Reach env p s routed t u → IsGrounded env t.world → IsGrounded env u.world
    Reach-IsGrounded here g = g
    Reach-IsGrounded (later r st) g = Step-IsGrounded st (Reach-IsGrounded r g)
