-- ===== src/System/Sound.antt =====
-- What holds in every state that the services reach.
use fluxa.Base.{◌≤◌, String, Bool, true, ◌≡◌, refl, ◌∙◌, inl, inr, arith, count_rows}
use fluxa.Domain.{Result-cases}
use fluxa.World.{Env, World, Published, event_key}
use fluxa.Idempotency.Succeeded.{IsHonest}
use fluxa.Store.{has_event}
use fluxa.Processor.{Processor}
use fluxa.Processor.Steps.{IsSameTables}
use fluxa.Processor.Backed.{IsBacked, process_message-IsBacked, process_message_has}
use fluxa.Consumer.{consume_event}
use fluxa.Consumer.Settle.{consume_event_once}
use fluxa.FraudEval.{Server}
use fluxa.Metrics.Pipeline.{registered}
use fluxa.Metrics.Servers.{
  registered-handle_ingest, registered-evaluate_transaction, registered-handle_get_event,
  registered-consume_event, registered-consume_alert,
}
use fluxa.System.Frames.{
  handle_ingest_tables, handle_get_event_tables, consume_alert_tables, evaluate_transaction-IsGrown,
}
use fluxa.System.Defs.{
  State, Step, ingest, settle, requeue, evaluate, look, alert, pass, Reach, here, later,
}

-- No id has two rows, and every key that says success has its event.
pub record IsSound (w : World) : Type 0 where
  pub once : (id : String) → count_rows event_key id w.events ≤ 1
  pub backed : IsBacked w

pub IsSound-same : {w w' : World} → IsSameTables w w' → IsSound w → IsSound w'
IsSound-same (events, keys) sound = record {
  once = λ id. ground (arith, sound.once id);
  backed = λ id h. ground (arith, sound.backed id);
}

module _ (env : Env) (p : Processor) where
  pub consume_event_has :
      (body id : String) (w : World)
      → has_event id w ≡ true
      → has_event id (consume_event env p body w).1 ≡ true
  unfolding consume_event
  consume_event_has body id w h = elim (Result-cases (env.codec.parse_message body)) [
    | inr (x, broken) ↦ ground arith
    | inl (msg, parsed) ↦ ground (arith, process_message_has env p msg id w)
  ]

  consume_event-IsBacked :
      (body : String) (w : World)
      → IsHonest env
      → IsBacked w
      → IsBacked (consume_event env p body w).1
  unfolding consume_event
  consume_event-IsBacked body w honest backed id h =
      elim (Result-cases (env.codec.parse_message body)) [
        | inr (x, broken) ↦ ground (arith, backed id)
        | inl (msg, parsed) ↦ ground (arith, process_message-IsBacked env p msg w honest backed id)
      ]

  consume_event-IsSound :
      (body : String) (w : World)
      → IsHonest env
      → IsSound w
      → IsSound (consume_event env p body w).1
  consume_event-IsSound body w honest sound = record {
    once = λ id. consume_event_once env p id body w (sound.once id);
    backed = consume_event-IsBacked body w honest sound.backed;
  }

  module _ (s : Server) (routed : Published → Bool) where
    pub Step-IsSound :
        {t u : State} → IsHonest env → Step env p s routed t u → IsSound t.world → IsSound u.world
    Step-IsSound {t} honest (ingest r new grown) sound =
        IsSound-same (handle_ingest_tables env r t.world) sound
    Step-IsSound {t} honest (settle body front back waits acks) sound =
        consume_event-IsSound body t.world honest sound
    Step-IsSound {t} honest (requeue body front back waits nacks) sound =
        consume_event-IsSound body t.world honest sound
    Step-IsSound {t} honest (evaluate r context) sound =
        let (keys, has, once) = evaluate_transaction-IsGrown env s r context t.world in
        record {
          once = λ id. once id (sound.once id);
          backed = λ id h. has id (sound.backed id (ground arith));
        }
    Step-IsSound {t} honest (look method path) sound =
        IsSound-same (handle_get_event_tables env method path t.world) sound
    Step-IsSound {t} honest (alert body) sound =
        IsSound-same (consume_alert_tables env body t.world) sound
    Step-IsSound {t} honest (pass n) sound = record { once = sound.once; backed = sound.backed }

    -- However requests, deliveries and redeliveries follow one another, and whatever fails: no id
    -- ever has two events, and a key says success only if its event is stored, as long as this was
    -- so at the start and no processor marks an event as processed in the middle of another's
    -- claim.
    pub Reach-IsSound :
        {t u : State} → IsHonest env → IsSound t.world → Reach env p s routed t u → IsSound u.world
    Reach-IsSound honest sound here = sound
    Reach-IsSound honest sound (later r st) = Step-IsSound honest st (Reach-IsSound honest sound r)

    Step_registered :
        {t u : State} (service : String)
        → Step env p s routed t u
        → registered service u.world ≡ registered service t.world
    Step_registered {t} service (ingest r new grown) =
        registered-handle_ingest service env r t.world
    Step_registered {t} service (settle body front back waits acks) =
        registered-consume_event service env p body t.world
    Step_registered {t} service (requeue body front back waits nacks) =
        registered-consume_event service env p body t.world
    Step_registered {t} service (evaluate r context) =
        registered-evaluate_transaction service env s r context t.world
    Step_registered {t} service (look method path) =
        registered-handle_get_event service env method path t.world
    Step_registered {t} service (alert body) = registered-consume_alert service env body t.world
    Step_registered service (pass n) = refl

    -- No step of any service adds a sample that is dropped for its name or refused for its labels:
    -- as long as this was so at the start, each sample of every state that is reached gets to a
    -- vector that `NewMetrics` registers, with the very labels that it was registered with.
    pub Reach_registered :
        {t u : State} (service : String)
        → Reach env p s routed t u
        → registered service t.world ≡ true
        → registered service u.world ≡ true
    Reach_registered service here h = h
    Reach_registered service (later r st) h =
        Step_registered service st ∙ Reach_registered service r h
