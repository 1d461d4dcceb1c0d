-- ===== src/System/Defs.antt =====
-- The steps that the services of docker-compose.yml can take on the shared world and the queue
-- `events`, and the states that they reach.
use fluxa.Base.{ℕ, ◌+◌, String, Bool, Option, List, [], ◌∷◌, ◌++◌, ◌≡◌, if◌then◌else◌}
use fluxa.World.{Env, World, Published}
use fluxa.Processor.{Processor}
use fluxa.Consumer.{acked, nacked, consume_event, consume_alert}
use fluxa.Ingest.{Request, handle_ingest}
use fluxa.FraudEval.{Server, EvaluateRequest, ContextError, evaluate_transaction}
use fluxa.Query.{handle_get_event}

-- The bodies that wait in the queue `events`, in any order.
pub record State : Type 0 where
  pub world : World
  pub queue : List String

module _ (env : Env) (p : Processor) (s : Server) (routed : Published → Bool) where
  -- The bodies that the broker puts into the queue `events`.
  abbrev pub bodies : List Published → List String
  bodies [] = []
  bodies (m ∷ ms) = if routed m then m.body ∷ bodies ms else bodies ms

  -- One request or delivery is handled from its start to its end; what other processors do in the
  -- middle of a claim is in `env`. A body that is not acknowledged stays in the queue.
  pub data Step (t : State) : State → Type 0 where
    ingest :
        (r : Request) (new : List Published)
        → (handle_ingest env r t.world).1.published ≡ new ++ t.world.published
        → Step t (record { world = (handle_ingest env r t.world).1; queue = bodies new ++ t.queue })
    settle :
        (body : String) (front back : List String)
        → t.queue ≡ front ++ (body ∷ back)
        → (consume_event env p body t.world).0 ≡ acked
        → Step t (record { world = (consume_event env p body t.world).1; queue = front ++ back })
    requeue :
        (body : String) (front back : List String)
        → t.queue ≡ front ++ (body ∷ back)
        → (consume_event env p body t.world).0 ≡ nacked
        → Step t (record { world = (consume_event env p body t.world).1; queue = t.queue })
    evaluate :
        (r : EvaluateRequest) (context : Option ContextError)
        → Step t
            (record { world = (evaluate_transaction env s r context t.world).1; queue = t.queue })
    look :
        (method path : String)
        → Step t (record { world = (handle_get_event env method path t.world).1; queue = t.queue })
    alert :
        (body : String)
        → Step t (record { world = (consume_alert env body t.world).1; queue = t.queue })
    pass :
        (n : ℕ)
        → Step t (record { world = record t.world { tick = t.world.tick + n }; queue = t.queue })

  pub data Reach (t : State) : State → Type 0 where
    here : Reach t t
    later : {u v : State} → Reach t u → Step u v → Reach t v
