-- ===== src/System/Accepted.antt =====
-- What becomes of an event that the ingest service has accepted.
use fluxa.Base.{◌+◌, String, Bool, true, some, List, [], ◌∷◌, ◌≡◌, ◌⊎◌}
use fluxa.Domain.{GoError, ok, is_non_retryable, QueueMessage, IdempotencyKeyRecord}
use fluxa.World.{Env, World, Published}
use fluxa.Idempotency.{check_and_mark, is_active, find_key}
use fluxa.Store.{has_event}
use fluxa.Processor.{Processor, process}
use fluxa.Consumer.{acked, consume_event}
use fluxa.FraudEval.{Server}
use fluxa.System.Defs.{State, Reach}

-- The body waits in the queue.
abbrev pub Waits : String → List String → Type 0
Waits body [] = ⊥
Waits body (x ∷ xs) = (x ≡ body) ⊎ Waits body xs

module _ (env : Env) (p : Processor) (s : Server) (routed : Published → Bool) (start : State)
    (body : String) (msg : QueueMessage) where
  -- A delivery of the message, in a state of the run in which it waits, that is acknowledged.
  pub record IsRemoved (t : State) : Type 0 where
    pub reached : Reach env p s routed start t
    pub waits : Waits body t.queue
    pub acks : (consume_event env p body t.world).0 ≡ acked

  -- The two ways in which a delivery of the run removes the message without its event being stored:
  -- the claim is refused for a key that is in work, or the work stops with a permanent error.
  pub data IsExcused : Type 0 where
    in_work :
        (t : State) (w' : World) (r : IdempotencyKeyRecord)
        → IsRemoved t
        → check_and_mark env msg.event_id t.world ≡ (ok true, w')
        → find_key msg.event_id w' ≡ some r
        → is_active (env.now (t.world.tick + 1)) r ≡ true
        → IsExcused
    permanent :
        (t : State) (e : GoError)
        → IsRemoved t
        → (process env p msg t.world).0 ≡ some e
        → is_non_retryable e ≡ true
        → IsExcused

  -- The message waits, its event is stored, or it was removed in one of these ways.
  abbrev pub IsKept : State → Type 0
  IsKept t = Waits body t.queue ⊎ ((has_event msg.event_id t.world ≡ true) ⊎ IsExcused)
