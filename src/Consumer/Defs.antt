-- ===== src/Consumer/Defs.antt =====
-- The consume loops of the processor and of the alert consumer. Log lines and the set-up before
-- the loops are left out; Ack and Nack are the settlement of a delivery.
use fluxa.Base.{String, List, [], ◌∷◌}
use fluxa.World.{Env, World, M, pure, ◌>>=◌, ◌>>◌, on_error, on_result, inc_counter}
use fluxa.Processor.{Processor, process_message}

-- `d.Ack()` and `d.Nack(true)`.
pub data Settlement : Type 0 where
  acked : Settlement
  nacked : Settlement

-- What the other services do before the delivery comes, and its body.
pub record Delivery : Type 0 where
  pub before : World → World
  pub body : String

module _ (env : Env) where
  -- The body of the processor's loop. A body that does not parse is discarded.
  unfoldable pub consume_event : Processor → String → M Settlement
  consume_event p body =
      on_result (env.codec.parse_message body) (λ _. pure acked)
        (λ msg. do
          failure ← process_message env p msg
          on_error failure (λ _. pure nacked) (pure acked))

  -- The body of the alert consumer's loop.
  unfoldable pub consume_alert : String → M Settlement
  consume_alert body =
      on_result (env.codec.parse_alert body) (λ _. pure acked)
        (λ _. do inc_counter "alerts_consumed_total" []; pure acked)

-- `for d := range deliveries`: how each delivery was settled, in order.
unfoldable pub consume : (String → M Settlement) → List Delivery → M (List (String × Settlement))
consume handle [] w = ([], w)
consume handle (d ∷ ds) w =
    let (s, w1) = handle d.body (d.before w) in
    let (more, w2) = consume handle ds w1 in ((d.body, s) ∷ more, w2)
