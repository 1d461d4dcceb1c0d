-- ===== src/Consumer/Settle.antt =====
-- How deliveries are settled.
use fluxa.Base.{
  ◌≤◌, String, false, some, List, [], ◌∷◌, ◌≡◌, ◌↔◌, ◌⊎◌, none, refl, inl, inr, arith, All,
  Bool-cases, Option-cases, count_rows,
}
use fluxa.Domain.{GoError, is_non_retryable, error_text, Result-cases, ok, QueueMessage}
use fluxa.World.{Env, World, event_key}
use fluxa.Processor.{Processor, process, process_message}
use fluxa.Processor.Steps.{fail_permanent_frame}
use fluxa.Processor.Outcome.{IsAccounted, process_message_acks}
use fluxa.Processor.Stored.{process_message_once}
use fluxa.Consumer.Defs.{Settlement, acked, nacked, Delivery, consume_event, consume}

abbrev pub bodies : List Delivery → List String
bodies [] = []
bodies (d ∷ ds) = d.body ∷ bodies ds

abbrev pub settled_bodies : List (String × Settlement) → List String
settled_bodies [] = []
settled_bodies (s ∷ ss) = s.0 ∷ settled_bodies ss

-- Every delivery is settled exactly once, and in the order in which it came.
consume_each :
    (handle : String → World → Settlement × World) (ds : List Delivery) (w : World)
    → settled_bodies (consume handle ds w).0 ≡ bodies ds
unfolding consume
consume_each handle [] w = refl
consume_each handle (d ∷ ds) w =
    ground (arith, consume_each handle ds (handle d.body (d.before w)).1)

module _ (env : Env) (p : Processor) where
  -- `ProcessMessage` gives up on a message exactly where its work fails for a reason that may pass.
  process_message-cases :
      (msg : QueueMessage) (w : World)
      → ((process_message env p msg w).0 ≡ none)
        ⊎ ((x : GoError) × ((process_message env p msg w).0 ≡ some x)
            × ((process env p msg w).0 ≡ some x)
            × (is_non_retryable x ≡ false))
  unfolding process_message
  process_message-cases msg w =
      let (r, w1) = process env p msg w in
      elim (Option-cases r) [
        | inl finished ↦ inl (ground arith)
        | inr (e, stopped) ↦ elim (Bool-cases (is_non_retryable e)) [
          | inl permanent ↦
              inl (ground (arith, fail_permanent_frame env msg.event_id (error_text e) w1))
          | inr transient ↦ inr (e, ground arith, stopped, transient)
        ]
      ]

  pub process_message_fails :
      (msg : QueueMessage) (x : GoError) (w : World)
      → (process env p msg w).0 ≡ some x
      → is_non_retryable x ≡ false
      → (process_message env p msg w).0 ≡ some x
  unfolding process_message
  process_message_fails msg x w stopped transient = ground arith

  -- A body for which the work was to be tried again.
  pub record IsTransient (body : String) (w : World) : Type 0 where
    pub msg : QueueMessage
    pub reason : GoError
    pub parses : env.codec.parse_message body ≡ ok msg
    pub stopped : (process env p msg w).0 ≡ some reason
    pub transient : is_non_retryable reason ≡ false

  -- A delivery goes back to the queue exactly if its body parses to a message on which the work of
  -- the processor fails with an error that is not permanent: a body that does not parse and a
  -- permanent failure are acknowledged, also where marking the event as failed fails in turn.
  pub consume_event_nacked :
      (body : String) (w : World) → ((consume_event env p body w).0 ≡ nacked) ↔ IsTransient body w
  unfolding consume_event
  consume_event_nacked body w = (
    λ h. elim (Result-cases (env.codec.parse_message body)) [
      | inr (x, broken) ↦ absurd (ground arith)
      | inl (msg, parsed) ↦ elim (process_message-cases msg w) [
        | inl finished ↦ absurd (ground arith)
        | inr (x, failed, stopped, transient) ↦ record {
          msg = msg;
          reason = x;
          parses = parsed;
          stopped = stopped;
          transient = transient;
        }
      ]
    ],
    λ t. ground (arith, t.parses, process_message_fails t.msg t.reason w t.stopped t.transient),
  )

  -- A message that is removed from the queue is accounted for: its event is stored, or its key
  -- said that the event succeeded or was in work less than a minute ago, or the failure is
  -- permanent.
  pub consume_event_acked :
      (body : String) (msg : QueueMessage) (w w' : World)
      → env.codec.parse_message body ≡ ok msg
      → consume_event env p body w ≡ (acked, w')
      → IsAccounted env p msg w w'
  unfolding consume_event
  consume_event_acked body msg w w' parsed h = elim (Option-cases (process_message env p msg w).0) [
    | inr (x, failed) ↦ absurd (ground arith)
    | inl finished ↦ process_message_acks env p msg w w' (ground arith)
  ]

  pub consume_event_once :
      (id body : String) (w : World)
      → count_rows event_key id w.events ≤ 1
      → count_rows event_key id (consume_event env p body w).1.events ≤ 1
  unfolding consume_event
  consume_event_once id body w h = elim (Result-cases (env.codec.parse_message body)) [
    | inr (x, broken) ↦ ground arith
    | inl (msg, parsed) ↦ ground (arith, process_message_once env p msg id w h)
  ]

  -- However often a message is delivered, and with whatever the others do between the deliveries
  -- as long as they keep to one row for the id, the loop leaves at most one row for it.
  consume_once :
      (id : String) (ds : List Delivery) (w : World)
      → All
          (λ d.
            (v : World)
            → count_rows event_key id v.events ≤ 1
            → count_rows event_key id (d.before v).events ≤ 1)
          ds
      → count_rows event_key id w.events ≤ 1
      → count_rows event_key id (consume (consume_event env p) ds w).1.events ≤ 1
  unfolding consume
  consume_once id [] w fair h = h
  consume_once id (d ∷ ds) w (first, fair) h =
      let v = (consume_event env p d.body (d.before w)).1 in
      consume_once id ds v fair (consume_event_once id d.body (d.before w) (first w h))
