-- ===== src/Ingest/Envelope.antt =====
-- What stands in the queue after an event was accepted.
use Prim.Native.String.{len}
use fluxa.Base.{
  ◌==◌, ◌≤◌, ◌<◌, String, none, some, List, ◌∷◌, ◌≡◌, inl, inr, arith, Option-cases, Bool-cases,
  ltb, ltb→lt, eq_iff, lookup-insert,
}
use fluxa.Domain.{Time, Result-cases, ok, Event, validate, QueueMessage}
use fluxa.World.{Env, World, Published, write, next}
use fluxa.Ports.{find_object, storage_put, publish}
use fluxa.Ingest.Defs.{
  max_inline_bytes, Request, accepted, or_uuid, object_key, inline_message, s3_message,
  make_message, enqueue, ingest_event, handle_ingest,
}

-- The payload travels in the message if it has at most 256 KB, and else by the object store.
pub data IsCarried (env : Env) (e : Event) (correlation bytes : String) (msg : QueueMessage)
    (w : World) : Type 0 where
  within :
      len bytes ≤ max_inline_bytes
      → msg ≡ inline_message env e correlation bytes
      → IsCarried env e correlation bytes msg w
  beyond :
      (key : String)
      → max_inline_bytes < len bytes
      → msg ≡ s3_message env e correlation bytes key
      → find_object key w ≡ some bytes
      → IsCarried env e correlation bytes msg w

-- A valid event in an envelope in front of the queue `events`.
pub record IsEnqueued (env : Env) (id correlation : String) (w : World) : Type 0 where
  pub event : Event
  pub now : Time
  pub bytes : String
  pub msg : QueueMessage
  pub body : String
  pub older : List Published
  pub named : event.event_id ≡ id
  pub valid : validate now event ≡ none
  pub printed : env.codec.print_event event ≡ ok bytes
  pub carried : IsCarried env event correlation bytes msg w
  pub encoded : env.codec.print_message msg ≡ ok body
  pub queued :
      w.published ≡ record { exchange = "events"; routing_key = "events"; body = body } ∷ older

module _ (env : Env) where
  make_message-IsCarried :
      (e : Event) (correlation bytes : String) (msg : QueueMessage) (w w' : World)
      → make_message env e correlation bytes w ≡ (ok msg, w')
      → IsCarried env e correlation bytes msg w'
  unfolding make_message storage_put write
  make_message-IsCarried e correlation bytes msg w w' h =
      elim (Bool-cases (ltb max_inline_bytes (len bytes))) [
        | inl large ↦
            let key = object_key env (env.now w.tick) e.event_id in
            beyond key (ltb→lt _ _ large) (ground arith)
              (ground (arith, lookup-insert key bytes w.objects, eq_iff key key))
        | inr small ↦ within (ground arith) (ground arith)
      ]

  enqueue-queued :
      (e : Event) (correlation : String) (msg : QueueMessage) (id c : String) (w w' : World)
      → enqueue env e correlation msg w ≡ (accepted id c, w')
      → (body : String) × (env.codec.print_message msg ≡ ok body)
        × (e.event_id ≡ id)
        × (correlation ≡ c)
        × (w'.objects ≡ w.objects)
        × (w'.published
            ≡ record { exchange = "events"; routing_key = "events"; body = body } ∷ w.published)
  unfolding enqueue publish write
  enqueue-queued e correlation msg id c w w' h = elim (Result-cases (env.codec.print_message msg)) [
    | inr (x, unprintable) ↦ absurd (ground arith)
    | inl (body, printed) ↦ (body, printed, ground arith, ground arith, ground arith, ground arith)
  ]

  pub IsCarried-same :
      {e : Event} {correlation bytes : String} {msg : QueueMessage} {w w' : World}
      → w'.objects ≡ w.objects
      → IsCarried env e correlation bytes msg w
      → IsCarried env e correlation bytes msg w'
  IsCarried-same same (within small is) = within small is
  IsCarried-same same (beyond key large is found) = beyond key large is (ground arith)

  ingest_event-IsEnqueued :
      (decoded : Event) (correlation id c : String) (w w' : World)
      → ingest_event env decoded correlation w ≡ (accepted id c, w')
      → IsEnqueued env id c w'
  unfolding ingest_event
  ingest_event-IsEnqueued decoded correlation id c w w' h =
      let (named, w1) = or_uuid env decoded.event_id w in
      let event : Event = record decoded { event_id = named } in
      let now = env.now w1.tick in
      elim (Option-cases (validate now event)) [
        | inr (x, bad) ↦ absurd (ground arith)
        | inl valid ↦ elim (Result-cases (env.codec.print_event event)) [
          | inr (x, unprintable) ↦ absurd (ground arith)
          | inl (bytes, printed) ↦
              let (made, w2) = make_message env event correlation bytes (next w1) in
              elim (Result-cases made) [
                | inr (x, failed) ↦ absurd (ground arith)
                | inl (msg, ready) ↦
                    let carried =
                      make_message-IsCarried event correlation bytes msg (next w1) w2
                        (ground arith) in
                    let (body, encoded, same_id, same_c, objects, queued) =
                      enqueue-queued event correlation msg id c w2 w' (ground arith) in
                    record {
                      event = event;
                      now = now;
                      bytes = bytes;
                      msg = msg;
                      body = body;
                      older = w2.published;
                      named = same_id;
                      valid = valid;
                      printed = printed;
                      carried = rw (← same_c) (IsCarried-same objects carried);
                      encoded = encoded;
                      queued = queued;
                    }
              ]
        ]
      ]

  -- An answer 202 is given only after a valid event, under the id that the answer names, has been
  -- put into the queue: inline in the message if it has at most 256 KB, and otherwise in the
  -- object store under the key that the message names, with its hash beside it either way.
  pub handle_ingest-IsEnqueued :
      (r : Request) (id c : String) (w w' : World)
      → handle_ingest env r w ≡ (accepted id c, w')
      → IsEnqueued env id c w'
  unfolding handle_ingest
  handle_ingest-IsEnqueued r id c w w' h =
      let (correlation, w1) = or_uuid env r.correlation_id (next w) in
      elim (Bool-cases (r.method == "POST")) [
        | inr other_method ↦ absurd (ground arith)
        | inl post ↦ elim (Result-cases (env.codec.decode_event r.body)) [
          | inr (x, broken) ↦ absurd (ground arith)
          | inl (decoded, reads) ↦
              ingest_event-IsEnqueued decoded correlation id c w1 w' (ground arith)
        ]
      ]
