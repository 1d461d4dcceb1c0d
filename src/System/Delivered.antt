-- ===== src/System/Delivered.antt =====
-- An accepted event on its way through the queue, where nothing fails.
use fluxa.Base.{ℕ, ◌+◌, ◌≤◌, String, true, false, ◌≡◌, refl, sym, ◌∙◌, inl, inr, arith}
use fluxa.Domain.{Time, ok, Event, QueueMessage}
use fluxa.World.{Env, World}
use fluxa.Idempotency.{find_key}
use fluxa.Idempotency.Skips.{is_settled, IsQuiet}
use fluxa.Store.{has_event, row_fits, print_map, event_row}
use fluxa.Processor.{Processor, stored_key, process_message}
use fluxa.Processor.Steps.{IsPayloadOf}
use fluxa.Processor.Success.{IsSuccessRow, IsProcessable, process_message_succeeds}
use fluxa.Consumer.{acked, consume_event}
use fluxa.Ingest.Envelope.{IsCarried, within, beyond, IsEnqueued, IsCarried-same}
use fluxa.Ingest.Delivery.{validate_later}

module _ (env : Env) where
  pub IsCarried-IsPayloadOf :
      {e : Event} {c bytes : String} {msg : QueueMessage} {w : World}
      → IsCarried env e c bytes msg w
      → IsPayloadOf env msg w bytes
        × (msg.event_id ≡ e.event_id)
        × (msg.payload_sha256 ≡ env.codec.sha256_hex bytes)
  IsCarried-IsPayloadOf (within small is) = rw is (inl (refl, refl), refl, refl)
  IsCarried-IsPayloadOf (beyond key large is found) =
      rw is (inr (key, refl, refl, found), refl, refl)

  -- Where no call fails, no other processor writes and no clock is behind the ingest service's, an
  -- accepted event goes through: while its payload is kept and its key is not settled, the delivery
  -- of its message is acknowledged, stores the event and marks its key as success. The event
  -- must fit the columns of its table, and what was printed must be parsed back.
  pub enqueued_delivered :
      (p : Processor) {id c : String} (w : World) (q : IsEnqueued env id c w) (json : String)
      (v : World)
      → IsQuiet env
      → v.objects ≡ w.objects
      → is_settled (env.now (v.tick + 1)) (find_key id v) ≡ false
      → env.codec.parse_event q.bytes ≡ ok q.event
      → env.codec.parse_message q.body ≡ ok q.msg
      → ((n : ℕ) → q.now ≤ env.now n)
      → print_map env q.event.metadata ≡ ok json
      → ((now : Time)
          → row_fits (
              event_row env q.event q.msg.correlation_id q.msg.payload_mode
                (stored_key q.msg.payload_mode q.msg.s3_key)
                json
                now)
            ≡ true)
      → let (settlement, v') = consume_event env p q.body v in
        (settlement ≡ acked) × (has_event id v' ≡ true) × IsSuccessRow (find_key id v')
  unfolding consume_event
  enqueued_delivered p {id} {c} w q json v quiet kept new parses reads later printed fits =
      let there : IsCarried env q.event c q.bytes q.msg v = IsCarried-same env kept q.carried in
      let (source, named, hash) = IsCarried-IsPayloadOf there in
      let same : q.msg.event_id ≡ id = named ∙ q.named in
      let processable : IsProcessable env p q.msg v = record {
        bytes = q.bytes;
        event = q.event;
        json = json;
        source = source;
        hash = sym hash;
        parses = parses;
        valid = λ n. validate_later q.now (env.now n) q.event (later n) q.valid;
        printed = printed;
        fits = λ now. rw named (fits now);
      } in
      let (answered, stored, success) =
        process_message_succeeds env p q.msg v quiet (rw same new) processable in
      let whole : consume_event env p q.body v ≡ (acked, (process_message env p q.msg v).1) =
        ground (arith, reads, answered) in
      rw whole (refl, rw (← same) stored, rw (← same) success)
