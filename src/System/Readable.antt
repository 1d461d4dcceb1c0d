-- ===== src/System/Readable.antt =====
-- From the request that brings an event to the request that reads it.
use Prim.Native.String.{◌++◌ as ◌⊹◌}
use fluxa.Base.{
  trim_prefix-append, ℕ, ◌+◌, ◌≤◌, String, true, false, Option, none, some, ◌≡◌, ◌≢◌, refl, sym, ap,
  ◌∙◌, inl, inr, arith, find_row-insert_row,
}
use fluxa.Domain.{Time, ok, Event, Metadata, QueueMessage}
use fluxa.World.{Env, World, EventRow, event_key}
use fluxa.Idempotency.{find_key}
use fluxa.Idempotency.Skips.{is_settled, IsQuiet}
use fluxa.Store.{find_event, has_event, row_fits, print_map, event_row, event_record}
use fluxa.Store.Events.{insert_event-cases}
use fluxa.Processor.{Processor, stored_key, process_message}
use fluxa.Processor.Steps.{IsPayloadOf}
use fluxa.Processor.Stored.{Stores, nothing, insertion, process_message-Stores}
use fluxa.Consumer.{consume_event}
use fluxa.Query.{EventAnswer, event_answer, whole_seconds, found, event_id_of, handle_get_event}
use fluxa.Query.Reads.{handle_get_event_finds}
use fluxa.Ingest.Envelope.{IsCarried, IsEnqueued, IsCarried-same}
use fluxa.System.Delivered.{IsCarried-IsPayloadOf, enqueued_delivered}

module _ (env : Env) where
  -- A message has one payload.
  IsPayloadOf-unique :
      (msg : QueueMessage) (w : World) (a b : String)
      → IsPayloadOf env msg w a
      → IsPayloadOf env msg w b
      → a ≡ b
  IsPayloadOf-unique msg w a b (inl (mode, is)) (inl (mode1, is1)) = ground arith
  IsPayloadOf-unique msg w a b (inl (mode, is)) (inr (key, mode1, _, _)) = absurd (ground arith)
  IsPayloadOf-unique msg w a b (inr (key, mode, _, _)) (inl (mode1, is1)) = absurd (ground arith)
  IsPayloadOf-unique msg w a b (inr (key, mode, at, there)) (inr (key1, mode1, at1, there1)) =
      ground arith

  -- Under an id that is new, the row that a message leaves is that of its own payload.
  Stores-row :
      (msg : QueueMessage) (bytes : String) (event : Event) (v v' : World)
      → Stores env msg v v'
      → IsPayloadOf env msg v bytes
      → env.codec.parse_event bytes ≡ ok event
      → find_event msg.event_id v ≡ none
      → has_event msg.event_id v' ≡ true
      → let e : Event = record event { event_id = msg.event_id } in
        (json : String) × (now : Time) × (print_map env e.metadata ≡ ok json)
        × (find_event msg.event_id v'
            ≡ some (
                event_row env e msg.correlation_id msg.payload_mode
                  (stored_key msg.payload_mode msg.s3_key)
                  json
                  now))
  Stores-row msg bytes event v v' (nothing same) source parses absent there = absurd (ground arith)
  Stores-row msg bytes event v v' (insertion other at e w1 taken checked last before after) source
        parses absent there =
      let same = IsPayloadOf-unique msg v other bytes taken source in
      let key = stored_key msg.payload_mode msg.s3_key in
      let is : e ≡ record event { event_id = msg.event_id } =
        ground (arith, checked.same, checked.parses, same) in
      elim (insert_event-cases env e msg.correlation_id msg.payload_mode key w1) [
        | inl kept ↦ absurd (ground arith)
        | inr (json, now, _, printed, _, added) ↦
            let row_of : Event → EventRow =
              λ x. event_row env x msg.correlation_id msg.payload_mode key json now in
            let named : e.event_id ≡ msg.event_id = ap (λ x. x.event_id) is in
            let fresh : find_event e.event_id w1 ≡ none = rw (named, before) absent in
            let stored : find_event e.event_id v' ≡ some (row_of e) =
              ground (arith, find_row-insert_row event_key (row_of e) w1.events) in
            (
              json,
              now,
              ap (λ x. print_map env x.metadata) (sym is) ∙ printed,
              ap (λ id. find_event id v') (sym named) ∙ (stored ∙ ap (λ x. some (row_of x)) is),
            )
      ]

  consume_event_events :
      (p : Processor) (body : String) (msg : QueueMessage) (v : World)
      → env.codec.parse_message body ≡ ok msg
      → (process_message env p msg v).1.events ≡ (consume_event env p body v).1.events
  unfolding consume_event
  consume_event_events p body msg v reads = ground arith

  -- An event that was accepted can be read as it was sent. Under the conditions under which its
  -- delivery stores it, and if its id is new to the table, a GET of its id after the delivery is
  -- answered with its fields: the amount rounded to the column, the time to the second, the metadata
  -- as they parse.
  pub enqueued_readable :
      (p : Processor) {id c : String} (w : World) (q : IsEnqueued env id c w) (json : String)
      (m : Option Metadata) (v : World)
      → IsQuiet env
      → v.objects ≡ w.objects
      → is_settled (env.now (v.tick + 1)) (find_key id v) ≡ false
      → env.codec.parse_event q.bytes ≡ ok q.event
      → env.codec.parse_message q.body ≡ ok q.msg
      → ((n : ℕ) → q.now ≤ env.now n)
      → print_map env q.event.metadata ≡ ok json
      → ((now : Time)
          → row_fits (
              event_row env q.event q.msg.correlation_id q.msg.payload_mode
                (stored_key q.msg.payload_mode q.msg.s3_key)
                json
                now)
            ≡ true)
      → find_event id v ≡ none
      → id ≢ ""
      → env.codec.parse_metadata json ≡ ok m
      → (rec : EventAnswer) × ((handle_get_event env "GET"
            ("/events/" ⊹ id)
            (consume_event env p q.body v).1).0
          ≡ found rec)
        × (rec.event_id ≡ id)
        × (rec.user_id ≡ q.event.user_id)
        × (rec.amount ≡ env.codec.decimal q.event.amount)
        × (rec.currency ≡ q.event.currency)
        × (rec.merchant ≡ q.event.merchant)
        × (rec.timestamp ≡ env.codec.format_time (whole_seconds q.event.timestamp))
        × (rec.metadata ≡ m)
  enqueued_readable p {id} {c} w q json m v quiet kept new parses reads later printed fits absent
        named restored =
      let v' = (consume_event env p q.body v).1 in
      let at : event_id_of ("/events/" ⊹ id) ≡ id = trim_prefix-append "/events/" id in
      let (settled, has, _) =
        enqueued_delivered env p w q json v quiet kept new parses reads later printed fits in
      let there : IsCarried env q.event c q.bytes q.msg v = IsCarried-same env kept q.carried in
      let (source, same, _) = IsCarried-IsPayloadOf env there in
      let is : q.msg.event_id ≡ id = same ∙ q.named in
      let handled = consume_event_events p q.body q.msg v reads in
      let (json1, now, printed1, stored) =
        Stores-row q.msg q.bytes q.event v (process_message env p q.msg v).1
          (process_message-Stores env p q.msg v) source parses (ground arith) (ground arith) in
      let row =
        event_row env (record q.event { event_id = q.msg.event_id }) q.msg.correlation_id
          q.msg.payload_mode (stored_key q.msg.payload_mode q.msg.s3_key) json1 now in
      (
        event_answer env (event_record env row m),
        handle_get_event_finds env ("/events/" ⊹ id) row m v' (λ e. named (sym at ∙ e))
            (quiet.answers v'.tick) (ground arith) (ground (arith, printed1)),
        is,
        refl,
        refl,
        refl,
        refl,
        refl,
        refl,
      )
