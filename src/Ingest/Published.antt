-- ===== src/Ingest/Published.antt =====
-- How many messages a request publishes.
use fluxa.Base.{
  ◌⊎◌, ℕ, ◌+◌, ◌≤◌, ◌==◌, String, ◌∷◌, ◌≡◌, inl, inr, arith, length, nat_eq, Bool-cases,
  Option-cases, if◌then◌else◌,
}
use fluxa.Domain.{Event, Result-cases, QueueMessage, validate}
use fluxa.World.{Env, World, Published, next, write}
use fluxa.Ports.{storage_put, publish}
use fluxa.Ingest.Defs.{
  Request, Response, accepted, rejected, or_uuid, make_message, enqueue, ingest_event,
  handle_ingest,
}

-- The status of an answer, and 1 for a request that was accepted.
abbrev pub status_of : Response → ℕ
status_of (accepted _ _) = 202
status_of (rejected code _) = code

abbrev pub sent_of : Response → ℕ
sent_of answer = if nat_eq (status_of answer) 202 then 1 else 0

-- Accepting a request publishes one message.
module _ (env : Env) where
  make_message_published :
      (e : Event) (correlation bytes : String) (w : World)
      → (make_message env e correlation bytes w).1.published ≡ w.published
  unfolding make_message storage_put write
  make_message_published e correlation bytes w = ground arith

  enqueue_published :
      (e : Event) (correlation : String) (msg : QueueMessage) (id c : String) (w w' : World)
      → enqueue env e correlation msg w ≡ (accepted id c, w')
      → (m : Published) × (w'.published ≡ m ∷ w.published)
  unfolding enqueue publish write
  enqueue_published e correlation msg id c w w' h =
      elim (Result-cases (env.codec.print_message msg)) [
        | inr (x, unprintable) ↦ absurd (ground arith)
        | inl (body, printed) ↦
            (record { exchange = "events"; routing_key = "events"; body = body }, ground arith)
      ]

  ingest_event_published :
      (e : Event) (correlation id c : String) (w w' : World)
      → ingest_event env e correlation w ≡ (accepted id c, w')
      → (m : Published) × (w'.published ≡ m ∷ w.published)
  unfolding ingest_event
  ingest_event_published e correlation id c w w' h =
      let (named, w1) = or_uuid env e.event_id w in
      let event : Event = record e { event_id = named } in
      elim (Option-cases (validate (env.now w1.tick) event)) [
        | inr (x, bad) ↦ absurd (ground arith)
        | inl valid ↦ elim (Result-cases (env.codec.print_event event)) [
          | inr (x, unprintable) ↦ absurd (ground arith)
          | inl (bytes, printed) ↦
              let (made, w2) = make_message env event correlation bytes (next w1) in
              let before = make_message_published event correlation bytes (next w1) in
              elim (Result-cases made) [
                | inr (x, failed) ↦ absurd (ground arith)
                | inl (msg, ready) ↦
                    let (m, is) =
                      enqueue_published event correlation msg id c w2 w' (ground arith) in
                    (m, ground arith)
              ]
        ]
      ]

  pub handle_ingest_published :
      (r : Request) (id c : String) (w w' : World)
      → handle_ingest env r w ≡ (accepted id c, w')
      → (m : Published) × (w'.published ≡ m ∷ w.published)
  unfolding handle_ingest
  handle_ingest_published r id c w w' h =
      let (correlation, w1) = or_uuid env r.correlation_id (next w) in
      elim (Bool-cases (r.method == "POST")) [
        | inr other ↦ absurd (ground arith)
        | inl post ↦ elim (Result-cases (env.codec.decode_event r.body)) [
          | inr (x, broken) ↦ absurd (ground arith)
          | inl (e, decoded) ↦
              let (m, is) = ingest_event_published e correlation id c w1 w' (ground arith) in
              (m, ground arith)
        ]
      ]

  enqueue_grows :
      (e : Event) (correlation : String) (msg : QueueMessage) (w : World)
      → let (answer, w1) = enqueue env e correlation msg w in
        length w.published + sent_of answer ≤ length w1.published
  unfolding enqueue publish write
  enqueue_grows e correlation msg w = ground arith

  ingest_event_grows :
      (e : Event) (correlation : String) (w : World)
      → let (answer, w1) = ingest_event env e correlation w in
        length w.published + sent_of answer ≤ length w1.published
  unfolding ingest_event
  ingest_event_grows e correlation w =
      let (named, w1) = or_uuid env e.event_id w in
      let event : Event = record e { event_id = named } in
      elim (Option-cases (validate (env.now w1.tick) event)) [
        | inr (x, bad) ↦ ground arith
        | inl valid ↦ elim (Result-cases (env.codec.print_event event)) [
          | inr (x, unprintable) ↦ ground arith
          | inl (bytes, printed) ↦
              let (made, w2) = make_message env event correlation bytes (next w1) in
              let before = make_message_published event correlation bytes (next w1) in
              elim (Result-cases made) [
                | inr (x, failed) ↦ ground arith
                | inl (msg, ready) ↦ ground (arith, enqueue_grows event correlation msg w2)
              ]
        ]
      ]

  -- Each answer 202 has put one more message at the broker.
  pub handle_ingest_grows :
      (r : Request) (w : World)
      → let (answer, w1) = handle_ingest env r w in
        length w.published + sent_of answer ≤ length w1.published
  unfolding handle_ingest
  handle_ingest_grows r w =
      let (correlation, w1) = or_uuid env r.correlation_id (next w) in
      elim (Result-cases (env.codec.decode_event r.body)) [
        | inr (x, broken) ↦ ground arith
        | inl (e, decoded) ↦ ground (arith, ingest_event_grows e correlation w1)
      ]

  -- What a request adds to the messages: nothing, or one message for the exchange `events`. The
  -- flags stay as they are.
  abbrev pub IsAside : World → World → Type 0
  IsAside w w1 =
      (w1.flags ≡ w.flags)
      × ((w1.published ≡ w.published)
          ⊎ ((m : Published) × (m.exchange ≡ "events") × (w1.published ≡ m ∷ w.published)))

  make_message_flags :
      (e : Event) (correlation bytes : String) (w : World)
      → (make_message env e correlation bytes w).1.flags ≡ w.flags
  unfolding make_message storage_put write
  make_message_flags e correlation bytes w = ground arith

  enqueue-IsAside :
      (e : Event) (correlation : String) (msg : QueueMessage) (w : World)
      → IsAside w (enqueue env e correlation msg w).1
  unfolding enqueue publish write
  enqueue-IsAside e correlation msg w = elim (Result-cases (env.codec.print_message msg)) [
    | inr (x, unprintable) ↦ (ground arith, inl (ground arith))
    | inl (body, printed) ↦
        let m : Published = record { exchange = "events"; routing_key = "events"; body = body } in
        ground arith
  ]

  ingest_event-IsAside :
      (e : Event) (correlation : String) (w : World)
      → IsAside w (ingest_event env e correlation w).1
  unfolding ingest_event
  ingest_event-IsAside e correlation w =
      let (named, w1) = or_uuid env e.event_id w in
      let event : Event = record e { event_id = named } in
      elim (Option-cases (validate (env.now w1.tick) event)) [
        | inr (x, bad) ↦ (ground arith, inl (ground arith))
        | inl valid ↦ elim (Result-cases (env.codec.print_event event)) [
          | inr (x, unprintable) ↦ (ground arith, inl (ground arith))
          | inl (bytes, printed) ↦
              let (made, w2) = make_message env event correlation bytes (next w1) in
              let before = make_message_published event correlation bytes (next w1) in
              let flags = make_message_flags event correlation bytes (next w1) in
              elim (Result-cases made) [
                | inr (x, failed) ↦ (ground arith, inl (ground arith))
                | inl (msg, ready) ↦ ground (arith, enqueue-IsAside event correlation msg w2)
              ]
        ]
      ]

  pub handle_ingest-IsAside : (r : Request) (w : World) → IsAside w (handle_ingest env r w).1
  unfolding handle_ingest
  handle_ingest-IsAside r w =
      let (correlation, w1) = or_uuid env r.correlation_id (next w) in
      elim (Result-cases (env.codec.decode_event r.body)) [
        | inr (x, broken) ↦ ground arith
        | inl (e, decoded) ↦ ground (arith, ingest_event-IsAside e correlation w1)
      ]
