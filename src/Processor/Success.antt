-- ===== src/Processor/Success.antt =====
-- What the processor does with a message that is in order, when no call fails.
use fluxa.Base.{
  ℕ, ◌+◌, String, true, false, Option, none, some, ◌≡◌, refl, inl, inr, arith, eq_iff, Option-cases,
  find_row-update_rows,
}
use fluxa.Domain.{Time, ok, Event, validate, QueueMessage, IdempotencyKeyRecord}
use fluxa.World.{Env, World, key_key, read, write}
use fluxa.Idempotency.{is_success, success_key, find_key, check_and_mark, mark_success}
use fluxa.Idempotency.Claims.{IsClaimed, check_and_mark-IsClaimed}
use fluxa.Idempotency.Frame.{check_and_mark_frame}
use fluxa.Idempotency.Skips.{is_settled, IsQuiet, check_and_mark_decides}
use fluxa.Store.{has_event, row_fits, print_map, event_row}
use fluxa.Store.Events.{insert_event_succeeds, insert_event_frame}
use fluxa.Ports.{storage_get}
use fluxa.Processor.Defs.{
  Processor, stored_key, observe_process, fetch_payload, check_payload, finish, persist, work,
  process, process_message, evaluate_fraud,
}
use fluxa.Processor.Steps.{
  IsPayloadOf, fetch_payload_frame, check_payload_frame, evaluate_fraud_frame, finish_events,
}
use fluxa.Processor.Outcome.{insert_of, work_stores}

-- The key says that the event succeeded.
abbrev pub IsSuccessRow : Option IdempotencyKeyRecord → Type 0
IsSuccessRow none = ⊥
IsSuccessRow (some r) = is_success r.status ≡ true

module _ (env : Env) (p : Processor) where
  -- A message whose payload is there, has the hash of the message, parses to an event that is
  -- valid by the clock, and fits the columns of its table.
  pub record IsProcessable (msg : QueueMessage) (w : World) : Type 0 where
    pub bytes : String
    pub event : Event
    pub json : String
    pub source : IsPayloadOf env msg w bytes
    pub hash : env.codec.sha256_hex bytes ≡ msg.payload_sha256
    pub parses : env.codec.parse_event bytes ≡ ok event
    pub valid : (n : ℕ) → validate (env.now n) event ≡ none
    pub printed : print_map env event.metadata ≡ ok json
    pub fits :
        (now : Time)
        → row_fits (
            event_row env
              (record event { event_id = msg.event_id })
              msg.correlation_id
              msg.payload_mode
              (stored_key msg.payload_mode msg.s3_key)
              json
              now)
          ≡ true

  fetch_payload_succeeds :
      (msg : QueueMessage) (bytes : String) (w : World)
      → IsQuiet env
      → IsPayloadOf env msg w bytes
      → (fetch_payload env msg.payload_mode msg.payload_inline msg.s3_key w).0 ≡ ok bytes
  unfolding fetch_payload storage_get read
  fetch_payload_succeeds msg bytes w quiet (inl (mode, there)) = rw (mode, there) refl
  fetch_payload_succeeds msg bytes w quiet (inr (key, mode, named, there)) =
      ground (arith, quiet.answers w.tick)

  check_payload_succeeds :
      (msg : QueueMessage) (bytes : String) (e : Event) (w : World)
      → env.codec.sha256_hex bytes ≡ msg.payload_sha256
      → env.codec.parse_event bytes ≡ ok e
      → validate (env.now w.tick) e ≡ none
      → (check_payload env msg bytes w).0 ≡ ok (record e { event_id = msg.event_id })
  unfolding check_payload
  check_payload_succeeds msg bytes e w hash parses valid =
      ground (arith, eq_iff (env.codec.sha256_hex bytes) msg.payload_sha256)

  persist_succeeds :
      (msg : QueueMessage) (e : Event) (w : World)
      → (insert_of env msg e w).0 ≡ none
      → persist env p msg e w ≡ finish env p msg e (insert_of env msg e w).1
  unfolding persist
  persist_succeeds msg e w inserted = ground arith

  finish_key :
      (msg : QueueMessage) (e : Event) (now : Time) (w : World)
      → IsQuiet env
      → IsClaimed now msg.event_id w
      → IsSuccessRow (find_key msg.event_id (finish env p msg e w).1)
  unfolding finish mark_success write
  finish_key msg e now w quiet claimed =
      let w1 = (evaluate_fraud env p e (observe_process w).1).1 in
      let seen = env.now w1.tick in
      elim (Option-cases (find_key msg.event_id w)) [
        | inl gone ↦ absurd (ground arith)
        | inr (r, found) ↦ ground (
          arith,
          evaluate_fraud_frame env p e (observe_process w).1,
          find_row-update_rows key_key msg.event_id (success_key seen) w1.keys (λ _. refl),
          quiet.answers (w1.tick + 1),
        )
      ]

  -- For an event that is claimed.
  work_succeeds :
      (msg : QueueMessage) (now : Time) (w : World)
      → IsQuiet env
      → IsClaimed now msg.event_id w
      → IsProcessable msg w
      → ((work env p msg w).0 ≡ none) × IsSuccessRow (find_key msg.event_id (work env p msg w).1)
  unfolding work
  work_succeeds msg now w quiet claimed q =
      let e : Event = record q.event { event_id = msg.event_id } in
      let w1 = (fetch_payload env msg.payload_mode msg.payload_inline msg.s3_key w).1 in
      let w2 = (check_payload env msg q.bytes w1).1 in
      let fetched = fetch_payload_succeeds msg q.bytes w quiet q.source in
      let checked =
        check_payload_succeeds msg q.bytes q.event w1 q.hash q.parses (q.valid w1.tick) in
      let inserted =
        insert_event_succeeds env e msg.correlation_id msg.payload_mode
          (stored_key msg.payload_mode msg.s3_key) q.json w2 quiet.answers q.printed q.fits in
      let w3 = (insert_of env msg e w2).1 in
      let fetch_keys = fetch_payload_frame env msg.payload_mode msg.payload_inline msg.s3_key w in
      let check_keys = check_payload_frame env msg q.bytes w1 in
      let insert_keys =
        insert_event_frame env e msg.correlation_id msg.payload_mode
          (stored_key msg.payload_mode msg.s3_key) w2 in
      let finished = finish_events env p msg e w3 in
      let success = finish_key msg e now w3 quiet (ground arith) in
      let persisted = persist_succeeds msg e w2 inserted in ground arith

  IsPayloadOf-same :
      (msg : QueueMessage) (bytes : String) (w w' : World)
      → w'.objects ≡ w.objects
      → IsPayloadOf env msg w bytes
      → IsPayloadOf env msg w' bytes
  IsPayloadOf-same msg bytes w w' same (inl inside) = inl inside
  IsPayloadOf-same msg bytes w w' same (inr (key, mode, named, there)) =
      inr (key, mode, named, rw same there)

  -- Where no call fails and no other processor writes, a message that is in order and whose event
  -- is not settled is worked on to the end: it is acknowledged, its event is stored, and its key
  -- says that the event succeeded, so that every later delivery is skipped.
  pub process_message_succeeds :
      (msg : QueueMessage) (w : World)
      → IsQuiet env
      → is_settled (env.now (w.tick + 1)) (find_key msg.event_id w) ≡ false
      → IsProcessable msg w
      → let (answer, w') = process_message env p msg w in
        (answer ≡ none)
        × (has_event msg.event_id w' ≡ true)
        × IsSuccessRow (find_key msg.event_id w')
  unfolding process process_message
  process_message_succeeds msg w quiet new q =
      let w1 = (check_and_mark env msg.event_id w).1 in
      let (decided, keys) = check_and_mark_decides env msg.event_id w quiet in
      let mine : check_and_mark env msg.event_id w ≡ (ok false, w1) = ground arith in
      let claimed = check_and_mark-IsClaimed env msg.event_id w w1 mine in
      let (events, flags, objects, published, samples) = check_and_mark_frame env msg.event_id w in
      let source = IsPayloadOf-same msg q.bytes w w1 objects q.source in
      let (acked, success) = work_succeeds msg (env.now (w.tick + 1)) w1 quiet claimed (record {
        bytes = q.bytes;
        event = q.event;
        json = q.json;
        source = source;
        hash = q.hash;
        parses = q.parses;
        valid = q.valid;
        printed = q.printed;
        fits = q.fits;
      }) in
      let stored = work_stores env p msg w1 (work env p msg w1).1 (ground arith) in
      let whole : process_message env p msg w ≡ (none, (work env p msg w1).1) = ground arith in
      rw whole (refl, stored, success)
