-- ===== src/Processor/Stored.antt =====
-- What the processor stores.
use Prim.Native.String.{count}
use fluxa.Base.{
  ℕ, ◌+◌, false, ◌<◌, ◌≤◌, String, some, ◌≡◌, ◌≢◌, ◌∙◌, inl, inr, arith, Option-cases, Bool-cases,
  count_rows,
}
use fluxa.Domain.{Time, Result-cases, Event, error_text, QueueMessage}
use fluxa.World.{Env, World, EventRow, event_key}
use fluxa.Idempotency.{check_and_mark}
use fluxa.Idempotency.Frame.{check_and_mark_frame}
use fluxa.Store.{find_event, event_row, row_fits}
use fluxa.Store.Events.{insert_event_keeps, insert_event_once, insert_event_misfit}
use fluxa.Processor.Defs.{
  Processor, stored_key, fetch_payload, check_payload, work, process, process_message,
}
use fluxa.Processor.Steps.{
  IsChecked, IsPayloadOf, fetch_payload_frame, check_payload_frame, check_payload-IsChecked,
  fetch_payload-IsPayloadOf, fail_permanent_frame,
}
use fluxa.Processor.Outcome.{insert_of, persist_events}

row_misfit : (r : EventRow) → 3 < count r.currency → row_fits r ≡ false
unfolding row_fits
row_misfit r long = ground arith

-- How the events table may change while a message is handled: not at all, or by one INSERT of an
-- event that came from the message's own payload and passed every check, right after the check.
pub data Stores (env : Env) (msg : QueueMessage) (w w' : World) : Type 0 where
  nothing : w'.events ≡ w.events → Stores env msg w w'
  insertion :
      (bytes : String) (n : ℕ) (e : Event) (w1 : World)
      → IsPayloadOf env msg w bytes
      → IsChecked env msg bytes (env.now n) e
      → w1.tick ≡ n + 1
      → w1.events ≡ w.events
      → w'.events ≡ (insert_of env msg e w1).1.events
      → Stores env msg w w'

Stores-after :
    {env : Env} {msg : QueueMessage} {w w1 w' : World}
    → w1.events ≡ w.events
    → w1.objects ≡ w.objects
    → Stores env msg w1 w'
    → Stores env msg w w'
Stores-after same objects (nothing kept) = nothing (kept ∙ same)
Stores-after same objects (insertion bytes now e w2 source checked last before after) =
    insertion bytes now e w2 (ground arith) checked last (before ∙ same) after

Stores-then :
    {env : Env} {msg : QueueMessage} {w w1 w' : World}
    → w'.events ≡ w1.events
    → Stores env msg w w1
    → Stores env msg w w'
Stores-then same (nothing kept) = nothing (same ∙ kept)
Stores-then same (insertion bytes now e w2 source checked last before after) =
    insertion bytes now e w2 source checked last before (same ∙ after)

module _ (env : Env) (p : Processor) where
  -- `check_payload` reads the clock and makes no other call.
  check_payload_tick :
      (msg : QueueMessage) (bytes : String) (w : World)
      → (check_payload env msg bytes w).1.tick ≡ w.tick + 1
  unfolding check_payload
  check_payload_tick msg bytes w = ground arith

  work-Stores : (msg : QueueMessage) (w : World) → Stores env msg w (work env p msg w).1
  unfolding work
  work-Stores msg w =
      let (payload, w1) = fetch_payload env msg.payload_mode msg.payload_inline msg.s3_key w in
      let fetched_frame =
        fetch_payload_frame env msg.payload_mode msg.payload_inline msg.s3_key w in
      elim (Result-cases payload) [
        | inr (y, unfetched) ↦ nothing (ground arith)
        | inl (bytes, fetched) ↦
            let w2 = (check_payload env msg bytes w1).1 in
            let checked_frame = check_payload_frame env msg bytes w1 in
            elim (Result-cases (check_payload env msg bytes w1).0) [
              | inr (y, bad) ↦ nothing (ground arith)
              | inl (e, good) ↦
                  insertion bytes w1.tick e w2 (fetch_payload-IsPayloadOf env msg bytes w fetched)
                    (check_payload-IsChecked env msg bytes w1 w2 e (ground arith)).0
                    (check_payload_tick msg bytes w1) (ground arith)
                    (ground (arith, persist_events env p msg e w2))
            ]
      ]

  process-Stores : (msg : QueueMessage) (w : World) → Stores env msg w (process env p msg w).1
  unfolding process
  process-Stores msg w =
      let (c, w1) = check_and_mark env msg.event_id w in
      let frame = check_and_mark_frame env msg.event_id w in
      elim (Result-cases c) [
        | inr (x, failed) ↦ nothing (ground arith)
        | inl (already, claimed) ↦ elim (Bool-cases already) [
          | inl skip ↦ nothing (ground arith)
          | inr mine ↦
              Stores-then {w1 = (work env p msg w1).1} (ground arith)
                (Stores-after frame.0 frame.2 (work-Stores msg w1))
        ]
      ]

  -- Handling a message leaves the events table alone, or does one INSERT of an event that was
  -- parsed from the message's own payload, whose hash is the message's and which is valid.
  pub process_message-Stores :
      (msg : QueueMessage) (w : World) → Stores env msg w (process_message env p msg w).1
  unfolding process_message
  process_message-Stores msg w =
      let (r, w1) = process env p msg w in
      elim (Option-cases r) [
        | inl finished ↦ Stores-then {w1 = w1} (ground arith) (process-Stores msg w)
        | inr (e, stopped) ↦
            Stores-then {w1 = w1}
              (ground (arith, fail_permanent_frame env msg.event_id (error_text e) w1))
              (process-Stores msg w)
      ]

  -- An event that is stored stays as it was first stored, whatever message is handled next.
  pub process_message_keeps :
      (msg : QueueMessage) (id : String) (old : EventRow) (w : World)
      → find_event id w ≡ some old
      → find_event id (process_message env p msg w).1 ≡ some old
  process_message_keeps msg id old w found = go (process_message-Stores msg w)
    where
      go :
          Stores env msg w (process_message env p msg w).1
          → find_event id (process_message env p msg w).1 ≡ some old
      go (nothing same) = rw same found
      go (insertion bytes now e w1 source checked last before after) = rw after (
          insert_event_keeps env e msg.correlation_id msg.payload_mode
            (stored_key msg.payload_mode msg.s3_key) id old w1 (rw before found))

  -- No event id ever gets a second row.
  pub process_message_once :
      (msg : QueueMessage) (id : String) (w : World)
      → count_rows event_key id w.events ≤ 1
      → count_rows event_key id (process_message env p msg w).1.events ≤ 1
  process_message_once msg id w one = go (process_message-Stores msg w)
    where
      go :
          Stores env msg w (process_message env p msg w).1
          → count_rows event_key id (process_message env p msg w).1.events ≤ 1
      go (nothing same) = rw same one
      go (insertion bytes now e w1 source checked last before after) = rw after (
          insert_event_once env e msg.correlation_id msg.payload_mode
            (stored_key msg.payload_mode msg.s3_key) id w1 (rw before one))

  -- If no payload of the message has the hash that the message names, the events table stays as
  -- it is.
  process_message_hash :
      (msg : QueueMessage) (w : World)
      → ((bytes : String)
          → IsPayloadOf env msg w bytes
          → env.codec.sha256_hex bytes ≢ msg.payload_sha256)
      → (process_message env p msg w).1.events ≡ w.events
  process_message_hash msg w wrong = go (process_message-Stores msg w)
    where
      go :
          Stores env msg w (process_message env p msg w).1
          → (process_message env p msg w).1.events ≡ w.events
      go (nothing same) = same
      go (insertion bytes now e w1 source checked last before after) =
          absurd (wrong bytes source checked.hash)

  -- An event whose currency has more than the three characters of the column is never stored,
  -- although it is valid: the events table stays as it is at every delivery of its message.
  pub process_message_long_currency :
      (msg : QueueMessage) (w : World)
      → ((bytes : String) (now : Time) (e : Event)
          → IsPayloadOf env msg w bytes
          → IsChecked env msg bytes now e
          → 3 < count e.currency)
      → (process_message env p msg w).1.events ≡ w.events
  process_message_long_currency msg w long = go (process_message-Stores msg w)
    where
      go :
          Stores env msg w (process_message env p msg w).1
          → (process_message env p msg w).1.events ≡ w.events
      go (nothing same) = same
      go (insertion bytes now e w1 source checked last before after) =
          let key = stored_key msg.payload_mode msg.s3_key in
          let too_long = long bytes (env.now now) e source checked in
          after
          ∙ ((insert_event_misfit env e msg.correlation_id msg.payload_mode key w1 (λ json t.
                row_misfit (event_row env e msg.correlation_id msg.payload_mode key json t)
                  too_long)).1
              ∙ before)
