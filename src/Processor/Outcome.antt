-- ===== src/Processor/Outcome.antt =====
-- When a message is acknowledged and when it goes back to the queue.
use fluxa.Base.{◌+◌, true, Option, none, some, ◌≡◌, ◌⊎◌, inl, inr, arith, Option-cases, Bool-cases}
use fluxa.Domain.{GoError, Result-cases, ok, Event, is_non_retryable, QueueMessage}
use fluxa.World.{Env, World}
use fluxa.Idempotency.{check_and_mark, find_key}
use fluxa.Idempotency.Skips.{is_settled, check_and_mark_settled}
use fluxa.Store.{has_event, insert_event}
use fluxa.Store.Events.{insert_event_stores}
use fluxa.Processor.Defs.{
  Processor, stored_key, fetch_payload, check_payload, persist, work, process, process_message,
}
use fluxa.Processor.Steps.{check_payload-IsChecked, finish_events}

abbrev pub insert_of : Env → QueueMessage → Event → World → Option GoError × World
insert_of env msg e w =
    insert_event env e msg.correlation_id msg.payload_mode (stored_key msg.payload_mode msg.s3_key)
      w

module _ (env : Env) (p : Processor) where
  -- After the insert the events table is not written again.
  pub persist_events :
      (msg : QueueMessage) (e : Event) (w : World)
      → ((persist env p msg e w).1.events ≡ (insert_of env msg e w).1.events)
        × ((persist env p msg e w).0 ≡ none → (insert_of env msg e w).0 ≡ none)
  unfolding persist
  persist_events msg e w = ground (arith, finish_events env p msg e (insert_of env msg e w).1)

  persist_stores :
      (msg : QueueMessage) (e : Event) (w w' : World)
      → persist env p msg e w ≡ (none, w')
      → has_event e.event_id w' ≡ true
  persist_stores msg e w w' h =
      let (w1, stored) = persist_events msg e w in
      let (json, printed, found) =
        insert_event_stores env e msg.correlation_id msg.payload_mode
          (stored_key msg.payload_mode msg.s3_key) w (insert_of env msg e w).1 (ground arith) in
      ground arith

  -- Work that is finished has stored the event.
  pub work_stores :
      (msg : QueueMessage) (w w' : World)
      → work env p msg w ≡ (none, w')
      → has_event msg.event_id w' ≡ true
  unfolding work
  work_stores msg w w' h =
      let (payload, w1) = fetch_payload env msg.payload_mode msg.payload_inline msg.s3_key w in
      elim (Result-cases payload) [
        | inr (x, unfetched) ↦ absurd (ground arith)
        | inl (bytes, fetched) ↦ elim (Result-cases (check_payload env msg bytes w1).0) [
          | inr (x, bad) ↦ absurd (ground arith)
          | inl (e, good) ↦
              let w2 = (check_payload env msg bytes w1).1 in
              let (checked, _) = check_payload-IsChecked env msg bytes w1 w2 e (ground arith) in
              let stored = persist_stores msg e w2 w' (ground arith) in ground (arith, checked.same)
        ]
      ]

  -- Why a message may be acknowledged: its event is stored; or its claim was refused and nothing else
  -- was done, with a key by which the event was settled when the call looked; or its work stopped with
  -- an error that no retry would mend.
  abbrev pub IsAccounted : QueueMessage → World → World → Type 0
  IsAccounted msg w w' =
      (has_event msg.event_id w' ≡ true)
      ⊎ (((check_and_mark env msg.event_id w ≡ (ok true, w'))
            × (is_settled (env.now (w.tick + 1)) (find_key msg.event_id w') ≡ true))
          ⊎ ((e : GoError) × ((process env p msg w).0 ≡ some e) × (is_non_retryable e ≡ true)))

  process-IsAccounted :
      (msg : QueueMessage) (w w' : World) → process env p msg w ≡ (none, w') → IsAccounted msg w w'
  unfolding process
  process-IsAccounted msg w w' h =
      let (c, w1) = check_and_mark env msg.event_id w in
      elim (Result-cases c) [
        | inr (x, failed) ↦ absurd (ground arith)
        | inl (already, claimed) ↦ elim (Bool-cases already) [
          | inl skip ↦
              let refused : check_and_mark env msg.event_id w ≡ (ok true, w') = ground arith in
              inr (inl (refused, check_and_mark_settled env msg.event_id w w' refused))
          | inr mine ↦ inl (work_stores msg w1 w' (ground arith))
        ]
      ]

  -- A message is acknowledged only if its event is stored afterwards; or `check_and_mark` answered
  -- that it needs no work, and nothing more was done, with a key that says that the event succeeded or
  -- was in work less than a minute ago; or the work stopped with a permanent error.
  pub process_message_acks :
      (msg : QueueMessage) (w w' : World)
      → process_message env p msg w ≡ (none, w')
      → IsAccounted msg w w'
  unfolding process_message
  process_message_acks msg w w' h =
      let (r, w1) = process env p msg w in
      elim (Option-cases r) [
        | inl finished ↦ process-IsAccounted msg w w' (ground arith)
        | inr (e, stopped) ↦ elim (Bool-cases (is_non_retryable e)) [
          | inl permanent ↦ inr (inr (e, stopped, permanent))
          | inr transient ↦ absurd (ground arith)
        ]
      ]
