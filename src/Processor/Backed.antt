-- ===== src/Processor/Backed.antt =====
-- The key table and the events table together: a key says success only for a stored event.
use fluxa.Base.{String, true, false, none, ◌≡◌, ◌⊎◌, inl, inr, arith, Option-cases, Bool-cases}
use fluxa.Domain.{Result-cases, Event, is_non_retryable, error_text, QueueMessage}
use fluxa.World.{Env, World}
use fluxa.Idempotency.{check_and_mark}
use fluxa.Idempotency.Succeeded.{
  succeeded, IsHonest, check_and_mark-succeeded, mark_success-succeeded, mark_failed-succeeded,
}
use fluxa.Store.{find_event, has_event}
use fluxa.Store.Events.{insert_event_frame}
use fluxa.Processor.Defs.{
  Processor, processed_total, stored_key, observe_process, fetch_payload, check_payload,
  evaluate_fraud, finish, persist, work, process, fail_permanent, process_message,
}
use fluxa.Processor.Steps.{
  fetch_payload_frame, check_payload_frame, evaluate_fraud_frame, finish_events,
}
use fluxa.Processor.Outcome.{insert_of, work_stores}
use fluxa.Processor.Stored.{process_message_keeps}

-- Every key that says success has its event in the table.
abbrev pub IsBacked : World → Type 0
IsBacked w = (id : String) → succeeded id w.keys ≡ true → has_event id w ≡ true

module _ (env : Env) (p : Processor) where
  -- What is stored stays stored.
  pub process_message_has :
      (msg : QueueMessage) (id : String) (w : World)
      → has_event id w ≡ true
      → has_event id (process_message env p msg w).1 ≡ true
  process_message_has msg id w h = elim (Option-cases (find_event id w)) [
    | inl absent ↦ absurd (ground arith)
    | inr (old, found) ↦ ground (arith, process_message_keeps env p msg id old w found)
  ]

  finish-succeeded :
      (msg : QueueMessage) (e : Event) (j : String) (w : World)
      → succeeded j (finish env p msg e w).1.keys ≡ true
      → (succeeded j w.keys ≡ true) ⊎ (msg.event_id ≡ j)
  unfolding finish
  finish-succeeded msg e j w h =
      let w1 = (observe_process w).1 in
      let w2 = (evaluate_fraud env p e w1).1 in
      ground (arith, evaluate_fraud_frame env p e w1, mark_success-succeeded env msg.event_id j w2)

  -- A success that an attempt adds is the message's own, and the attempt ends without an error.
  persist-succeeded :
      (msg : QueueMessage) (e : Event) (j : String) (w : World)
      → succeeded j (persist env p msg e w).1.keys ≡ true
      → (succeeded j w.keys ≡ true) ⊎ ((msg.event_id ≡ j) × ((persist env p msg e w).0 ≡ none))
  unfolding persist
  persist-succeeded msg e j w h =
      let key = stored_key msg.payload_mode msg.s3_key in
      let w1 = (insert_of env msg e w).1 in
      ground (
        arith,
        insert_event_frame env e msg.correlation_id msg.payload_mode key w,
        finish-succeeded msg e j w1,
        finish_events env p msg e w1,
      )

  work-succeeded :
      (msg : QueueMessage) (j : String) (w : World)
      → succeeded j (work env p msg w).1.keys ≡ true
      → (succeeded j w.keys ≡ true) ⊎ ((msg.event_id ≡ j) × ((work env p msg w).0 ≡ none))
  unfolding work
  work-succeeded msg j w h =
      let (payload, w1) = fetch_payload env msg.payload_mode msg.payload_inline msg.s3_key w in
      let fetched = fetch_payload_frame env msg.payload_mode msg.payload_inline msg.s3_key w in
      elim (Result-cases payload) [
        | inr (y, unfetched) ↦ ground arith
        | inl (bytes, got) ↦
            let w2 = (check_payload env msg bytes w1).1 in
            let same = check_payload_frame env msg bytes w1 in
            elim (Result-cases (check_payload env msg bytes w1).0) [
              | inr (y, bad) ↦ ground arith
              | inl (e, good) ↦ ground (arith, persist-succeeded msg e j w2)
            ]
      ]

  process-succeeded :
      (msg : QueueMessage) (j : String) (w : World)
      → IsHonest env
      → succeeded j (process env p msg w).1.keys ≡ true
      → (succeeded j w.keys ≡ true)
        ⊎ ((has_event j (process env p msg w).1 ≡ true) × ((process env p msg w).0 ≡ none))
  unfolding process
  process-succeeded msg j w honest h =
      let (c, w1) = check_and_mark env msg.event_id w in
      let before = check_and_mark-succeeded env msg.event_id j w honest in
      elim (Result-cases c) [
        | inr (x, failed) ↦ ground (arith, before)
        | inl (already, claimed) ↦ elim (Bool-cases already) [
          | inl skip ↦ ground (arith, before)
          | inr mine ↦ elim (work-succeeded msg j w1 (ground arith)) [
            | inl old ↦ inl (before old)
            | inr (this, finished) ↦
                let stored = work_stores env p msg w1 (work env p msg w1).1 (ground arith) in
                inr (ground arith)
          ]
        ]
      ]

  fail_permanent-succeeded :
      (id reason j : String) (w : World)
      → succeeded j (fail_permanent env id reason w).1.keys ≡ true
      → succeeded j w.keys ≡ true
  unfolding fail_permanent
  fail_permanent-succeeded id reason j w h =
      ground (arith, mark_failed-succeeded env id reason j (processed_total false w).1)

  -- Whatever is refused or left unconfirmed, and as long as the other processors do not mark an
  -- event as processed in the middle of a claim: after every message a key says success only if
  -- its event is stored, if that was so before.
  pub process_message-IsBacked :
      (msg : QueueMessage) (w : World)
      → IsHonest env
      → IsBacked w
      → IsBacked (process_message env p msg w).1
  unfolding process_message
  process_message-IsBacked msg w honest backed j h =
      let (r, w1) = process env p msg w in
      let kept = λ (old : succeeded j w.keys ≡ true). process_message_has msg j w (backed j old) in
      elim (Option-cases r) [
        | inl finished ↦ elim (process-succeeded msg j w honest (ground arith)) [
          | inl old ↦ kept old
          | inr (stored, _) ↦ ground arith
        ]
        | inr (e, stopped) ↦ elim (Bool-cases (is_non_retryable e)) [
          | inl permanent ↦
              let failed = fail_permanent-succeeded msg.event_id (error_text e) j w1 in
              elim (process-succeeded msg j w honest (failed (ground arith))) [
                | inl old ↦ kept old
                | inr (_, finished) ↦ absurd (ground arith)
              ]
          | inr transient ↦ elim (process-succeeded msg j w honest (ground arith)) [
            | inl old ↦ kept old
            | inr (_, finished) ↦ absurd (ground arith)
          ]
        ]
      ]
