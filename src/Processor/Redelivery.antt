-- ===== src/Processor/Redelivery.antt =====
-- What happens to a message that is put back into the queue: the claim that its first delivery
-- took is still in the table, so a second delivery within the minute takes it for settled.
use fluxa.Base.{
  if◌then◌else◌, ◌+◌, ◌<◌, String, Bool, true, false, none, some, ◌≡◌, ◌∙◌, inl, inr, arith,
  Option-cases, Bool-cases,
}
use fluxa.Domain.{
  Time, minute, GoError, Result-cases, ok, Event, is_non_retryable, error_text, QueueMessage,
  IdempotencyKeyRecord,
}
use fluxa.World.{Env, World, done, next}
use fluxa.Idempotency.{check_and_mark, find_key}
use fluxa.Idempotency.Claims.{IsClaimed, check_and_mark-IsClaimed}
use fluxa.Idempotency.Skips.{
  is_settled, keys_after, IsQuiet, check_and_mark_skips, check_and_mark_decides,
}
use fluxa.Store.{insert_event}
use fluxa.Store.Events.{insert_event_frame}
use fluxa.Processor.Defs.{
  Processor, stored_key, fetch_payload, check_payload, persist, work, process, process_message,
}
use fluxa.Processor.Steps.{
  fetch_payload_frame, check_payload_frame, finish_events, fail_permanent_frame,
}

module _ (env : Env) (p : Processor) where
  persist_nack-keys :
      (msg : QueueMessage) (e : Event) (x : GoError) (w w' : World)
      → persist env p msg e w ≡ (some x, w')
      → w'.keys ≡ w.keys
  unfolding persist
  persist_nack-keys msg e x w w' h =
      let key = stored_key msg.payload_mode msg.s3_key in
      let w1 = (insert_event env e msg.correlation_id msg.payload_mode key w).1 in
      ground (
        arith,
        insert_event_frame env e msg.correlation_id msg.payload_mode key w,
        finish_events env p msg e w1,
      )

  work_nack-keys :
      (msg : QueueMessage) (x : GoError) (w w' : World)
      → work env p msg w ≡ (some x, w')
      → w'.keys ≡ w.keys
  unfolding work
  work_nack-keys msg x w w' h =
      let (payload, w1) = fetch_payload env msg.payload_mode msg.payload_inline msg.s3_key w in
      let fetched_frame =
        fetch_payload_frame env msg.payload_mode msg.payload_inline msg.s3_key w in
      elim (Result-cases payload) [
        | inr (y, unfetched) ↦ ground arith
        | inl (bytes, fetched) ↦
            let checked_frame = check_payload_frame env msg bytes w1 in
            elim (Result-cases (check_payload env msg bytes w1).0) [
              | inr (y, bad) ↦ ground arith
              | inl (e, good) ↦
                  let same =
                    persist_nack-keys msg e x (check_payload env msg bytes w1).1 w'
                      (ground arith) in
                  ground arith
            ]
      ]

  process_claimed :
      (msg : QueueMessage) (b : Bool) (w w1 : World)
      → check_and_mark env msg.event_id w ≡ (ok b, w1)
      → process env p msg w ≡ (if b then (none, w1) else work env p msg w1)
  unfolding process
  process_claimed msg true w w1 claimed = rw claimed
  process_claimed msg false w w1 claimed = rw claimed

  -- A delivery that took the claim and is put back leaves the claim as it was.
  nack-keys :
      (msg : QueueMessage) (x : GoError) (w w1 w' : World)
      → check_and_mark env msg.event_id w ≡ (ok false, w1)
      → process_message env p msg w ≡ (some x, w')
      → w'.keys ≡ w1.keys
  unfolding process_message
  nack-keys msg x w w1 w' claimed h =
      let (r, w2) = work env p msg w1 in
      let worked = process_claimed msg false w w1 claimed in
      elim (Option-cases r) [
        | inl finished ↦ absurd (ground arith)
        | inr (y, stopped) ↦ elim (Bool-cases (is_non_retryable y)) [
          | inl permanent ↦
              absurd (ground (arith, fail_permanent_frame env msg.event_id (error_text y) w2))
          | inr transient ↦ let same = work_nack-keys msg y w1 w2 (ground arith) in ground arith
        ]
      ]

  -- Where no call fails and no other processor writes, a delivery is put back only if it took the
  -- claim, and the table is then as the claim left it.
  pub nack-keys_after :
      (msg : QueueMessage) (x : GoError) (w w' : World)
      → IsQuiet env
      → process_message env p msg w ≡ (some x, w')
      → let now = env.now (w.tick + 1) in
        (is_settled now (find_key msg.event_id w) ≡ false)
        × (w'.keys ≡ keys_after now msg.event_id (find_key msg.event_id w) w.keys)
  unfolding process_message
  nack-keys_after msg x w w' quiet nacked =
      let now = env.now (w.tick + 1) in
      let w1 = (check_and_mark env msg.event_id w).1 in
      let (decided, keys) = check_and_mark_decides env msg.event_id w quiet in
      elim (Bool-cases (is_settled now (find_key msg.event_id w))) [
        | inl settled ↦
            let skipped : check_and_mark env msg.event_id w ≡ (ok true, w1) = ground arith in
            absurd (ground (arith, process_claimed msg true w w1 skipped))
        | inr new ↦
            let mine : check_and_mark env msg.event_id w ≡ (ok false, w1) = ground arith in
            (new, nack-keys msg x w w1 w' mine nacked ∙ keys)
      ]

  still_settled :
      (id : String) (at now : Time) (w w1 : World)
      → w.keys ≡ w1.keys
      → IsClaimed at id w1
      → now < at + minute
      → (r : IdempotencyKeyRecord) × (find_key id w ≡ some r) × (is_settled now (some r) ≡ true)
  still_settled id at now w w1 same claim soon = elim (Option-cases (find_key id w)) [
    | inl missing ↦ absurd (ground arith)
    | inr (r, found) ↦ (r, found, ground arith)
  ]

  -- A message that was claimed and put back for a retry, and that comes again while the claim is
  -- less than a minute old and the database answers, is acknowledged without any work: only the
  -- number of calls grows.
  pub redelivery_dropped :
      (msg : QueueMessage) (x : GoError) (w w1 w' : World)
      → check_and_mark env msg.event_id w ≡ (ok false, w1)
      → process_message env p msg w ≡ (some x, w')
      → env.now (w'.tick + 1) < env.now (w.tick + 1) + minute
      → env.reply w'.tick ≡ done
      → env.reply (w'.tick + 2) ≡ done
      → env.reply (w'.tick + 3) ≡ done
      → process_message env p msg w' ≡ (none, next (next (next (next w'))))
  unfolding process_message
  redelivery_dropped msg x w w1 w' claimed nacked soon r0 r2 r3 =
      let claim = check_and_mark-IsClaimed env msg.event_id w w1 claimed in
      let kept = nack-keys msg x w w1 w' claimed nacked in
      let (r, found, settled) =
        still_settled msg.event_id (env.now (w.tick + 1)) (env.now (w'.tick + 1)) w' w1 kept claim
          soon in
      let skips = check_and_mark_skips env msg.event_id r w' found settled r0 r2 r3 in
      let finished = process_claimed msg true w' (next (next (next (next w')))) skips in
      ground arith
