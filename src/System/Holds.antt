-- ===== src/System/Holds.antt =====
-- Which events the table of keys keeps from being worked on within a minute, and that a delivery that
-- is put back only adds one of them.
use fluxa.Base.{
  ℕ, ◌+◌, ◌≤◌, ◌<◌, ◌==◌, String, Bool, true, false, ◌&&◌, ◌||◌, Option, none, some, List, ◌≡◌,
  refl, inl, inr, arith, leb, eq_iff, find_row, find_row-update_rows, find_row-update_rows_ne,
  Bool-cases, Option-cases,
}
use fluxa.Domain.{Time, minute, ok, QueueMessage, IdempotencyKeyRecord}
use fluxa.World.{Env, World, key_key}
use fluxa.Idempotency.{is_success, is_processing, find_key, retry_key}
use fluxa.Idempotency.Skips.{is_settled, keys_after, IsQuiet}
use fluxa.Processor.{Processor, process_message}
use fluxa.Processor.Redelivery.{nack-keys_after}
use fluxa.Consumer.{nacked, consume_event}
use fluxa.Consumer.Settle.{process_message_fails, consume_event_nacked}

-- An event that succeeded, or whose claim is not older than `t`.
abbrev pub is_held : Time → Option IdempotencyKeyRecord → Bool
is_held t none = false
is_held t (some r) = is_success r.status || (is_processing r.status && leb t r.last_seen_at)

-- All that happens falls into the minute from `t`.
abbrev pub IsWithinMinute : Env → Time → Type 0
IsWithinMinute env t = (n : ℕ) → (t ≤ env.now n) × (env.now n < t + minute)

held_settled :
    (t now : Time) (o : Option IdempotencyKeyRecord)
    → now < t + minute
    → is_held t o ≡ true
    → is_settled now o ≡ true
held_settled t now none h e = cc
held_settled t now (some r) h e = ground arith

-- The claim holds its own event and takes no other event's hold away.
keys_after_holds :
    (t now : Time) (id : String) (keys : List IdempotencyKeyRecord)
    → t ≤ now
    → is_settled now (find_row key_key id keys) ≡ false
    → is_held t (find_row key_key id (keys_after now id (find_row key_key id keys) keys)) ≡ true
unfolding find_row
keys_after_holds t now id keys h new = elim (Option-cases (find_row key_key id keys)) [
  | inl fresh ↦ ground (arith, eq_iff id id)
  | inr (r, found) ↦
      ground (arith, find_row-update_rows key_key id (retry_key now) keys (λ _. refl))
]

keys_after_other :
    (now : Time) (id other : String) (keys : List IdempotencyKeyRecord)
    → (id == other) ≡ false
    → find_row key_key other (keys_after now id (find_row key_key id keys) keys)
      ≡ find_row key_key other keys
unfolding find_row
keys_after_other now id other keys ne = elim (Option-cases (find_row key_key id keys)) [
  | inl fresh ↦ ground arith
  | inr (r, found) ↦
      ground (arith, find_row-update_rows_ne key_key id other (retry_key now) keys (λ _. refl))
]

module _ (env : Env) (p : Processor) (t : Time) where
  -- A delivery that is put back was of an event that was not held, and holds it from then on; all
  -- events that were held still are.
  pub nacked_holds :
      (body : String) (w : World)
      → IsQuiet env
      → IsWithinMinute env t
      → (consume_event env p body w).0 ≡ nacked
      → (msg : QueueMessage) × (env.codec.parse_message body ≡ ok msg)
        × (is_held t (find_key msg.event_id w) ≡ false)
        × (is_held t (find_key msg.event_id (consume_event env p body w).1) ≡ true)
        × ((id : String)
            → is_held t (find_key id w) ≡ true
            → is_held t (find_key id (consume_event env p body w).1) ≡ true)
  unfolding consume_event
  nacked_holds body w quiet minute back =
      let lost = (consume_event_nacked env p body w).0 back in
      let msg = lost.msg in
      let x = lost.reason in
      let parsed = lost.parses in
      let failed = process_message_fails env p msg x w lost.stopped lost.transient in
      let now = env.now (w.tick + 1) in
      let (since, until) = minute (w.tick + 1) in
      let w1 = (process_message env p msg w).1 in
      let (new, keys) = nack-keys_after env p msg x w w1 quiet (ground (arith, failed)) in
      let own = keys_after_holds t now msg.event_id w.keys since new in
      let same : (consume_event env p body w).1 ≡ w1 = ground (arith, parsed, failed) in
      (
        msg,
        parsed,
        ground (arith, held_settled t now (find_key msg.event_id w)),
        rw (same, keys) own,
        λ id held.
            rw (same, keys)
              (elim (Bool-cases (msg.event_id == id)) [
                | inl this ↦ ground (arith, eq_iff msg.event_id id)
                | inr other ↦ ground (arith, keys_after_other now msg.event_id id w.keys other)
              ]),
      )
