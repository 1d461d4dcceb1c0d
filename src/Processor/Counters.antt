-- ===== src/Processor/Counters.antt =====
-- The metric events_processed_total: one sample for each message that is not skipped.
use fluxa.Base.{
  if◌then◌else◌, ◌==◌, ℕ, suc, ◌+◌, String, Bool, true, false, Option, none, some, List, [], ◌∷◌,
  ◌≡◌, refl, inl, inr, arith, Option-cases, Bool-cases,
}
use fluxa.Domain.{
  Float64, GoError, Result, Result-cases, ok, err, Event, is_non_retryable, error_text, PayloadMode,
  inline, s3, other, QueueMessage, FraudFlag,
}
use fluxa.World.{Env, World, Sample, counter, histogram, read, write}
use fluxa.Idempotency.{check_and_mark, mark_failed}
use fluxa.Idempotency.Frame.{check_and_mark_frame, mark_success_frame}
use fluxa.Store.{insert_event, insert_fraud_flag}
use fluxa.Store.Events.{insert_event_frame}
use fluxa.Engine.Frame.{evaluate_with_scorer_frame}
use fluxa.Ports.{storage_get, publish}
use fluxa.Processor.Defs.{
  Processor, stored_key, observe_process, fetch_payload, check_payload, raise_one, raise_flags,
  evaluate_fraud, finish, persist, work, process, fail_permanent, process_message,
}
use fluxa.Processor.Steps.{check_payload_frame}

abbrev pub processed : List Sample → ℕ
processed [] = 0
processed (counter name labels ∷ ss) =
    let n = processed ss in if name == "events_processed_total" then suc n else n
processed (histogram name labels ∷ ss) = processed ss

abbrev count : World → ℕ
count w = processed w.samples

-- How many samples a step adds: none where it fails for good (that is counted later), one else.
abbrev counted : Option GoError → ℕ
counted none = 1
counted (some e) = if is_non_retryable e then 0 else 1

abbrev counted_fetch : Result String → ℕ
counted_fetch (ok _) = 0
counted_fetch (err e) = if is_non_retryable e then 0 else 1

-- Whether the delivery was skipped.
abbrev pub is_skip : Result Bool → Bool
is_skip (ok b) = b
is_skip (err _) = false

module _ (env : Env) (p : Processor) where
  fetch_payload-count :
      (mode : PayloadMode) (payload key : Option String) (w : World)
      → count (fetch_payload env mode payload key w).1
        ≡ count w + counted_fetch (fetch_payload env mode payload key w).0
  unfolding fetch_payload storage_get read
  fetch_payload-count inline none key w = ground arith
  fetch_payload-count inline (some b) key w = ground arith
  fetch_payload-count s3 b none w = ground arith
  fetch_payload-count s3 b (some k) w = ground arith
  fetch_payload-count (other s) b key w = ground arith

  raise_one-count :
      (pubs : Bool) (score : Float64) (f : FraudFlag) (w : World)
      → count (raise_one env pubs score f w).1 ≡ count w
  unfolding raise_one insert_fraud_flag publish write
  raise_one-count pubs score f w = ground arith

  raise_flags-count :
      (pubs : Bool) (score : Float64) (fs : List FraudFlag) (w : World)
      → count (raise_flags env pubs score fs w).1 ≡ count w
  unfolding raise_flags
  raise_flags-count pubs score [] w = refl
  raise_flags-count pubs score (f ∷ fs) w = ground (
    arith,
    raise_one-count pubs score f w,
    raise_flags-count pubs score fs (raise_one env pubs score f w).1,
  )

  evaluate_fraud-count : (e : Event) (w : World) → count (evaluate_fraud env p e w).1 ≡ count w
  unfolding evaluate_fraud
  evaluate_fraud-count e w = elim (Option-cases p.fraud) [
    | inl absent ↦ ground arith
    | inr (engine, present) ↦ grind (arith, evaluate_with_scorer_frame, raise_flags-count)
  ]

  finish-count :
      (msg : QueueMessage) (e : Event) (w : World)
      → (count (finish env p msg e w).1 ≡ count w + 1) × ((finish env p msg e w).0 ≡ none)
  unfolding finish
  finish-count msg e w =
      let w1 = (observe_process w).1 in
      let w2 = (evaluate_fraud env p e w1).1 in
      ground (arith, evaluate_fraud-count e w1, mark_success_frame env msg.event_id w2)

  persist-count :
      (msg : QueueMessage) (e : Event) (w : World)
      → count (persist env p msg e w).1 ≡ count w + counted (persist env p msg e w).0
  unfolding persist
  persist-count msg e w =
      let key = stored_key msg.payload_mode msg.s3_key in
      let w1 = (insert_event env e msg.correlation_id msg.payload_mode key w).1 in
      ground (
        arith,
        insert_event_frame env e msg.correlation_id msg.payload_mode key w,
        finish-count msg e w1,
      )

  check_payload_permanent :
      (msg : QueueMessage) (bytes : String) (x : GoError) (w : World)
      → (check_payload env msg bytes w).0 ≡ err x
      → is_non_retryable x ≡ true
  unfolding check_payload
  check_payload_permanent msg bytes x w h = ground arith

  work-count :
      (msg : QueueMessage) (w : World)
      → count (work env p msg w).1 ≡ count w + counted (work env p msg w).0
  unfolding work
  work-count msg w =
      let (payload, w1) = fetch_payload env msg.payload_mode msg.payload_inline msg.s3_key w in
      let fetched_count = fetch_payload-count msg.payload_mode msg.payload_inline msg.s3_key w in
      elim (Result-cases payload) [
        | inr (y, unfetched) ↦ ground arith
        | inl (bytes, fetched) ↦
            let w2 = (check_payload env msg bytes w1).1 in
            let same = check_payload_frame env msg bytes w1 in
            elim (Result-cases (check_payload env msg bytes w1).0) [
              | inr (y, bad) ↦ ground (arith, check_payload_permanent msg bytes y w1 bad)
              | inl (e, good) ↦ ground (arith, persist-count msg e w2)
            ]
      ]

  fail_permanent-count :
      (id reason : String) (w : World) → count (fail_permanent env id reason w).1 ≡ count w + 1
  unfolding fail_permanent mark_failed write
  fail_permanent-count id reason w = ground arith

  process-count :
      (msg : QueueMessage) (w : World)
      → count (process env p msg w).1
        ≡ count w
          + (if is_skip (check_and_mark env msg.event_id w).0
              then 0
              else counted (process env p msg w).0)
  unfolding process
  process-count msg w =
      let (c, w1) = check_and_mark env msg.event_id w in
      let frame = check_and_mark_frame env msg.event_id w in
      elim (Result-cases c) [
        | inr (x, failed) ↦ ground arith
        | inl (already, claimed) ↦ elim (Bool-cases already) [
          | inl skip ↦ ground arith
          | inr mine ↦ ground (arith, work-count msg w1)
        ]
      ]

  skip_finishes :
      (msg : QueueMessage) (w : World)
      → is_skip (check_and_mark env msg.event_id w).0 ≡ true
      → (process env p msg w).0 ≡ none
  unfolding process
  skip_finishes msg w h = ground arith

  -- Every delivery adds exactly one sample to events_processed_total, whether it succeeds, fails
  -- for good or goes back to the queue; only a skipped delivery adds none.
  process_message-processed :
      (msg : QueueMessage) (w : World)
      → processed (process_message env p msg w).1.samples
        ≡ processed w.samples + (if is_skip (check_and_mark env msg.event_id w).0 then 0 else 1)
  unfolding process_message
  process_message-processed msg w =
      let (r, w1) = process env p msg w in
      let counts = process-count msg w in
      elim (Option-cases r) [
        | inl finished ↦ ground arith
        | inr (e, stopped) ↦
            ground (arith, fail_permanent-count msg.event_id (error_text e) w1, skip_finishes msg w)
      ]
