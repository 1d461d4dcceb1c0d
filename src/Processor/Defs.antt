-- ===== src/Processor/Defs.antt =====
-- `ProcessMessage` and its steps. Log lines are left out.
use fluxa.Base.{String, ◌==◌, Bool, true, false, Option, none, some, List, [], ◌∷◌, if◌then◌else◌}
use fluxa.Domain.{
  Float64, GoError, new_retryable_error, new_non_retryable_error, is_non_retryable, error_text,
  invalid_event, Result, ok, err, Event, validate, PayloadMode, inline, s3, other, QueueMessage,
  FraudFlag, alert_message,
}
use fluxa.World.{
  Env, M, pure, ◌>>=◌, ◌>>◌, on_error, on_result, time_now, inc_counter, observe_histogram,
}
use fluxa.Idempotency.{check_and_mark, mark_success, mark_failed}
use fluxa.Store.{insert_event, insert_fraud_flag}
use fluxa.Engine.{Engine, Scorer, store_querier, evaluate_with_scorer}
use fluxa.Ports.{storage_get, publish}

-- The optional parts of a `Processor`; the database, the stores and the metrics are the world's.
pub record Processor : Type 0 where
  pub fraud : Option Engine
  pub scorer : Option Scorer
  pub has_publisher : Bool

abbrev pub processed_total : Bool → M (Unit {0})
processed_total success =
    inc_counter "events_processed_total"
      ("service" ∷ "processor" ∷ "status" ∷ (if success then "success" else "failure") ∷ [])

abbrev pub observe_process : M (Unit {0})
observe_process = observe_histogram "process_latency_seconds" ("service" ∷ "processor" ∷ [])

-- `if msg.PayloadMode == PayloadModeS3 { s3Key = msg.S3Key }`.
abbrev pub stored_key : PayloadMode → Option String → Option String
stored_key s3 key = key
stored_key _ key = none

module _ (env : Env) where
  -- Step 2, by the payload mode.
  unfoldable pub fetch_payload : PayloadMode → Option String → Option String → M (Result String)
  fetch_payload inline none key = pure (err (new_non_retryable_error "missing_payload" none))
  fetch_payload inline (some payload) key = pure (ok payload)
  fetch_payload s3 payload none = pure (err (new_non_retryable_error "missing_s3_key" none))
  fetch_payload s3 payload (some key) = do
    body ← storage_get env key
    on_result body
        (λ e. do
          processed_total false
          pure (err (new_retryable_error "storage_fetch_failed" (some e))))
        (λ bytes. pure (ok bytes))
  fetch_payload (other _) payload key =
      pure (err (new_non_retryable_error "invalid_payload_mode" none))

  -- Steps 3 and 4: the hash, the JSON, the validation; then the message's id.
  unfoldable pub check_payload : QueueMessage → String → M (Result Event)
  check_payload msg bytes = do
    now ← time_now env
    if env.codec.sha256_hex bytes == msg.payload_sha256
        then on_result (env.codec.parse_event bytes)
            (λ e. pure (err (new_non_retryable_error "unmarshal_error" (some e))))
            (λ event. elim (validate now event) [
              | some x ↦
                  pure (err (new_non_retryable_error "validation_error" (some (invalid_event x))))
              | none ↦ pure (ok (record event { event_id = msg.event_id }))
            ])
        else pure (err (new_non_retryable_error "hash_mismatch" none))

  -- The body of the loop of `evaluateFraud`. A flag that is not stored is not announced.
  unfoldable pub raise_one : Bool → Float64 → FraudFlag → M (Unit {0})
  raise_one has_publisher score flag =
      let scored = record flag { ml_score = score } in
      do
        failure ← insert_fraud_flag env scored
        on_error failure (λ _. pure tt)
            (do
              inc_counter "fraud_flags_total" ("rule" ∷ flag.rule_name ∷ [])
              on_result (env.codec.print_alert (alert_message scored)) (λ _. pure tt)
                  (λ body.
                    if has_publisher
                    then (do failure ← publish env "alerts" "" body; pure tt)
                    else pure tt))

  unfoldable pub raise_flags : Bool → Float64 → List FraudFlag → M (Unit {0})
  raise_flags has_publisher score [] = pure tt
  raise_flags has_publisher score (flag ∷ flags) = do
    raise_one has_publisher score flag
    raise_flags has_publisher score flags

  -- `evaluateFraud`.
  unfoldable pub evaluate_fraud : Processor → Event → M (Unit {0})
  unfolding raise_flags
  evaluate_fraud p event = elim p.fraud [
    | none ↦ pure tt
    | some engine ↦ do
      (flags, score, version) ← evaluate_with_scorer env engine event (store_querier env) p.scorer
      raise_flags p.has_publisher score flags
  ]

  -- Steps 5.5 and 6, for an event that is stored.
  unfoldable pub finish : Processor → QueueMessage → Event → M (Option GoError)
  finish p msg event = do
    observe_process
    evaluate_fraud p event
    marked ← mark_success env msg.event_id
    processed_total true
    observe_process
    pure none

  -- Steps 5 to 6.
  unfoldable pub persist : Processor → QueueMessage → Event → M (Option GoError)
  persist p msg event = do
    failure ←
        insert_event env event msg.correlation_id msg.payload_mode
          (stored_key msg.payload_mode msg.s3_key)
    on_error failure
        (λ e. do
          processed_total false
          pure (some (new_retryable_error "db_insert_failed" (some e))))
        (finish p msg event)

  -- Steps 2 to 6, for an event that the caller has claimed.
  unfoldable pub work : Processor → QueueMessage → M (Option GoError)
  work p msg = do
    payload ← fetch_payload msg.payload_mode msg.payload_inline msg.s3_key
    on_result payload (λ e. pure (some e))
        (λ bytes. do
          checked ← check_payload msg bytes
          on_result checked (λ e. pure (some e)) (λ event. persist p msg event))

  -- `process`.
  unfoldable pub process : Processor → QueueMessage → M (Option GoError)
  process p msg = do
    claim ← check_and_mark env msg.event_id
    on_result claim
        (λ e. do
          processed_total false
          pure (some (new_retryable_error "idempotency_check_failed" (some e))))
        (λ already. if already then pure none else work p msg)

  -- `failPermanent`.
  unfoldable pub fail_permanent : String → String → M (Option GoError)
  fail_permanent id reason = do processed_total false; marked ← mark_failed env id reason; pure none

  -- `ProcessMessage`: `none` is acknowledged, an error is returned to the queue.
  unfoldable pub process_message : Processor → QueueMessage → M (Option GoError)
  process_message p msg = do
    failure ← process p msg
    on_error failure
        (λ e.
          if is_non_retryable e then fail_permanent msg.event_id (error_text e) else pure (some e))
        (pure none)
