-- ===== src/Ingest/Defs.antt =====
-- `handleIngest`. Log lines are left out, and of an answer the headers but X-Correlation-ID.
use Prim.Native.String.{len, ◌++◌ as ◌⊹◌}
use fluxa.Base.{ℕ, ◌*◌, String, ◌==◌, none, some, [], ◌∷◌, ltb, if◌then◌else◌}
use fluxa.Domain.{
  Time, Result, ok, err, invalid_event, error_text, Event, validate, inline, s3, QueueMessage,
}
use fluxa.World.{
  Env, M, pure, ◌>>=◌, ◌>>◌, on_error, on_result, time_now, fresh_uuid, inc_counter,
  observe_histogram,
}
use fluxa.Ports.{storage_put, publish}

abbrev pub max_inline_bytes : ℕ
max_inline_bytes = 256 * 1024

pub record Request : Type 0 where
  pub method : String
  pub correlation_id : String
  pub body : String

-- The answer: 202 with the event's and the correlation id, or a status with the error's text.
pub data Response : Type 0 where
  accepted : String → String → Response
  rejected : ℕ → String → Response

abbrev pub internal_error : Response
internal_error = rejected 500 "internal server error"

module _ (env : Env) where
  -- `if s == "" { s = uuid.New().String() }`.
  abbrev pub or_uuid : String → M String
  or_uuid s = if s == "" then fresh_uuid env else pure s

  abbrev pub object_key : Time → String → String
  object_key now id = "raw/" ⊹ (env.codec.format_date now ⊹ ("/" ⊹ (id ⊹ ".json")))

  abbrev pub inline_message : Event → String → String → QueueMessage
  inline_message e correlation bytes = record {
    event_id = e.event_id;
    correlation_id = correlation;
    payload_mode = inline;
    payload_inline = some bytes;
    payload_sha256 = env.codec.sha256_hex bytes;
    s3_key = none;
    received_at = e.timestamp;
  }

  abbrev pub s3_message : Event → String → String → String → QueueMessage
  s3_message e correlation bytes key = record {
    event_id = e.event_id;
    correlation_id = correlation;
    payload_mode = s3;
    payload_inline = none;
    payload_sha256 = env.codec.sha256_hex bytes;
    s3_key = some key;
    received_at = e.timestamp;
  }

  -- The envelope; a large payload is put into the object store first.
  unfoldable pub make_message : Event → String → String → M (Result QueueMessage)
  make_message e correlation bytes =
      if ltb max_inline_bytes (len bytes)
      then (do
        now ← time_now env
        let key = object_key now e.event_id
        failure ← storage_put env key bytes
        on_error failure (λ x. pure (err x)) (pure (ok (s3_message e correlation bytes key))))
      else pure (ok (inline_message e correlation bytes))

  unfoldable pub enqueue : Event → String → QueueMessage → M Response
  enqueue e correlation msg =
      on_result (env.codec.print_message msg) (λ _. pure internal_error)
        (λ body. do
          failure ← publish env "events" "events" body
          on_error failure (λ _. pure internal_error)
              (do
                inc_counter "events_ingested_total" ("service" ∷ "ingest" ∷ [])
                observe_histogram "ingest_latency_seconds" ("service" ∷ "ingest" ∷ [])
                pure (accepted e.event_id correlation)))

  -- From the event's id on.
  unfoldable pub ingest_event : Event → String → M Response
  ingest_event decoded correlation = do
    id ← or_uuid decoded.event_id
    let event = record decoded { event_id = id }
    now ← time_now env
    elim (validate now event) [
      | some x ↦ pure (rejected 400 ("validation failed: " ⊹ error_text (invalid_event x)))
      | none ↦
          on_result (env.codec.print_event event) (λ _. pure internal_error)
            (λ bytes. do
              message ← make_message event correlation bytes
              on_result message (λ _. pure internal_error) (λ msg. enqueue event correlation msg))
    ]

  -- `handleIngest`.
  unfoldable pub handle_ingest : Request → M Response
  handle_ingest r =
      if r.method == "POST"
      then (do
        start ← time_now env
        correlation ← or_uuid r.correlation_id
        on_result (env.codec.decode_event r.body)
            (λ x. do
              inc_counter "events_ingested_total" ("service" ∷ "ingest" ∷ [])
              pure (rejected 400 ("invalid JSON: " ⊹ error_text x)))
            (λ decoded. ingest_event decoded correlation))
      else pure (rejected 405 "method not allowed")
