-- ===== src/Examples/Data.antt =====
-- An environment in which every call succeeds and the clock stands at one minute past the event,
-- an event, its message and empty stores.
use fluxa.Base.{nat_eq, ◌+◌, ◌*◌, true, none, some, [], ◌∷◌, pos, if◌then◌else◌}
use fluxa.Domain.{
  Time, minute, finite, zero_float, plain, ok, err, Event, inline, s3, QueueMessage, processing,
  success, IdempotencyKeyRecord, RulesConfig,
}
use fluxa.World.{Codec, Env, World, done, refused, EventRow}
use fluxa.Engine.{Engine, Scorer}
use fluxa.Processor.{Processor}

abbrev pub noon : Time
noon = 1000 * minute

abbrev pub payment : Event
payment = record {
  event_id = "e1";
  user_id = "u1";
  amount = finite (pos 5);
  currency = "XMR";
  merchant = "Target";
  timestamp = noon;
  metadata = none;
}

abbrev pub codec : Codec
codec = record {
  sha256_hex = λ s. s;
  print_event = λ e. ok "payload";
  parse_event = λ s. ok payment;
  decode_event = λ s. ok payment;
  print_message = λ m. ok "message";
  parse_message = λ s. err (plain "not used");
  print_alert = λ a. ok "alert";
  parse_alert = λ s. err (plain "not used");
  print_fraud_event = λ f. ok "fraud";
  print_metadata = λ m. ok "{}";
  parse_metadata = λ s. ok none;
  decimal = λ x. x;
  sum_decimals = λ xs. zero_float;
  fixed = λ n x. "1.00";
  itoa = λ z. "1";
  quote = λ s. s;
  atoi = λ s. none;
  format_float = λ x. "1";
  format_seconds = λ t. "1";
  to_lower = λ s. s;
  format_date = λ t. "2026-01-01";
  format_time = λ t. if nat_eq t noon then "2026-01-01T12:00:00Z" else "2026-01-01T12:01:00Z";
}

abbrev pub calm : Env
calm = record {
  codec = codec;
  now = λ n. noon + minute;
  db_now = λ n. noon + minute;
  new_uuid = λ n. "id";
  reply = λ n. done;
  others = λ n keys. keys;
  aborts = true;
}

abbrev pub empty : World
empty = record {
  events = [];
  keys = [];
  flags = [];
  objects = [];
  published = [];
  samples = [];
  tick = 0;
}

abbrev pub rules : RulesConfig
rules = record {
  amount_threshold = finite (pos 3);
  velocity_window_seconds = pos 60;
  velocity_max_count = pos 3;
  blocked_merchants = "Target" ∷ [];
  high_risk_currencies = "XMR" ∷ "ZEC" ∷ [];
}

abbrev pub engine : Engine
engine = record { rules = rules; tau = finite (pos 4) }

abbrev pub risky : Scorer
risky f n = ok (finite (pos 9), "v1")

abbrev pub broken : Scorer
broken f n = err (plain "scorer down")

abbrev pub processor : Processor
processor = record { fraud = some engine; scorer = some risky; has_publisher = true }

abbrev pub message : QueueMessage
message = record {
  event_id = "e1";
  correlation_id = "c1";
  payload_mode = inline;
  payload_inline = some "payload";
  payload_sha256 = "payload";
  s3_key = none;
  received_at = noon;
}

-- The same payload, by way of the object store.
abbrev pub stored_message : QueueMessage
stored_message = record message { payload_mode = s3; payload_inline = none; s3_key = some "key" }

abbrev pub forged_message : QueueMessage
forged_message = record message { payload_sha256 = "other" }

abbrev pub claimed_key : IdempotencyKeyRecord
claimed_key = record {
  event_id = "e1";
  status = processing;
  first_seen_at = noon;
  last_seen_at = noon + minute;
  attempts = 1;
  error_reason = none;
}

abbrev pub settled_key : IdempotencyKeyRecord
settled_key = record claimed_key { status = success }

abbrev pub claimed_world : World
claimed_world = record empty { keys = claimed_key ∷ [] }

abbrev pub settled_world : World
settled_world = record empty { keys = settled_key ∷ [] }

abbrev pub row : EventRow
row = record {
  event_id = "e1";
  correlation_id = "c1";
  user_id = "u1";
  amount = finite (pos 5);
  currency = "XMR";
  merchant = "Target";
  ts = noon;
  metadata_json = "{}";
  payload_mode = inline;
  s3_key = none;
  created_at = noon;
}

abbrev pub one_event : World
one_event = record empty { events = row ∷ [] }

-- Another processor inserts the key before the fourth call.
abbrev pub racing : Env
racing = record calm { others = λ n keys. claimed_key ∷ keys }

abbrev pub dash_payment : Event
dash_payment = record payment { currency = "DASH" }

-- The payload is an event in a currency of four letters.
abbrev pub dashing : Env
dashing = record calm { codec = record codec { parse_event = λ s. ok dash_payment } }

-- The sixth call fails: the read of the object store, for `stored_message`.
abbrev pub flaky : Env
flaky = record calm { reply = λ n. if nat_eq n 5 then refused (plain "timeout") else done }
