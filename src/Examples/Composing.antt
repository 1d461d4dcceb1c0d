-- ===== src/Examples/Composing.antt =====
-- The services together.
use fluxa.Idempotency.{find_key}
use fluxa.Idempotency.Skips.{IsQuiet}
use fluxa.Domain.{minute}
use fluxa.Store.{has_event}
use fluxa.Processor.Success.{IsSuccessRow}
use fluxa.Consumer.{acked}
use fluxa.Ingest.Envelope.{IsEnqueued, within}
use fluxa.System.Delivered.{enqueued_delivered}
use fluxa.Base.{
  ◌+◌, ◌≡◌, ◌==◌, ◌&&◌, refl, String, Bool, true, false, Option, none, some, [], ◌∷◌, arith, nat_eq,
  count_rows, find_row, if◌then◌else◌,
}
use fluxa.Domain.{ok, err, plain, PayloadMode, inline, QueueMessage}
use fluxa.World.{Env, World, Published}
use fluxa.Idempotency.Succeeded.{IsHonest}
use fluxa.Ingest.{Request, handle_ingest}
use fluxa.FraudEval.{Server}
use fluxa.Consumer.{consume_event}
use fluxa.Metrics.Pipeline.{registered}
use fluxa.System.{ingest, settle, Reach, here, later}
use fluxa.System.Sound.{IsSound, Reach-IsSound, Reach_registered}
use fluxa.Examples.Data.{payment, calm, codec, empty, noon, engine, risky, processor}
use fluxa.Examples.Processing.{run}
use fluxa.Examples.Serving.{services}

-- The message that the ingest service makes of the payment, and a codec that knows only this one.
abbrev pub sent : QueueMessage
sent = record {
  event_id = "e1";
  correlation_id = "c1";
  payload_mode = inline;
  payload_inline = some "payload";
  payload_sha256 = "payload";
  s3_key = none;
  received_at = noon;
}

abbrev pub is_inline : PayloadMode → Bool
is_inline inline = true
is_inline _ = false

abbrev pub is_text : Option String → String → Bool
is_text none t = false
is_text (some s) t = s == t

abbrev pub is_none : Option String → Bool
is_none none = true
is_none (some _) = false

abbrev pub is_sent : QueueMessage → Bool
is_sent m =
    m.event_id == "e1"
    && m.correlation_id == "c1"
    && is_inline m.payload_mode
    && is_text m.payload_inline "payload"
    && m.payload_sha256 == "payload"
    && is_none m.s3_key
    && nat_eq m.received_at noon

abbrev pub exact : Env
exact = record calm {
  codec = record codec {
    print_message = λ m. if is_sent m then ok "message" else err (plain "unknown");
    parse_message = λ s. ok sent;
  };
}

exact-IsHonest : IsHonest exact
exact-IsHonest n keys j h = h

empty-IsSound : IsSound empty
unfolding count_rows find_row
empty-IsSound = record { once = λ id. omega arith; backed = λ id h. cc }

abbrev pub grpc : Server
grpc = record { engine = engine; version = "v1"; scorer = some risky }

abbrev pub to_events : Published → Bool
to_events m = m.exchange == "events"

abbrev pub request : Request
request = record { method = "POST"; correlation_id = "c1"; body = "{}" }

abbrev pub posted : World
posted = (handle_ingest exact request empty).1

-- The request is accepted, and its message is worked on.
pub accepted_and_stored :
    Reach exact processor grpc to_events
      (record { world = empty; queue = [] })
      (record { world = (consume_event exact processor "message" posted).1; queue = [] })
unfolding run services consume_event
accepted_and_stored =
    later
      (later here (
        ingest request
          (record { exchange = "events"; routing_key = "events"; body = "message" } ∷ []) refl))
      (settle "message" [] [] refl refl)

Reach-IsSound_example : IsSound (consume_event exact processor "message" posted).1
Reach-IsSound_example =
    Reach-IsSound exact processor grpc to_events exact-IsHonest empty-IsSound accepted_and_stored

Reach_registered_example :
    registered "processor" (consume_event exact processor "message" posted).1 ≡ true
Reach_registered_example =
    Reach_registered exact processor grpc to_events "processor" accepted_and_stored refl

pub exact-IsQuiet : IsQuiet exact
exact-IsQuiet = record { answers = λ n. refl; alone = λ n keys. refl }

unfoldable pub enqueued : IsEnqueued exact "e1" "c1" posted
unfolding run services
enqueued = record {
  event = payment;
  now = noon + minute;
  bytes = "payload";
  msg = sent;
  body = "message";
  older = [];
  named = refl;
  valid = refl;
  printed = refl;
  carried = within (omega arith) refl;
  encoded = refl;
  queued = refl;
}

enqueued_delivered_example :
    let (settlement, w) = consume_event exact processor "message" posted in
    (settlement ≡ acked) × (has_event "e1" w ≡ true) × IsSuccessRow (find_key "e1" w)
unfolding run services enqueued
enqueued_delivered_example =
    enqueued_delivered exact processor posted enqueued "{}" posted exact-IsQuiet refl refl refl refl
      (λ n. omega arith) refl (λ now. refl)
