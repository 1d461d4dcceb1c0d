-- ===== src/Examples/Reading.antt =====
-- The events table as its readers see it, after a payment was accepted and worked on.
use fluxa.Base.{String, ◌≢◌, arith, eq_iff, none, [], ◌≡◌, refl, pos}
use fluxa.Domain.{finite, inline}
use fluxa.World.{World}
use fluxa.Consumer.{consume_event}
use fluxa.Query.{EventAnswer, found, handle_get_event}
use fluxa.System.{Reach, look, here, later}
use fluxa.System.Ledger.{ledger, Run}
use fluxa.System.Recorded.{Reach-Run}
use fluxa.System.Served.{Reach-served}
use fluxa.Examples.Data.{empty, processor}
use fluxa.Examples.Processing.{run}
use fluxa.Examples.Serving.{services}
use fluxa.Examples.Composing.{
  exact, grpc, to_events, posted, accepted_and_stored, exact-IsQuiet, enqueued,
}
use fluxa.Processor.Grounded.{IsGrounded}
use fluxa.System.Grounded.{Reach-IsGrounded}
use fluxa.System.Readable.{enqueued_readable}

abbrev settled : World
settled = (consume_event exact processor "message" posted).1

abbrev shown : EventAnswer
shown = record {
  event_id = "e1";
  correlation_id = "c1";
  user_id = "u1";
  amount = finite (pos 5);
  currency = "XMR";
  merchant = "Target";
  timestamp = "2026-01-01T12:00:00Z";
  metadata = none;
  payload_mode = inline;
  s3_key = none;
  created_at = "2026-01-01T12:01:00Z";
}

-- Somebody else reads in between.
looked :
    Reach exact processor grpc to_events
      (record { world = settled; queue = [] })
      (record { world = (handle_get_event exact "GET" "/events/e2" settled).1; queue = [] })
looked = later here (look "GET" "/events/e2")

Reach-Run_example : Run exact (ledger empty) (ledger settled)
Reach-Run_example = Reach-Run exact processor grpc to_events accepted_and_stored

Reach-served_example :
    (handle_get_event exact "GET" "/events/e1"
      (handle_get_event exact "GET" "/events/e2" settled).1).0
    ≡ found shown
unfolding run services consume_event handle_get_event
Reach-served_example =
    Reach-served exact processor grpc to_events "/events/e1" shown looked refl refl

e1_named : ◌≢◌ {A = String} "e1" ""
e1_named = ground (arith, eq_iff "e1" "")

enqueued_readable_example :
    (rec : EventAnswer) × ((handle_get_event exact "GET" "/events/e1" settled).0 ≡ found rec)
    × (rec.event_id ≡ "e1")
    × (rec.user_id ≡ "u1")
    × (rec.amount ≡ finite (pos 5))
    × (rec.currency ≡ "XMR")
    × (rec.merchant ≡ "Target")
    × (rec.timestamp ≡ "2026-01-01T12:00:00Z")
    × (rec.metadata ≡ none)
unfolding run services enqueued
enqueued_readable_example =
    enqueued_readable exact processor posted enqueued "{}" none posted exact-IsQuiet refl refl refl
      refl (λ n. omega arith) refl (λ now. refl) refl e1_named refl

-- The payment raises flags, whose alerts are published.
empty-IsGrounded : IsGrounded exact empty
empty-IsGrounded = record { flags = tt; alerts = tt }

Reach-IsGrounded_example : IsGrounded exact settled
Reach-IsGrounded_example =
    Reach-IsGrounded exact processor grpc to_events accepted_and_stored empty-IsGrounded
