-- ===== src/Examples/Serving.antt =====
-- The ingest, the gRPC and the query service, and the validation.
use Prim.Native.String.{len}
use fluxa.Base.{
  pos, ◌≡◌, ◌≤◌, ◌<◌, ◌↔◌, refl, ◌⊎◌, some, none, [], ◌∷◌, All, arith, find_row, insert_row,
  sort_by, insert_by, eq_iff,
}
use fluxa.Domain.{finite, ok, FraudFlag, validate, zero_float}
use fluxa.Domain.Validation.{IsValidEvent, validate_iff}
use fluxa.World.{World, read, write}
use fluxa.Store.{
  fraud_since, join_events, get_event_by_id, get_fraud_events_since, insert_event,
  exec_insert_event, row_fits, decimal_fits, insert_fraud_flag, count_recent_events,
  count_user_events_as_of, user_amount_stats_as_of, max_amount, max_ts,
}
use fluxa.Ports.{storage_put, publish, storage_get}
use fluxa.Engine.{
  evaluate, evaluate_with_scorer, amount_rule, velocity_rule, merchant_rule, currency_rule, ml_rule,
}
use fluxa.Features.{build}
use fluxa.Processor.{fetch_payload, check_payload}
use fluxa.Ingest.{
  max_inline_bytes, inline_message, Request, make_message, enqueue, ingest_event, handle_ingest,
}
use fluxa.Ingest.Envelope.{IsEnqueued, within, handle_ingest-IsEnqueued}
use fluxa.Ingest.Delivery.{fetched, enqueued_passes}
use fluxa.FraudEval.{
  EvaluateRequest, EvaluateResponse, Server, invalid_argument, unavailable_code, flag, store_flag,
  store_flags, evaluate_stored, evaluate_event, evaluate_transaction,
}
use fluxa.FraudEval.Decision.{evaluate_transaction_refuses}
use fluxa.Query.{handle_get_event, write_sse_event, send_fresh, poll, poll_loop}
use fluxa.Query.Stream.{poll_complete, poll_loop_newer}
use fluxa.Examples.Data.{calm, empty, noon, payment, engine, risky, one_event, message}

-- The definitions that a run of the services computes with.
unfoldable pub services : Unit {0}
unfolding read write find_row insert_row sort_by insert_by join_events get_event_by_id
    get_fraud_events_since insert_event exec_insert_event row_fits decimal_fits insert_fraud_flag
    count_recent_events count_user_events_as_of user_amount_stats_as_of max_amount max_ts
    storage_put publish storage_get evaluate evaluate_with_scorer amount_rule velocity_rule
    merchant_rule currency_rule ml_rule build fetch_payload check_payload make_message enqueue
    ingest_event handle_ingest store_flag store_flags evaluate_stored evaluate_event
    evaluate_transaction handle_get_event write_sse_event send_fresh poll poll_loop validate
services = tt

payment-IsValidEvent : IsValidEvent noon payment
payment-IsValidEvent = record {
  has_user = ground (arith, eq_iff "u1" "");
  positive = refl;
  has_currency = ground (arith, eq_iff "XMR" "");
  has_merchant = ground (arith, eq_iff "Target" "");
  has_time = omega arith;
  not_future = omega arith;
  few_keys = omega arith;
}

validate_iff_example : (validate noon payment ≡ none) ↔ IsValidEvent noon payment
validate_iff_example = validate_iff noon payment

abbrev post : Request
post = record { method = "POST"; correlation_id = "c1"; body = "{}" }

handle_ingest-IsEnqueued_example : IsEnqueued calm "e1" "c1" (handle_ingest calm post empty).1
unfolding services
handle_ingest-IsEnqueued_example =
    handle_ingest-IsEnqueued calm post "e1" "c1" empty (handle_ingest calm post empty).1 refl

abbrev posted : World
posted = record empty {
  published = record { exchange = "events"; routing_key = "events"; body = "message" } ∷ [];
}

small : len "payload" ≤ max_inline_bytes
small = omega arith

payment-validates : validate (calm.now 0) payment ≡ none
unfolding validate
payment-validates = refl

abbrev enqueued : IsEnqueued calm "e1" "c1" posted
enqueued = record {
  event = payment;
  now = calm.now 0;
  bytes = "payload";
  msg = inline_message calm payment "c1" "payload";
  body = "message";
  older = [];
  named = refl;
  valid = payment-validates;
  printed = refl;
  carried = within small refl;
  encoded = refl;
  queued = refl;
}

enqueued_passes_example :
    ((fetched calm message empty).0 ≡ ok "payload")
    × ((check_payload calm message "payload" (fetched calm message empty).1).0 ≡ ok payment)
enqueued_passes_example =
    enqueued_passes calm posted enqueued empty payment refl refl refl
      (record {
        user = refl;
        amount = refl;
        currency = refl;
        merchant = refl;
        time = refl;
        keys = refl;
      })
      (omega arith)

abbrev request : EvaluateRequest
request = record {
  event_id = "e1";
  user_id = "u1";
  amount = finite (pos 5);
  currency = "XMR";
  merchant = "Target";
  transaction_time = some noon;
  metadata = [];
}

abbrev server : Server
server = record { engine = engine; version = "v1.0"; scorer = some risky }

-- Four rules fire, and the score reaches the threshold.
abbrev flagged : EvaluateResponse
flagged = record {
  decision = flag;
  flags =
      record { rule_name = "amount_threshold"; rule_value = "amount=1.00 > threshold=1.00" }
      ∷ record { rule_name = "blocked_merchant"; rule_value = "merchant=Target is blocked" }
      ∷ record { rule_name = "high_risk_currency"; rule_value = "currency=XMR is high-risk" }
      ∷ record { rule_name = "ml_risk"; rule_value = "ml_score=1.00 >= tau=1.00 (model=v1)" }
      ∷ [];
  evaluated_by = "v1.0+ml-v1";
  ml_score = finite (pos 9);
}

abbrev unnamed : EvaluateRequest
unnamed = record request { event_id = "" }

evaluate_transaction_refuses_example :
    let w = (evaluate_transaction calm server unnamed none empty).1 in
    (invalid_argument ≡ unavailable_code)
    ⊎ ((w.events ≡ empty.events) × (w.flags ≡ empty.flags) × (w.samples ≡ empty.samples))
unfolding services
evaluate_transaction_refuses_example =
    evaluate_transaction_refuses calm server unnamed none empty invalid_argument
      "event_id is required" refl

abbrev alarm : FraudFlag
alarm = record {
  flag_id = "f1";
  event_id = "e1";
  user_id = "u1";
  rule_name = "velocity";
  rule_value = "count";
  ml_score = zero_float;
  flagged_at = noon;
}

abbrev alarmed : World
alarmed = record one_event { flags = alarm ∷ [] }

poll_complete_example :
    ((poll calm 5 alarmed).0.events ≡ fraud_since 5 alarmed)
    × All (λ f. 5 < f.flagged_at) (poll calm 5 alarmed).0.events
    × All (λ f. f.flagged_at ≤ (poll calm 5 alarmed).0.last_seen) (poll calm 5 alarmed).0.events
unfolding services
poll_complete_example = poll_complete calm 5 alarmed refl refl

-- The flag is stored with the time of the last one that was seen: the client gets nothing.
missed_alarm : (poll_loop calm ((λ w. alarmed) ∷ (λ w. w) ∷ []) noon one_event).0 ≡ []
unfolding services
missed_alarm = refl

poll_loop_newer_example :
    All (λ f. 5 < f.flagged_at) (poll_loop calm ((λ w. alarmed) ∷ []) 5 one_event).0
poll_loop_newer_example = poll_loop_newer calm ((λ w. alarmed) ∷ []) 5 one_event
