-- ===== src/Examples/Processing.antt =====
-- The processor, the engine and the store.
use Prim.Native.String.{count}
use fluxa.Base.{
  ◌≡◌, ◌≢◌, ◌<◌, refl, ◌++◌, String, inl, inr, eq_iff, some, none, arith, find_row, update_rows,
  insert_row,
}
use fluxa.Domain.{retryable_of, wrapped, Time, plain, Event, validate}
use fluxa.World.{read, write, next}
use fluxa.Idempotency.{check_and_mark, claim_loop, check_record, mark_success, mark_failed}
use fluxa.Store.{
  find_event, insert_event, exec_insert_event, row_fits, decimal_fits, insert_fraud_flag,
  get_event_by_id, count_recent_events, count_user_events_as_of, user_amount_stats_as_of,
  max_amount, max_ts,
}
use fluxa.Features.{build}
use fluxa.Engine.{
  store_querier, evaluate, evaluate_with_scorer, amount_rule, velocity_rule, merchant_rule,
  currency_rule, ml_rule,
}
use fluxa.Engine.Rules.{rule_names, when, expected_rules, velocity_world, evaluate-rules}
use fluxa.Engine.Blend.{IsScored, ml_fires, evaluate_with_scorer-rules}
use fluxa.Ports.{storage_get, publish}
use fluxa.Processor.{
  fetch_payload, check_payload, raise_one, raise_flags, evaluate_fraud, finish, persist, work,
  process, fail_permanent, process_message,
}
use fluxa.Processor.Steps.{IsPayloadOf, IsChecked}
use fluxa.Processor.Outcome.{IsAccounted, process_message_acks}
use fluxa.Processor.Stored.{Stores, process_message-Stores, process_message_long_currency}
use fluxa.Processor.Redelivery.{redelivery_dropped}
use fluxa.Processor.Counters.{processed}
use fluxa.Examples.Data.{
  calm, flaky, codec, empty, payment, engine, risky, processor, message, stored_message,
  forged_message, dashing, one_event,
}

-- The definitions that a run of the processor computes with.
unfoldable pub run : Unit {0}
unfolding check_and_mark claim_loop check_record mark_success mark_failed read write find_row
    update_rows insert_row insert_event exec_insert_event row_fits decimal_fits insert_fraud_flag
    count_recent_events count_user_events_as_of user_amount_stats_as_of max_amount max_ts build
    evaluate evaluate_with_scorer amount_rule velocity_rule merchant_rule currency_rule ml_rule
    storage_get publish fetch_payload check_payload raise_one raise_flags evaluate_fraud finish
    persist work process fail_permanent process_message validate get_event_by_id
run = tt

-- A message is stored, flagged by three rules and by the score, and acknowledged.
processed_once :
    let (answer, w) = process_message calm processor message empty in
    (answer ≡ none) × (find_event "e1" w ≢ none) × (processed w.samples ≡ 1)
unfolding run
processed_once = (refl, (λ e. cc), refl)

process_message_acks_example :
    IsAccounted calm processor message empty (process_message calm processor message empty).1
unfolding run
process_message_acks_example =
    process_message_acks calm processor message empty
      (process_message calm processor message empty).1 refl

process_message-Stores_example :
    Stores calm message empty (process_message calm processor message empty).1
process_message-Stores_example = process_message-Stores calm processor message empty

redelivery_dropped_example :
    let w = (process_message flaky processor stored_message empty).1 in
    process_message flaky processor stored_message w ≡ (none, next (next (next (next w))))
unfolding run
redelivery_dropped_example =
    redelivery_dropped flaky processor stored_message
      (retryable_of "storage_fetch_failed" (wrapped "minio: get" (plain "timeout"))) empty
      (check_and_mark flaky "e1" empty).1 (process_message flaky processor stored_message empty).1
      refl refl (omega arith) refl refl refl

forged_wrong :
    (bytes : String)
    → IsPayloadOf calm forged_message empty bytes
    → codec.sha256_hex bytes ≢ forged_message.payload_sha256
forged_wrong bytes (inl (mode, payload)) same = ground (arith, eq_iff "payload" "other")
forged_wrong bytes (inr (key, mode, named, there)) same = cc

dash_long :
    (bytes : String) (now : Time) (e : Event)
    → IsPayloadOf dashing message empty bytes
    → IsChecked dashing message bytes now e
    → 3 < count e.currency
dash_long bytes now e source checked =
    let named : e.currency ≡ "DASH" = ground arith in rw named (omega arith)

process_message_long_currency_example :
    (process_message dashing processor message empty).1.events ≡ empty.events
process_message_long_currency_example =
    process_message_long_currency dashing processor message empty dash_long

evaluate-rules_example :
    rule_names (evaluate calm engine payment (store_querier calm) one_event).0
    ≡ expected_rules engine.rules payment
        ((store_querier calm).count_recent_events "u1" engine.rules.velocity_window_seconds
          (velocity_world calm engine payment one_event)).0
evaluate-rules_example = evaluate-rules calm engine payment (store_querier calm) one_event

evaluate_with_scorer-rules_example :
    let (flags, score, version) =
      (evaluate_with_scorer calm engine payment (store_querier calm) (some risky) empty).0 in
    let (rules, w1) = evaluate calm engine payment (store_querier calm) empty in
    (rule_names flags ≡ rule_names rules ++ when (ml_fires engine.tau score) "ml_risk")
    × IsScored calm (store_querier calm) payment w1 (some risky) score version
evaluate_with_scorer-rules_example =
    evaluate_with_scorer-rules calm engine payment (store_querier calm) (some risky) empty
