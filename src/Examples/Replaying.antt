-- ===== src/Examples/Replaying.antt =====
-- The tools around the services: a replayed file, the training file and a log entry.
use fluxa.Base.{
  Option, ◌⊎◌, ◌==◌, ◌+◌, ◌*◌, zero, sort_by, insert_by, ◌≤◌, ◌<◌, ◌↔◌, ◌≡◌, ◌++◌, refl, ℕ, suc,
  String, some, none, List, [], ◌∷◌, map, pos, arith, lookup, if◌then◌else◌,
}
use mathlib.Core.List.{Memᴰ}
use fluxa.Domain.{GoError, Time, ok, inline, zero_float, one_float, text, validate, minute, second}
use fluxa.World.{read, World, EventRow}
use fluxa.Store.{event_row, count_user_events_as_of, user_amount_stats_as_of}
use fluxa.Features.{build, Features, header, row}
use fluxa.Scorer.{score_request}
use fluxa.Scorer.Parity.{request_column, row-score_request}
use fluxa.Replay.{
  Numbers, cell, map_csv_row, row_time, Counts, Inputs, rate, replay_main, finished, panicked,
}
use fluxa.Replay.Endings.{replay_main_ends}
use fluxa.Replay.Rows.{map_csv_row_valid}
use fluxa.Replay.Sent.{post_to}
use fluxa.Export.{Disk, dsn_of, export_main, scan_row, label_of}
use fluxa.Export.Serving.{training_line-build}
use fluxa.Export.Whole.{IsEnd, export_main-sequential}
use fluxa.Export.Order.{features_of, training_line, sequential}
use fluxa.Logging.{value, LogFields, Logger, Printer, log_entry, promoted}
use fluxa.Logging.Fields.{IsLatency, call_value, is_standard, log_entry_fields}
use fluxa.Examples.Data.{payment, calm, codec, empty, noon}

abbrev numbers : Numbers
numbers = record {
  parse_float = λ s. if s == "7" then some one_float else none;
  to_int64 = λ x. pos 7;
  to_lower = λ s. s;
}

abbrev columns : List (String × ℕ)
columns = ("card1", 0) ∷ ("TransactionAmt", 1) ∷ ("TransactionDT", 2) ∷ []

abbrev cells : List String
cells = "u1" ∷ "7" ∷ "7" ∷ []

map_csv_row_valid_example :
    (validate (noon + 65_000_000_000 * second) (map_csv_row numbers noon cells columns) ≡ none) ↔ (
      row_time numbers noon (cell cells columns "TransactionDT")
      ≤ noon + 65_000_000_000 * second + 5 * minute)
map_csv_row_valid_example =
    map_csv_row_valid numbers noon (noon + 65_000_000_000 * second) cells columns (omega arith)

-- A file with a header, a row and a row that cannot be read, at the default rate.
abbrev inputs : Inputs
inputs = record {
  getenv = λ name. "";
  atoi = λ text. none;
  open_file = λ name. ok (some ("card1" ∷ "TransactionAmt" ∷ []) ∷ some cells ∷ none ∷ []);
}

replay_main_ends_example :
    ((rate inputs ≤ 1_000_000_000)
      × ((c : Counts) × (w1 : World) × (replay_main inputs numbers
              (λ n. noon)
              (λ e. ok "{}")
              (λ url. post_to calm)
              empty
            ≡ (finished c, w1))
          × (c.sent + c.failed ≡ 2)))
    ⊎ ((1_000_000_000 < rate inputs)
        × (replay_main inputs numbers (λ n. noon) (λ e. ok "{}") (λ url. post_to calm) empty
            ≡ (panicked, empty)))
replay_main_ends_example =
    replay_main_ends inputs numbers (λ n. noon) (λ e. ok "{}") (λ url. post_to calm)
      ("card1" ∷ "TransactionAmt" ∷ []) (some cells ∷ none ∷ []) empty refl

abbrev stored : String → Time → EventRow
stored id at = record {
  event_id = id;
  correlation_id = "c1";
  user_id = "u1";
  amount = one_float;
  currency = "USD";
  merchant = "Target";
  ts = at;
  metadata_json = "labelled";
  payload_mode = inline;
  s3_key = none;
  created_at = at;
}

-- Two labelled events, the later one stored first.
abbrev two_events : World
two_events = record empty { events = stored "e2" (noon + minute) ∷ stored "e1" noon ∷ [] }

covers_two : (i : ℕ) → i < 2 → Memᴰ i (1 ∷ 0 ∷ [])
covers_two zero h = Memᴰ.tail (Memᴰ.head refl)
covers_two (suc zero) h = Memᴰ.head refl
covers_two (suc (suc i)) h = absurd (omega (arith, h))

abbrev whole_disk : Disk
whole_disk = record { mkdir = none; create = none; write = λ n. none; flush = none }

abbrev connected : String → Option GoError
connected _ = none

export_main-sequential_example :
    IsEnd
      (connected (dsn_of (λ s. "")))
      whole_disk
      (sequential calm (λ s. s == "labelled") two_events.events)
      (export_main calm
        (λ s. "")
        connected
        whole_disk
        (λ s. s == "labelled")
        (1 ∷ 0 ∷ [])
        two_events).0
unfolding sort_by insert_by
export_main-sequential_example =
    export_main-sequential calm (λ s. "") connected whole_disk (λ s. s == "labelled") (1 ∷ 0 ∷ [])
      two_events (λ n. refl) (ground arith) covers_two

abbrev vector : Features
vector = record {
  amount = one_float;
  velocity_count_60s = 1;
  velocity_count_3600s = 2;
  velocity_count_86400s = 3;
  secs_since_prev_event = none;
  user_amt_sum_3600s = zero_float;
  user_amt_max_3600s = zero_float;
  currency = "usd";
  product_code = "w";
  card_network = "visa";
  merchant = "target";
  email_domain = "";
}

row-score_request_example :
    row codec vector "0" ≡ map (request_column codec (score_request vector)) header ++ "0" ∷ []
row-score_request_example =
    row-score_request codec vector "0" (omega arith) (omega arith) (omega arith)

abbrev printer : Printer
printer = record { sprint = λ v. "text"; float_of = λ n. zero_float }

abbrev logger : Logger
logger = record {
  correlation_id = "c1";
  service = "ingest";
  default_fields = ("stage", value (text "http")) ∷ ("host", value (text "a")) ∷ [];
}

abbrev call_fields : List LogFields
call_fields = (("host", value (text "b")) ∷ []) ∷ []

log_entry_fields_example :
    let e = log_entry printer logger "12:00" "INFO" "received" call_fields in
    (e.stage ≡ promoted printer (call_value logger call_fields "stage"))
    × (e.event_id ≡ promoted printer (call_value logger call_fields "event_id"))
    × (e.payload_mode ≡ promoted printer (call_value logger call_fields "payload_mode"))
    × (e.status ≡ promoted printer (call_value logger call_fields "status"))
    × IsLatency printer (call_value logger call_fields "latency_ms") e.latency_ms
    × (e.error_code ≡ promoted printer (call_value logger call_fields "error_code"))
    × ((key : String)
        → lookup key e.fields
          ≡ (if is_standard key then none else call_value logger call_fields key))
log_entry_fields_example = log_entry_fields printer logger "12:00" "INFO" "received" call_fields

abbrev served : Features
served = features_of codec two_events.events payment

training_line-build_example :
    training_line codec two_events.events
      (scan_row codec (event_row calm payment "c1" inline none "{}" noon))
    ≡ row codec (record served { amount = codec.decimal served.amount }) (label_of payment.metadata)
unfolding build features_of count_user_events_as_of user_amount_stats_as_of read
training_line-build_example =
    training_line-build calm payment served two_events (record two_events { tick = 5 }) none "c1"
      "{}" inline none noon refl refl (λ k. refl)
