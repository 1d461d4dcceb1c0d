-- ===== src/Store/Defs.antt =====
-- The methods of `db.Client`. Each SQL statement is the list operation that it denotes on the
-- tables of migrations/; ties under ORDER BY, which SQL leaves open, come in the list's order.
use Prim.Native.String.{count}
use fluxa.Base.{
  ℕ, ◌+◌, ◌*◌, ◌^◌, String, ◌==◌, Bool, true, false, ◌&&◌, Option, none, some, List, [], ◌∷◌, map,
  ℤ, pos_part, neg_part, ltb, leb, if◌then◌else◌, length, take, keep, sort_by, find_row, insert_row,
}
use fluxa.Domain.{
  Time, second, Float64, nan, neg_inf, pos_inf, finite, zero_float, flt, Metadata, GoError, plain,
  not_found, wrapped, Result, ok, err, Event, PayloadMode, inline, s3, other, EventRecord,
  FraudFlag, FraudEvent,
}
use fluxa.World.{
  Env, World, M, pure, ◌>>=◌, on_error, on_result, next, EventRow, event_key, flag_key, time_now,
  write, read,
}

abbrev pub find_event : String → World → Option EventRow
find_event id w = find_row event_key id w.events

abbrev pub add_event : EventRow → World → World
add_event r w = record w { events = insert_row event_key r w.events }

abbrev pub add_flag : FraudFlag → World → World
add_flag f w = record w { flags = insert_row flag_key f w.flags }

abbrev pub is_known_mode : PayloadMode → Bool
is_known_mode inline = true
is_known_mode s3 = true
is_known_mode (other _) = false

abbrev pub opt_count : Option String → ℕ
opt_count none = 0
opt_count (some s) = count s

-- DECIMAL(18, 2), for an amount that is rounded already: below 10^16, or NaN, which NUMERIC keeps.
unfoldable pub decimal_fits : Float64 → Bool
decimal_fits nan = true
decimal_fits neg_inf = false
decimal_fits pos_inf = false
decimal_fits (finite x) =
    let limit = 10 ^ 16 * 2 ^ 1074 in ltb (pos_part x) limit && ltb (neg_part x) limit

-- The column types and the CHECK constraint of migration 001.
unfoldable pub row_fits : EventRow → Bool
row_fits r =
    leb (count r.event_id) 255
    && leb (count r.correlation_id) 255
    && leb (count r.user_id) 255
    && leb (count r.currency) 3
    && leb (count r.merchant) 255
    && decimal_fits r.amount
    && is_known_mode r.payload_mode
    && leb (opt_count r.s3_key) 500

-- fraud_flags.event_id REFERENCES events(event_id).
abbrev pub has_event : String → World → Bool
has_event id w = elim (find_event id w) [ none ↦ false | some _ ↦ true ]

abbrev pub refuse : String → M (Option GoError)
refuse text w = (some (plain text), next w)

-- One joined row of fraud_flags and events.
abbrev pub fraud_event : FraudFlag → EventRow → FraudEvent
fraud_event f e = record {
  flag_id = f.flag_id;
  event_id = f.event_id;
  correlation_id = e.correlation_id;
  user_id = f.user_id;
  amount = e.amount;
  currency = e.currency;
  merchant = e.merchant;
  rule_name = f.rule_name;
  rule_value = f.rule_value;
  ml_score = f.ml_score;
  flagged_at = f.flagged_at;
}

unfoldable pub join_events : List EventRow → List FraudFlag → List FraudEvent
join_events events [] = []
join_events events (f ∷ fs) = elim (find_row event_key f.event_id events) [
  | none ↦ join_events events fs
  | some e ↦ fraud_event f e ∷ join_events events fs
]

abbrev pub newer : FraudEvent → FraudEvent → Bool
newer a b = ltb b.flagged_at a.flagged_at

abbrev pub older : FraudEvent → FraudEvent → Bool
older a b = ltb a.flagged_at b.flagged_at

abbrev pub recent_fraud : ℕ → World → List FraudEvent
recent_fraud limit w = take limit (sort_by newer (join_events w.events w.flags))

abbrev pub fraud_since : Time → World → List FraudEvent
fraud_since since w =
    sort_by older (keep (λ f. ltb since f.flagged_at) (join_events w.events w.flags))

-- The rows of a user's last `window` seconds by the database's clock.
abbrev pub is_recent : String → Time → ℤ → EventRow → Bool
is_recent user now window r =
    r.user_id == user
    && leb (now + neg_part window * second) (r.created_at + pos_part window * second)

-- ts in (as_of - window, as_of].
abbrev pub is_as_of : String → Time → ℕ → EventRow → Bool
is_as_of user as_of window r =
    r.user_id == user && leb r.ts as_of && ltb as_of (r.ts + window * second)

-- COALESCE(MAX(amount), 0).
unfoldable pub max_amount : List EventRow → Float64
max_amount [] = zero_float
max_amount (r ∷ []) = r.amount
max_amount (r ∷ s ∷ rs) = let m = max_amount (s ∷ rs) in if flt r.amount m then m else r.amount

-- MAX(ts), with the zero time for NULL.
unfoldable pub max_ts : List EventRow → Time
max_ts [] = 0
max_ts (r ∷ rs) = let m = max_ts rs in if ltb r.ts m then m else r.ts

abbrev pub is_before : String → Time → EventRow → Bool
is_before user as_of r = r.user_id == user && ltb r.ts as_of

module _ (env : Env) where
  abbrev pub print_map : Option Metadata → Result String
  print_map none = ok "{}"
  print_map (some m) = env.codec.print_metadata m

  abbrev pub event_row : Event → String → PayloadMode → Option String → String → Time → EventRow
  event_row e correlation mode s3_key json now = record {
    event_id = e.event_id;
    correlation_id = correlation;
    user_id = e.user_id;
    amount = env.codec.decimal e.amount;
    currency = e.currency;
    merchant = e.merchant;
    ts = e.timestamp;
    metadata_json = json;
    payload_mode = mode;
    s3_key = s3_key;
    created_at = now;
  }

  -- INSERT … ON CONFLICT (event_id) DO NOTHING.
  unfoldable pub exec_insert_event : EventRow → M (Option GoError)
  exec_insert_event r = if row_fits r then write env (add_event r) else refuse "value out of range"

  -- `InsertEvent`.
  unfoldable pub insert_event : Event → String → PayloadMode → Option String → M (Option GoError)
  unfolding exec_insert_event
  insert_event e correlation mode s3_key =
      on_result (print_map e.metadata) (λ x. pure (some (wrapped "failed to marshal metadata" x)))
        (λ json. do
          now ← time_now env
          failure ← exec_insert_event (event_row e correlation mode s3_key json now)
          on_error failure (λ x. pure (some (wrapped "failed to insert event" x))) (pure none))

  abbrev pub event_record : EventRow → Option Metadata → EventRecord
  event_record r metadata = record {
    event_id = r.event_id;
    correlation_id = r.correlation_id;
    user_id = r.user_id;
    amount = r.amount;
    currency = r.currency;
    merchant = r.merchant;
    timestamp = r.ts;
    metadata_json = "";
    metadata = metadata;
    payload_mode = r.payload_mode;
    s3_key = r.s3_key;
    created_at = r.created_at;
  }

  -- `GetEventByID`.
  unfoldable pub get_event_by_id : String → M (Result EventRecord)
  get_event_by_id id = do
    found ← read env (find_event id)
    on_result found (λ x. pure (err (wrapped "failed to query event" x)))
        (λ row. elim row [
          | none ↦ pure (err not_found)
          | some r ↦
              on_result (env.codec.parse_metadata r.metadata_json)
                (λ x. pure (err (wrapped "failed to unmarshal metadata" x)))
                (λ m. pure (ok (event_record r m)))
        ])

  -- `InsertFraudFlag`: INSERT … ON CONFLICT (flag_id) DO NOTHING.
  unfoldable pub insert_fraud_flag : FraudFlag → M (Option GoError)
  insert_fraud_flag f w =
      (do
        failure ←
            (if has_event f.event_id w
              then write env (add_flag f)
              else refuse "violates foreign key constraint")
        on_error failure (λ x. pure (some (wrapped "failed to insert fraud flag" x))) (pure none))
        w

  -- `GetRecentFraudEvents`.
  unfoldable pub get_recent_fraud_events : ℕ → M (Result (List FraudEvent))
  get_recent_fraud_events limit = do
    rows ← read env (recent_fraud limit)
    on_result rows (λ x. pure (err (wrapped "failed to query recent fraud events" x)))
        (λ events. pure (ok events))

  -- `GetFraudEventsSince`.
  unfoldable pub get_fraud_events_since : Time → M (Result (List FraudEvent))
  get_fraud_events_since since = do
    rows ← read env (fraud_since since)
    on_result rows (λ x. pure (err (wrapped "failed to query fraud events since" x)))
        (λ events. pure (ok events))

  -- `CountRecentEvents`.
  unfoldable pub count_recent_events : String → ℤ → M (Result ℕ)
  count_recent_events user window = do
    n ← read env (λ w. length (keep (is_recent user (env.db_now w.tick) window) w.events))
    on_result n (λ x. pure (err (wrapped "failed to count recent events" x))) (λ k. pure (ok k))

  -- `CountUserEventsAsOf`.
  unfoldable pub count_user_events_as_of : String → Time → ℕ → M (Result ℕ)
  count_user_events_as_of user as_of window = do
    n ← read env (λ w. length (keep (is_as_of user as_of window) w.events))
    on_result n (λ x. pure (err (wrapped "failed to count user events as-of" x))) (λ k. pure (ok k))

  abbrev pub amount_of : EventRow → Float64
  amount_of r = r.amount

  abbrev pub amount_stats : String → Time → ℕ → World → Float64 × Float64
  amount_stats user as_of window w =
      let rows = keep (is_as_of user as_of window) w.events in
      (env.codec.sum_decimals (map amount_of rows), max_amount rows)

  -- `UserAmountStatsAsOf`: the sum, the greatest amount and the time of the event before.
  unfoldable pub user_amount_stats_as_of : String → Time → ℕ → M (Result (Float64 × Float64 × Time))
  user_amount_stats_as_of user as_of window = do
    stats ← read env (amount_stats user as_of window)
    on_result stats (λ x. pure (err (wrapped "failed to compute user amount stats" x)))
        (λ s. do
          prev ← read env (λ w. max_ts (keep (is_before user as_of) w.events))
          on_result prev (λ x. pure (err (wrapped "failed to fetch prev event ts" x)))
              (λ t. pure (ok (s.0, s.1, t))))
