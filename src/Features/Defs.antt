-- ===== src/Features/Defs.antt =====
-- `Build`, `Row` and the interface that the builder reads the store through.
use fluxa.Base.{ltb, ℕ, ◌-◌, String, Option, none, some, List, [], ◌∷◌, pos, if◌then◌else◌, lookup}
use fluxa.Domain.{Time, is_zero_time, Float64, Value, text, Metadata, Result, ok, err, Event}
use fluxa.World.{Codec, Env, M, pure, ◌>>=◌, on_result}
use fluxa.Store

abbrev pub win_60s : ℕ
win_60s = 60

abbrev pub win_1h : ℕ
win_1h = 3600

abbrev pub win_24h : ℕ
win_24h = 86400

-- `FeatureQuerier`.
pub record FeatureQuerier : Type 0 where
  pub count_user_events_as_of : String → Time → ℕ → M (Result ℕ)
  pub user_amount_stats_as_of : String → Time → ℕ → M (Result (Float64 × Float64 × Time))

-- `*db.Client` as a `FeatureQuerier`.
abbrev pub store_features : Env → FeatureQuerier
store_features env = record {
  count_user_events_as_of = Store.count_user_events_as_of env;
  user_amount_stats_as_of = Store.user_amount_stats_as_of env;
}

-- Seconds since the event before; `none` stands for the -1 of a user with no event before.
pub record Features : Type 0 where
  pub amount : Float64
  pub velocity_count_60s : ℕ
  pub velocity_count_3600s : ℕ
  pub velocity_count_86400s : ℕ
  pub secs_since_prev_event : Option ℕ
  pub user_amt_sum_3600s : Float64
  pub user_amt_max_3600s : Float64
  pub currency : String
  pub product_code : String
  pub card_network : String
  pub merchant : String
  pub email_domain : String

-- `v, ok := m[k].(string)`.
abbrev pub text_of : Option Value → String
text_of (some (text s)) = s
text_of _ = ""

abbrev pub meta_str : Option Metadata → String → String
meta_str none k = ""
meta_str (some m) k = text_of (lookup k m)

-- The longest `time.Duration`, 2^63 - 1 nanoseconds, in whole microseconds.
abbrev max_duration : Time
max_duration = 9_223_372_036_854_775

-- `Sub`, in microseconds: it stops at the longest duration. The event before lies strictly before.
abbrev pub since_prev : Time → Time → Option Time
since_prev at prev =
    if is_zero_time prev
    then none
    else some (if ltb max_duration (at - prev) then max_duration else at - prev)

module _ (codec : Codec) (q : FeatureQuerier) where
  -- `Build`.
  unfoldable pub build : Event → M (Result Features)
  build e = do
    n60 ← q.count_user_events_as_of e.user_id e.timestamp win_60s
    on_result n60 (λ x. pure (err x))
        (λ c60. do
          n1h ← q.count_user_events_as_of e.user_id e.timestamp win_1h
          on_result n1h (λ x. pure (err x))
              (λ c1h. do
                n24h ← q.count_user_events_as_of e.user_id e.timestamp win_24h
                on_result n24h (λ x. pure (err x))
                    (λ c24h. do
                      stats ← q.user_amount_stats_as_of e.user_id e.timestamp win_1h
                      on_result stats (λ x. pure (err x))
                          (λ s. pure (
                            ok (record {
                              amount = e.amount;
                              velocity_count_60s = c60;
                              velocity_count_3600s = c1h;
                              velocity_count_86400s = c24h;
                              secs_since_prev_event = since_prev e.timestamp s.2;
                              user_amt_sum_3600s = s.0;
                              user_amt_max_3600s = s.1;
                              currency = codec.to_lower e.currency;
                              product_code = meta_str e.metadata "product_code";
                              card_network = meta_str e.metadata "card_network";
                              merchant = codec.to_lower e.merchant;
                              email_domain = meta_str e.metadata "email_domain";
                            }))))))

unfoldable pub header : List String
header =
    "amount" ∷ "velocity_60s" ∷ "velocity_3600s" ∷ "velocity_86400s" ∷ "secs_since_prev"
    ∷ "user_amt_sum_3600s" ∷ "user_amt_max_3600s" ∷ "currency" ∷ "product_code" ∷ "card_network"
    ∷ "merchant" ∷ "email_domain" ∷ []

-- `Row`.
unfoldable pub row : Codec → Features → String → List String
row codec f label =
    codec.format_float f.amount
    ∷ codec.itoa (pos f.velocity_count_60s)
    ∷ codec.itoa (pos f.velocity_count_3600s)
    ∷ codec.itoa (pos f.velocity_count_86400s)
    ∷ codec.format_seconds f.secs_since_prev_event
    ∷ codec.format_float f.user_amt_sum_3600s
    ∷ codec.format_float f.user_amt_max_3600s
    ∷ f.currency
    ∷ f.product_code
    ∷ f.card_network
    ∷ f.merchant
    ∷ f.email_domain
    ∷ label
    ∷ []
