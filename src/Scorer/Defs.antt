-- ===== src/Scorer/Defs.antt =====
-- `Score` and the request it sends; the call of the service is a parameter.
use fluxa.Base.{ℕ, ◌+◌, ◌-◌, ◌^◌, String, Option, ℤ, pos, negsuc, ltb, if◌then◌else◌}
use Prim.Native.Nat.{◌%◌}
use fluxa.Domain.{Float64, Time, Result, ok, err}
use fluxa.Features.{Features}
use fluxa.Engine.{Scorer}

-- `scorerv1.ScoreRequest`; the seconds since the event before as `Features` has them.
pub record ScoreRequest : Type 0 where
  pub amount : Float64
  pub velocity_60s : ℤ
  pub velocity_3600s : ℤ
  pub velocity_86400s : ℤ
  pub secs_since_prev : Option Time
  pub user_amt_sum_3600s : Float64
  pub user_amt_max_3600s : Float64
  pub currency : String
  pub product_code : String
  pub card_network : String
  pub merchant : String
  pub email_domain : String

-- `scorerv1.ScoreResponse`.
pub record ScoreResponse : Type 0 where
  pub ml_score : Float64
  pub model_version : String

-- `int32(n)`.
unfoldable pub to_int32 : ℕ → ℤ
to_int32 n =
    let low = n % 2 ^ 32 in if ltb low (2 ^ 31) then pos low else negsuc (2 ^ 32 - (low + 1))

unfoldable pub score_request : Features → ScoreRequest
score_request f = record {
  amount = f.amount;
  velocity_60s = to_int32 f.velocity_count_60s;
  velocity_3600s = to_int32 f.velocity_count_3600s;
  velocity_86400s = to_int32 f.velocity_count_86400s;
  secs_since_prev = f.secs_since_prev_event;
  user_amt_sum_3600s = f.user_amt_sum_3600s;
  user_amt_max_3600s = f.user_amt_max_3600s;
  currency = f.currency;
  product_code = f.product_code;
  card_network = f.card_network;
  merchant = f.merchant;
  email_domain = f.email_domain;
}

abbrev pub score_reply : Result ScoreResponse → Result (Float64 × String)
score_reply (err e) = err e
score_reply (ok r) = ok (r.ml_score, r.model_version)

-- `Score`, the engine's `Scorer`: `call request n` is what call number n of the service answers
-- within the time-out.
abbrev pub client_score : (ScoreRequest → ℕ → Result ScoreResponse) → Scorer
client_score call f n = score_reply (call (score_request f) n)
