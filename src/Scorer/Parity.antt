-- ===== src/Scorer/Parity.antt =====
-- What the scorer is asked at serving time against the row that the training file gets.
use fluxa.Base.{ℕ, ◌<◌, ◌^◌, ◌==◌, String, [], ◌∷◌, ◌++◌, map, ◌≡◌, ◌↔◌, pos, arith, if◌then◌else◌}
use fluxa.World.{Codec}
use fluxa.Features.{Features, header, row}
use fluxa.Scorer.Defs.{ScoreRequest, to_int32, score_request}

-- The field of the request that has the name of a column, as the training file prints its type.
unfoldable pub request_column : Codec → ScoreRequest → String → String
request_column codec r name =
    if name == "amount"
    then codec.format_float r.amount
    else if name == "velocity_60s"
    then codec.itoa r.velocity_60s
    else if name == "velocity_3600s"
    then codec.itoa r.velocity_3600s
    else if name == "velocity_86400s"
    then codec.itoa r.velocity_86400s
    else if name == "secs_since_prev"
    then codec.format_seconds r.secs_since_prev
    else if name == "user_amt_sum_3600s"
    then codec.format_float r.user_amt_sum_3600s
    else if name == "user_amt_max_3600s"
    then codec.format_float r.user_amt_max_3600s
    else if name == "currency"
    then r.currency
    else if name == "product_code"
    then r.product_code
    else if name == "card_network"
    then r.card_network
    else if name == "merchant"
    then r.merchant
    else if name == "email_domain"
    then r.email_domain
    else ""

-- A count that fits an `int32` is sent as it is, and no other count is.
to_int32_exact : (n : ℕ) → (to_int32 n ≡ pos n) ↔ (n < 2 ^ 31)
unfolding to_int32
to_int32_exact n = (λ h. ground arith, λ h. ground arith)

-- Where the counts fit an `int32`, the row of the training file holds, under each name of
-- `Header`, what the field of that name of the request to the scorer holds, and the label last.
pub row-score_request :
    (codec : Codec) (f : Features) (label : String)
    → f.velocity_count_60s < 2 ^ 31
    → f.velocity_count_3600s < 2 ^ 31
    → f.velocity_count_86400s < 2 ^ 31
    → row codec f label ≡ map (request_column codec (score_request f)) header ++ label ∷ []
unfolding row score_request request_column header
row-score_request codec f label h60 h3600 h86400 = ground (
  arith,
  (to_int32_exact f.velocity_count_60s).1 h60,
  (to_int32_exact f.velocity_count_3600s).1 h3600,
  (to_int32_exact f.velocity_count_86400s).1 h86400,
)
