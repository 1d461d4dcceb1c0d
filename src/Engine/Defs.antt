-- ===== src/Engine/Defs.antt =====
-- `Evaluate` and `EvaluateWithScorer`.
use Prim.Native.String.{◌++◌ as ◌⊹◌}
use fluxa.Base.{
  ℕ, String, ◌==◌, Bool, true, false, ◌&&◌, Option, none, some, List, [], ◌∷◌, ◌++◌, ℤ, pos, ltb_ℤ,
  leb_ℤ, if◌then◌else◌,
}
use fluxa.Domain.{Time, Float64, zero_float, flt, fle, Result, Event, FraudFlag, RulesConfig}
use fluxa.World.{Env, M, next, pure, ◌>>=◌, on_result, time_now, fresh_uuid}
use fluxa.Store
use fluxa.Features.{FeatureQuerier, store_features, Features, build}

-- `EvalQuerier`: `VelocityQuerier` and `FeatureQuerier`.
pub record EvalQuerier : Type 0 where
  pub count_recent_events : String → ℤ → M (Result ℕ)
  pub features : FeatureQuerier

-- `*db.Client` as an `EvalQuerier`.
abbrev pub store_querier : Env → EvalQuerier
store_querier env = record {
  count_recent_events = Store.count_recent_events env;
  features = store_features env;
}

-- `Scorer`: the score and the model's version that the remote service answers to call number n.
abbrev pub Scorer : Type 0
Scorer = Features → ℕ → Result (Float64 × String)

abbrev pub score_call : Scorer → Features → M (Result (Float64 × String))
score_call score f w = (score f w.tick, next w)

pub record Engine : Type 0 where
  pub rules : RulesConfig
  pub tau : Float64

-- The loops over blocked merchants and high-risk currencies stop at the first match.
abbrev pub contains : String → List String → Bool
contains s [] = false
contains s (x ∷ xs) = if s == x then true else contains s xs

abbrev pub unavailable : String
unavailable = "unavailable"

module _ (env : Env) where
  abbrev pub new_flag : Event → Time → String → String → String → FraudFlag
  new_flag e now name value id = record {
    flag_id = id;
    event_id = e.event_id;
    user_id = e.user_id;
    rule_name = name;
    rule_value = value;
    ml_score = zero_float;
    flagged_at = now;
  }

  -- A flag with a new UUID.
  abbrev pub raise_flag : Event → Time → String → String → M (List FraudFlag)
  raise_flag e now name value = do id ← fresh_uuid env; pure (new_flag e now name value id ∷ [])

  unfoldable pub amount_rule : RulesConfig → Event → Time → M (List FraudFlag)
  amount_rule rules e now =
      if flt zero_float rules.amount_threshold && flt rules.amount_threshold e.amount
      then raise_flag e now "amount_threshold" (
          "amount="
          ⊹ (env.codec.fixed 2 e.amount
              ⊹ (" > threshold=" ⊹ env.codec.fixed 2 rules.amount_threshold)))
      else pure []

  abbrev velocity_text : RulesConfig → ℕ → String
  velocity_text rules n =
      "count="
      ⊹ (env.codec.itoa (pos n)
          ⊹ (" in "
              ⊹ (env.codec.itoa rules.velocity_window_seconds
                  ⊹ ("s >= max=" ⊹ env.codec.itoa rules.velocity_max_count))))

  -- A query that fails skips the rule.
  unfoldable pub velocity_rule : EvalQuerier → RulesConfig → Event → Time → M (List FraudFlag)
  velocity_rule q rules e now =
      if ltb_ℤ (pos 0) rules.velocity_window_seconds && ltb_ℤ (pos 0) rules.velocity_max_count
      then (do
        count ← q.count_recent_events e.user_id rules.velocity_window_seconds
        on_result count (λ _. pure [])
            (λ n.
              if leb_ℤ rules.velocity_max_count (pos n)
              then raise_flag e now "velocity" (velocity_text rules n)
              else pure []))
      else pure []

  unfoldable pub merchant_rule : RulesConfig → Event → Time → M (List FraudFlag)
  merchant_rule rules e now =
      if contains e.merchant rules.blocked_merchants
      then raise_flag e now "blocked_merchant"
          ("merchant=" ⊹ (env.codec.quote e.merchant ⊹ " is blocked"))
      else pure []

  unfoldable pub currency_rule : RulesConfig → Event → Time → M (List FraudFlag)
  currency_rule rules e now =
      if contains e.currency rules.high_risk_currencies
      then raise_flag e now "high_risk_currency"
          ("currency=" ⊹ (env.codec.quote e.currency ⊹ " is high-risk"))
      else pure []

  -- `Evaluate`, whose error is always nil.
  unfoldable pub evaluate : Engine → Event → EvalQuerier → M (List FraudFlag)
  evaluate engine e q = do
    now ← time_now env
    a ← amount_rule engine.rules e now
    v ← velocity_rule q engine.rules e now
    m ← merchant_rule engine.rules e now
    c ← currency_rule engine.rules e now
    pure (a ++ (v ++ (m ++ c)))

  abbrev ml_text : Float64 → Float64 → String → String
  ml_text s tau version =
      "ml_score="
      ⊹ (env.codec.fixed 4 s
          ⊹ (" >= tau=" ⊹ (env.codec.fixed 4 tau ⊹ (" (model=" ⊹ (version ⊹ ")")))))

  unfoldable pub ml_rule : Engine → Event → Float64 → String → M (List FraudFlag)
  ml_rule engine e s version =
      if flt zero_float engine.tau && fle engine.tau s
      then (do
        id ← fresh_uuid env
        now ← time_now env
        pure (new_flag e now "ml_risk" (ml_text s engine.tau version) id ∷ []))
      else pure []

  -- `EvaluateWithScorer`, whose error is always nil: the flags, the score and the model's version.
  unfoldable pub evaluate_with_scorer :
      Engine → Event → EvalQuerier → Option Scorer → M (List FraudFlag × Float64 × String)
  evaluate_with_scorer engine e q none = do
    flags ← evaluate engine e q
    pure (flags, zero_float, unavailable)
  evaluate_with_scorer engine e q (some score) = do
    flags ← evaluate engine e q
    built ← build env.codec q.features e
    on_result built (λ _. pure (flags, zero_float, unavailable))
        (λ f. do
          scored ← score_call score f
          on_result scored (λ _. pure (flags, zero_float, unavailable))
              (λ s. do ml ← ml_rule engine e s.0 s.1; pure (flags ++ ml, s.0, s.1)))
