-- ===== src/Domain/Fraud.antt =====
-- internal/domain/fraud.go and rules_config.go.
use fluxa.Base.{String, List, ℤ}
use fluxa.Domain.Values.{Time, Float64}

pub record FraudFlag : Type 0 where
  pub flag_id : String
  pub event_id : String
  pub user_id : String
  pub rule_name : String
  pub rule_value : String
  pub ml_score : Float64
  pub flagged_at : Time

-- The same fields with JSON names: `domain.AlertMessage(flag)` converts one into the other.
pub record AlertMessage : Type 0 where
  pub flag_id : String
  pub event_id : String
  pub user_id : String
  pub rule_name : String
  pub rule_value : String
  pub ml_score : Float64
  pub flagged_at : Time

abbrev pub alert_message : FraudFlag → AlertMessage
alert_message f = record {
  flag_id = f.flag_id;
  event_id = f.event_id;
  user_id = f.user_id;
  rule_name = f.rule_name;
  rule_value = f.rule_value;
  ml_score = f.ml_score;
  flagged_at = f.flagged_at;
}

pub record FraudEvent : Type 0 where
  pub flag_id : String
  pub event_id : String
  pub correlation_id : String
  pub user_id : String
  pub amount : Float64
  pub currency : String
  pub merchant : String
  pub rule_name : String
  pub rule_value : String
  pub ml_score : Float64
  pub flagged_at : Time

pub record RulesConfig : Type 0 where
  pub amount_threshold : Float64
  pub velocity_window_seconds : ℤ
  pub velocity_max_count : ℤ
  pub blocked_merchants : List String
  pub high_risk_currencies : List String
