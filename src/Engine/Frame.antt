-- ===== src/Engine/Frame.antt =====
-- The engine only reads: over the store, an evaluation changes nothing but the call counter.
use fluxa.Base.{String, Option, none, some, ◌≡◌, arith}
use fluxa.Domain.{Time, Float64, Event, RulesConfig}
use fluxa.World.{Env, World, read}
use fluxa.Store.{count_recent_events, count_user_events_as_of, user_amount_stats_as_of}
use fluxa.Features.{build, store_features}
use fluxa.Engine.Defs.{
  Scorer, Engine, store_querier, amount_rule, velocity_rule, merchant_rule, currency_rule, evaluate,
  ml_rule, evaluate_with_scorer,
}

abbrev pub IsSameButTick : World → World → Type 0
IsSameButTick w w' =
    (w'.events ≡ w.events)
    × (w'.keys ≡ w.keys)
    × (w'.flags ≡ w.flags)
    × (w'.objects ≡ w.objects)
    × (w'.published ≡ w.published)
    × (w'.samples ≡ w.samples)

module _ (env : Env) where
  amount_rule_frame :
      (r : RulesConfig) (e : Event) (now : Time) (w : World)
      → IsSameButTick w (amount_rule env r e now w).1
  unfolding amount_rule
  amount_rule_frame r e now w = ground arith

  velocity_rule_frame :
      (r : RulesConfig) (e : Event) (now : Time) (w : World)
      → IsSameButTick w (velocity_rule env (store_querier env) r e now w).1
  unfolding velocity_rule count_recent_events read
  velocity_rule_frame r e now w = ground arith

  merchant_rule_frame :
      (r : RulesConfig) (e : Event) (now : Time) (w : World)
      → IsSameButTick w (merchant_rule env r e now w).1
  unfolding merchant_rule
  merchant_rule_frame r e now w = ground arith

  currency_rule_frame :
      (r : RulesConfig) (e : Event) (now : Time) (w : World)
      → IsSameButTick w (currency_rule env r e now w).1
  unfolding currency_rule
  currency_rule_frame r e now w = ground arith

  evaluate_frame :
      (engine : Engine) (e : Event) (w : World)
      → IsSameButTick w (evaluate env engine e (store_querier env) w).1
  unfolding evaluate
  evaluate_frame engine e w =
      grind
        (arith, amount_rule_frame, velocity_rule_frame, merchant_rule_frame, currency_rule_frame)

  build_frame :
      (e : Event) (w : World) → IsSameButTick w (build env.codec (store_features env) e w).1
  unfolding build count_user_events_as_of user_amount_stats_as_of read
  build_frame e w = ground arith

  ml_rule_frame :
      (engine : Engine) (e : Event) (s : Float64) (version : String) (w : World)
      → IsSameButTick w (ml_rule env engine e s version w).1
  unfolding ml_rule
  ml_rule_frame engine e s version w = ground arith

  -- Evaluating an event over the store writes nothing: the tables, the objects, the queue and the
  -- metrics are as they were.
  pub evaluate_with_scorer_frame :
      (engine : Engine) (e : Event) (scorer : Option Scorer) (w : World)
      → IsSameButTick w (evaluate_with_scorer env engine e (store_querier env) scorer w).1
  unfolding evaluate_with_scorer
  evaluate_with_scorer_frame engine e none w = ground (arith, evaluate_frame engine e w)
  evaluate_with_scorer_frame engine e (some score) w =
      grind (arith, evaluate_frame, build_frame, ml_rule_frame)
