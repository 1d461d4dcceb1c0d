-- ===== src/Engine/Rules.antt =====
-- Which rules fire, against a description that reads the configuration, the event and the
-- velocity query's answer alone.
use fluxa.Base.{
  ℕ, String, ◌==◌, Bool, true, false, ◌&&◌, List, [], ◌∷◌, ◌++◌, map, pos, ltb_ℤ, leb_ℤ, ◌≡◌, inl,
  inr, arith, All, All-append, if◌then◌else◌, eq_iff, Bool-cases,
}
use mathlib.Core.List.{Memᴰ, map-append}
use fluxa.Domain.{Time, zero_float, flt, Result, ok, err, Event, FraudFlag, RulesConfig}
use fluxa.World.{Env, World, next}
use fluxa.Engine.Defs.{
  EvalQuerier, Engine, contains, amount_rule, velocity_rule, merchant_rule, currency_rule, evaluate,
}

abbrev pub rule_names : List FraudFlag → List String
rule_names = map (λ f. f.rule_name)

abbrev pub when : Bool → String → List String
when b name = if b then name ∷ [] else []

abbrev pub amount_fires : RulesConfig → Event → Bool
amount_fires r e = flt zero_float r.amount_threshold && flt r.amount_threshold e.amount

abbrev pub velocity_enabled : RulesConfig → Bool
velocity_enabled r = ltb_ℤ (pos 0) r.velocity_window_seconds && ltb_ℤ (pos 0) r.velocity_max_count

abbrev pub velocity_fires : RulesConfig → Result ℕ → Bool
velocity_fires r (ok n) = velocity_enabled r && leb_ℤ r.velocity_max_count (pos n)
velocity_fires r (err _) = false

-- The names of the rules that hold, in the order of the code.
abbrev pub expected_rules : RulesConfig → Event → Result ℕ → List String
expected_rules r e recent =
    when (amount_fires r e) "amount_threshold"
    ++ (when (velocity_fires r recent) "velocity"
        ++ (when (contains e.merchant r.blocked_merchants) "blocked_merchant"
            ++ when (contains e.currency r.high_risk_currencies) "high_risk_currency"))

contains_mem : (s : String) (xs : List String) → contains s xs ≡ true → Memᴰ s xs
contains_mem s [] h = cc
contains_mem s (x ∷ xs) h = elim (Bool-cases (s == x)) [
  | inl same ↦ Memᴰ.head ((eq_iff s x).0 same)
  | inr other ↦ Memᴰ.tail (contains_mem s xs (rw (other) at h))
]

abbrev pub IsFlagOf : Event → Time → FraudFlag → Type 0
IsFlagOf e now f =
    (f.event_id ≡ e.event_id)
    × (f.user_id ≡ e.user_id)
    × (f.flagged_at ≡ now)
    × (f.ml_score ≡ zero_float)

module _ (env : Env) where
  amount_rule-names :
      (r : RulesConfig) (e : Event) (now : Time) (w : World)
      → rule_names (amount_rule env r e now w).0 ≡ when (amount_fires r e) "amount_threshold"
  unfolding amount_rule
  amount_rule-names r e now w = ground arith

  velocity_rule-names :
      (q : EvalQuerier) (r : RulesConfig) (e : Event) (now : Time) (w : World)
      → rule_names (velocity_rule env q r e now w).0
        ≡ when
            (velocity_fires r (q.count_recent_events e.user_id r.velocity_window_seconds w).0)
            "velocity"
  unfolding velocity_rule
  velocity_rule-names q r e now w = ground arith

  merchant_rule-names :
      (r : RulesConfig) (e : Event) (now : Time) (w : World)
      → rule_names (merchant_rule env r e now w).0
        ≡ when (contains e.merchant r.blocked_merchants) "blocked_merchant"
  unfolding merchant_rule
  merchant_rule-names r e now w = ground arith

  currency_rule-names :
      (r : RulesConfig) (e : Event) (now : Time) (w : World)
      → rule_names (currency_rule env r e now w).0
        ≡ when (contains e.currency r.high_risk_currencies) "high_risk_currency"
  unfolding currency_rule
  currency_rule-names r e now w = ground arith

  -- The world in which the velocity query runs.
  abbrev pub velocity_world : Engine → Event → World → World
  velocity_world engine e w = (amount_rule env engine.rules e (env.now w.tick) (next w)).1

  -- `Evaluate` raises a flag for every rule that holds and for no other, each once and in the
  -- order of the code; a velocity query that fails only leaves its own rule out.
  pub evaluate-rules :
      (engine : Engine) (e : Event) (q : EvalQuerier) (w : World)
      → rule_names (evaluate env engine e q w).0
        ≡ expected_rules engine.rules e
            (q.count_recent_events e.user_id engine.rules.velocity_window_seconds
              (velocity_world engine e w)).0
  unfolding evaluate
  evaluate-rules engine e q w =
      simp (
        map-append, amount_rule-names, velocity_rule-names, merchant_rule-names,
        currency_rule-names,
      )

  rules-IsFlagOf :
      (q : EvalQuerier) (r : RulesConfig) (e : Event) (now : Time) (w : World)
      → All (IsFlagOf e now) (amount_rule env r e now w).0
        × All (IsFlagOf e now) (velocity_rule env q r e now w).0
        × All (IsFlagOf e now) (merchant_rule env r e now w).0
        × All (IsFlagOf e now) (currency_rule env r e now w).0
  unfolding amount_rule velocity_rule merchant_rule currency_rule
  rules-IsFlagOf q r e now w = ground arith

  -- Every flag is about the event and its user, at the time that the call read.
  evaluate-IsFlagOf :
      (engine : Engine) (e : Event) (q : EvalQuerier) (w : World)
      → All (IsFlagOf e (env.now w.tick)) (evaluate env engine e q w).0
  unfolding evaluate
  evaluate-IsFlagOf engine e q w =
      let P = IsFlagOf e (env.now w.tick) in
      let r = engine.rules in
      let now = env.now w.tick in
      let va = amount_rule env r e now (next w) in
      let vv = velocity_rule env q r e now va.1 in
      let vm = merchant_rule env r e now vv.1 in
      let vc = currency_rule env r e now vm.1 in
      All-append P va.0 (vv.0 ++ (vm.0 ++ vc.0)) (rules-IsFlagOf q r e now (next w)).0 (
        All-append P vv.0 (vm.0 ++ vc.0) (rules-IsFlagOf q r e now va.1).1 (
          All-append P vm.0 vc.0 (rules-IsFlagOf q r e now vv.1).2
            (rules-IsFlagOf q r e now vm.1).3))
