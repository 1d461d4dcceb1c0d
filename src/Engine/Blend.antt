-- ===== src/Engine/Blend.antt =====
-- The blend of the rules with the scorer.
use fluxa.Base.{
  ℕ, String, Bool, false, ◌&&◌, Option, none, some, ◌++◌, pos, negsuc, ◌≡◌, refl, sym, inl, inr,
  arith,
}
use mathlib.Core.List.{map-append, append-nil}
use fluxa.Domain.{
  Float64, finite, nan, pos_inf, neg_inf, zero_float, flt, fle, GoError, Result-cases, ok, err,
  Event,
}
use fluxa.World.{Env, World}
use fluxa.Features.{Features, build}
use fluxa.Engine.Defs.{
  EvalQuerier, Scorer, Engine, evaluate, unavailable, ml_rule, evaluate_with_scorer,
}
use fluxa.Engine.Rules.{rule_names, when}

abbrev pub ml_fires : Float64 → Float64 → Bool
ml_fires tau s = flt zero_float tau && fle tau s

-- A threshold that is switched on lies above the score 0 that stands for "no score".
ml_fires-zero : (tau : Float64) → ml_fires tau zero_float ≡ false
ml_fires-zero nan = refl
ml_fires-zero neg_inf = refl
ml_fires-zero pos_inf = refl
ml_fires-zero (finite (pos n)) = ground arith
ml_fires-zero (finite (negsuc n)) = ground arith

module _ (env : Env) where
  ml_rule-names :
      (engine : Engine) (e : Event) (s : Float64) (version : String) (w : World)
      → rule_names (ml_rule env engine e s version w).0 ≡ when (ml_fires engine.tau s) "ml_risk"
  unfolding ml_rule
  ml_rule-names engine e s version w = ground arith

  -- The score and the version that an evaluation after the rules' world `w1` has to return.
  pub data IsScored (q : EvalQuerier) (e : Event) (w1 : World)
      : Option Scorer → Float64 → String → Type 0 where
    without : IsScored q e w1 none zero_float unavailable
    unbuilt :
        {scorer : Scorer} {x : GoError}
        → (build env.codec q.features e w1).0 ≡ err x
        → IsScored q e w1 (some scorer) zero_float unavailable
    failing :
        {scorer : Scorer} {f : Features} {x : GoError}
        → (build env.codec q.features e w1).0 ≡ ok f
        → scorer f (build env.codec q.features e w1).1.tick ≡ err x
        → IsScored q e w1 (some scorer) zero_float unavailable
    answering :
        {scorer : Scorer} {f : Features} {score : Float64} {version : String}
        → (build env.codec q.features e w1).0 ≡ ok f
        → scorer f (build env.codec q.features e w1).1.tick ≡ ok (score, version)
        → IsScored q e w1 (some scorer) score version

  -- The flags are those of the rules, and after them one `ml_risk` exactly if the threshold is
  -- positive and the score that is returned reaches it. The score and the version are those that the
  -- scorer answers for the event's features; with no scorer, features that cannot be built or a
  -- scorer that fails, they are 0 and `unavailable`.
  pub evaluate_with_scorer-rules :
      (engine : Engine) (e : Event) (q : EvalQuerier) (scorer : Option Scorer) (w : World)
      → let (flags, score, version) = (evaluate_with_scorer env engine e q scorer w).0 in
        let (rules, w1) = evaluate env engine e q w in
        (rule_names flags ≡ rule_names rules ++ when (ml_fires engine.tau score) "ml_risk")
        × IsScored q e w1 scorer score version
  unfolding evaluate_with_scorer
  evaluate_with_scorer-rules engine e q none w =
      (rw (ml_fires-zero engine.tau) (sym (append-nil _)), without)
  evaluate_with_scorer-rules engine e q (some score) w =
      let (flags, w1) = evaluate env engine e q w in
      elim (Result-cases (build env.codec q.features e w1).0) [
        | inr (x, missing) ↦
            rw missing (rw (ml_fires-zero engine.tau) (sym (append-nil _)), unbuilt missing)
        | inl (f, built) ↦
            let w2 = (build env.codec q.features e w1).1 in
            elim (Result-cases (score f w2.tick)) [
              | inr (x, unscored) ↦
                  rw (built, unscored)
                    (rw (ml_fires-zero engine.tau) (sym (append-nil _)), failing built unscored)
              | inl (s, scored) ↦
                  rw (built, scored) (simp (map-append, ml_rule-names), answering built scored)
            ]
      ]

  -- A scorer that is missing or that fails changes nothing of the outcome: the flags are the ones
  -- of the rules, the score is 0 and the version says so.
  evaluate_with_scorer_fail_open :
      (engine : Engine) (e : Event) (q : EvalQuerier) (score : Scorer) (w : World)
      → ((f : Features) (n : ℕ) → (x : GoError) × (score f n ≡ err x))
      → (evaluate_with_scorer env engine e q (some score) w).0
        ≡ (evaluate_with_scorer env engine e q none w).0
  unfolding evaluate_with_scorer
  evaluate_with_scorer_fail_open engine e q score w fails =
      let w1 = (evaluate env engine e q w).1 in
      elim (Result-cases (build env.codec q.features e w1).0) [
        | inr (x, missing) ↦ rw missing
        | inl (f, built) ↦ rw (built, (fails f (build env.codec q.features e w1).1.tick).1)
      ]
