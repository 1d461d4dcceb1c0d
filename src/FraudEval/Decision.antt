-- ===== src/FraudEval/Decision.antt =====
-- What a response says, and what a refusal leaves behind.
use fluxa.Base.{
  ◌+◌, String, true, Option, none, some, List, [], ◌∷◌, ◌++◌, map, ◌≡◌, ◌⊎◌, inl, inr, arith,
  Option-cases,
}
use fluxa.Domain.{Time, Event, validate, inline}
use fluxa.World.{Env, World, next}
use fluxa.Store.{has_event, insert_event}
use fluxa.Engine.{store_querier, evaluate}
use fluxa.Engine.Rules.{rule_names, when}
use fluxa.Engine.Blend.{ml_fires, IsScored}
use fluxa.FraudEval.Defs.{
  EvaluateRequest, Code, unavailable_code, Decision, allow, flag, ProtoFlag, EvaluateResponse,
  status, ContextError, Server, proto_to_event, evaluated_by, evaluate_stored, evaluate_event,
  evaluate_transaction,
}

-- The decision that the rules' names call for.
abbrev pub decision_of : List String → Decision
decision_of [] = allow
decision_of (_ ∷ _) = flag

abbrev pub flag_names : List ProtoFlag → List String
flag_names = map (λ f. f.rule_name)

-- A response about an event that was evaluated in the world `v`.
pub record IsAnswered (env : Env) (s : Server) (e : Event) (v : World) (r : EvaluateResponse)
    : Type 0 where
  pub names :
      flag_names r.flags
      ≡ rule_names (evaluate env s.engine e (store_querier env) v).0
        ++ when (ml_fires s.engine.tau r.ml_score) "ml_risk"
  pub version : String
  pub scored :
      IsScored env
        (store_querier env)
        e
        (evaluate env s.engine e (store_querier env) v).1
        s.scorer
        r.ml_score
        version
  pub by : r.evaluated_by ≡ evaluated_by s.version version
  pub decided : r.decision ≡ decision_of (flag_names r.flags)

module _ (env : Env) (s : Server) where
  -- What stands behind a response to a request.
  pub record IsServed (req : EvaluateRequest) (context : Option ContextError) (w w' : World)
      (r : EvaluateResponse) : Type 0 where
    pub time : Time
    pub timed : req.transaction_time ≡ some time
    pub valid : validate (env.now (w.tick + 1)) (proto_to_event req time) ≡ none
    pub live : context ≡ none
    pub stored : has_event req.event_id w' ≡ true
    pub answered :
        let e = proto_to_event req time in
        IsAnswered env s e (insert_event env e req.event_id inline none (next (next w))).1 r

  evaluate_event_refuses :
      (e : Event) (context : Option ContextError) (w : World) (c : Code) (t : String)
      → (evaluate_event env s e context w).0 ≡ status c t
      → (c ≡ unavailable_code) ⊎ ((evaluate_event env s e context w).1 ≡ next w)
  unfolding evaluate_event evaluate_stored
  evaluate_event_refuses e context w c t h = ground arith

  -- A request that is refused as invalid, late or canceled has changed nothing in the stores; the
  -- only other refusal is that the event could not be stored.
  pub evaluate_transaction_refuses :
      (req : EvaluateRequest) (context : Option ContextError) (w : World) (c : Code) (t : String)
      → (evaluate_transaction env s req context w).0 ≡ status c t
      → (c ≡ unavailable_code)
        ⊎ (((evaluate_transaction env s req context w).1.events ≡ w.events)
            × ((evaluate_transaction env s req context w).1.flags ≡ w.flags)
            × ((evaluate_transaction env s req context w).1.samples ≡ w.samples))
  unfolding evaluate_transaction
  evaluate_transaction_refuses req context w c t h = elim (Option-cases req.transaction_time) [
    | inl untimed ↦ ground arith
    | inr (time, timed) ↦
        ground (arith, evaluate_event_refuses (proto_to_event req time) context (next w) c t)
  ]
