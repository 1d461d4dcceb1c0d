-- ===== src/System/Drain.antt =====
-- How many deliveries it takes to empty the queue.
use fluxa.Base.{
  ℕ, zero, suc, ◌+◌, String, Bool, true, false, not, List, [], ◌∷◌, ◌≡◌, length, if◌then◌else◌,
}
use fluxa.Domain.{Time, ok, err}
use fluxa.World.{Env, World, Published}
use fluxa.Idempotency.{find_key}
use fluxa.Processor.{Processor}
use fluxa.FraudEval.{Server}
use fluxa.System.Defs.{State, Step, ingest, settle, requeue, evaluate, look, alert, pass}
use fluxa.System.Holds.{is_held}

-- The most deliveries that `n` waiting messages can take after the first round.
abbrev rounds : ℕ → ℕ
rounds zero = 0
rounds (suc n) = rounds n + suc n

module _ (env : Env) (t : Time) where
  -- Whether a body is of an event that is not held.
  abbrev is_open : World → String → Bool
  is_open w body = elim (env.codec.parse_message body) [
    | err _ ↦ false
    | ok msg ↦ not (is_held t (find_key msg.event_id w))
  ]

  abbrev count_open : World → List String → ℕ
  count_open w [] = 0
  count_open w (body ∷ bodies) = let n = count_open w bodies in if is_open w body then suc n else n

  -- What is held stays held.
  abbrev IsHeldOn : World → World → Type 0
  IsHeldOn w w1 =
      (id : String) → is_held t (find_key id w) ≡ true → is_held t (find_key id w1) ≡ true

module _ (env : Env) (p : Processor) (s : Server) (routed : Published → Bool) where
  -- A delivery, as opposed to a request.
  abbrev pub is_delivery : {t u : State} → Step env p s routed t u → Bool
  is_delivery (ingest _ _ _) = false
  is_delivery (settle _ _ _ _ _) = true
  is_delivery (requeue _ _ _ _ _) = true
  is_delivery (evaluate _ _) = false
  is_delivery (look _ _) = false
  is_delivery (alert _) = false
  is_delivery (pass _) = false

  -- `n` deliveries in a row, each of any message that waits.
  pub data Deliveries (t : State) : ℕ → State → Type 0 where
    none_yet : Deliveries t zero t
    one_more :
        {n : ℕ} {u v : State}
        → Deliveries t n u
        → (st : Step env p s routed u v) → is_delivery st ≡ true
        → Deliveries t (suc n) v

  module _ (t : Time) where
    abbrev weight : State → ℕ
    weight u = rounds (length u.queue) + count_open env t u.world u.queue
