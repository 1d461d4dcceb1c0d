-- ===== src/Consumer/Feed.antt =====
-- `Consume` of internal/adapters/rabbitmq/client.go: the goroutine that passes the broker's messages
-- on to the loops over the deliveries.
use fluxa.Base.{String, List, [], ◌∷◌, ◌++◌, map, ◌≡◌, refl, ap}
use fluxa.Domain.{wrapped, Result, ok, err}

-- What the `select` sees next: the context is done, the broker's channel is closed, or a message.
-- Where two are ready Go takes either, so that any list of these can happen.
pub data Signal : Type 0 where
  cancelled : Signal
  closed : Signal
  message : String → Signal

unfoldable pub forward : List Signal → List String
forward [] = []
forward (cancelled ∷ _) = []
forward (closed ∷ _) = []
forward (message body ∷ signals) = body ∷ forward signals

-- `Consume`: what comes out of the channel that it returns, if the registration succeeds.
unfoldable pub feed : Result (List Signal) → Result (List String)
feed (err e) = err (wrapped "rabbitmq: consume" e)
feed (ok signals) = ok (forward signals)

abbrev IsEnd : Signal → Type 0
IsEnd cancelled = Unit
IsEnd closed = Unit
IsEnd (message _) = ⊥

-- The loops get every message that comes before the end, in order and nothing after it.
forward-append :
    (bodies : List String) (last : Signal) (after : List Signal)
    → IsEnd last
    → forward (map message bodies ++ (last ∷ after)) ≡ bodies
unfolding forward
forward-append [] cancelled after h = refl
forward-append [] closed after h = refl
forward-append [] (message body) after h = absurd h
forward-append (body ∷ bodies) last after h =
    ap (λ bs. body ∷ bs) (forward-append bodies last after h)
