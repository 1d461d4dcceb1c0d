-- ===== src/Examples/Draining.antt =====
-- A queue that is emptied, and an event that no column is wide enough for.
use fluxa.Base.{[], ◌∷◌}
use fluxa.Domain.{ok}
use fluxa.World.{Env, World}
use fluxa.Consumer.{consume_event}
use fluxa.System.{State}
use fluxa.Examples.Data.{empty, payment, processor}
use fluxa.Examples.Composing.{exact}

-- The events are in a currency of four letters.
abbrev dashing : Env
dashing = record exact {
  codec = record exact.codec { parse_event = λ s. ok (record payment { currency = "DASH" }) };
}

abbrev waiting : State
waiting = record { world = empty; queue = "message" ∷ [] }

abbrev once : World
once = (consume_event dashing processor "message" empty).1

abbrev twice : World
twice = (consume_event dashing processor "message" once).1

abbrev drained : State
drained = record { world = twice; queue = [] }
