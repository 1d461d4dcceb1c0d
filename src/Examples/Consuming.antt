-- ===== src/Examples/Consuming.antt =====
-- The consume loops.
use fluxa.Base.{◌≡◌, ◌↔◌}
use fluxa.Domain.{ok, plain}
use fluxa.World.{Env, refused}
use fluxa.Consumer.{nacked, consume_event}
use fluxa.Consumer.Settle.{IsTransient, consume_event_nacked}
use fluxa.Examples.Data.{calm, codec, empty, processor, message}

-- Every body is the message.
abbrev queued : Env
queued = record calm { codec = record codec { parse_message = λ s. ok message } }

-- No store answers.
abbrev down : Env
down = record queued { reply = λ n. refused (plain "down") }

consume_event_nacked_example :
    ((consume_event down processor "a" empty).0 ≡ nacked) ↔ IsTransient down processor "a" empty
consume_event_nacked_example = consume_event_nacked down processor "a" empty
