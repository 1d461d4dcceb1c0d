-- ===== src/Query/Defs.antt =====
-- `handleGetEvent` and `handleFraudEvents`. Log lines and headers are left out.
use Prim.Native.Nat.{◌-◌, ◌%◌}
use fluxa.Base.{
  trim_prefix, ℕ, String, ◌==◌, Bool, true, false, ◌&&◌, Option, none, some, List, [], ◌∷◌, ◌++◌, ℤ,
  pos, pos_part, ltb, leb_ℤ, ltb_ℤ, if◌then◌else◌,
}
use mathlib.Core.List.{reverse}
use fluxa.Domain.{
  Time, second, Float64, Metadata, PayloadMode, GoError, not_found, EventRecord, FraudEvent,
}
use fluxa.World.{
  Env, World, M, pure, ◌>>=◌, ◌>>◌, on_error, on_result, time_now, inc_counter, write,
}
use fluxa.Store.{get_event_by_id, get_recent_fraud_events, get_fraud_events_since}

-- The members of the JSON object that a client gets.
pub record EventAnswer : Type 0 where
  pub event_id : String
  pub correlation_id : String
  pub user_id : String
  pub amount : Float64
  pub currency : String
  pub merchant : String
  pub timestamp : String
  pub metadata : Option Metadata
  pub payload_mode : PayloadMode
  -- Left out where there is none.
  pub s3_key : Option String
  pub created_at : String

-- 200 with the object, whose error of `json.Marshal` is dropped: metadata that were read from JSON
-- have one. Any other answer is its status with the error's text.
pub data Response : Type 0 where
  found : EventAnswer → Response
  rejected : ℕ → String → Response

-- `strings.TrimPrefix(path, "/events/")`.
abbrev pub event_id_of : String → String
event_id_of path = trim_prefix path "/events/"

abbrev pub is_not_found : GoError → Bool
is_not_found not_found = true
is_not_found _ = false

-- `?limit=`: a number from 1 to 500, or else 50.
abbrev pub in_range : Option ℤ → ℕ
in_range none = 50
in_range (some n) = if ltb_ℤ (pos 0) n && leb_ℤ n (pos 500) then pos_part n else 50

-- How a stream ends, or that it goes on: what was sent, in order, and the newest time sent.
pub record Sent : Type 0 where
  pub events : List FraudEvent
  pub last_seen : Time
  pub is_open : Bool

-- How a request for the stream is answered.
pub data StreamAnswer : Type 0 where
  no_content : StreamAnswer
  no_stream : ℕ → String → StreamAnswer
  streamed : List FraudEvent → StreamAnswer

-- The layout of the times has no fraction of a second.
abbrev pub whole_seconds : Time → Time
whole_seconds t = t - t % second

abbrev pub later : Time → Time → Time
later t u = if ltb t u then u else t

module _ (env : Env) where
  abbrev query_total : String → M (Unit {0})
  query_total outcome = inc_counter "query_total" ("status" ∷ outcome ∷ [])

  abbrev pub event_answer : EventRecord → EventAnswer
  event_answer r = record {
    event_id = r.event_id;
    correlation_id = r.correlation_id;
    user_id = r.user_id;
    amount = r.amount;
    currency = r.currency;
    merchant = r.merchant;
    timestamp = env.codec.format_time (whole_seconds r.timestamp);
    metadata = r.metadata;
    payload_mode = r.payload_mode;
    s3_key = r.s3_key;
    created_at = env.codec.format_time (whole_seconds r.created_at);
  }

  -- `handleGetEvent`.
  unfoldable pub handle_get_event : String → String → M Response
  handle_get_event method path =
      let id = event_id_of path in
      if method == "GET"
      then (if id == ""
          then (do query_total "missing_event_id"; pure (rejected 400 "event_id is required"))
          else (do
            answered ← get_event_by_id env id
            on_result answered
                (λ e.
                  if is_not_found e
                  then (do query_total "not_found"; pure (rejected 404 id))
                  else (do query_total "error"; pure (rejected 500 "internal server error")))
                (λ r. do query_total "found"; pure (found (event_answer r)))))
      else pure (rejected 405 "method not allowed")

  abbrev pub limit_of : String → ℕ
  limit_of text = if text == "" then 50 else in_range (env.codec.atoi text)

  -- `writeSSEEvent`: whether the event reached the client.
  unfoldable pub write_sse_event : FraudEvent → M Bool
  write_sse_event fe =
      on_result (env.codec.print_fraud_event fe) (λ _. pure false)
        (λ body. do failed ← write env (λ w. w); on_error failed (λ _. pure false) (pure true))

  -- The two loops that write events: the one over a poll's events moves `lastSeen` on, the one
  -- over the history does not. They stop at the first event that cannot be written.
  unfoldable pub send_fresh : List FraudEvent → Time → M Sent
  send_fresh [] last w = (record { events = []; last_seen = last; is_open = true }, w)
  send_fresh (fe ∷ rest) last w =
      let (written, w1) = write_sse_event fe w in
      let (more, w2) = send_fresh rest (later last fe.flagged_at) w1 in
      if written
      then (record more { events = fe ∷ more.events }, w2)
      else (record { events = []; last_seen = last; is_open = false }, w1)

  unfoldable pub send_history : List FraudEvent → Time → M Sent
  send_history [] last w = (record { events = []; last_seen = last; is_open = true }, w)
  send_history (fe ∷ rest) last w =
      let (written, w1) = write_sse_event fe w in
      let (more, w2) = send_history rest last w1 in
      if written
      then (record more { events = fe ∷ more.events }, w2)
      else (record { events = []; last_seen = last; is_open = false }, w1)

  -- One tick of the ticker. A poll that fails is skipped.
  unfoldable pub poll : Time → M Sent
  poll last = do
    fresh ← get_fraud_events_since env last
    on_result fresh (λ _. pure (record { events = []; last_seen = last; is_open = true }))
        (λ events. send_fresh events last)

  -- The loop, over what the other services do to the stores before each tick; at the end of the
  -- list the client goes away.
  unfoldable pub poll_loop : List (World → World) → Time → M (List FraudEvent)
  poll_loop [] last w = ([], w)
  poll_loop (change ∷ changes) last w =
      let (sent, w1) = poll last (change w) in
      let (more, w2) = poll_loop changes sent.last_seen w1 in
      if sent.is_open then (sent.events ++ more, w2) else (sent.events, w1)

  abbrev start_of : List FraudEvent → M Time
  start_of [] = time_now env
  start_of (newest ∷ _) = pure newest.flagged_at

  -- `handleFraudEvents` from the limit on: the events that the client gets.
  unfoldable pub stream_fraud_events : String → List (World → World) → M (List FraudEvent)
  stream_fraud_events limit changes = do
    recent ← get_recent_fraud_events env (limit_of limit)
    on_result recent (λ _. pure [])
        (λ events. do
          last ← start_of events
          history ← send_history (reverse events) last
          if history.is_open
              then (do more ← poll_loop changes last; pure (history.events ++ more))
              else pure history.events)

  -- `handleFraudEvents`, on a connection that can or cannot flush.
  unfoldable pub handle_fraud_events :
      String → Bool → String → List (World → World) → M StreamAnswer
  handle_fraud_events method can_flush limit changes =
      if method == "OPTIONS"
      then pure no_content
      else if method == "GET"
      then (if can_flush
          then (do events ← stream_fraud_events limit changes; pure (streamed events))
          else pure (no_stream 500 "streaming not supported"))
      else pure (no_stream 405 "method not allowed")
