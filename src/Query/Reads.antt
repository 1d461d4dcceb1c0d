-- ===== src/Query/Reads.antt =====
-- Reading one event.
use fluxa.Base.{
  ◌==◌, Option, some, Bool-cases, ◌≤◌, String, none, ◌≡◌, ◌≢◌, ◌↔◌, inl, inr, arith, Option-cases,
  eq_iff,
}
use fluxa.World.{EventRow, Env, World, done, read}
use fluxa.Domain.{Metadata, ok, Result-cases}
use fluxa.Store.{event_record, find_event, get_event_by_id}
use fluxa.Query.Defs.{
  EventAnswer, event_answer, rejected, found, event_id_of, limit_of, handle_get_event,
}

module _ (env : Env) where
  -- Reading an event writes to none of the tables, objects or queues.
  pub handle_get_event_frame :
      (method path : String) (w : World)
      → let w' = (handle_get_event env method path w).1 in
        (w'.events ≡ w.events)
        × (w'.keys ≡ w.keys)
        × (w'.flags ≡ w.flags)
        × (w'.objects ≡ w.objects)
        × (w'.published ≡ w.published)
  unfolding handle_get_event get_event_by_id read
  handle_get_event_frame method path w = ground arith

  -- With a database that answers, a GET whose path names an id is answered 404 exactly when no
  -- event has that id.
  pub handle_get_event_missing :
      (path : String) (w : World)
      → event_id_of path ≢ ""
      → env.reply w.tick ≡ done
      → ((handle_get_event env "GET" path w).0 ≡ rejected 404 (event_id_of path))
        ↔ (find_event (event_id_of path) w ≡ none)
  unfolding handle_get_event get_event_by_id read
  handle_get_event_missing path w named answers =
      elim (Option-cases (find_event (event_id_of path) w)) [
        | inl missing ↦ (λ _. missing, λ _. ground (arith, eq_iff (event_id_of path) ""))
        | inr (r, there) ↦
            (λ e. absurd (ground (arith, eq_iff (event_id_of path) "")), λ e. absurd (ground arith))
      ]

  -- The number of past events that a client gets lies from 1 to 500.
  limit_of_bounds : (text : String) → (1 ≤ limit_of env text) × (limit_of env text ≤ 500)
  limit_of_bounds text = ground arith

  -- What a 200 says: a row that is stored under the id of the path.
  pub handle_get_event_found :
      (path : String) (rec : EventAnswer) (w : World)
      → (handle_get_event env "GET" path w).0 ≡ found rec
      → (event_id_of path ≢ "")
        × (r : EventRow) × (m : Option Metadata) × (find_event (event_id_of path) w ≡ some r)
        × (env.codec.parse_metadata r.metadata_json ≡ ok m)
        × (rec ≡ event_answer env (event_record env r m))
  unfolding handle_get_event get_event_by_id read
  handle_get_event_found path rec w answered = elim (Bool-cases (event_id_of path == "")) [
    | inl empty ↦ absurd (ground arith)
    | inr named ↦ elim (Option-cases (find_event (event_id_of path) w)) [
      | inl missing ↦ absurd (ground arith)
      | inr (r, there) ↦ elim (Result-cases (env.codec.parse_metadata r.metadata_json)) [
        | inr (x, broken) ↦ absurd (ground arith)
        | inl (m, parses) ↦ (
          λ e. absurd (ground (arith, eq_iff (event_id_of path) "")),
          r,
          m,
          there,
          parses,
          ground arith,
        )
      ]
    ]
  ]

  -- With a database that answers, a stored row is answered 200.
  pub handle_get_event_finds :
      (path : String) (r : EventRow) (m : Option Metadata) (w : World)
      → event_id_of path ≢ ""
      → env.reply w.tick ≡ done
      → find_event (event_id_of path) w ≡ some r
      → env.codec.parse_metadata r.metadata_json ≡ ok m
      → (handle_get_event env "GET" path w).0 ≡ found (event_answer env (event_record env r m))
  unfolding handle_get_event get_event_by_id read
  handle_get_event_finds path r m w named answers there parses =
      ground (arith, eq_iff (event_id_of path) "")
