-- ===== src/Query/Routes.antt =====
-- The multiplexer of the query service, and `handleHealth`. `http.ServeMux` takes the pattern that
-- ends in a slash for every path below it, and sends a client there from the path without the slash.
-- Paths are clean: a path that is not is redirected to its clean form before.
use Prim.Native.String.{◌++◌ as ◌⊹◌}
use text.Mathlib.Text.{starts_with}
use text.Mathlib.TextPositions.{starts_with-append}
use fluxa.Base.{
  String, ◌==◌, Bool, true, false, Bool-cases, inl, inr, ap, subst, sym, refl, eq_iff, none, List,
  ◌≡◌, ◌≢◌, ◌↔◌, arith, if◌then◌else◌, trim_prefix-append,
}
use fluxa.World.{Env, World, M, pure, ◌>>=◌, done}
use fluxa.Store.{find_event}
use fluxa.Query.Defs.{
  Response, rejected, StreamAnswer, event_id_of, handle_get_event, handle_fraud_events,
}
use fluxa.Query.Reads.{handle_get_event_missing}

pub record Request : Type 0 where
  pub method : String
  pub path : String
  pub limit : String
  pub can_flush : Bool

pub data Served : Type 0 where
  event_reply : Response → Served
  stream_answer : StreamAnswer → Served
  -- 200 with `{"status":"ok"}`.
  healthy : Served
  moved_to : String → Served
  page_not_found : Served

-- A path below a prefix is none that is not below it.
starts_with_differ :
    (s t prefix : String)
    → starts_with s prefix ≡ true
    → starts_with t prefix ≡ false
    → (s == t) ≡ false
starts_with_differ s t prefix h k = elim (Bool-cases (s == t)) [
  | inl same ↦ absurd (ground (arith, ap (λ x. starts_with x prefix) ((eq_iff s t).0 same)))
  | inr other ↦ other
]

module _ (env : Env) where
  -- `changes` is what the others do while a stream is open.
  unfoldable pub serve_query : Request → List (World → World) → M Served
  serve_query r changes =
      if r.path == "/fraud-events"
      then (do
        answer ← handle_fraud_events env r.method r.can_flush r.limit changes
        pure (stream_answer answer))
      else if r.path == "/health"
      then pure healthy
      else if starts_with r.path "/events/"
      then (do answer ← handle_get_event env r.method r.path; pure (event_reply answer))
      else if r.path == "/events"
      then pure (moved_to "/events/")
      else pure page_not_found

  serve_query-handle_get_event :
      (r : Request) (changes : List (World → World)) (w : World)
      → starts_with r.path "/events/" ≡ true
      → serve_query r changes w
        ≡ (let (answer, w1) = handle_get_event env r.method r.path w in (event_reply answer, w1))
  unfolding serve_query
  serve_query-handle_get_event r changes w h = ground (
    arith,
    starts_with_differ r.path "/fraud-events" "/events/" h refl,
    starts_with_differ r.path "/health" "/events/" h refl,
  )

  -- With a database that answers, a GET of /events/ and an id is answered 404 with that id exactly
  -- when no event has it.
  serve_query_missing :
      (id : String) (can_flush : Bool) (limit : String) (changes : List (World → World)) (w : World)
      → id ≢ ""
      → env.reply w.tick ≡ done
      → let r : Request = record {
        method = "GET";
        path = "/events/" ⊹ id;
        limit = limit;
        can_flush = can_flush;
      } in
        ((serve_query r changes w).0 ≡ event_reply (rejected 404 id)) ↔ (find_event id w ≡ none)
  unfolding serve_query
  serve_query_missing id can_flush limit changes w named answers =
      let path : String = "/events/" ⊹ id in
      let r : Request = record {
        method = "GET";
        path = path;
        limit = limit;
        can_flush = can_flush;
      } in
      let is : event_id_of path ≡ id = trim_prefix-append "/events/" id in
      let (one, other) = handle_get_event_missing env path w (rw is named) answers in
      let routed = serve_query-handle_get_event r changes w (starts_with-append "/events/" id) in
      (
        λ e. subst (λ x. find_event x w ≡ none) is (one (ground (arith, e, routed, is))),
        λ e. ground (arith, routed, is, other (subst (λ x. find_event x w ≡ none) (sym is) e)),
      )
