-- ===== src/Ingest/Routes.antt =====
-- The multiplexer of the ingest service, and `handleHealth`. `http.ServeMux` takes a pattern that
-- ends in no slash for that path only.
use fluxa.Base.{String, ◌==◌, if◌then◌else◌}
use fluxa.World.{Env, M, pure, ◌>>=◌}
use fluxa.Ingest.Defs.{Request, Response, handle_ingest}

pub data Served : Type 0 where
  ingest_answer : Response → Served
  -- 200 with `{"status":"ok"}`.
  healthy : Served
  page_not_found : Served

unfoldable pub serve_ingest : Env → String → Request → M Served
serve_ingest env path r =
    if path == "/events"
    then (do answer ← handle_ingest env r; pure (ingest_answer answer))
    else if path == "/health"
    then pure healthy
    else pure page_not_found
