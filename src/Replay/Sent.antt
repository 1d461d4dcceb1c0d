-- ===== src/Replay/Sent.antt =====
-- What the loop counts, and what its count says when the requests reach the ingest service.
use fluxa.Base.{
  ℕ, ◌+◌, ◌≤◌, String, Option, none, some, List, [], ◌∷◌, ◌≡◌, inl, inr, arith, length,
}
use fluxa.Domain.{Time, Event, Result, Result-cases}
use fluxa.World.{Env, World, M}
use fluxa.Ingest.{Request, handle_ingest}
use fluxa.Ingest.Published.{status_of, handle_ingest_grows}
use fluxa.Replay.Defs.{Numbers, Counts, map_csv_row, send_row, replay}

module _ (numbers : Numbers) (now : ℕ → Time) (print_event : Event → Result String)
    (post : String → M (Option ℕ)) (idx : List (String × ℕ)) where
  send_row_counts :
      (row : Option (List String)) (c : Counts) (w : World)
      → let c1 = (send_row numbers now print_event post idx row c w).0 in
        c1.sent + c1.failed ≡ c.sent + c.failed + 1
  unfolding send_row
  send_row_counts none c w = omega arith
  send_row_counts (some row) c w = ground arith

  -- Every row of the file is counted exactly once, as sent or as failed.
  pub replay_counts :
      (rows : List (Option (List String))) (c : Counts) (w : World)
      → let c1 = (replay numbers now print_event post idx rows c w).0 in
        c1.sent + c1.failed ≡ c.sent + c.failed + length rows
  unfolding replay
  replay_counts [] c w = omega arith
  replay_counts (row ∷ rows) c w =
      let (c1, w1) = send_row numbers now print_event post idx row c w in
      omega (arith, send_row_counts row c w, replay_counts rows c1 w1)

-- A request to the ingest service.
abbrev pub post_to : Env → String → M (Option ℕ)
post_to env body w =
    let (answer, w1) =
      handle_ingest env (record { method = "POST"; correlation_id = ""; body = body }) w in
    (some (status_of answer), w1)

module _ (env : Env) where
  module _ (numbers : Numbers) (now : ℕ → Time) (print_event : Event → Result String)
      (idx : List (String × ℕ)) where
    send_row_published :
        (row : Option (List String)) (c : Counts) (w : World)
        → let (c1, w1) = send_row numbers now print_event (post_to env) idx row c w in
          length w.published + c1.sent ≤ length w1.published + c.sent
    unfolding send_row
    send_row_published none c w = omega arith
    send_row_published (some row) c w =
        let event = map_csv_row numbers (now w.tick) row idx in
        elim (Result-cases (print_event event)) [
          | inr (x, unprintable) ↦ ground arith
          | inl (body, printed) ↦
              let r : Request = record { method = "POST"; correlation_id = ""; body = body } in
              ground (arith, handle_ingest_grows env r w)
        ]

    -- Where the requests reach the ingest service, the loop counts no row as sent that is not in the
    -- queue: when it ends, at least as many more messages have been published as more rows are
    -- counted as sent.
    replay_published :
        (rows : List (Option (List String))) (c : Counts) (w : World)
        → let (c1, w1) = replay numbers now print_event (post_to env) idx rows c w in
          length w.published + c1.sent ≤ length w1.published + c.sent
    unfolding replay
    replay_published [] c w = omega arith
    replay_published (row ∷ rows) c w =
        let (c1, w1) = send_row numbers now print_event (post_to env) idx row c w in
        omega (arith, send_row_published row c w, replay_published rows c1 w1)
