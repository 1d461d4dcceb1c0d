-- ===== src/Store/Events.antt =====
-- The events table: one row for an id, the first one, and never lost.
use fluxa.Base.{
  ℕ, ◌≤◌, ◌+◌, String, true, false, arith, Option, none, some, ◌≡◌, refl, ◌≢◌, ◌⊎◌, inl, inr,
  count_rows, insert_row, find_row-insert_row, find_row-insert_row_old, count_rows-insert_row,
}
use fluxa.Domain.{Time, Event, Result-cases, ok, PayloadMode, Metadata}
use fluxa.World.{done, Env, World, next, EventRow, event_key, write, read}
use fluxa.Store.Defs.{
  find_event, row_fits, print_map, event_row, event_record, exec_insert_event, insert_event,
  get_event_by_id,
}

module _ (env : Env) where
  -- A statement leaves the table, or adds a row that fits its columns.
  exec_insert_event-cases :
      (r : EventRow) (w : World)
      → let w' = (exec_insert_event env r w).1 in
        (w'.events ≡ w.events)
        ⊎ ((row_fits r ≡ true) × (w'.events ≡ insert_row event_key r w.events))
  unfolding exec_insert_event write
  exec_insert_event-cases r w = ground arith

  -- The row that a call of `InsertEvent` would add.
  pub insert_event-cases :
      (e : Event) (correlation : String) (mode : PayloadMode) (key : Option String) (w : World)
      → let w' = (insert_event env e correlation mode key w).1 in
        (w'.events ≡ w.events)
        ⊎ ((json : String) × (now : Time) × (now ≡ env.now w.tick)
            × (print_map env e.metadata ≡ ok json)
            × (row_fits (event_row env e correlation mode key json now) ≡ true)
            × (w'.events
                ≡ insert_row event_key (event_row env e correlation mode key json now) w.events))
  unfolding insert_event
  insert_event-cases e correlation mode key w = elim (Result-cases (print_map env e.metadata)) [
    | inr (x, unprintable) ↦ inl (rw unprintable)
    | inl (json, printed) ↦
        let now = env.now w.tick in
        elim (exec_insert_event-cases (event_row env e correlation mode key json now) (next w)) [
          | inl same ↦ inl (ground arith)
          | inr (fits, added) ↦ inr (json, now, refl, printed, fits, ground arith)
        ]
  ]

  -- An event that is stored stays as it was first stored, whatever is inserted after it under
  -- the same or another id, and whether or not the call succeeds.
  pub insert_event_keeps :
      (e : Event) (correlation : String) (mode : PayloadMode) (key : Option String) (id : String)
      (old : EventRow) (w : World)
      → find_event id w ≡ some old
      → find_event id (insert_event env e correlation mode key w).1 ≡ some old
  insert_event_keeps e correlation mode key id old w found =
      elim (insert_event-cases e correlation mode key w) [
        | inl same ↦ rw same found
        | inr (json, now, _, _, _, added) ↦ rw added (
            find_row-insert_row_old event_key id (event_row env e correlation mode key json now) old
              w.events found)
      ]

  -- No id gets a second row.
  pub insert_event_once :
      (e : Event) (correlation : String) (mode : PayloadMode) (key : Option String) (id : String)
      (w : World)
      → count_rows event_key id w.events ≤ 1
      → count_rows event_key id (insert_event env e correlation mode key w).1.events ≤ 1
  insert_event_once e correlation mode key id w h =
      elim (insert_event-cases e correlation mode key w) [
        | inl same ↦ rw same h
        | inr (json, now, _, _, _, added) ↦ rw added (
            count_rows-insert_row event_key id (event_row env e correlation mode key json now)
              w.events h)
      ]

  -- When `InsertEvent` returns nil the id is stored: by the row of this event, if there was none.
  pub insert_event_stores :
      (e : Event) (correlation : String) (mode : PayloadMode) (key : Option String) (w w' : World)
      → insert_event env e correlation mode key w ≡ (none, w')
      → (json : String) × (print_map env e.metadata ≡ ok json)
        × (find_event e.event_id w' ≡ (elim (find_event e.event_id w) [
          | none ↦ some (event_row env e correlation mode key json (env.now w.tick))
          | some old ↦ some old
        ]))
  unfolding insert_event exec_insert_event write
  insert_event_stores e correlation mode key w w' inserted =
      elim (Result-cases (print_map env e.metadata)) [
        | inr (x, unprintable) ↦ absurd (ground arith)
        | inl (json, printed) ↦
            let r = event_row env e correlation mode key json (env.now w.tick) in
            (json, printed, ground (arith, find_row-insert_row event_key r w.events))
      ]

  -- Where no call fails, a row that fits its columns is inserted.
  pub insert_event_succeeds :
      (e : Event) (correlation : String) (mode : PayloadMode) (key : Option String) (json : String)
      (w : World)
      → ((n : ℕ) → env.reply n ≡ done)
      → print_map env e.metadata ≡ ok json
      → ((now : Time) → row_fits (event_row env e correlation mode key json now) ≡ true)
      → (insert_event env e correlation mode key w).0 ≡ none
  unfolding insert_event exec_insert_event write
  insert_event_succeeds e correlation mode key json w answers printed fits =
      ground (arith, fits (env.now w.tick), answers (w.tick + 1))

  -- A row that breaks a column's limits is never stored: the call fails and changes nothing.
  pub insert_event_misfit :
      (e : Event) (correlation : String) (mode : PayloadMode) (key : Option String) (w : World)
      → ((json : String) (now : Time)
          → row_fits (event_row env e correlation mode key json now) ≡ false)
      → ((insert_event env e correlation mode key w).0 ≢ none)
        × ((insert_event env e correlation mode key w).1.events ≡ w.events)
  unfolding insert_event exec_insert_event
  insert_event_misfit e correlation mode key w misfit =
      elim (Result-cases (print_map env e.metadata)) [
        | inr (x, unprintable) ↦ ground arith
        | inl (json, printed) ↦ ground (arith, misfit json (env.now w.tick))
      ]

  -- What is stored under an id is what `GetEventByID` returns: every column as it is, the
  -- metadata as they parse.
  get_event_by_id-insert_event :
      (e : Event) (correlation : String) (mode : PayloadMode) (key : Option String) (w w' : World)
      (m : Option Metadata)
      → find_event e.event_id w ≡ none
      → insert_event env e correlation mode key w ≡ (none, w')
      → ((json : String)
          → print_map env e.metadata ≡ ok json
          → env.codec.parse_metadata json ≡ ok m)
      → env.reply w'.tick ≡ done
      → (json : String) × ((get_event_by_id env e.event_id w').0
          ≡ ok (event_record env (event_row env e correlation mode key json (env.now w.tick)) m))
  unfolding get_event_by_id read
  get_event_by_id-insert_event e correlation mode key w w' m fresh inserted law reads =
      let (json, printed, stored) = insert_event_stores e correlation mode key w w' inserted in
      (json, ground (arith, law json))

  pub insert_event_frame :
      (e : Event) (correlation : String) (mode : PayloadMode) (key : Option String) (w : World)
      → let w' = (insert_event env e correlation mode key w).1 in
        (w'.keys ≡ w.keys)
        × (w'.flags ≡ w.flags)
        × (w'.samples ≡ w.samples)
        × (w'.published ≡ w.published)
  unfolding insert_event exec_insert_event write
  insert_event_frame e correlation mode key w = elim (Result-cases (print_map env e.metadata)) [
    | inr (x, unprintable) ↦ ground arith
    | inl (json, printed) ↦ ground arith
  ]
