-- ===== src/Replay/Main.antt =====
-- `main`: the settings, the file and its header, the ticker, and the loop.
use Prim.Native.String.{◌++◌ as ◌⊹◌}
use fluxa.Base.{ℕ, String, Option, none, some, List, [], ◌∷◌, ℤ, nat_eq, if◌then◌else◌}
use fluxa.Domain.{Time, GoError, plain, Event, Result, ok, err}
use fluxa.World.{M}
use fluxa.Config.{get_env}
use fluxa.Replay.Defs.{Numbers, Counts, index_columns, rate_per_sec, tick_interval, replay}

-- How `main` ends: by `os.Exit(1)`, by a panic, or after the end of the file.
pub data Ending : Type 0 where
  exited : GoError → Ending
  panicked : Ending
  finished : Counts → Ending

-- The variables, and what the CSV reader reads from the file of a name: `none` is a row that it
-- cannot read.
pub record Inputs : Type 0 where
  pub getenv : String → String
  pub atoi : String → Option ℤ
  pub open_file : String → Result (List (Option (List String)))

abbrev pub ingest_url : Inputs → String
ingest_url i = get_env i.getenv "INGEST_URL" "http://localhost:8080"

abbrev pub csv_file : Inputs → String
csv_file i = get_env i.getenv "CSV_FILE" "/data/transactions.csv"

abbrev pub rate : Inputs → ℕ
rate i = rate_per_sec i.atoi (i.getenv "RATE_PER_SEC")

module _ (i : Inputs) (numbers : Numbers) (now : ℕ → Time) (print_event : Event → Result String)
    (post : String → String → M (Option ℕ)) where
  -- The loop behind `time.NewTicker`, which panics on an interval that is not positive.
  unfoldable pub run_replay : List String → List (Option (List String)) → M Ending
  run_replay header rows w =
      if nat_eq (tick_interval (rate i)) 0
      then (panicked, w)
      else let send = post (ingest_url i ⊹ "/events") in
        let (c, w1) =
          replay numbers now print_event send (index_columns 0 header []) rows
            (record { sent = 0; failed = 0 }) w in
        (finished c, w1)

  -- `LoadFromEnv` comes before, and its error is only printed.
  unfoldable pub replay_main : M Ending
  replay_main w = elim (i.open_file (csv_file i)) [
    | err e ↦ (exited e, w)
    | ok [] ↦ (exited (plain "EOF"), w)
    | ok (none ∷ rows) ↦ (exited (plain "Failed to read CSV header"), w)
    | ok (some header ∷ rows) ↦ run_replay header rows w
  ]
