-- ===== src/Replay/Endings.antt =====
-- How `main` ends, given the rate and the file.
use Prim.Native.Nat.{◌/◌}
use Prim.Native.String.{◌++◌ as ◌⊹◌}
use native.Mathlib.Nat.{div-eq_of_lt, le-div_iff_mul-le}
use fluxa.Base.{
  ltb, true, false, Option-cases, negsuc, pos, ◌==◌, ℕ, zero, suc, ◌+◌, ◌<◌, ◌≤◌, String, Option,
  none, some, List, [], ◌∷◌, ℤ, ◌≡◌, ◌⊎◌, inl, inr, arith, nat_eq, if◌then◌else◌, length,
  Bool-cases,
}
use fluxa.Domain.{Time, Event, Result, ok}
use fluxa.World.{World, M}
use fluxa.Replay.Defs.{Numbers, Counts, index_columns, rate_per_sec, tick_interval, replay}
use fluxa.Replay.Sent.{replay_counts}
use fluxa.Replay.Main.{
  Inputs, finished, panicked, csv_file, rate, ingest_url, run_replay, replay_main,
}

-- The rate is positive.
rate_per_sec_pos : (atoi : String → Option ℤ) (v : String) → 0 < rate_per_sec atoi v
unfolding rate_per_sec
rate_per_sec_pos atoi v = elim (Option-cases (if v == "" then none else atoi v)) [
  | inl unset ↦ ground arith
  | inr (pos n, set) ↦ ground arith
  | inr (negsuc n, set) ↦ ground arith
]

tick_interval-cases :
    (n : ℕ)
    → 0 < n
    → ((n ≤ 1_000_000_000) × (nat_eq (tick_interval n) 0 ≡ false))
      ⊎ ((1_000_000_000 < n) × (nat_eq (tick_interval n) 0 ≡ true))
tick_interval-cases zero h = absurd (omega arith)
tick_interval-cases (suc r) h = elim (Bool-cases (ltb 1_000_000_000 (suc r))) [
  | inl over ↦
      inr
        (ground arith, ground (arith, div-eq_of_lt {n = 1_000_000_000} {m = suc r} (ground arith)))
  | inr within ↦
      let least : 1 ≤ 1_000_000_000 / suc r =
        (le-div_iff_mul-le {k = suc r} {x = 1} {y = 1_000_000_000} h).1 (ground arith) in
      inl (ground arith, ground arith)
]

module _ (i : Inputs) (numbers : Numbers) (now : ℕ → Time) (print_event : Event → Result String)
    (post : String → String → M (Option ℕ)) where
  -- `replay` reads the rows of a file whose header can be read to the end, whatever the requests
  -- do, and counts each row once, as sent or as failed; unless the rate is above a billion rows per
  -- second, where `main` panics before it sends the first one.
  pub replay_main_ends :
      (header : List String) (rows : List (Option (List String))) (w : World)
      → i.open_file (csv_file i) ≡ ok (some header ∷ rows)
      → ((rate i ≤ 1_000_000_000)
          × ((c : Counts) × (w1 : World) × (replay_main i numbers now print_event post w
                ≡ (finished c, w1))
              × (c.sent + c.failed ≡ length rows)))
        ⊎ ((1_000_000_000 < rate i)
            × (replay_main i numbers now print_event post w ≡ (panicked, w)))
  unfolding replay_main run_replay
  replay_main_ends header rows w opens =
      let send = post (ingest_url i ⊹ "/events") in
      let zeros : Counts = record { sent = 0; failed = 0 } in
      let idx = index_columns 0 header [] in
      let (c, w1) = replay numbers now print_event send idx rows zeros w in
      let positive = rate_per_sec_pos i.atoi (i.getenv "RATE_PER_SEC") in
      elim (tick_interval-cases (rate i) positive) [
        | inl (within, ticks) ↦ inl (
          within,
          (
            c,
            w1,
            ground arith,
            ground (arith, replay_counts numbers now print_event send idx rows zeros w),
          ),
        )
        | inr (over, stops) ↦ inr (over, ground arith)
      ]
