-- ===== src/Examples/Racing.antt =====
-- Interleaved claims on one event.
use fluxa.Base.{◌≡◌, length, find_row, ◌+◌, ◌≤◌, ◌∷◌, [], true, false, none, refl}
use fluxa.Domain.{minute}
use fluxa.World.{Env}
use fluxa.Idempotency.{success_key, failed_key, new_key, find_key, check_and_mark}
use fluxa.Idempotency.Race.{
  State, Reach, here, later, at_rest, move, claim, mark_failed, mark_success, settled, begin, miss,
  insert, duplicate, refuse, lock, stale, inserts, updates, selecting, set_call,
}
use fluxa.Idempotency.Race.Exclusion.{IsApart, Reach-IsApart, Reach-one_worker}
use fluxa.Idempotency.Race.Final.{claims, Reach-unclaimed}
use fluxa.Idempotency.Race.Progress.{IsAnswerable, Reach-IsAnswerable}
use fluxa.Idempotency.Race.Turns.{turns, turns_le}
use fluxa.Idempotency.Race.Runs.{IsRun}
use fluxa.Idempotency.Race.Alone.{IsUndisturbed, check_and_mark-IsRun}
use fluxa.Examples.Data.{calm, empty}

-- Two calls find no key, and the first has inserted its own without a COMMIT.
abbrev inserting_both : (s : State) × Reach true "e1" (at_rest none) s
inserting_both = (
  _,
  later
      (later
        (later (later (later here (move 0 (begin 1000))) (move 1 (begin 1000)))
          (move 0 (miss refl)))
        (move 1 (miss refl)))
      (move 0 (insert refl refl)),
)

-- The first commits; the second loses the race and its transaction is aborted; a third comes a minute
-- later and takes the event over.
abbrev taken_over : (s : State) × Reach true "e1" (at_rest none) s
taken_over = (
  _,
  later
      (later
        (later
          (later
            (later
              (later (later inserting_both.1 (claim 0 inserts))
                (move 1 (duplicate (new_key "e1" 1000) refl)))
              (move 1 refuse))
            (move 2 (begin (1000 + minute))))
          (move 2 (lock (new_key "e1" 1000) refl refl)))
        (move 2 (stale refl refl)))
      (claim 2 updates),
)

Reach-IsApart_example : IsApart ((1000 + minute) ∷ 1000 ∷ [])
Reach-IsApart_example = Reach-IsApart taken_over.1

-- The first call's work fails; the second takes the event up then, long before a minute is over.
abbrev taken_up : (s : State) × Reach true "e1" (at_rest none) s
taken_up = (
  _,
  later
      (later
        (later
          (later
            (later
              (later
                (later (later (later here (move 0 (begin 1000))) (move 0 (miss refl)))
                  (move 0 (insert refl refl)))
                (claim 0 inserts))
              (mark_failed 1010 "broken" refl))
            (move 1 (begin 1020)))
          (move 1 (lock (failed_key 1010 "broken" (new_key "e1" 1000)) refl refl)))
        (move 1 (stale refl refl)))
      (claim 1 updates),
)

Reach-one_worker_example : length taken_up.0.grants ≤ 1
Reach-one_worker_example = Reach-one_worker taken_up.1 ((tt, tt), tt)

-- The first call's work succeeds.
abbrev processed : (s : State) × Reach true "e1" (at_rest none) s
processed = (_, later (later inserting_both.1 (claim 0 inserts)) (mark_success 1010 refl))

-- Then the second finds its INSERT refused, and a third finds the row.
abbrev skipped : (s : State) × Reach true "e1" processed.0 s
skipped = (
  _,
  later
      (later
        (later
          (later (later here (move 1 (duplicate (success_key 1010 (new_key "e1" 1000)) refl)))
            (move 1 refuse))
          (move 2 (begin 5000)))
        (move 2 (lock (success_key 1010 (new_key "e1" 1000)) refl refl)))
      (move 2 (settled refl)),
)

Reach-unclaimed_example : claims skipped.1 ≡ 0
Reach-unclaimed_example = Reach-unclaimed processed.1 refl skipped.1 tt

-- The second call waits for the first.
Reach-IsAnswerable_example : IsAnswerable true "e1" 1 inserting_both.0
Reach-IsAnswerable_example = Reach-IsAnswerable inserting_both.1 1 refl

abbrev begun : State
begun = record (at_rest none) { calls = set_call 1 (selecting 3 false 1000) (at_rest none).calls }

abbrev lost : (s : State) × Reach true "e1" begun s
lost = (
  _,
  later
      (later
        (later
          (later
            (later (later (later here (move 0 (begin 1000))) (move 0 (miss refl)))
              (move 1 (miss refl)))
            (move 0 (insert refl refl)))
          (claim 0 inserts))
        (move 1 (duplicate (new_key "e1" 1000) refl)))
      (move 1 refuse),
)

turns_le_example : turns 1 lost.1 ≤ 7
turns_le_example =
    turns_le 1 1000 lost.1 refl (((((((tt, refl), refl), refl), refl), refl), refl), refl)

-- Another processor claims another event, between the calls.
abbrev crowded : Env
crowded = record calm { others = λ n keys. new_key "e2" n ∷ keys }

crowded-IsUndisturbed : IsUndisturbed crowded "e1"
unfolding find_row
crowded-IsUndisturbed n keys = refl

check_and_mark-IsRun_example :
    IsRun true "e1" 5
      (at_rest none)
      (check_and_mark crowded "e1" empty).0
      (find_key "e1" (check_and_mark crowded "e1" empty).1)
unfolding find_row
check_and_mark-IsRun_example = check_and_mark-IsRun crowded "e1" 5 crowded-IsUndisturbed empty
