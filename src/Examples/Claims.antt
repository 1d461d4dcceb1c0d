-- ===== src/Examples/Claims.antt =====
-- The claim on an event.
use fluxa.Base.{◌≡◌, refl, true, false, none, find_row, update_rows}
use fluxa.Domain.{ok, err, wrapped}
use fluxa.World.{read, write}
use fluxa.Idempotency.{
  check_and_mark, claim_loop, check_record, mark_success, mark_failed, get_status,
  transaction_aborted,
}
use fluxa.Idempotency.Skips.{IsQuiet, check_and_mark_lost_race}
use fluxa.Examples.Data.{calm, racing, empty, claimed_key}

-- The definitions that a run of the client computes with.
client : Unit {0}
unfolding check_and_mark claim_loop check_record mark_success mark_failed get_status read write
    find_row update_rows
client = tt

-- A new event is claimed, marked as done, and then skipped.
claim_then_skip :
    let (first, w1) = check_and_mark calm "e1" empty in
    let (marked, w2) = mark_success calm "e1" w1 in
    let (second, w3) = check_and_mark calm "e1" w2 in
    (first ≡ ok false) × (marked ≡ none) × (second ≡ ok true) × (w3.keys ≡ w2.keys)
unfolding client
claim_then_skip = (refl, refl, refl, refl)

-- A failed event is claimed again at once.
claim_failed :
    let (first, w1) = check_and_mark calm "e1" empty in
    let (marked, w2) = mark_failed calm "e1" "broken" w1 in
    (check_and_mark calm "e1" w2).0 ≡ ok false
unfolding client
claim_failed = refl

pub calm-IsQuiet : IsQuiet calm
calm-IsQuiet = record { answers = λ n. refl; alone = λ n keys. refl }

check_and_mark_lost_race_example :
    (check_and_mark racing "e1" empty).0
    ≡ err (wrapped "failed to check idempotency key" transaction_aborted)
unfolding client
check_and_mark_lost_race_example =
    check_and_mark_lost_race racing "e1" claimed_key empty refl refl refl refl refl
