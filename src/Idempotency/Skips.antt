-- ===== src/Idempotency/Skips.antt =====
-- When an event is skipped, what the call decides when nothing fails, and how a lost race ends.
use fluxa.Base.{
  ℕ, zero, suc, ◌+◌, ◌∷◌, String, Bool, true, false, Option, none, some, List, ◌≡◌, inl, inr, arith,
  ◌||◌, Option-cases, update_rows, find_row, if◌then◌else◌,
}
use fluxa.Domain.{Time, ok, err, wrapped, IdempotencyKeyRecord}
use fluxa.World.{done, Env, World, next, key_key, read, write}
use fluxa.Idempotency.Defs.{
  is_success, is_active, find_key, new_key, retry_key, transaction_aborted, check_record,
  claim_loop, check_and_mark,
}

-- What the table holds for an event that needs no work at `now`.
abbrev pub is_settled : Time → Option IdempotencyKeyRecord → Bool
is_settled now none = false
is_settled now (some r) = is_success r.status || is_active now r

-- What the table holds after the call, by the decision.
abbrev pub keys_after :
    Time
    → String
    → Option IdempotencyKeyRecord
    → List IdempotencyKeyRecord
    → List IdempotencyKeyRecord
keys_after now id none keys = new_key id now ∷ keys
keys_after now id (some r) keys =
    if is_settled now (some r) then keys else update_rows key_key id (retry_key now) keys

-- No call fails, and no other processor writes.
pub record IsQuiet (env : Env) : Type 0 where
  pub answers : (n : ℕ) → env.reply n ≡ done
  pub alone : (n : ℕ) (keys : List IdempotencyKeyRecord) → env.others n keys ≡ keys

module _ (env : Env) where
  check_record_settled :
      (now : Time) (id : String) (r : IdempotencyKeyRecord) (w w' : World)
      → find_key id w ≡ some r
      → check_record env now id r w ≡ (ok true, w')
      → is_settled now (find_key id w') ≡ true
  unfolding check_record write
  check_record_settled now id r w w' found e = ground arith

  claim_loop_settled :
      (n : ℕ) (aborted : Bool) (now : Time) (id : String) (w w' : World)
      → claim_loop env n aborted now id w ≡ (ok true, w')
      → is_settled now (find_key id w') ≡ true
  unfolding claim_loop read write
  claim_loop_settled zero aborted now id w w' e = cc
  claim_loop_settled (suc n) true now id w w' e = ground arith
  claim_loop_settled (suc n) false now id w w' e =
      let met : World = record (next w) { keys = env.others (w.tick + 1) w.keys } in
      elim (Option-cases (find_key id w)) [
        | inl fresh ↦ ground (arith, claim_loop_settled n env.aborts now id (next met) w')
        | inr (r, found) ↦ ground (arith, check_record_settled now id r (next w) w' found)
      ]

  -- An event is skipped only if its key says that it succeeded, or that it is in work and was
  -- seen less than a minute before the time that the call read.
  pub check_and_mark_settled :
      (id : String) (w w' : World)
      → check_and_mark env id w ≡ (ok true, w')
      → is_settled (env.now (w.tick + 1)) (find_key id w') ≡ true
  unfolding check_and_mark write
  check_and_mark_settled id w w' e =
      ground (arith, claim_loop_settled 3 false (env.now (w.tick + 1)) id (next (next w)) w')

  -- Where no call fails and no other processor writes, the call always decides: it skips exactly
  -- the settled events, and otherwise it inserts the key or takes it over.
  pub check_and_mark_decides :
      (id : String) (w : World)
      → IsQuiet env
      → let now = env.now (w.tick + 1) in
        ((check_and_mark env id w).0 ≡ ok (is_settled now (find_key id w)))
        × ((check_and_mark env id w).1.keys ≡ keys_after now id (find_key id w) w.keys)
  unfolding check_and_mark claim_loop read write
  check_and_mark_decides id w q = elim (Option-cases (find_key id w)) [
    | inl fresh ↦ grind (arith, q.answers, q.alone)
    | inr (r, found) ↦ ground (
      arith,
      q.answers w.tick,
      q.answers (w.tick + 1 + 1),
      q.answers (w.tick + 1 + 1 + 1),
      q.answers (w.tick + 1 + 1 + 1 + 1),
    )
  ]

  -- Where a failed statement aborts its transaction, as in PostgreSQL, a call that finds no key
  -- and then sees another processor insert it first does not look again: the SELECT of the next
  -- round is refused, and the caller gets that error.
  pub check_and_mark_lost_race :
      (id : String) (r : IdempotencyKeyRecord) (w : World)
      → env.aborts ≡ true
      → env.reply w.tick ≡ done
      → env.reply (w.tick + 2) ≡ done
      → find_key id w ≡ none
      → find_row key_key id (env.others (w.tick + 3) w.keys) ≡ some r
      → (check_and_mark env id w).0
        ≡ err (wrapped "failed to check idempotency key" transaction_aborted)
  unfolding check_and_mark claim_loop read write
  check_and_mark_lost_race id r w aborts begun looked fresh lost = ground arith

  -- A key that is in work is skipped, if the three calls on that path succeed.
  pub check_and_mark_skips :
      (id : String) (r : IdempotencyKeyRecord) (w : World)
      → find_key id w ≡ some r
      → is_settled (env.now (w.tick + 1)) (some r) ≡ true
      → env.reply w.tick ≡ done
      → env.reply (w.tick + 2) ≡ done
      → env.reply (w.tick + 3) ≡ done
      → check_and_mark env id w ≡ (ok true, next (next (next (next w))))
  unfolding check_and_mark claim_loop check_record read write
  check_and_mark_skips id r w found settled begun looked committed = ground arith
