-- ===== src/Idempotency/Claims.antt =====
-- What a claim guarantees.
use fluxa.Base.{
  ℕ, zero, suc, ◌+◌, String, Bool, true, false, Option, none, some, ◌≡◌, ◌≢◌, refl, inl, inr, arith,
  eq_iff, find_row, Option-cases, find_row-update_rows,
}
use fluxa.Domain.{Time, ok, processing, IdempotencyKeyRecord}
use fluxa.World.{Env, World, next, key_key, write, read, read-cases}
use fluxa.Idempotency.Defs.{
  find_key, new_key, retry_key, add_key, is_active, check_record, claim_loop, check_and_mark,
}

-- The row is in work, last seen at `now`.
abbrev pub IsClaimedRow : Time → Option IdempotencyKeyRecord → Type 0
IsClaimedRow now none = ⊥
IsClaimedRow now (some r) = (r.status ≡ processing) × (r.last_seen_at ≡ now)

abbrev pub IsClaimed : Time → String → World → Type 0
IsClaimed now id w = IsClaimedRow now (find_key id w)

pub find_key-add_key :
    (id : String) (now : Time) (w : World)
    → find_key id (add_key (new_key id now) w) ≡ some (new_key id now)
unfolding find_row
find_key-add_key id now w = ground (arith, eq_iff id id)

module _ (env : Env) where
  check_record-IsClaimed :
      (now : Time) (id : String) (r : IdempotencyKeyRecord) (w w' : World)
      → find_key id w ≡ some r
      → check_record env now id r w ≡ (ok false, w')
      → IsClaimed now id w'
  unfolding check_record write
  check_record-IsClaimed now id r w w' found e =
      ground (arith, find_row-update_rows key_key id (retry_key now) w.keys (λ _. refl))

  claim_loop-IsClaimed :
      (n : ℕ) (aborted : Bool) (now : Time) (id : String) (w w' : World)
      → claim_loop env n aborted now id w ≡ (ok false, w')
      → IsClaimed now id w'
  unfolding claim_loop read write
  claim_loop-IsClaimed zero aborted now id w w' e = cc
  claim_loop-IsClaimed (suc n) true now id w w' e = ground arith
  claim_loop-IsClaimed (suc n) false now id w w' e = elim (read-cases env (find_key id) w) [
    | inr (x, failed_read) ↦ ground arith
    | inl read_done ↦ elim (Option-cases (find_key id w)) [
      | inl fresh ↦
          let met : World = record (next w) { keys = env.others (w.tick + 1) w.keys } in
          ground (
            arith,
            claim_loop-IsClaimed n env.aborts now id (next met) w',
            find_key-add_key id now (next met),
          )
      | inr (r, found) ↦ check_record-IsClaimed now id r (next w) w' found (ground arith)
    ]
  ]

  -- A processor that gets `false` has its claim in the table: the key is in work, last seen at the
  -- time that the call read.
  pub check_and_mark-IsClaimed :
      (id : String) (w w' : World)
      → check_and_mark env id w ≡ (ok false, w')
      → IsClaimed (env.now (w.tick + 1)) id w'
  unfolding check_and_mark write
  check_and_mark-IsClaimed id w w' e =
      ground (arith, claim_loop-IsClaimed 3 false (env.now (w.tick + 1)) id (next (next w)) w')

  check_record_active :
      (now : Time) (id : String) (r : IdempotencyKeyRecord) (w : World)
      → is_active now r ≡ true
      → ((check_record env now id r w).0 ≢ ok false)
        × ((check_record env now id r w).1.keys ≡ w.keys)
  unfolding check_record write
  check_record_active now id r w h = ground arith

  claim_loop_active :
      (n : ℕ) (now : Time) (id : String) (r : IdempotencyKeyRecord) (w : World)
      → find_key id w ≡ some r
      → is_active now r ≡ true
      → ((claim_loop env n false now id w).0 ≢ ok false)
        × ((claim_loop env n false now id w).1.keys ≡ w.keys)
  unfolding claim_loop read
  claim_loop_active zero now id r w found h = ground arith
  claim_loop_active (suc n) now id r w found h =
      ground (arith, check_record_active now id r (next w) h)

  -- While a claim is less than a minute old nobody else gets one, whatever fails, and the table
  -- stays as it is.
  check_and_mark_active :
      (id : String) (r : IdempotencyKeyRecord) (w : World)
      → find_key id w ≡ some r
      → is_active (env.now (w.tick + 1)) r ≡ true
      → ((check_and_mark env id w).0 ≢ ok false) × ((check_and_mark env id w).1.keys ≡ w.keys)
  unfolding check_and_mark write
  check_and_mark_active id r w found h =
      ground (arith, claim_loop_active 3 (env.now (w.tick + 1)) id r (next (next w)) found h)
