-- ===== src/Idempotency/Defs.antt =====
-- The methods of `idempotency.Client`. A transaction's statements show their effect when it is
-- committed; a statement that fails inside one has none.
use Prim.Native.String.{len, slice}
use fluxa.Base.{
  ℕ, zero, suc, ◌+◌, String, Bool, true, false, Option, none, some, ◌∷◌, ◌&&◌, ltb, if◌then◌else◌,
  find_row, update_rows,
}
use fluxa.Domain.{
  Time, minute, GoError, plain, wrapped, Result, ok, err, IdempotencyStatus, processing, success,
  failed, IdempotencyKeyRecord,
}
use fluxa.World.{
  done, refused, unconfirmed, Env, World, M, pure, ◌>>=◌, on_error, on_result, next, key_key,
  time_now, write, read,
}

abbrev pub is_success : IdempotencyStatus → Bool
is_success success = true
is_success _ = false

abbrev pub is_processing : IdempotencyStatus → Bool
is_processing processing = true
is_processing _ = false

-- The rows that the statements write.
abbrev pub new_key : String → Time → IdempotencyKeyRecord
new_key id now = record {
  event_id = id;
  status = processing;
  first_seen_at = now;
  last_seen_at = now;
  attempts = 1;
  error_reason = none;
}

abbrev pub retry_key : Time → IdempotencyKeyRecord → IdempotencyKeyRecord
retry_key now r = record r { status = processing; last_seen_at = now; attempts = r.attempts + 1 }

abbrev pub success_key : Time → IdempotencyKeyRecord → IdempotencyKeyRecord
success_key now r = record r { status = success; last_seen_at = now }

abbrev pub failed_key : Time → String → IdempotencyKeyRecord → IdempotencyKeyRecord
failed_key now reason r = record r {
  status = failed;
  last_seen_at = now;
  error_reason = some reason;
}

abbrev pub find_key : String → World → Option IdempotencyKeyRecord
find_key id w = find_row key_key id w.keys

abbrev pub add_key : IdempotencyKeyRecord → World → World
add_key r w = record w { keys = r ∷ w.keys }

abbrev pub update_key : String → (IdempotencyKeyRecord → IdempotencyKeyRecord) → World → World
update_key id f w = record w { keys = update_rows key_key id f w.keys }

abbrev pub unique_violation : GoError
unique_violation = plain "duplicate key value violates unique constraint"

abbrev pub transaction_aborted : GoError
transaction_aborted = plain "current transaction is aborted"

-- Step 3's test: seen less than a minute before `now`, and still in work.
abbrev pub is_active : Time → IdempotencyKeyRecord → Bool
is_active now r = if is_processing r.status then ltb now (r.last_seen_at + minute) else false

abbrev pub truncate_reason : String → String
truncate_reason reason = if ltb 500 (len reason) then slice reason 0 500 else reason

-- The 500th byte lies inside a character.
abbrev cuts_character : String → Bool
cuts_character reason = ltb 500 (len reason) && ltb (len (slice reason 0 500)) 500

abbrev refuse_encoding : M (Option GoError)
refuse_encoding w = (some (plain "invalid byte sequence for encoding"), next w)

module _ (env : Env) where
  -- A read in the transaction: refused once the transaction has been aborted.
  abbrev tx_select : Bool → String → M (Result (Option IdempotencyKeyRecord))
  tx_select true id w = (err transaction_aborted, next w)
  tx_select false id w = read env (find_key id) w

  -- `nil` unless the key is there by now, or the call fails.
  abbrev tx_insert : String → M (Option GoError)
  tx_insert id w =
      let w' = record w { keys = env.others w.tick w.keys } in
      elim (find_key id w') [
        | none ↦ elim (env.reply w'.tick) [
          | done ↦ (none, next w')
          | refused e ↦ (some e, next w')
          | unconfirmed e ↦ (some e, next w')
        ]
        | some _ ↦ (some unique_violation, next w')
      ]

  abbrev pub commit : Bool → (World → World) → M (Result Bool)
  commit answer change = do
    failure ← write env change
    on_error failure (λ e. pure (err (wrapped "failed to commit transaction" e))) (pure (ok answer))

  -- Steps 3 and 4, on the record that step 1 found.
  unfoldable pub check_record : Time → String → IdempotencyKeyRecord → M (Result Bool)
  check_record now id r =
      if is_success r.status
      then commit true (λ w. w)
      else if is_active now r
      then commit true (λ w. w)
      else do
        failure ← write env (λ w. w)
        on_error failure (λ e. pure (err (wrapped "failed to update idempotency key" e)))
            (commit false (update_key id (retry_key now)))

  -- The loop, on the rounds that are left; the flag tells that the transaction is aborted.
  unfoldable pub claim_loop : ℕ → Bool → Time → String → M (Result Bool)
  unfolding check_record
  claim_loop zero aborted now id =
      pure (err (plain "failed to process idempotency check after retries"))
  claim_loop (suc n) aborted now id =
      let again = claim_loop n env.aborts now id in
      do
        found ← tx_select aborted id
        on_result found (λ e. pure (err (wrapped "failed to check idempotency key" e)))
            (λ row. elim row [
              | some r ↦ check_record now id r
              | none ↦ do
                failure ← tx_insert id
                on_error failure (λ _. again) (commit false (add_key (new_key id now)))
            ])

  -- `CheckAndMark`: true if the event needs no work, false if the caller has claimed it.
  unfoldable pub check_and_mark : String → M (Result Bool)
  unfolding claim_loop
  check_and_mark id = do
    begun ← write env (λ w. w)
    on_error begun (λ e. pure (err (wrapped "failed to begin transaction" e)))
        (do now ← time_now env; claim_loop 3 false now id)

  -- `MarkSuccess`.
  unfoldable pub mark_success : String → M (Option GoError)
  mark_success id = do
    now ← time_now env
    failure ← write env (update_key id (success_key now))
    on_error failure (λ e. pure (some (wrapped "failed to mark success" e))) (pure none)

  -- `MarkFailed`. The limit counts bytes: PostgreSQL refuses a reason that is cut inside a character,
  -- which `slice` would leave out.
  unfoldable pub mark_failed : String → String → M (Option GoError)
  mark_failed id reason = do
    now ← time_now env
    failure ←
        if cuts_character reason
        then refuse_encoding
        else write env (update_key id (failed_key now (truncate_reason reason)))
    on_error failure (λ e. pure (some (wrapped "failed to mark failed" e))) (pure none)

  -- `GetStatus`: nil with no error for an event that is new.
  unfoldable pub get_status : String → M (Result (Option IdempotencyKeyRecord))
  get_status id = do
    found ← read env (find_key id)
    on_result found (λ e. pure (err (wrapped "failed to query idempotency key" e)))
        (λ row. pure (ok row))
