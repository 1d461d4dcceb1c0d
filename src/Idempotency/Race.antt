-- ===== src/Idempotency/Race.antt =====
-- `CheckAndMark` for one event, as any number of processors run it at once: a statement at a time,
-- in any order. PostgreSQL's part is that a statement sees what is committed, that `SELECT … FOR
-- UPDATE`, `UPDATE` and the winning `INSERT` hold the key until their transaction ends, and that who
-- wants a held key waits.
pub mod Exclusion
pub mod Final
mod Flow
pub mod Alone
pub mod Locks
pub mod Progress
pub mod Turns
pub mod Runs
use mathlib.Core.Option
use fluxa.Base.{
  ℕ, zero, suc, String, Bool, true, false, Option, none, some, List, [], ◌∷◌, ◌≡◌, nat_eq,
  if◌then◌else◌,
}
use fluxa.Domain.{Time, GoError, plain, wrapped, Result, ok, err, IdempotencyKeyRecord}
use fluxa.Idempotency.Defs.{
  is_success, is_active, new_key, retry_key, success_key, failed_key, truncate_reason,
  transaction_aborted,
}

-- Where a call stands, with the variables that are live there. `now` is read before the loop.
pub data Call : Type 0 where
  idle : Call
  -- Before the SELECT, with the rounds that are left; the flag tells that the transaction is aborted.
  selecting : (rounds : ℕ) → (aborted : Bool) → (now : Time) → Call
  -- Before the INSERT.
  inserting : (rounds : ℕ) → (now : Time) → Call
  -- Before the COMMIT of the INSERT.
  inserted : (now : Time) → Call
  -- With the row that the SELECT has locked.
  locked : (now : Time) → IdempotencyKeyRecord → Call
  -- Before the COMMIT of the UPDATE.
  updated : (now : Time) → Call
  answered : Result Bool → Call

-- The committed row of the event, and who holds its key.
pub record Table : Type 0 where
  pub row : Option IdempotencyKeyRecord
  pub holder : Option ℕ

abbrev pub hold : ℕ → Table → Table
hold me t = record t { holder = some me }

abbrev pub release : Table → Table
release t = record t { holder = none }

-- The transactions that hold the key.
abbrev pub holds : Call → Bool
holds (inserted _) = true
holds (locked _ _) = true
holds (updated _) = true
holds _ = false

module _ (aborts : Bool) (me : ℕ) (t : Table) where
  -- One statement of a call, where none fails but an INSERT of a key that is there by then.
  pub data Move : Call → Table → Call → Type 0 where
    begin : (now : Time) → Move idle t (selecting 3 false now)
    miss :
        {n : ℕ} {now : Time} → t.row ≡ none → Move (selecting (suc n) false now) t (inserting n now)
    lock :
        {n : ℕ} {now : Time} (r : IdempotencyKeyRecord)
        → t.row ≡ some r
        → t.holder ≡ none
        → Move (selecting (suc n) false now) (hold me t) (locked now r)
    insert :
        {n : ℕ} {now : Time}
        → t.row ≡ none
        → t.holder ≡ none
        → Move (inserting n now) (hold me t) (inserted now)
    duplicate :
        {n : ℕ} {now : Time} (r : IdempotencyKeyRecord)
        → t.row ≡ some r
        → Move (inserting n now) t (selecting n aborts now)
    settled :
        {now : Time} {r : IdempotencyKeyRecord}
        → is_success r.status ≡ true
        → Move (locked now r) (release t) (answered (ok true))
    active :
        {now : Time} {r : IdempotencyKeyRecord}
        → is_active now r ≡ true
        → Move (locked now r) (release t) (answered (ok true))
    stale :
        {now : Time} {r : IdempotencyKeyRecord}
        → is_success r.status ≡ false
        → is_active now r ≡ false
        → Move (locked now r) t (updated now)
    refuse :
        {n : ℕ} {now : Time}
        → Move
            (selecting (suc n) true now)
            t
            (answered (err (wrapped "failed to check idempotency key" transaction_aborted)))
    give_up :
        {aborted : Bool} {now : Time}
        → Move
            (selecting zero aborted now)
            t
            (answered (err (plain "failed to process idempotency check after retries")))
    finish : {answer : Result Bool} → Move (answered answer) t idle

  -- A statement that fails, or times out: the transaction is rolled back, but for an INSERT, after
  -- which the loop goes on. With a locked row it is the UPDATE, or the COMMIT with nothing to write.
  pub data Fault : Call → Table → Call → Type 0 where
    no_begin : (e : GoError) → Fault idle t (answered (err e))
    no_select :
        {n : ℕ} {aborted : Bool} {now : Time} (e : GoError)
        → Fault (selecting n aborted now) t (answered (err e))
    no_insert : {n : ℕ} {now : Time} → Fault (inserting n now) t (selecting n aborts now)
    no_update :
        {now : Time} {r : IdempotencyKeyRecord} (e : GoError)
        → Fault (locked now r) (release t) (answered (err e))
    no_commit_insert :
        {now : Time} (e : GoError) → Fault (inserted now) (release t) (answered (err e))
    no_commit_update :
        {now : Time} (e : GoError) → Fault (updated now) (release t) (answered (err e))

-- A COMMIT that claims the event, at the time of its call.
pub data Commit (id : String) (t : Table) : Call → Time → Table → Type 0 where
  inserts :
      {now : Time}
      → Commit id t (inserted now) now (record { row = some (new_key id now); holder = none })
  updates :
      {now : Time}
      → Commit id t
          (updated now)
          now
          (record { row = Option.map (retry_key now) t.row; holder = none })

abbrev pub set_call : ℕ → Call → (ℕ → Call) → ℕ → Call
set_call i c calls j = if nat_eq i j then c else calls j

-- `grants`: the times of the calls that got `false` since the last mark, the newest first.
pub record State : Type 0 where
  pub table : Table
  pub calls : ℕ → Call
  pub grants : List Time

module _ (aborts : Bool) (id : String) where
  pub data Step (s : State) : State → Type 0 where
    move :
        (i : ℕ) {t : Table} {c : Call}
        → Move aborts i s.table (s.calls i) t c
        → Step s (record s { table = t; calls = set_call i c s.calls })
    fault :
        (i : ℕ) {t : Table} {c : Call}
        → Fault aborts i s.table (s.calls i) t c
        → Step s (record s { table = t; calls = set_call i c s.calls })
    claim :
        (i : ℕ) {now : Time} {t : Table}
        → Commit id s.table (s.calls i) now t
        → Step s (record {
          table = t;
          calls = set_call i (answered (ok false)) s.calls;
          grants = now ∷ s.grants;
        })
    -- The COMMIT is done and its answer gets lost.
    unsure :
        (i : ℕ) {now : Time} {t : Table} (e : GoError)
        → Commit id s.table (s.calls i) now t
        → Step s (record s { table = t; calls = set_call i (answered (err e)) s.calls })
    -- `MarkSuccess` and `MarkFailed`.
    mark_success :
        (now : Time)
        → s.table.holder ≡ none
        → Step s (record s {
          table = record s.table { row = Option.map (success_key now) s.table.row };
          grants = [];
        })
    mark_failed :
        (now : Time) (reason : String)
        → s.table.holder ≡ none
        → Step s (record s {
          table = record s.table {
            row = Option.map (failed_key now (truncate_reason reason)) s.table.row;
          };
          grants = [];
        })
    -- Either of them where no row is committed yet: the UPDATE finds none and waits for nobody.
    mark_nothing : s.table.row ≡ none → Step s s

  pub data Reach (s : State) : State → Type 0 where
    here : Reach s s
    later : {u v : State} → Reach s u → Step u v → Reach s v

-- No call has begun and nobody holds the key.
abbrev pub at_rest : Option IdempotencyKeyRecord → State
at_rest row = record { table = record { row = row; holder = none }; calls = λ _. idle; grants = [] }
