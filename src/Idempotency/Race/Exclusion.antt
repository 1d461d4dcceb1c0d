-- ===== src/Idempotency/Race/Exclusion.antt =====
-- How far apart the calls are that are told to do the work.
use mathlib.Core.Option
use fluxa.Base.{
  ℕ, ◌+◌, ◌≤◌, String, Bool, true, Option, none, some, List, [], ◌∷◌, ◌≡◌, refl, subst, arith, All,
  length, ◌<◌,
}
use fluxa.Domain.{Time, minute, IdempotencyKeyRecord}
use fluxa.Idempotency.Defs.{is_processing, retry_key}
use fluxa.Idempotency.Race.{
  Call, Table, Move, begin, miss, lock, insert, duplicate, settled, active, stale, refuse, give_up,
  finish, Fault, no_begin, no_select, no_insert, no_update, no_commit_insert, no_commit_update,
  Commit, inserts, updates, State, Step, move, fault, claim, unsure, mark_success, mark_failed,
  mark_nothing, Reach, here, later, at_rest,
}
use fluxa.Idempotency.Race.Locks.{IsStale, IsSeen, IsLocked, Reach-IsLocked}

-- The times are a minute apart or more, the newest first.
abbrev pub IsApart : List Time → Type 0
IsApart [] = Unit
IsApart (now ∷ grants) = All (λ g. g + minute ≤ now) grants × IsApart grants

-- A claim since the last mark shows in the row.
abbrev IsSince : Option IdempotencyKeyRecord → Time → Type 0
IsSince none g = ⊥
IsSince (some r) g = (is_processing r.status ≡ true) × (g ≤ r.last_seen_at)

module _ {ℓ κ ι} {A : Type ℓ} {P : A → Type κ} {Q : A → Type ι} where
  All-map : ((a : A) → P a → Q a) → (xs : List A) → All P xs → All Q xs
  All-map f [] h = tt
  All-map f (x ∷ xs) (p, h) = (f x p, All-map f xs h)

module _ {aborts : Bool} {i : ℕ} {t : Table} where
  pub Move-row : {t' : Table} {c c' : Call} → Move aborts i t c t' c' → t'.row ≡ t.row
  Move-row (begin now) = refl
  Move-row (miss absent) = refl
  Move-row (lock r there free) = refl
  Move-row (insert absent free) = refl
  Move-row (duplicate r there) = refl
  Move-row (settled done) = refl
  Move-row (active recent) = refl
  Move-row (stale unfinished old) = refl
  Move-row refuse = refl
  Move-row give_up = refl
  Move-row finish = refl

  pub Fault-row : {t' : Table} {c c' : Call} → Fault aborts i t c t' c' → t'.row ≡ t.row
  Fault-row (no_begin e) = refl
  Fault-row (no_select e) = refl
  Fault-row no_insert = refl
  Fault-row (no_update e) = refl
  Fault-row (no_commit_insert e) = refl
  Fault-row (no_commit_update e) = refl

-- A row that may be claimed again was last claimed a minute ago or more.
IsStale-apart :
    (row : Option IdempotencyKeyRecord) (now g : Time)
    → IsStale now row
    → IsSince row g
    → g + minute ≤ now
IsStale-apart none now g h k = absurd h
IsStale-apart (some r) now g (unfinished, old) (working, le) = ground arith

retry_key-IsSince :
    (row : Option IdempotencyKeyRecord) (now g : Time)
    → IsStale now row
    → g ≤ now
    → IsSince (Option.map (retry_key now) row) g
retry_key-IsSince none now g h le = absurd h
retry_key-IsSince (some r) now g h le = (refl, le)

module _ {id : String} {t : Table} where
  Commit-apart :
      {t' : Table} {c : Call} {now : Time}
      → Commit id t c now t'
      → IsSeen t.row c
      → (g : Time) → IsSince t.row g
      → g + minute ≤ now
  Commit-apart inserts absent g k = absurd (subst (λ row. IsSince row g) absent k)
  Commit-apart (updates {now}) h g k = IsStale-apart t.row now g h k

  Commit-IsSince :
      {t' : Table} {c : Call} {now : Time}
      → Commit id t c now t'
      → IsSeen t.row c
      → (g : Time) → g ≤ now
      → IsSince t'.row g
  Commit-IsSince inserts h g le = (refl, le)
  Commit-IsSince (updates {now}) h g le = retry_key-IsSince t.row now g h le

  Commit-kept :
      {t' : Table} {c : Call} {now : Time}
      → Commit id t c now t'
      → IsSeen t.row c
      → (g : Time) → IsSince t.row g
      → IsSince t'.row g
  Commit-kept c h g k = Commit-IsSince c h g (omega (arith, Commit-apart c h g k))

-- No grant is both a minute old and younger.
alone :
    (now : Time) (grants : List Time)
    → All (λ g. now < g + minute) grants
    → IsApart (now ∷ grants)
    → length grants ≡ 0
alone now [] timely apart = refl
alone now (g ∷ grants) (young, _) ((old, _), _) = absurd (omega (arith, young, old))

module _ {aborts : Bool} {id : String} where
  Step-IsSince :
      {s s' : State}
      → Step aborts id s s'
      → IsLocked s.table s.calls
      → All (IsSince s.table.row) s.grants
      → All (IsSince s'.table.row) s'.grants
  Step-IsSince (move i m) l h = rw (Move-row m) h
  Step-IsSince (fault i f) l h = rw (Fault-row f) h
  Step-IsSince {s} (claim i {now} c) l h =
      (Commit-IsSince c (l.seen i) now (omega arith), All-map (Commit-kept c (l.seen i)) s.grants h)
  Step-IsSince {s} (unsure i e c) l h = All-map (Commit-kept c (l.seen i)) s.grants h
  Step-IsSince (mark_success now free) l h = tt
  Step-IsSince (mark_failed now reason free) l h = tt
  Step-IsSince (mark_nothing absent) l h = h

  Reach-IsSince :
      {row : Option IdempotencyKeyRecord} {s : State}
      → Reach aborts id (at_rest row) s
      → All (IsSince s.table.row) s.grants
  Reach-IsSince here = tt
  Reach-IsSince (later r step) = Step-IsSince step (Reach-IsLocked r) (Reach-IsSince r)

  -- However the statements of any number of `CheckAndMark` calls for one event interleave, with
  -- `MarkSuccess`, `MarkFailed`, failing statements and lost answers between them, from a table in
  -- which nobody holds the key: of the calls that have returned false, which is leave to process the
  -- event, since it was last marked, each later one read the clock a minute or more after each
  -- earlier one.
  pub Reach-IsApart :
      {row : Option IdempotencyKeyRecord} {s : State}
      → Reach aborts id (at_rest row) s
      → IsApart s.grants
  Reach-IsApart here = tt
  Reach-IsApart (later r (move i m)) = Reach-IsApart r
  Reach-IsApart (later r (fault i f)) = Reach-IsApart r
  Reach-IsApart (later {u} r (claim i c)) = (
    All-map (Commit-apart c ((Reach-IsLocked r).seen i)) u.grants (Reach-IsSince r),
    Reach-IsApart r,
  )
  Reach-IsApart (later r (unsure i e c)) = Reach-IsApart r
  Reach-IsApart (later r (mark_success now free)) = tt
  Reach-IsApart (later r (mark_failed now reason free)) = tt
  Reach-IsApart (later r (mark_nothing absent)) = Reach-IsApart r

  -- No claim comes while one that is a minute old is still unmarked: a processor marks an event within
  -- a minute of claiming it.
  abbrev pub IsTimely : {s s' : State} → Reach aborts id s s' → Type 0
  IsTimely here = Unit
  IsTimely (later r (move _ _)) = IsTimely r
  IsTimely (later r (fault _ _)) = IsTimely r
  IsTimely (later {u} r (claim _ {now} _)) = IsTimely r × All (λ g. now < g + minute) u.grants
  IsTimely (later r (unsure _ _ _)) = IsTimely r
  IsTimely (later r (mark_success _ _)) = IsTimely r
  IsTimely (later r (mark_failed _ _ _)) = IsTimely r
  IsTimely (later r (mark_nothing _)) = IsTimely r

  -- Where, as the comment in `CheckAndMark` assumes, no claim is left unmarked for a minute, so that
  -- whenever a call returns false it has read the clock less than a minute after each earlier one
  -- that did since the last mark: however the calls interleave, at most one has returned false since
  -- the last mark.
  pub Reach-one_worker :
      {row : Option IdempotencyKeyRecord} {s : State} (r : Reach aborts id (at_rest row) s)
      → IsTimely r
      → length s.grants ≤ 1
  Reach-one_worker here h = omega arith
  Reach-one_worker (later r (move i m)) h = Reach-one_worker r h
  Reach-one_worker (later r (fault i f)) h = Reach-one_worker r h
  Reach-one_worker (later {u} r (claim i {now} c)) (h, timely) =
      ground (arith, alone now u.grants timely (Reach-IsApart (later r (claim i c))))
  Reach-one_worker (later r (unsure i e c)) h = Reach-one_worker r h
  Reach-one_worker (later r (mark_success now free)) h = omega arith
  Reach-one_worker (later r (mark_failed now reason free)) h = omega arith
  Reach-one_worker (later r (mark_nothing absent)) h = Reach-one_worker r h
