-- ===== src/Idempotency/Race/Final.antt =====
-- What becomes of an event that was processed.
use mathlib.Core.Option
use fluxa.Base.{ℕ, suc, String, Bool, true, Option, none, some, ◌≡◌, refl, subst, arith}
use fluxa.Domain.{Time, IdempotencyKeyRecord}
use fluxa.Idempotency.Defs.{is_success, success_key}
use fluxa.Idempotency.Race.{
  Table, Call, Commit, inserts, updates, State, Step, move, fault, claim, unsure, mark_success,
  mark_failed, mark_nothing, Reach, here, later, at_rest,
}
use fluxa.Idempotency.Race.Locks.{IsStale, IsSeen, IsLocked, Step-IsLocked, Reach-IsLocked}
use fluxa.Idempotency.Race.Exclusion.{Move-row, Fault-row}

-- The committed row says that the event was processed.
abbrev pub IsSucceeded : Option IdempotencyKeyRecord → Type 0
IsSucceeded none = ⊥
IsSucceeded (some r) = is_success r.status ≡ true

IsSucceeded-IsStale :
    (row : Option IdempotencyKeyRecord) (now : Time) → IsSucceeded row → IsStale now row → ⊥
IsSucceeded-IsStale none now h k = h
IsSucceeded-IsStale (some r) now h (unfinished, old) = ground arith

success_key-IsSucceeded :
    (row : Option IdempotencyKeyRecord) (now : Time)
    → IsSucceeded row
    → IsSucceeded (Option.map (success_key now) row)
success_key-IsSucceeded none now h = h
success_key-IsSucceeded (some r) now h = refl

Commit-IsSucceeded :
    {id : String} {t t' : Table} {c : Call} {now : Time}
    → Commit id t c now t'
    → IsSeen t.row c
    → IsSucceeded t.row
    → ⊥
Commit-IsSucceeded inserts absent h = subst IsSucceeded absent h
Commit-IsSucceeded {t} (updates {now}) stale h = IsSucceeded-IsStale t.row now h stale

module _ {aborts : Bool} {id : String} where
  -- `MarkFailed` is not called.
  abbrev pub IsUnfailed : {s s' : State} → Reach aborts id s s' → Type 0
  IsUnfailed here = Unit
  IsUnfailed (later r (mark_failed _ _ _)) = ⊥
  IsUnfailed (later r _) = IsUnfailed r

  -- How many calls return false.
  abbrev pub claims : {s s' : State} → Reach aborts id s s' → ℕ
  claims here = 0
  claims (later r (claim _ _)) = suc (claims r)
  claims (later r _) = claims r

  -- What holds after a processed event's row was seen.
  record IsFinal {s s' : State} (q : Reach aborts id s s') : Type 0 where
    locked : IsLocked s'.table s'.calls
    succeeded : IsSucceeded s'.table.row
    unclaimed : claims q ≡ 0

  IsFinal-later :
      {s u v : State} {q : Reach aborts id s u} (step : Step aborts id u v)
      → IsFinal q
      → IsSucceeded v.table.row
      → claims (later q step) ≡ 0
      → IsFinal (later q step)
  IsFinal-later step f h k = record {
    locked = Step-IsLocked step f.locked;
    succeeded = h;
    unclaimed = k;
  }

  Reach-IsFinal :
      {s s' : State} (q : Reach aborts id s s')
      → IsLocked s.table s.calls
      → IsSucceeded s.table.row
      → IsUnfailed q
      → IsFinal q
  Reach-IsFinal here l h k = record { locked = l; succeeded = h; unclaimed = refl }
  Reach-IsFinal (later q (move i m)) l h k =
      let f = Reach-IsFinal q l h k in
      IsFinal-later (move i m) f (rw (Move-row m) f.succeeded) f.unclaimed
  Reach-IsFinal (later q (fault i m)) l h k =
      let f = Reach-IsFinal q l h k in
      IsFinal-later (fault i m) f (rw (Fault-row m) f.succeeded) f.unclaimed
  Reach-IsFinal (later q (claim i c)) l h k =
      let f = Reach-IsFinal q l h k in absurd (Commit-IsSucceeded c (f.locked.seen i) f.succeeded)
  Reach-IsFinal (later q (unsure i e c)) l h k =
      let f = Reach-IsFinal q l h k in absurd (Commit-IsSucceeded c (f.locked.seen i) f.succeeded)
  Reach-IsFinal (later {u} q (mark_success now free)) l h k =
      let f = Reach-IsFinal q l h k in
      IsFinal-later (mark_success now free) f (success_key-IsSucceeded u.table.row now f.succeeded)
        f.unclaimed
  Reach-IsFinal (later q (mark_failed now reason free)) l h k = absurd k
  Reach-IsFinal (later q (mark_nothing absent)) l h k =
      let f = Reach-IsFinal q l h k in IsFinal-later (mark_nothing absent) f f.succeeded f.unclaimed

  -- From a state that the calls reach and in which the committed row is a success, no call returns
  -- false, however the statements interleave from then on, unless `MarkFailed` is called.
  pub Reach-unclaimed :
      {row : Option IdempotencyKeyRecord} {s s' : State}
      → Reach aborts id (at_rest row) s
      → IsSucceeded s.table.row
      → (q : Reach aborts id s s') → IsUnfailed q
      → claims q ≡ 0
  Reach-unclaimed r h q k = (Reach-IsFinal q (Reach-IsLocked r) h k).unclaimed
