-- ===== src/Idempotency/Race/Turns.antt =====
-- How many statements a call takes to its answer.
use fluxa.Base.{
  ℕ, suc, ◌+◌, ◌*◌, ◌≤◌, String, Bool, true, false, ◌≡◌, arith, nat_eq, if◌then◌else◌, Bool-cases,
  inl, inr,
}
use fluxa.Domain.{Time}
use fluxa.Idempotency.Race.{
  Call, idle, selecting, inserting, inserted, locked, updated, answered, Table, Move, begin, miss,
  lock, insert, duplicate, settled, active, stale, refuse, give_up, finish, Fault, no_begin,
  no_select, no_insert, no_update, no_commit_insert, no_commit_update, Commit, inserts, updates,
  set_call, State, Step, move, fault, claim, unsure, mark_success, mark_failed, mark_nothing, Reach,
  here, later,
}
use fluxa.Idempotency.Race.Progress.{is_open}

-- The statements that a call has before it at most.
abbrev rank : Call → ℕ
rank idle = 0
rank (selecting n _ _) = 2 * n + 1
rank (inserting n _) = 2 * n + 2
rank (inserted _) = 1
rank (locked _ _) = 2
rank (updated _) = 1
rank (answered _) = 0

module _ {aborts : Bool} {i : ℕ} {t : Table} where
  Move-rank :
      {t' : Table} {c c' : Call}
      → Move aborts i t c t' c'
      → is_open c ≡ true
      → suc (rank c') ≤ rank c
  Move-rank (begin now) h = cc
  Move-rank (miss absent) h = omega arith
  Move-rank (lock r there free) h = omega arith
  Move-rank (insert absent free) h = omega arith
  Move-rank (duplicate r there) h = omega arith
  Move-rank (settled done) h = omega arith
  Move-rank (active recent) h = omega arith
  Move-rank (stale unfinished old) h = omega arith
  Move-rank refuse h = omega arith
  Move-rank give_up h = omega arith
  Move-rank finish h = cc

  Fault-rank :
      {t' : Table} {c c' : Call}
      → Fault aborts i t c t' c'
      → is_open c ≡ true
      → suc (rank c') ≤ rank c
  Fault-rank (no_begin e) h = cc
  Fault-rank (no_select e) h = omega arith
  Fault-rank no_insert h = omega arith
  Fault-rank (no_update e) h = omega arith
  Fault-rank (no_commit_insert e) h = omega arith
  Fault-rank (no_commit_update e) h = omega arith

Commit-rank :
    {id : String} {t t' : Table} {c : Call} {now : Time} → Commit id t c now t' → 1 ≤ rank c
Commit-rank inserts = omega arith
Commit-rank updates = omega arith

module _ {aborts : Bool} {id : String} where
  -- The call whose statement a step is.
  abbrev pub is_mover : ℕ → {s s' : State} → Step aborts id s s' → Bool
  is_mover i (move j _) = nat_eq j i
  is_mover i (fault j _) = nat_eq j i
  is_mover i (claim j _) = nat_eq j i
  is_mover i (unsure j _ _) = nat_eq j i
  is_mover i (mark_success _ _) = false
  is_mover i (mark_failed _ _ _) = false
  is_mover i (mark_nothing _) = false

  abbrev pub turns : ℕ → {s s' : State} → Reach aborts id s s' → ℕ
  turns i here = 0
  turns i (later r step) = let n = turns i r in if is_mover i step then suc n else n

  -- The call had no answer before any of the steps.
  abbrev pub IsOpenTill : ℕ → {s s' : State} → Reach aborts id s s' → Type 0
  IsOpenTill i here = Unit
  IsOpenTill i (later {u} r step) = IsOpenTill i r × (is_open (u.calls i) ≡ true)

-- One statement of call `j`, as call `i` sees it.
set_call-rank :
    (i j : ℕ) (c : Call) (calls : ℕ → Call)
    → (is_open (calls j) ≡ true → suc (rank c) ≤ rank (calls j))
    → is_open (calls i) ≡ true
    → (if nat_eq j i then 1 else 0) + rank (set_call j c calls i) ≤ rank (calls i)
set_call-rank i j c calls h o = elim (Bool-cases (nat_eq j i)) [
  | inl same ↦ let k = h (ground arith) in ground arith
  | inr other ↦ ground arith
]

module _ {aborts : Bool} {id : String} where
  Step-rank :
      {s s' : State} (i : ℕ) (step : Step aborts id s s')
      → is_open (s.calls i) ≡ true
      → (if is_mover i step then 1 else 0) + rank (s'.calls i) ≤ rank (s.calls i)
  Step-rank {s} i (move j {c} m) o = set_call-rank i j c s.calls (Move-rank m) o
  Step-rank {s} i (fault j {c} f) o = set_call-rank i j c s.calls (Fault-rank f) o
  Step-rank {s} i (claim j c) o = set_call-rank i j _ s.calls (λ _. Commit-rank c) o
  Step-rank {s} i (unsure j e c) o = set_call-rank i j _ s.calls (λ _. Commit-rank c) o
  Step-rank i (mark_success now free) o = omega arith
  Step-rank i (mark_failed now reason free) o = omega arith
  Step-rank i (mark_nothing absent) o = omega arith

  Reach-rank :
      {s s' : State} (i : ℕ) (r : Reach aborts id s s')
      → IsOpenTill i r
      → turns i r + rank (s'.calls i) ≤ rank (s.calls i)
  Reach-rank i here h = omega arith
  Reach-rank i (later r step) (h, o) =
      let rest = Reach-rank i r h in let one = Step-rank i step o in ground arith

  -- Among the steps of all other calls and marks, and whichever of its statements fail, a call of
  -- `CheckAndMark` takes at most seven statements between its reading of the clock and its answer.
  pub turns_le :
      {s s' : State} (i : ℕ) (now : Time) (r : Reach aborts id s s')
      → s.calls i ≡ selecting 3 false now
      → IsOpenTill i r
      → turns i r ≤ 7
  turns_le i now r at h = let total = Reach-rank i r h in ground arith
