-- ===== src/Idempotency/Race/Locks.antt =====
-- What the lock on the key guarantees.
use fluxa.Base.{
  ℕ, String, Bool, true, false, Option, none, some, ◌≡◌, refl, ap, arith, nat_eq, Bool-cases, ◌⊎◌,
  inl, inr,
}
use fluxa.Domain.{Time, Result, IdempotencyKeyRecord}
use fluxa.Idempotency.Defs.{is_success, is_active}
use fluxa.Idempotency.Race.{
  Call, idle, selecting, inserting, inserted, locked, updated, answered, Table, holds, Move, begin,
  miss, lock, insert, duplicate, settled, active, stale, refuse, give_up, finish, Fault, no_begin,
  no_select, no_insert, no_update, no_commit_insert, no_commit_update, Commit, inserts, updates,
  set_call, State, Step, move, fault, claim, unsure, mark_success, mark_failed, mark_nothing, Reach,
  here, later, at_rest,
}

-- A row that may be claimed again.
abbrev pub IsStale : Time → Option IdempotencyKeyRecord → Type 0
IsStale now none = ⊥
IsStale now (some r) = (is_success r.status ≡ false) × (is_active now r ≡ false)

-- What a transaction that holds the key knows of the committed row.
abbrev pub IsSeen : Option IdempotencyKeyRecord → Call → Type 0
IsSeen row (inserted now) = row ≡ none
IsSeen row (locked now r) = row ≡ some r
IsSeen row (updated now) = IsStale now row
IsSeen row _ = Unit

holds-IsSeen : (row : Option IdempotencyKeyRecord) (c : Call) → holds c ≡ false → IsSeen row c
holds-IsSeen row idle h = tt
holds-IsSeen row (selecting n a now) h = tt
holds-IsSeen row (inserting n now) h = tt
holds-IsSeen row (inserted now) h = cc
holds-IsSeen row (locked now r) h = cc
holds-IsSeen row (updated now) h = cc
holds-IsSeen row (answered a) h = tt

pub record IsLocked (t : Table) (calls : ℕ → Call) : Type 0 where
  pub held : (i : ℕ) → holds (calls i) ≡ true → t.holder ≡ some i
  pub owned : (i : ℕ) → t.holder ≡ some i → holds (calls i) ≡ true
  pub seen : (i : ℕ) → IsSeen t.row (calls i)

-- What a statement may do to the key and the row.
data Effect (i : ℕ) (t : Table) (c : Call) (t' : Table) (c' : Call) : Type 0 where
  stays : t' ≡ t → holds c' ≡ holds c → Effect i t c t' c'
  takes :
      holds c ≡ false
      → t.holder ≡ none
      → t'.row ≡ t.row
      → t'.holder ≡ some i
      → holds c' ≡ true
      → Effect i t c t' c'
  drops : holds c ≡ true → t'.holder ≡ none → holds c' ≡ false → Effect i t c t' c'

module _ {t : Table} {calls : ℕ → Call} (l : IsLocked t calls) (i : ℕ) {t' : Table}
    {c' : Call} where
  Effect-held :
      Effect i t (calls i) t' c'
      → (j : ℕ) → holds (set_call i c' calls j) ≡ true
      → t'.holder ≡ some j
  Effect-held (stays same kept) j h = ground (arith, l.held i, l.held j)
  Effect-held (takes out free same mine mine_now) j h = ground (arith, l.held j)
  Effect-held (drops mine_now free out) j h = ground (arith, l.held i, l.held j)

  Effect-owned :
      Effect i t (calls i) t' c'
      → (j : ℕ) → t'.holder ≡ some j
      → holds (set_call i c' calls j) ≡ true
  Effect-owned (stays same kept) j h = ground (arith, l.owned j)
  Effect-owned (takes out free same mine mine_now) j h = ground (arith, l.owned j)
  Effect-owned (drops mine_now free out) j h = ground (arith, l.owned j)

  -- A row that another transaction has seen stays as it is.
  Effect-row :
      Effect i t (calls i) t' c'
      → (j : ℕ) → nat_eq i j ≡ false
      → (t'.row ≡ t.row) ⊎ (holds (calls j) ≡ false)
  Effect-row (stays same kept) j ne = inl (ap (λ x. x.row) same)
  Effect-row (takes out free same mine mine_now) j ne = inl same
  Effect-row (drops mine_now free out) j ne = elim (Bool-cases (holds (calls j))) [
    | inl both ↦ absurd (ground (arith, l.held i, l.held j))
    | inr other ↦ inr other
  ]

  Effect-IsLocked :
      Effect i t (calls i) t' c' → IsSeen t'.row c' → IsLocked t' (set_call i c' calls)
  Effect-IsLocked e own = record {
    held = Effect-held e;
    owned = Effect-owned e;
    seen = λ j. elim (Bool-cases (nat_eq i j)) [
      | inl me ↦ rw me own
      | inr ne ↦ elim (Effect-row e j ne) [
        | inl same ↦ rw (ne, same) (l.seen j)
        | inr out ↦ rw ne (holds-IsSeen t'.row (calls j) out)
      ]
    ];
  }

module _ {aborts : Bool} {t : Table} (i : ℕ) where
  Move-Effect : {t' : Table} {c c' : Call} → Move aborts i t c t' c' → Effect i t c t' c'
  Move-Effect (begin now) = stays refl refl
  Move-Effect (miss absent) = stays refl refl
  Move-Effect (lock r there free) = takes refl free refl refl refl
  Move-Effect (insert absent free) = takes refl free refl refl refl
  Move-Effect (duplicate r there) = stays refl refl
  Move-Effect (settled done) = drops refl refl refl
  Move-Effect (active recent) = drops refl refl refl
  Move-Effect (stale unfinished old) = stays refl refl
  Move-Effect refuse = stays refl refl
  Move-Effect give_up = stays refl refl
  Move-Effect finish = stays refl refl

  Move-IsSeen :
      {t' : Table} {c c' : Call} → Move aborts i t c t' c' → IsSeen t.row c → IsSeen t'.row c'
  Move-IsSeen (begin now) h = tt
  Move-IsSeen (miss absent) h = tt
  Move-IsSeen (lock r there free) h = there
  Move-IsSeen (insert absent free) h = absent
  Move-IsSeen (duplicate r there) h = tt
  Move-IsSeen (settled done) h = tt
  Move-IsSeen (active recent) h = tt
  Move-IsSeen (stale unfinished old) h = rw h (unfinished, old)
  Move-IsSeen refuse h = tt
  Move-IsSeen give_up h = tt
  Move-IsSeen finish h = tt

  Fault-Effect : {t' : Table} {c c' : Call} → Fault aborts i t c t' c' → Effect i t c t' c'
  Fault-Effect (no_begin e) = stays refl refl
  Fault-Effect (no_select e) = stays refl refl
  Fault-Effect no_insert = stays refl refl
  Fault-Effect (no_update e) = drops refl refl refl
  Fault-Effect (no_commit_insert e) = drops refl refl refl
  Fault-Effect (no_commit_update e) = drops refl refl refl

  Fault-IsSeen : {t' : Table} {c c' : Call} → Fault aborts i t c t' c' → IsSeen t'.row c'
  Fault-IsSeen (no_begin e) = tt
  Fault-IsSeen (no_select e) = tt
  Fault-IsSeen no_insert = tt
  Fault-IsSeen (no_update e) = tt
  Fault-IsSeen (no_commit_insert e) = tt
  Fault-IsSeen (no_commit_update e) = tt

Commit-Effect :
    {id : String} {t t' : Table} {c : Call} {now : Time} (i : ℕ) (answer : Result Bool)
    → Commit id t c now t'
    → Effect i t c t' (answered answer)
Commit-Effect i answer inserts = drops refl refl refl
Commit-Effect i answer updates = drops refl refl refl

at_rest-IsLocked :
    (row : Option IdempotencyKeyRecord) → IsLocked (at_rest row).table (at_rest row).calls
at_rest-IsLocked row = record { held = λ i h. cc; owned = λ i h. cc; seen = λ i. tt }

-- A statement outside of every transaction waits until nobody holds the key.
free-IsLocked :
    {t : Table} {calls : ℕ → Call} (row : Option IdempotencyKeyRecord)
    → IsLocked t calls
    → t.holder ≡ none
    → IsLocked (record t { row = row }) calls
free-IsLocked {t} {calls} row l free = record {
  held = l.held;
  owned = l.owned;
  seen = λ i. holds-IsSeen row (calls i) (elim (Bool-cases (holds (calls i))) [
    | inl mine ↦ absurd (ground (arith, l.held i))
    | inr out ↦ out
  ]);
}

module _ {aborts : Bool} {id : String} where
  pub Step-IsLocked :
      {s s' : State} → Step aborts id s s' → IsLocked s.table s.calls → IsLocked s'.table s'.calls
  Step-IsLocked (move i m) l = Effect-IsLocked l i (Move-Effect i m) (Move-IsSeen i m (l.seen i))
  Step-IsLocked (fault i f) l = Effect-IsLocked l i (Fault-Effect i f) (Fault-IsSeen i f)
  Step-IsLocked (claim i c) l = Effect-IsLocked l i (Commit-Effect i _ c) tt
  Step-IsLocked (unsure i e c) l = Effect-IsLocked l i (Commit-Effect i _ c) tt
  Step-IsLocked (mark_success now free) l = free-IsLocked _ l free
  Step-IsLocked (mark_failed now reason free) l = free-IsLocked _ l free
  Step-IsLocked (mark_nothing absent) l = l

  -- The lock's guarantee holds in every state that calls reach.
  pub Reach-IsLocked :
      {row : Option IdempotencyKeyRecord} {s : State}
      → Reach aborts id (at_rest row) s
      → IsLocked s.table s.calls
  Reach-IsLocked here = at_rest-IsLocked _
  Reach-IsLocked (later r step) = Step-IsLocked step (Reach-IsLocked r)
