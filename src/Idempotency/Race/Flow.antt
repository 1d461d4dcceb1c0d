-- ===== src/Idempotency/Race/Flow.antt =====
-- Runs of the calls in which no statement fails, and how a call that holds the key ends.
use fluxa.Base.{
  ℕ, String, Bool, true, false, none, ◌∷◌, ◌≡◌, refl, sym, subst, ◌∙◌, ap, arith, nat_eq,
  Bool-cases, inl, inr,
}
use fluxa.Domain.{Time, ok}
use fluxa.Idempotency.Defs.{is_success, is_active}
use fluxa.Idempotency.Race.{
  Call, idle, selecting, inserting, inserted, locked, updated, answered, Table, release, holds,
  Move, settled, active, stale, Commit, inserts, updates, set_call, State,
}

abbrev pub is_answered : Call → Bool
is_answered (answered _) = true
is_answered _ = false

-- Statements of the calls, of which none fails and no answer gets lost.
module _ (aborts : Bool) (id : String) where
  pub data Flow : State → State → Type 0 where
    stop : {s : State} → Flow s s
    move :
        {s v : State} (i : ℕ) {t : Table} {c : Call}
        → Move aborts i s.table (s.calls i) t c
        → Flow (record s { table = t; calls = set_call i c s.calls }) v
        → Flow s v
    claim :
        {s v : State} (i : ℕ) {now : Time} {t : Table}
        → Commit id s.table (s.calls i) now t
        → Flow
            (record {
              table = t;
              calls = set_call i (answered (ok false)) s.calls;
              grants = now ∷ s.grants;
            })
            v
        → Flow s v

module _ {aborts : Bool} {id : String} where
  pub Flow-trans : {s u v : State} → Flow aborts id s u → Flow aborts id u v → Flow aborts id s v
  Flow-trans stop q = q
  Flow-trans (move i m r) q = move i m (Flow-trans r q)
  Flow-trans (claim i c r) q = claim i c (Flow-trans r q)

pub set_call-same : (i : ℕ) (c : Call) (calls : ℕ → Call) → set_call i c calls i ≡ c
set_call-same i c calls = ground arith

set_call-other :
    (i j : ℕ) (c : Call) (calls : ℕ → Call) → nat_eq i j ≡ false → set_call i c calls j ≡ calls j
set_call-other i j c calls ne = ground arith

module _ {aborts : Bool} {id : String} (s : State) (i : ℕ) {c : Call} (at : s.calls i ≡ c) where
  pub moving :
      {t : Table} {c' : Call}
      → Move aborts i s.table c t c'
      → Flow aborts id s (record s { table = t; calls = set_call i c' s.calls })
  moving {t} {c'} m = move i (subst (λ x. Move aborts i s.table x t c') (sym at) m) stop

  claiming :
      {now : Time} {t : Table}
      → Commit id s.table c now t
      → Flow aborts id s (record {
        table = t;
        calls = set_call i (answered (ok false)) s.calls;
        grants = now ∷ s.grants;
      })
  claiming {now} {t} m = claim i (subst (λ x. Commit id s.table x now t) (sym at) m) stop

-- A holder's way out: its answer, the key free, and the other calls as they were.
pub record IsFreed (aborts : Bool) (id : String) (s : State) (i : ℕ) : Type 0 where
  pub out : State
  pub reached : Flow aborts id s out
  pub free : out.table.holder ≡ none
  pub reply : is_answered (out.calls i) ≡ true
  pub others : (j : ℕ) → nat_eq i j ≡ false → out.calls j ≡ s.calls j

module _ {aborts : Bool} {id : String} where
  answering :
      (s : State) (i : ℕ) {c : Call} {answer : _}
      → s.calls i ≡ c
      → Move aborts i s.table c (release s.table) (answered answer)
      → IsFreed aborts id s i
  answering s i at m = record {
    out = _;
    reached = moving s i at m;
    free = refl;
    reply = ap is_answered (set_call-same i _ s.calls);
    others = λ j ne. set_call-other i j _ s.calls ne;
  }

  pub granting :
      (s : State) (i : ℕ) {c : Call} {now : Time} {t : Table}
      → s.calls i ≡ c
      → t.holder ≡ none
      → Commit id s.table c now t
      → IsFreed aborts id s i
  granting s i at free m = record {
    out = _;
    reached = claiming s i at m;
    free = free;
    reply = ap is_answered (set_call-same i _ s.calls);
    others = λ j ne. set_call-other i j _ s.calls ne;
  }

  IsFreed-first :
      {s u : State} {i : ℕ}
      → (Flow aborts id s u)
      → ((j : ℕ) → nat_eq i j ≡ false → u.calls j ≡ s.calls j)
      → IsFreed aborts id u i
      → IsFreed aborts id s i
  IsFreed-first step kept f = record {
    out = f.out;
    reached = Flow-trans step f.reached;
    free = f.free;
    reply = f.reply;
    others = λ j ne. f.others j ne ∙ kept j ne;
  }

  pub freed :
      (s : State) (i : ℕ) (c : Call) → s.calls i ≡ c → holds c ≡ true → IsFreed aborts id s i
  freed s i (inserted now) at h = granting s i at refl inserts
  freed s i (updated now) at h = granting s i at refl updates
  freed s i (locked now r) at h = elim (Bool-cases (is_success r.status)) [
    | inl done ↦ answering s i at (settled done)
    | inr unfinished ↦ elim (Bool-cases (is_active now r)) [
      | inl recent ↦ answering s i at (active recent)
      | inr old ↦
          IsFreed-first (moving s i at (stale unfinished old))
            (λ j ne. set_call-other i j _ s.calls ne)
            (granting _ i (set_call-same i (updated now) s.calls) refl updates)
    ]
  ]
  freed s i idle at h = cc
  freed s i (selecting n a now) at h = cc
  freed s i (inserting n now) at h = cc
  freed s i (answered a) at h = cc
