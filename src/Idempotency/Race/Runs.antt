-- ===== src/Idempotency/Race/Runs.antt =====
-- Runs of one call's statements to its answer: those of `check_record` and of the two commits.
use mathlib.Core.Option
use fluxa.Base.{
  ap, ◌∙◌, ℕ, String, Bool, true, false, Option, none, ◌≡◌, refl, sym, subst, arith, Bool-cases,
  ◌⊎◌, inl, inr, find_row-update_rows,
}
use fluxa.Domain.{Time, GoError, Result, ok, err, IdempotencyKeyRecord}
use fluxa.World.{Reply, done, refused, unconfirmed, Env, World, next, key_key, write}
use fluxa.Idempotency.Defs.{
  is_success, is_active, find_key, new_key, retry_key, update_key, check_record, add_key, commit,
}
use fluxa.Idempotency.Claims.{find_key-add_key}
use fluxa.Idempotency.Race.Flow.{is_answered}
use fluxa.Idempotency.Race.Turns.{is_mover}
use fluxa.Idempotency.Race.{
  Call, inserted, locked, updated, answered, Table, release, Move, settled, active, stale, Fault,
  no_update, no_commit_insert, no_commit_update, Commit, inserts, updates, set_call, State, Step,
  move, fault, claim, unsure,
}

module _ (aborts : Bool) (id : String) (i : ℕ) where
  -- Steps that are all statements of call `i`, none of them after its answer: those of one call.
  pub data Solo : State → State → Type 0 where
    stop : {s : State} → Solo s s
    and_then :
        {s u v : State} (step : Step aborts id s u)
        → is_mover i step ≡ true
        → is_answered (s.calls i) ≡ false
        → Solo u v
        → Solo s v

-- Call `i` comes to its answer by its own statements, with nobody left to hold the key.
pub record IsRun (aborts : Bool) (id : String) (i : ℕ) (s : State) (answer : Result Bool)
    (row : Option IdempotencyKeyRecord) : Type 0 where
  pub out : State
  pub run : Solo aborts id i s out
  pub replied : out.calls i ≡ answered answer
  pub left : out.table ≡ record { row = row; holder = none }

module _ {aborts : Bool} {id : String} (s : State) {i : ℕ} {c : Call} (at : s.calls i ≡ c)
    (unanswered : is_answered c ≡ false) where
  -- One step of the call, and its further ones.
  own :
      {u : State} (step : Step aborts id s u) {v : State}
      → is_mover i step ≡ true
      → Solo aborts id i u v
      → Solo aborts id i s v
  own step mine rest = and_then step mine (ap is_answered at ∙ unanswered) rest

  module _ {answer : Result Bool} {row : Option IdempotencyKeyRecord} {t : Table} where
    pub moves :
        {c' : Call}
        → Move aborts i s.table c t c'
        → IsRun aborts id i (record s { table = t; calls = set_call i c' s.calls }) answer row
        → IsRun aborts id i s answer row
    moves {c'} m rest = record {
      out = rest.out;
      run =
          own (move i (subst (λ x. Move aborts i s.table x t c') (sym at) m)) (ground arith)
            rest.run;
      replied = rest.replied;
      left = rest.left;
    }

    pub slips :
        {c' : Call}
        → Fault aborts i s.table c t c'
        → IsRun aborts id i (record s { table = t; calls = set_call i c' s.calls }) answer row
        → IsRun aborts id i s answer row
    slips {c'} f rest = record {
      out = rest.out;
      run =
          own (fault i (subst (λ x. Fault aborts i s.table x t c') (sym at) f)) (ground arith)
            rest.run;
      replied = rest.replied;
      left = rest.left;
    }

    pub answers :
        Move aborts i s.table c t (answered answer)
        → t ≡ record { row = row; holder = none }
        → IsRun aborts id i s answer row
    answers m e = record {
      out = _;
      run =
          own (move i (subst (λ x. Move aborts i s.table x t (answered answer)) (sym at) m))
            (ground arith) stop;
      replied = ground arith;
      left = e;
    }

    pub fails :
        Fault aborts i s.table c t (answered answer)
        → t ≡ record { row = row; holder = none }
        → IsRun aborts id i s answer row
    fails f e = record {
      out = _;
      run =
          own (fault i (subst (λ x. Fault aborts i s.table x t (answered answer)) (sym at) f))
            (ground arith) stop;
      replied = ground arith;
      left = e;
    }

  module _ {row : Option IdempotencyKeyRecord} {now : Time} {t : Table} where
    claims :
        Commit id s.table c now t
        → t ≡ record { row = row; holder = none }
        → IsRun aborts id i s (ok false) row
    claims m e = record {
      out = _;
      run = own (claim i (subst (λ x. Commit id s.table x now t) (sym at) m)) (ground arith) stop;
      replied = ground arith;
      left = e;
    }

    unsures :
        {x : GoError}
        → Commit id s.table c now t
        → t ≡ record { row = row; holder = none }
        → IsRun aborts id i s (err x) row
    unsures {x} m e = record {
      out = _;
      run =
          own (unsure i x (subst (λ x. Commit id s.table x now t) (sym at) m)) (ground arith) stop;
      replied = ground arith;
      left = e;
    }

pub Reply-cases :
    (r : Reply) → (r ≡ done) ⊎ ((e : GoError) × ((r ≡ refused e) ⊎ (r ≡ unconfirmed e)))
Reply-cases done = inl refl
Reply-cases (refused e) = inr (e, inl refl)
Reply-cases (unconfirmed e) = inr (e, inr refl)

find_key-update_key :
    (id : String) (now : Time) (w : World)
    → find_key id (update_key id (retry_key now) w) ≡ Option.map (retry_key now) (find_key id w)
find_key-update_key id now w = find_row-update_rows key_key id (retry_key now) w.keys (λ _. refl)

module _ (env : Env) (id : String) (i : ℕ) where
  commit_unchanged-IsRun :
      (s : State) (w : World) {now : Time} {r : IdempotencyKeyRecord}
      → s.calls i ≡ locked now r
      → s.table.row ≡ find_key id w
      → Move env.aborts i s.table (locked now r) (release s.table) (answered (ok true))
      → let (answer, w') = commit env true (λ w. w) w in
        IsRun env.aborts id i s answer (find_key id w')
  unfolding write
  commit_unchanged-IsRun s w at same m = elim (Reply-cases (env.reply w.tick)) [
    | inl d ↦ rw d (answers s at refl m (rw same refl))
    | inr (e, inl x) ↦ rw x (fails s at refl (no_update _) (rw same refl))
    | inr (e, inr x) ↦ rw x (fails s at refl (no_update _) (rw same refl))
  ]

  retry-IsRun :
      (s : State) (w : World) {now : Time}
      → s.calls i ≡ updated now
      → s.table.row ≡ find_key id w
      → let (answer, w') = commit env false (update_key id (retry_key now)) w in
        IsRun env.aborts id i s answer (find_key id w')
  unfolding write
  retry-IsRun s w {now} at same = elim (Reply-cases (env.reply w.tick)) [
    | inl d ↦ rw d (claims s at refl updates (rw (same, find_key-update_key id now w) refl))
    | inr (e, inl x) ↦ rw x (fails s at refl (no_commit_update _) (rw same refl))
    | inr (e, inr x) ↦
        rw x (unsures s at refl updates (rw (same, find_key-update_key id now w) refl))
  ]

  pub check_record-IsRun :
      (s : State) (w : World) (now : Time) (r : IdempotencyKeyRecord)
      → s.calls i ≡ locked now r
      → s.table.row ≡ find_key id w
      → let (answer, w') = check_record env now id r w in
        IsRun env.aborts id i s answer (find_key id w')
  unfolding check_record write
  check_record-IsRun s w now r at same = elim (Bool-cases (is_success r.status)) [
    | inl success ↦ rw success (commit_unchanged-IsRun s w at same (settled success))
    | inr unfinished ↦ elim (Bool-cases (is_active now r)) [
      | inl recent ↦ rw (unfinished, recent) (commit_unchanged-IsRun s w at same (active recent))
      | inr old ↦ elim (Reply-cases (env.reply w.tick)) [
        | inl d ↦
            rw (unfinished, old, d)
              (moves s at refl (stale unfinished old) (retry-IsRun _ (next w) (ground arith) same))
        | inr (e, inl x) ↦ rw (unfinished, old, x) (fails s at refl (no_update _) (rw same refl))
        | inr (e, inr x) ↦ rw (unfinished, old, x) (fails s at refl (no_update _) (rw same refl))
      ]
    ]
  ]

  pub add-IsRun :
      (s : State) (w : World) {now : Time}
      → s.calls i ≡ inserted now
      → s.table.row ≡ find_key id w
      → let (answer, w') = commit env false (add_key (new_key id now)) w in
        IsRun env.aborts id i s answer (find_key id w')
  unfolding write
  add-IsRun s w {now} at same = elim (Reply-cases (env.reply w.tick)) [
    | inl d ↦ rw d (claims s at refl inserts (rw (find_key-add_key id now w) refl))
    | inr (e, inl x) ↦ rw x (fails s at refl (no_commit_insert _) (rw same refl))
    | inr (e, inr x) ↦ rw x (unsures s at refl inserts (rw (find_key-add_key id now w) refl))
  ]
