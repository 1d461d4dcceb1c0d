-- ===== src/Idempotency/Race/Alone.antt =====
-- `check_and_mark` as a run of one call's statements.
use fluxa.Base.{
  ℕ, zero, suc, ◌+◌, String, Bool, true, false, none, List, ◌≡◌, refl, ◌∙◌, arith, find_row,
  Option-cases, ◌⊎◌, inl, inr,
}
use fluxa.Domain.{Time, GoError, IdempotencyKeyRecord}
use fluxa.World.{done, refused, unconfirmed, Env, World, next, key_key, read, write}
use fluxa.Idempotency.Defs.{find_key, new_key, claim_loop, check_and_mark, add_key, commit}
use fluxa.Idempotency.Race.{
  selecting, inserting, begin, miss, lock, insert, refuse, give_up, no_begin, no_select, no_insert,
  set_call, State, at_rest,
}
use fluxa.Idempotency.Race.Runs.{
  IsRun, moves, slips, answers, fails, Reply-cases, check_record-IsRun, add-IsRun,
}

-- No other processor writes the row of the event.
abbrev pub IsUndisturbed : Env → String → Type 0
IsUndisturbed env id =
    (n : ℕ) (keys : List IdempotencyKeyRecord)
    → find_row key_key id (env.others n keys) ≡ find_row key_key id keys

module _ (env : Env) (id : String) (n : ℕ) (now : Time) (w : World) where
  -- The world in which the INSERT of a round runs.
  abbrev met : World
  met = record (next w) { keys = env.others (w.tick + 1) w.keys }

  module _ (looked : env.reply w.tick ≡ done) (absent : find_key id w ≡ none)
      (still : find_key id met ≡ none) where
    claim_loop_inserts :
        env.reply (w.tick + 1) ≡ done
        → claim_loop env (suc n) false now id w
          ≡ commit env false (add_key (new_key id now)) (next met)
    unfolding claim_loop read
    claim_loop_inserts k = ground arith

    claim_loop_slips :
        (e : GoError)
        → (env.reply (w.tick + 1) ≡ refused e) ⊎ (env.reply (w.tick + 1) ≡ unconfirmed e)
        → claim_loop env (suc n) false now id w ≡ claim_loop env n env.aborts now id (next met)
    unfolding claim_loop read
    claim_loop_slips e k = ground arith

module _ (env : Env) (id : String) (i : ℕ) (u : IsUndisturbed env id) where
  claim_loop-IsRun :
      (n : ℕ) (aborted : Bool) (now : Time) (s : State) (w : World)
      → s.calls i ≡ selecting n aborted now
      → s.table ≡ record { row = find_key id w; holder = none }
      → let (answer, w') = claim_loop env n aborted now id w in
        IsRun env.aborts id i s answer (find_key id w')
  unfolding claim_loop read
  claim_loop-IsRun zero aborted now s w at same = answers s at refl give_up same
  claim_loop-IsRun (suc n) true now s w at same = answers s at refl refuse same
  claim_loop-IsRun (suc n) false now s w at same = elim (Reply-cases (env.reply w.tick)) [
    | inl d ↦ elim (Option-cases (find_key id w)) [
      | inl absent ↦
          let w' : World = met env id n now w in
          let still : find_key id w' ≡ none = u (w.tick + 1) w.keys ∙ absent in
          let s' : State = record s { calls = set_call i (inserting n now) s.calls } in
          elim (Reply-cases (env.reply (w.tick + 1))) [
            | inl k ↦ rw (claim_loop_inserts env id n now w d absent still k) (
                moves s at refl (miss (rw same absent)) (
                  moves s' (ground arith) refl
                    (insert {n = n} {now = now} (rw same absent) (rw same refl))
                    (add-IsRun env id i _ (next w') (ground arith)
                      (rw (same, absent, still) refl))))
            | inr (e, k) ↦ rw (claim_loop_slips env id n now w d absent still e k) (
                moves s at refl (miss (rw same absent)) (
                  slips s' (ground arith) refl (no_insert {n = n} {now = now}) (
                    claim_loop-IsRun n env.aborts now _ (next w') (ground arith)
                      (rw (same, absent, still) refl))))
          ]
      | inr (r, found) ↦
          rw (d, found)
            (moves s at refl (lock r (rw same found) (rw same refl))
              (check_record-IsRun env id i _ (next w) now r (ground arith) (rw same refl)))
    ]
    | inr (e, inl x) ↦ rw x (fails s at refl (no_select _) same)
    | inr (e, inr x) ↦ rw x (fails s at refl (no_select _) same)
  ]

  -- Whatever the clock reads and whichever calls fail, while no other processor writes the row of the
  -- event: the answer that `check_and_mark` gives and the row that it leaves are those of some run, from
  -- the same row, that consists of one call's own statements only, from its begin to its answer, after
  -- which nobody holds the key.
  pub check_and_mark-IsRun :
      (w : World)
      → let (answer, w') = check_and_mark env id w in
        IsRun env.aborts id i (at_rest (find_key id w)) answer (find_key id w')
  unfolding check_and_mark write
  check_and_mark-IsRun w =
      let s : State = at_rest (find_key id w) in
      elim (Reply-cases (env.reply w.tick)) [
        | inl d ↦ rw d (
            moves s refl refl (begin (env.now (w.tick + 1)))
              (claim_loop-IsRun 3 false _ _ (next (next w)) (ground arith) refl))
        | inr (e, inl x) ↦ rw x (fails s refl refl (no_begin _) refl)
        | inr (e, inr x) ↦ rw x (fails s refl refl (no_begin _) refl)
      ]
