-- ===== src/Idempotency/Frame.antt =====
-- What the idempotency client leaves alone: every store but the table of keys.
use fluxa.Base.{ℕ, zero, suc, ◌+◌, String, Bool, true, false, ◌≡◌, inl, inr, arith, Option-cases}
use fluxa.Domain.{Time, IdempotencyKeyRecord}
use fluxa.World.{Env, World, next, read, write}
use fluxa.Idempotency.Defs.{
  find_key, check_record, claim_loop, check_and_mark, mark_success, mark_failed,
}

-- Only the keys and the call counter may differ.
abbrev pub IsSameButKeys : World → World → Type 0
IsSameButKeys w w' =
    (w'.events ≡ w.events)
    × (w'.flags ≡ w.flags)
    × (w'.objects ≡ w.objects)
    × (w'.published ≡ w.published)
    × (w'.samples ≡ w.samples)

module _ (env : Env) where
  check_record_frame :
      (now : Time) (id : String) (r : IdempotencyKeyRecord) (w : World)
      → IsSameButKeys w (check_record env now id r w).1
  unfolding check_record write
  check_record_frame now id r w = ground arith

  claim_loop_frame :
      (n : ℕ) (aborted : Bool) (now : Time) (id : String) (w : World)
      → IsSameButKeys w (claim_loop env n aborted now id w).1
  unfolding claim_loop read write
  claim_loop_frame zero aborted now id w = ground arith
  claim_loop_frame (suc n) true now id w = ground arith
  claim_loop_frame (suc n) false now id w =
      let met : World = record (next w) { keys = env.others (w.tick + 1) w.keys } in
      elim (Option-cases (find_key id w)) [
        | inl fresh ↦ ground (arith, claim_loop_frame n env.aborts now id (next met))
        | inr (r, found) ↦ ground (arith, check_record_frame now id r (next w))
      ]

  pub check_and_mark_frame : (id : String) (w : World) → IsSameButKeys w (check_and_mark env id w).1
  unfolding check_and_mark write
  check_and_mark_frame id w =
      ground (arith, claim_loop_frame 3 false (env.now (w.tick + 1)) id (next (next w)))

  pub mark_success_frame : (id : String) (w : World) → IsSameButKeys w (mark_success env id w).1
  unfolding mark_success write
  mark_success_frame id w = ground arith

  mark_failed_frame :
      (id reason : String) (w : World) → IsSameButKeys w (mark_failed env id reason w).1
  unfolding mark_failed write
  mark_failed_frame id reason w = ground arith
