-- ===== src/Idempotency/Race/Progress.antt =====
-- Whether calls that wait for each other's locks get their answers.
use fluxa.Base.{
  ℕ, zero, suc, String, Bool, true, false, Option, none, ◌≡◌, refl, ap, arith, nat_eq, Bool-cases,
  Option-cases, inl, inr,
}
use fluxa.Domain.{Time, IdempotencyKeyRecord}
use fluxa.Idempotency.Race.{
  Call, idle, selecting, inserting, inserted, locked, updated, answered, holds, Move, miss, lock,
  insert, duplicate, refuse, give_up, inserts, State, Reach, at_rest,
}
use fluxa.Idempotency.Race.Locks.{Reach-IsLocked}
use fluxa.Idempotency.Race.Flow.{
  is_answered, Flow, Flow-trans, set_call-same, moving, IsFreed, granting, freed,
}

-- The calls that have begun and have no answer yet.
abbrev pub is_open : Call → Bool
is_open idle = false
is_open (answered _) = false
is_open _ = true

module _ (aborts : Bool) (id : String) (i : ℕ) where
  -- The call gets its answer in a state that can be reached.
  abbrev pub IsAnswerable : State → Type 0
  IsAnswerable s = (s' : State) × Flow aborts id s s' × (is_answered (s'.calls i) ≡ true)

module _ {aborts : Bool} {id : String} where
  IsAnswerable-first :
      {s u : State} {i : ℕ}
      → (Flow aborts id s u)
      → IsAnswerable aborts id i u
      → IsAnswerable aborts id i s
  IsAnswerable-first step (v, r, h) = (v, Flow-trans step r, h)

  IsFreed-IsAnswerable : {s : State} {i : ℕ} → IsFreed aborts id s i → IsAnswerable aborts id i s
  IsFreed-IsAnswerable f = (f.out, f.reached, f.reply)

  module _ (s : State) (i : ℕ) (free : s.table.holder ≡ none) where
    inserting-IsAnswerable :
        {n : ℕ} {now : Time}
        → s.calls i ≡ inserting n now
        → s.table.row ≡ none
        → IsAnswerable aborts id i s
    inserting-IsAnswerable {n} {now} at absent =
        IsAnswerable-first (moving s i at (insert absent free)) (
          IsFreed-IsAnswerable (granting _ i (set_call-same i (inserted now) s.calls) refl inserts))

    ended :
        {c : Call} {answer : _}
        → s.calls i ≡ c
        → Move aborts i s.table c s.table (answered answer)
        → IsAnswerable aborts id i s
    ended at m = (_, moving s i at m, ap is_answered (set_call-same i _ s.calls))

  selecting-IsAnswerable :
      (s : State) (i : ℕ)
      → s.table.holder ≡ none
      → (n : ℕ) (aborted : Bool) {now : Time} → s.calls i ≡ selecting n aborted now
      → IsAnswerable aborts id i s
  selecting-IsAnswerable s i free zero aborted at = ended s i free at give_up
  selecting-IsAnswerable s i free (suc n) true at = ended s i free at refuse
  selecting-IsAnswerable s i free (suc n) false {now} at = elim (Option-cases s.table.row) [
    | inl absent ↦
        IsAnswerable-first (moving s i at (miss absent))
          (inserting-IsAnswerable _ i free (set_call-same i (inserting n now) s.calls) absent)
    | inr (r, there) ↦ IsAnswerable-first (moving s i at (lock r there free)) (
        IsFreed-IsAnswerable
          (freed _ i (locked now r) (set_call-same i (locked now r) s.calls) refl))
  ]

  -- While nobody holds the key.
  free-IsAnswerable :
      (s : State) (i : ℕ)
      → s.table.holder ≡ none
      → (c : Call) → s.calls i ≡ c
      → is_open c ≡ true
      → IsAnswerable aborts id i s
  free-IsAnswerable s i free (selecting n a now) at h = selecting-IsAnswerable s i free n a at
  free-IsAnswerable s i free (inserting n now) at h = elim (Option-cases s.table.row) [
    | inl absent ↦ inserting-IsAnswerable s i free at absent
    | inr (r, there) ↦ IsAnswerable-first (moving s i at (duplicate r there)) (
        selecting-IsAnswerable _ i free n aborts (set_call-same i (selecting n aborts now) s.calls))
  ]
  free-IsAnswerable s i free (inserted now) at h = IsFreed-IsAnswerable (freed s i _ at refl)
  free-IsAnswerable s i free (locked now r) at h = IsFreed-IsAnswerable (freed s i _ at refl)
  free-IsAnswerable s i free (updated now) at h = IsFreed-IsAnswerable (freed s i _ at refl)
  free-IsAnswerable s i free idle at h = cc
  free-IsAnswerable s i free (answered a) at h = cc

  -- While `j` holds the key: first the holder ends.
  waiting-IsAnswerable :
      (s : State) (i j : ℕ)
      → holds (s.calls j) ≡ true
      → is_open (s.calls i) ≡ true
      → IsAnswerable aborts id i s
  waiting-IsAnswerable s i j mine h = elim (Bool-cases (nat_eq j i)) [
    | inl same ↦ IsFreed-IsAnswerable (freed s i _ refl (ground (arith)))
    | inr ne ↦
        let f = freed s j _ refl mine in
        let (v, r, reply) = free-IsAnswerable f.out i f.free _ (f.others i ne) h in
        (v, Flow-trans f.reached r, reply)
  ]

  -- In every state that the interleaved calls for one event reach from a table in which nobody holds
  -- the key, whoever holds it then, each call that has begun and has no answer gets one by some
  -- sequence of the calls' statements of which none fails.
  pub Reach-IsAnswerable :
      {row : Option IdempotencyKeyRecord} {s : State}
      → Reach aborts id (at_rest row) s
      → (i : ℕ) → is_open (s.calls i) ≡ true
      → IsAnswerable aborts id i s
  Reach-IsAnswerable {s} r i h = elim (Option-cases s.table.holder) [
    | inl free ↦ free-IsAnswerable s i free _ refl h
    | inr (j, owner) ↦ waiting-IsAnswerable s i j ((Reach-IsLocked r).owned j owner) h
  ]
