-- ===== src/Idempotency/Succeeded.antt =====
-- Which keys say that their event succeeded, and that a claim makes none of them say so.
use fluxa.Base.{
  ℕ, zero, suc, ◌+◌, ◌==◌, String, Bool, true, false, Option, none, some, List, ◌∷◌, ◌≡◌, refl, ◌⊎◌,
  inl, inr, arith, eq_iff, Option-cases, Bool-cases, find_row, update_rows, find_row-update_rows,
  find_row-update_rows_ne,
}
use fluxa.Domain.{Time, IdempotencyKeyRecord}
use fluxa.World.{Env, World, key_key, next, read, write, read-cases}
use fluxa.Idempotency.Defs.{
  is_success, new_key, retry_key, success_key, failed_key, find_key, check_record, claim_loop,
  check_and_mark, mark_success, mark_failed, truncate_reason,
}

abbrev pub is_success_row : Option IdempotencyKeyRecord → Bool
is_success_row none = false
is_success_row (some r) = is_success r.status

-- The key of the id says that the event succeeded.
abbrev pub succeeded : String → List IdempotencyKeyRecord → Bool
succeeded id keys = is_success_row (find_row key_key id keys)

-- What the other processors do in the middle of a claim makes no key say that its event succeeded.
abbrev pub IsHonest : Env → Type 0
IsHonest env =
    (n : ℕ) (keys : List IdempotencyKeyRecord) (j : String)
    → succeeded j (env.others n keys) ≡ true
    → succeeded j keys ≡ true

-- An update that leaves the status of no row at success gives no new success.
update_rows-succeeded :
    (id j : String) (f : IdempotencyKeyRecord → IdempotencyKeyRecord)
    (keys : List IdempotencyKeyRecord)
    → ((r : IdempotencyKeyRecord) → key_key (f r) ≡ key_key r)
    → succeeded j (update_rows key_key id f keys) ≡ true
    → (succeeded j keys ≡ true)
      ⊎ ((id ≡ j) × ((r : IdempotencyKeyRecord) × (is_success (f r).status ≡ true)))
update_rows-succeeded id j f keys same h = elim (Bool-cases (id == j)) [
  | inr other ↦ inl (ground (arith, find_row-update_rows_ne key_key id j f keys same other))
  | inl this ↦
      let e : id ≡ j = (eq_iff id j).0 this in
      elim (Option-cases (find_row key_key id keys)) [
        | inl absent ↦ absurd (ground (arith, find_row-update_rows key_key id f keys same))
        | inr (r, found) ↦ inr (e, (r, ground (arith, find_row-update_rows key_key id f keys same)))
      ]
]

new_key-succeeded :
    (id j : String) (now : Time) (keys : List IdempotencyKeyRecord)
    → succeeded j (new_key id now ∷ keys) ≡ true
    → succeeded j keys ≡ true
unfolding find_row
new_key-succeeded id j now keys h = ground arith

module _ (env : Env) where
  check_record-succeeded :
      (now : Time) (id j : String) (r : IdempotencyKeyRecord) (w : World)
      → succeeded j (check_record env now id r w).1.keys ≡ true
      → succeeded j w.keys ≡ true
  unfolding check_record write
  check_record-succeeded now id j r w h = elim (Bool-cases (succeeded j w.keys)) [
    | inl yet ↦ yet
    | inr new ↦ elim (Bool-cases (succeeded j (update_rows key_key id (retry_key now) w.keys))) [
      | inr never ↦ absurd (ground arith)
      | inl by_update ↦
          elim (update_rows-succeeded id j (retry_key now) w.keys (λ _. refl) by_update) [
            | inl old ↦ old
            | inr (e, (q, bad)) ↦ cc
          ]
    ]
  ]

  claim_loop-succeeded :
      (n : ℕ) (aborted : Bool) (now : Time) (id j : String) (w : World)
      → IsHonest env
      → succeeded j (claim_loop env n aborted now id w).1.keys ≡ true
      → succeeded j w.keys ≡ true
  unfolding claim_loop read write
  claim_loop-succeeded zero aborted now id j w honest h = h
  claim_loop-succeeded (suc n) true now id j w honest h = h
  claim_loop-succeeded (suc n) false now id j w honest h =
      let met : World = record (next w) { keys = env.others (w.tick + 1) w.keys } in
      let fair = honest (w.tick + 1) w.keys j in
      elim (Option-cases (find_key id w)) [
        | inl fresh ↦ elim (read-cases env (find_key id) w) [
          | inr (x, failed) ↦ ground arith
          | inl read_done ↦
              let again : World = next met in
              elim (Bool-cases (succeeded j (claim_loop env n env.aborts now id again).1.keys)) [
                | inl later ↦ fair (claim_loop-succeeded n env.aborts now id j again honest later)
                | inr never ↦ elim (Bool-cases (succeeded j (new_key id now ∷ met.keys))) [
                  | inl added ↦ fair (new_key-succeeded id j now met.keys added)
                  | inr missing ↦ elim (Bool-cases (succeeded j met.keys)) [
                    | inl there ↦ fair there
                    | inr gone ↦ absurd (ground arith)
                  ]
                ]
              ]
        ]
        | inr (r, found) ↦ ground (arith, check_record-succeeded now id j r (next w))
      ]

  -- A claim, granted or not, gives no success.
  pub check_and_mark-succeeded :
      (id j : String) (w : World)
      → IsHonest env
      → succeeded j (check_and_mark env id w).1.keys ≡ true
      → succeeded j w.keys ≡ true
  unfolding check_and_mark write
  check_and_mark-succeeded id j w honest h =
      ground
        (arith, claim_loop-succeeded 3 false (env.now (w.tick + 1)) id j (next (next w)) honest)

  -- Marking an event as processed is about this event only.
  pub mark_success-succeeded :
      (id j : String) (w : World)
      → succeeded j (mark_success env id w).1.keys ≡ true
      → (succeeded j w.keys ≡ true) ⊎ (id ≡ j)
  unfolding mark_success write
  mark_success-succeeded id j w h =
      ground (arith, update_rows-succeeded id j (success_key (env.now w.tick)) w.keys (λ _. refl))

  -- Marking it as failed gives no success.
  pub mark_failed-succeeded :
      (id reason j : String) (w : World)
      → succeeded j (mark_failed env id reason w).1.keys ≡ true
      → succeeded j w.keys ≡ true
  unfolding mark_failed write
  mark_failed-succeeded id reason j w h = ground (
    arith,
    update_rows-succeeded id j (failed_key (env.now w.tick) (truncate_reason reason)) w.keys
        (λ _. refl),
  )
