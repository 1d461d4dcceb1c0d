-- ===== src/Store/Flags.antt =====
-- The fraud_flags table: each flag refers to a stored event, and no flag is lost.
use fluxa.Base.{
  String, Bool, true, false, none, some, ◌∷◌, ◌≡◌, ◌⊎◌, inl, inr, arith, Bool-cases, Option-cases,
  find_row, insert_row, find_row-insert_row, All,
}
use fluxa.Domain.{FraudFlag}
use fluxa.World.{Env, World, flag_key, write}
use fluxa.Store.Defs.{has_event, insert_fraud_flag}

abbrev pub has_flag : String → World → Bool
has_flag id w = elim (find_row flag_key id w.flags) [ none ↦ false | some _ ↦ true ]

-- All flags refer to stored events.
abbrev pub IsReferring : World → Type 0
IsReferring w = All (λ f. has_event f.event_id w ≡ true) w.flags

module _ (env : Env) where
  -- One INSERT adds its flag or none, and only for a stored event.
  pub insert_fraud_flag-cases :
      (f : FraudFlag) (w : World)
      → let w' = (insert_fraud_flag env f w).1 in
        (w'.events ≡ w.events)
        × (w'.published ≡ w.published)
        × ((w'.flags ≡ w.flags) ⊎ ((has_event f.event_id w ≡ true) × (w'.flags ≡ f ∷ w.flags)))
  unfolding insert_fraud_flag write insert_row
  insert_fraud_flag-cases f w = elim (Bool-cases (has_event f.event_id w)) [
    | inr absent ↦ (ground arith, ground arith, inl (ground arith))
    | inl there ↦ elim (Option-cases (find_row flag_key f.flag_id w.flags)) [
      | inl fresh ↦ ground arith
      | inr (old, stored) ↦ ground arith
    ]
  ]

  -- When `InsertFraudFlag` returns nil, a flag of that id is stored, and its event is.
  pub insert_fraud_flag_stores :
      (f : FraudFlag) (w : World)
      → (insert_fraud_flag env f w).0 ≡ none
      → let w' = (insert_fraud_flag env f w).1 in
        (has_event f.event_id w' ≡ true) × (has_flag f.flag_id w' ≡ true)
  unfolding insert_fraud_flag write
  insert_fraud_flag_stores f w inserted = elim (Bool-cases (has_event f.event_id w)) [
    | inr absent ↦ absurd (ground arith)
    | inl there ↦ elim (Option-cases (find_row flag_key f.flag_id w.flags)) [
      | inl fresh ↦ ground (arith, find_row-insert_row flag_key f w.flags)
      | inr (old, stored) ↦ ground (arith, find_row-insert_row flag_key f w.flags)
    ]
  ]

  pub insert_fraud_flag_keeps :
      (f : FraudFlag) (id : String) (w : World)
      → has_flag id w ≡ true
      → has_flag id (insert_fraud_flag env f w).1 ≡ true
  unfolding find_row
  insert_fraud_flag_keeps f id w h = elim (insert_fraud_flag-cases f w).2 [
    | inl same ↦ ground arith
    | inr (there, added) ↦ ground arith
  ]
