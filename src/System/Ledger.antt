-- ===== src/System/Ledger.antt =====
-- What the events table promises: a ledger that shows a row for an id, in which each id is written
-- at most once, whatever the order of the rows.
use fluxa.Base.{
  ℕ, ◌+◌, String, ◌==◌, true, Option, none, some, ◌≡◌, ◌∙◌, ◌⊎◌, inl, inr, arith, eq_iff, sym,
  subst, Bool-cases, if◌then◌else◌,
}
use fluxa.Domain.{ok, Event, validate}
use fluxa.World.{Env, World, EventRow}
use fluxa.Store.{find_event, row_fits, print_map}

abbrev pub Ledger : Type 0
Ledger = String → Option EventRow

abbrev pub ledger : World → Ledger
ledger w id = find_event id w

-- A row that fits the columns, of an event that `Validate` let pass at the reading of the clock in the
-- call before the one that `created_at` shows.
pub record IsEntry (env : Env) (r : EventRow) : Type 0 where
  pub event : Event
  pub at : ℕ
  pub valid : validate (env.now at) event ≡ none
  pub created : r.created_at ≡ env.now (at + 1)
  pub fits : row_fits r ≡ true
  pub user : r.user_id ≡ event.user_id
  pub amount : r.amount ≡ env.codec.decimal event.amount
  pub currency : r.currency ≡ event.currency
  pub merchant : r.merchant ≡ event.merchant
  pub time : r.ts ≡ event.timestamp
  pub metadata : print_map env event.metadata ≡ ok r.metadata_json

-- What a ledger may do: nothing, or take one entry under an id that has none.
abbrev pub Records : Env → Ledger → Ledger → Type 0
Records env f g =
    ((id : String) → g id ≡ f id)
    ⊎ ((r : EventRow) × IsEntry env r
        × (f r.event_id ≡ none)
        × ((id : String) → g id ≡ (if r.event_id == id then some r else f id)))

module _ (env : Env) where
  -- What a run of the ledger reaches, and what the abstract ledger promises: an entry stays, and
  -- each entry was there at the start or holds an event that `Validate` let pass.
  pub data Run (f : Ledger) : Ledger → Type 0 where
    start : Run f f
    and_then : {g h : Ledger} → Run f g → Records env g h → Run f h

  pub Run_keeps :
      {f g : Ledger} (id : String) (r : EventRow) → Run f g → f id ≡ some r → g id ≡ some r
  Run_keeps id r start found = found
  Run_keeps id r (and_then run (inl same)) found = same id ∙ Run_keeps id r run found
  Run_keeps id r (and_then run (inr (new, entry, absent, holds))) found =
      let before = Run_keeps id r run found in
      ground (arith, holds id, absent, eq_iff new.event_id id)

  pub Run-IsEntry :
      {f g : Ledger} (id : String) (r : EventRow)
      → Run f g
      → g id ≡ some r
      → (f id ≡ some r) ⊎ IsEntry env r
  Run-IsEntry id r start found = inl found
  Run-IsEntry id r (and_then run (inl same)) found = Run-IsEntry id r run (sym (same id) ∙ found)
  Run-IsEntry id r (and_then run (inr (new, entry, absent, holds))) found =
      elim (Bool-cases (new.event_id == id)) [
        | inl mine ↦ inr (subst (IsEntry env) (ground (arith, holds id)) entry)
        | inr theirs ↦ Run-IsEntry id r run (ground (arith, holds id))
      ]
