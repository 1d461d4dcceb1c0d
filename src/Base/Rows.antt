-- ===== src/Base/Rows.antt =====
-- Go's maps as association lists keyed by texts, and database tables as lists of rows with a
-- text for a primary key.
pub mod Laws
use text.Mathlib.TextEquality.{eq_iff}
use Prim.Native.Nat.{ℕ, suc}
use Prim.Native.String.{String}
use mathlib.Core.Option
use mathlib.Core.Option.{Option, none, some}
use mathlib.Core.List.{List, [], ◌∷◌}
use native.Mathlib.Omega.{arith}
use text.Mathlib.Text.{◌==◌}
use mathlib.Core.Path.{◌≡◌}
use mathlib.Core.Bool.{false}
use fluxa.Base.Tests.{if◌then◌else◌}

module _ {ℓ} {Value : Type ℓ} where
  abbrev pub lookup : String → List (String × Value) → Option Value
  lookup key [] = none
  lookup key (entry ∷ rest) = if key == entry.0 then some entry.1 else lookup key rest

  abbrev pub insert : String → Value → List (String × Value) → List (String × Value)
  insert key x [] = (key, x) ∷ []
  insert key x (entry ∷ rest) =
      let (name, old) = entry in if key == name then (name, x) ∷ rest else entry ∷ insert key x rest

  abbrev pub remove : String → List (String × Value) → List (String × Value)
  remove key [] = []
  remove key (entry ∷ rest) =
      let kept = remove key rest in if entry.0 == key then kept else entry ∷ kept

  -- What is put under a key is found there.
  pub lookup-insert :
      (key : String) (x : Value) (entries : List (String × Value))
      → lookup key (insert key x entries) ≡ some x
  lookup-insert key x [] = ground (arith, eq_iff key key)
  lookup-insert key x ((name, old) ∷ rest) =
      grind (arith, eq_iff key key, eq_iff key name, lookup-insert key x rest)

  -- Another key is left as it was.
  pub lookup-insert_other :
      (key other : String) (x : Value) (entries : List (String × Value))
      → (key == other) ≡ false
      → lookup other (insert key x entries) ≡ lookup other entries
  lookup-insert_other key other x [] ne = ground (arith, eq_iff key other, eq_iff other key)
  lookup-insert_other key other x ((name, old) ∷ rest) ne = ground (
    arith,
    eq_iff key other,
    eq_iff key name,
    eq_iff other name,
    lookup-insert_other key other x rest ne,
  )

  pub lookup-remove :
      (key other : String) (entries : List (String × Value))
      → lookup other (remove key entries) ≡ (if key == other then none else lookup other entries)
  lookup-remove key other [] = ground arith
  lookup-remove key other ((name, old) ∷ rest) =
      ground
        (arith, eq_iff key other, eq_iff name key, eq_iff other name, lookup-remove key other rest)

module _ {ℓ} {R : Type ℓ} (key : R → String) where
  -- SELECT … WHERE key = k, for a primary key.
  unfoldable pub find_row : String → List R → Option R
  find_row k [] = none
  find_row k (r ∷ rs) = if key r == k then some r else find_row k rs

  -- UPDATE … WHERE key = k.
  unfoldable pub update_rows : String → (R → R) → List R → List R
  update_rows k f [] = []
  update_rows k f (r ∷ rs) = (if key r == k then f r else r) ∷ update_rows k f rs

  -- INSERT … ON CONFLICT (key) DO NOTHING.
  unfoldable pub insert_row : R → List R → List R
  unfolding find_row
  insert_row r rs = elim (find_row (key r) rs) [ none ↦ r ∷ rs | some _ ↦ rs ]

  -- How many rows have the key `k`.
  unfoldable pub count_rows : String → List R → ℕ
  count_rows k [] = 0
  count_rows k (r ∷ rs) = let n = count_rows k rs in if key r == k then suc n else n
