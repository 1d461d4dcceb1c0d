-- ===== src/Base/Rows/Laws.antt =====
-- What a lookup by primary key sees after an insert and after an update.
use text.Mathlib.TextEquality.{eq_iff}
use Prim.Native.String.{String}
use Prim.Native.Nat.{◌≤◌}
use mathlib.Core.Bool.{false}
use mathlib.Core.Logic.{inl, inr}
use mathlib.Core.Option
use mathlib.Core.Option.{Option, none, some}
use mathlib.Core.List.{List, [], ◌∷◌}
use native.Mathlib.Omega.{arith}
use text.Mathlib.Text.{◌==◌}
use mathlib.Core.Path.{◌≡◌, refl}
use fluxa.Base.Tests.{Option-cases}
use fluxa.Base.Rows.{find_row, update_rows, insert_row, count_rows}

module _ {ℓ} {R : Type ℓ} (key : R → String) where
  find_row-key : (k : String) (rs : List R) (r : R) → find_row key k rs ≡ some r → key r ≡ k
  unfolding find_row
  find_row-key k [] r e = cc
  find_row-key k (x ∷ rs) r e = ground (arith, eq_iff (key x) k, find_row-key k rs r)

  pub find_row-update_rows :
      (k : String) (f : R → R) (rs : List R)
      → ((r : R) → key (f r) ≡ key r)
      → find_row key k (update_rows key k f rs) ≡ Option.map f (find_row key k rs)
  unfolding find_row update_rows
  find_row-update_rows k f [] same = refl
  find_row-update_rows k f (r ∷ rs) same =
      ground (arith, eq_iff (key r) k, same r, find_row-update_rows k f rs same)

  pub find_row-update_rows_ne :
      (k j : String) (f : R → R) (rs : List R)
      → ((r : R) → key (f r) ≡ key r)
      → (k == j) ≡ false
      → find_row key j (update_rows key k f rs) ≡ find_row key j rs
  unfolding find_row update_rows
  find_row-update_rows_ne k j f [] same ne = refl
  find_row-update_rows_ne k j f (r ∷ rs) same ne = ground (
    arith,
    eq_iff (key r) k,
    eq_iff (key r) j,
    eq_iff k j,
    same r,
    find_row-update_rows_ne k j f rs same ne,
  )

  -- After an insert the key is present: the old row stays where there was one.
  pub find_row-insert_row :
      (r : R) (rs : List R)
      → find_row key (key r) (insert_row key r rs)
        ≡ (elim (find_row key (key r) rs) [ none ↦ some r | some old ↦ some old ])
  unfolding insert_row find_row
  find_row-insert_row r rs = elim (Option-cases (find_row key (key r) rs)) [
    | inl fresh ↦ ground (arith, eq_iff (key r) (key r))
    | inr (old, e) ↦ ground arith
  ]

  -- An insert never changes what another key, or a key that is present, finds.
  pub find_row-insert_row_old :
      (k : String) (r old : R) (rs : List R)
      → find_row key k rs ≡ some old
      → find_row key k (insert_row key r rs) ≡ some old
  unfolding insert_row find_row
  find_row-insert_row_old k r old rs e = elim (Option-cases (find_row key (key r) rs)) [
    | inl fresh ↦ ground (arith, eq_iff (key r) k)
    | inr (other, f) ↦ ground arith
  ]

  count_rows-absent :
      (k : String) (rs : List R) → find_row key k rs ≡ none → count_rows key k rs ≡ 0
  unfolding find_row count_rows
  count_rows-absent k [] e = refl
  count_rows-absent k (x ∷ rs) e = ground (arith, count_rows-absent k rs)

  -- The primary key stays one.
  pub count_rows-insert_row :
      (k : String) (r : R) (rs : List R)
      → count_rows key k rs ≤ 1
      → count_rows key k (insert_row key r rs) ≤ 1
  unfolding insert_row count_rows
  count_rows-insert_row k r rs h = elim (Option-cases (find_row key (key r) rs)) [
    | inl fresh ↦ ground (arith, eq_iff (key r) k, count_rows-absent (key r) rs fresh)
    | inr (other, f) ↦ ground arith
  ]
