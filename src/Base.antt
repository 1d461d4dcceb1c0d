-- ===== src/Base.antt =====
-- The names that every component uses: the libraries', passed on, the tests and case lemmas, the
-- lists measured by native numbers, the integers, the prefixes of texts and the association lists
-- keyed by texts.
mod Tests
mod Lists
mod Int
mod Texts
pub mod Rows
pub use Tests.*
unfoldable pub use Lists.*
pub use Int.*
pub use Texts.*
unfoldable pub use Rows.*
pub use Rows.Laws.*
pub use Prim.Native.Nat.{ℕ, zero, suc, ◌+◌, ◌-◌, ◌*◌, ◌^◌, ◌≤◌, ◌<◌}
pub use Prim.Native.String.{String}
pub use mathlib.Core.Path.{◌≡◌, refl, sym, ap, subst, ◌∙◌}
pub use mathlib.Core.Logic.{◌≢◌, ◌↔◌, ◌⊎◌, inl, inr}
pub use mathlib.Core.Bool.{Bool, true, false, not, ◌&&◌, ◌||◌}
pub use mathlib.Core.Option.{Option, none, some}
pub use mathlib.Core.List.{List, [], ◌∷◌, ◌++◌, map}
pub use native.Mathlib.Omega.{arith}
pub use text.Mathlib.Text.{◌==◌}
pub use text.Mathlib.TextEquality.{eq_iff}
pub use text.Mathlib.TextPositions.{eq_refl}
