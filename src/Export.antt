-- ===== src/Export.antt =====
-- cmd/export-features/main.go: the training file, a row of features for each labelled event.
mod Defs
mod Main
mod Slots
pub mod Order
pub mod Whole
pub mod Serving
unfoldable pub use Defs.*
unfoldable pub use Main.*
