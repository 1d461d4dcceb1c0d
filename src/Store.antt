-- ===== src/Store.antt =====
-- internal/db/db.go: the events and fraud_flags tables behind `db.Client`.
mod Defs
pub mod Events
pub mod Flags
unfoldable pub use Defs.*
