-- ===== src/Scorer.antt =====
-- internal/adapters/scorer/client.go: the client of the scorer service.
mod Defs
pub mod Parity
unfoldable pub use Defs.*
