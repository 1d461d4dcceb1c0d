-- ===== src/Idempotency.antt =====
-- internal/idempotency/idempotency.go: the claim on an event that keeps two processors from
-- working on it at once.
mod Defs
pub mod Claims
pub mod Skips
pub mod Frame
pub mod Succeeded
pub mod Race
unfoldable pub use Defs.*
