-- ===== src/Logging.antt =====
-- internal/logging/logger.go: the entries of the structured log.
mod Defs
mod Lines
pub mod Fields
unfoldable pub use Defs.*
