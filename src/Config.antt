-- ===== src/Config.antt =====
-- internal/config/config.go: the configuration that the services read from the environment.
mod Defs
pub mod Load
unfoldable pub use Defs.*
