-- ===== src/Features.antt =====
-- internal/mlfeatures/features.go: the feature vector of an event.
mod Defs
pub mod Windows
unfoldable pub use Defs.*
