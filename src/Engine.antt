-- ===== src/Engine.antt =====
-- internal/fraud/engine.go: the fraud rules and the blend with the scorer.
mod Defs
pub mod Rules
pub mod Blend
pub mod Frame
unfoldable pub use Defs.*
