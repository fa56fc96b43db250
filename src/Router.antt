-- ===== src/Router.antt =====
-- The message router (internal/router/router.go).
mod Escape
mod Strip
pub mod EscapeLaws
pub mod StripLaws
mod Format
mod Route
pub mod RouteLaws
mod Samples
unfoldable pub use Escape.*
unfoldable pub use Strip.*
unfoldable pub use Format.*
unfoldable pub use Route.*
