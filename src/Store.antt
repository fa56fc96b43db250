-- ===== src/Store.antt =====
-- The rows that the components exchange (internal/store/store.go), and their validation.
mod Rows
pub mod Messages
mod Validation
pub use Rows.*
unfoldable pub use Validation.*
