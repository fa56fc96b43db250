-- ===== src/CredProxy.antt =====
-- The credentials of the groups (internal/credproxy): their rows, their encryption, and which
-- credential a request gets.
mod Rows
pub mod Encrypt
pub mod Table
pub mod Resolver
unfoldable pub use Rows.*
