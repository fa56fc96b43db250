-- ===== src/Server.antt =====
-- The gRPC server (internal/server): the hub that passes events on, and who may connect.
pub mod EventHub
pub mod Security
