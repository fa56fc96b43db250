-- ===== src/Orchestrator.antt =====
-- The orchestrator (internal/orchestrator/orchestrator.go).
pub mod World
pub mod Cursors
pub mod Load
pub mod Trigger
pub mod Spawn
pub mod Moves
pub mod Process
pub mod Agent
pub mod Tasks
pub mod Poll
pub mod Deactivate
pub mod Upkeep
pub mod Commands
pub mod Inbound
pub mod Samples
