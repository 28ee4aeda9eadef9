-- ===== src/Orchestrator.antt =====
-- The orchestrator (services/orchestrator): its tables, and the engine that works on them.
pub mod Model
pub mod Tasks
pub mod Confirmations
pub mod Conversations
pub mod Events
pub mod Notifications
pub mod Devices
pub mod Engine
mod Tests
mod QueueTests
mod EngineTests
mod RunTests
mod CatalogTests
