-- ===== src/Voice/Jarvis.antt =====
-- services/voice-gateway/internal/session/jarvis.go: the orchestrator side of one voice session.
pub mod Model
pub mod Delivery
pub mod Handlers
pub mod Steps
mod Keeping
pub mod Turns
pub mod Consent
pub mod Questions
pub mod Reporting
pub mod Calls
pub mod Capacity
pub mod Watching
mod Tests
