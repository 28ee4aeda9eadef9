-- ===== src/Voice.antt =====
-- services/voice-gateway/internal/session: what a voice session is limited by and sent through, and
-- its bridge to the orchestrator.
mod Counts
pub mod Limiter
pub mod Outbox
pub mod Jarvis
pub mod Session
mod Tests
