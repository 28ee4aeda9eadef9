-- ===== src/App.antt =====
-- services/app-api: what a paired phone talks to.
pub mod Model
pub mod Sessions
pub mod PushTokens
mod Tests
