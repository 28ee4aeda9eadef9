-- ===== src/Audit.antt =====
-- The audit service (services/audit): its hash chain and the store that keeps it.
pub mod Encoding
pub mod Chain
pub mod Store
