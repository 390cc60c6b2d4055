-- ===== src/Projection.antt =====
-- The durable event log and its projection: backend/app/event_repository/durable,
-- backend/app/projection.
pub mod EventLog
pub mod CatchUp
pub mod Health
mod Tests
