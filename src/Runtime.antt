-- ===== src/Runtime.antt =====
-- backend/app/event_sources/runtime: the life of a source adapter.
pub mod Lifecycle
pub mod RestartPolicy
pub mod Adapter
pub mod Supervisor
pub mod Ingest
pub mod Health
mod Tests
