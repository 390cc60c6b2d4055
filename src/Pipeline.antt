-- ===== src/Pipeline.antt =====
-- backend/app/event_pipeline/event_pipeline.py: the children hold the pipeline and its theorems.
pub mod Event
pub mod Repository
pub mod Service
pub mod Dispatch
pub mod Effects
pub mod Setup
pub mod Process
pub mod Filter
pub mod Bus
mod Tests
