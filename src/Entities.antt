-- ===== src/Entities.antt =====
-- The read models that are built from events.
pub mod Graph
pub mod Manager
pub mod Relations
mod Tests
