-- ===== src/Operator.antt =====
-- backend/app/operator
pub mod Severity
mod Tests
