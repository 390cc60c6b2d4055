-- ===== src/Delivery.antt =====
-- backend/app/event_delivery: the transactional outbox, its claims and its dispatcher.
pub mod Row
pub mod Outbox
pub mod Trace
pub mod Budget
pub mod Schedule
pub mod Dispatcher
pub mod Settle
pub mod Ledger
pub mod Keys
pub mod Claim
pub mod Take
mod Tests
