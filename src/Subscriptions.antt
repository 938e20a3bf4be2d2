-- ===== src/Subscriptions.antt =====
-- src/subscriptions.rs: what the clients watch, and who is told of a change.
pub mod Predicate
pub mod Candidates
pub mod Manager
mod Tests
