-- ===== src/Mvcc.antt =====
-- src/mvcc: the multi-version store.
pub mod Chain
pub mod Store
pub mod Writer
pub mod Disk
pub mod Sequencer
pub mod Gc
pub mod Schedule
pub mod Recovery
pub mod Aof
mod Tests
