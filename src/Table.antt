-- ===== src/Table.antt =====
-- table/mod.rs and table/eviction.rs: the tables of the server.
pub mod Value
pub mod Blobs
pub mod FieldIndex
pub mod SortedIndex
pub mod Lru
pub mod Store
pub mod Rows
pub mod Reads
pub mod Lobby
pub mod Eviction
pub mod Batch
pub mod History
pub mod Counts
pub mod Routing
pub mod Tests
