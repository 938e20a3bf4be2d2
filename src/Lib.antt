-- ===== src/Lib.antt =====
-- Voltra, a game server that keeps its state in memory: a verification library for the parts of
-- src/ that hold and order that state.
--
-- src/mvcc is the multi-version store behind the Redis and PostgreSQL front ends. Readers pin a
-- timestamp and read version chains; one sequencer thread applies batches (closures,
-- transactional commits, saves, barriers), appends their effects to a log and answers; a
-- collector prunes versions no pin can see and reaps expired keys; `open` recovers from a
-- snapshot and the log.
--
-- Mvcc/Chain.antt: `Version`, `Chain` (src/mvcc/mod.rs)
-- Mvcc/Store.antt: `Inner`, `apply_ops`, the read path, pins (src/mvcc/mod.rs)
-- Mvcc/Writer.antt: `Writer` (src/mvcc/mod.rs); a closure is a program over its methods
-- Mvcc/Sequencer.antt: `sequencer_loop` (src/mvcc/mod.rs)
-- Mvcc/Gc.antt: `gc_loop` (src/mvcc/mod.rs)
-- Mvcc/Disk.antt: `do_save`, recovery in `open`; `AofRecord`, `SnapEntry` (src/mvcc/aof.rs)
-- Mvcc/Aof.antt: `append_records` and `replay` on bytes (src/mvcc/aof.rs)
-- Mvcc/Schedule.antt, Mvcc/Recovery.antt: the threads as sequences of events and moves
--
-- The Redis front end reads commands from a connection and writes values to it.
--
-- Resp.antt, Resp/Parse.antt: `Resp`, `encode` and `parse_command` (src/redis/resp.rs)
--
-- Around the store stand services that keep their own state in memory, each behind locks of its
-- own; a run of one is a sequence of its operations.
--
-- Ttl.antt: `TtlManager`, the expiry of table rows (src/ttl.rs)
-- Presence.antt: `PresenceManager`, the connected users and their heartbeats (src/presence.rs)
-- Ecs.antt: `EntityAllocator`, `ComponentMap` and `World` of the lobby runtime
--   (src/runtime/ecs.rs)
-- Leaderboard.antt, Leaderboard/Board.antt: `ScoreKey`, the boards and `LeaderboardEngine`
--   (src/leaderboard.rs)
--
-- The rows of the tables, which reducers, queries and subscriptions read, stand in stores of
-- their own: one for the server and one for every lobby, by the name of the table.
--
-- Table/Value.antt: rows as bytes, `encode_row`, `value_to_index_key` (src/table/mod.rs)
-- Table/Blobs.antt, Table/FieldIndex.antt, Table/SortedIndex.antt, Table/Lru.antt: `BlobStore`,
--   `FieldIndex`, `SortedIndex` (src/table/mod.rs) and `LruTracker` (src/table/eviction.rs)
-- Table/Store.antt, Table/Rows.antt, Table/Reads.antt: `TableStore`, the operations on one
--   store (src/table/mod.rs)
-- Table/Batch.antt, Table/Eviction.antt: `apply_delta_batch_inner` (src/table/mod.rs)
-- Table/Lobby.antt, Table/Routing.antt: `parse_lobby_key` and the operations that go to the
--   store of a lobby (src/table/mod.rs)
--
-- What commits change in the tables goes to the clients that subscribed. The first answer of a
-- subscription reads a store, through its field indexes where they exist.
--
-- Subscriptions/Predicate.antt: `Predicate`, `ComparisonOp`, `SubscriptionFilter::matches`
--   (src/subscriptions.rs)
-- Subscriptions/Candidates.antt: `index_candidates` and the first answer of
--   `subscribe_with_snapshot` (src/subscriptions.rs)
-- Subscriptions/Manager.antt: `SubscriptionManager`, its clients, its index by table and the
--   immediate delivery (src/subscriptions.rs)
-- Subscriptions/Manager/Batch.antt: `publish_batch`, the delivery by ticks, and `compute_patch`
--   (src/subscriptions.rs)
--
-- The front end for SQL reads a statement in two steps, of which the first is modelled.
--
-- Sql/Token.antt, Sql/Lexer.antt: `Token`, `keyword_or_ident` and `Lexer` (src/sql/lexer.rs)
--
-- The nodes of a cluster share the keys by a hash ring.
--
-- Ring.antt: `ConsistentHashRing` (src/cluster/ring.rs)
--
-- The value type `D` stands for `Datum`, which the engine moves and never looks into. Clocks
-- are arguments. A pin is one event of a run, although `pin_snapshot` loads the timestamp
-- before it takes the lock. A timestamp wraps at 2 ^ 64, which the theorems exclude by a bound
-- on the length of a run. A count is the bit pattern of an `i64`. A hash map is an association
-- list, in the order of insertion; what depends on an order that the code leaves open is not
-- claimed. The log is its bytes, and a record that does not fit or does not encode is lost
-- there as in the code. The replay of the log runs on the length of the file, and each round
-- reads a header at least; a number is printed with 20 digits at most, which is enough for 64
-- bits; the eviction of a board runs on the number of its entries, and each round removes one.
-- A `BTreeMap` and a `BinaryHeap` are lists in the order in which they are read. A
-- floating-point score is its bit pattern, and its comparison is by sign and magnitude. The
-- lexer of SQL reads the UTF-8 bytes of its text and runs on their number, and each round takes
-- one at least; the parsing of a floating-point number is an argument. What panics, and a call
-- that waits for a lock that it holds, is an option that is empty. The stores of the tables
-- have one file of blobs open, each with an offset of its own. What the tables call of
-- `serde_json`, `rmp_serde` and `zstd` is a record of functions, with the laws that unpacking
-- undoes packing and decompression undoes compression; what the predicates ask of a number is a
-- record of functions.
--
-- Not modelled: fsync policies and the loss of what was not synced, the capacity of channels,
-- the cap of 512 batches in a group, the commands and connections of the front ends, the
-- parsing and execution of SQL, scripting runtimes and tools.
pub mod Prelude
pub mod Ecs
pub mod Leaderboard
pub mod Mvcc
pub mod Presence
pub mod Resp
pub mod Ring
pub mod Sql
pub mod Subscriptions
pub mod Table
pub mod Ttl
