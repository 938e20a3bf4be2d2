-- ===== src/Table/Batch.antt =====
-- table/mod.rs: `apply_delta_batch_inner`, the commit of a transaction: the check of the versions that
-- it read, its writes with their rollback, and the eviction after them. The row locks are held for the
-- whole batch, so it runs alone. The clock gives the time of the n-th write.
pub mod Cases
pub mod Rollback
pub mod Versions
pub mod Conflicts
use voltra.Prelude.{
  ℕ, zero, suc, ◌+◌, ◌-◌, ◌/◌, ◌%◌, ◌^◌, Bool, true, false, ◌&&◌, ◌||◌, Option, none, some, List,
  [], ◌∷◌, is_some, ltb, leb, any, length, if◌then◌else◌, ◌==◌, ◌>>=◌, Eq-nat, Eq-list,
}
use voltra.Prelude.Map.{Map, lookup, insert, remove}
use voltra.Table.Value.{Bytes, Value, Counter, Serde}
use voltra.Table.FieldIndex.{keys_of}
use voltra.Table.Lru.{
  EvictionPolicy, no_eviction, lru_row_cap, lru_byte_cap, LruTracker, touch, untrack, evict_oldest,
}
use voltra.Table.Store.{
  StoredRow, Table, Operation, insert_op, update_op, delete_op, counter_add_op, other_op, RowDelta,
  TableError, counter_decode, row_decode, blob_read, json_decode, missing_row_data, txn_conflict,
  unknown_operation, Result, ok, err, TableStore, alloc_row_id, get_or_create_table, row_data_value,
}
use voltra.Table.Rows.{
  put_table, rows_of, row_at, write_row_unlocked, delete_row_unlocked, get_row, row_version,
}
use voltra.Table.Lobby.{parse_lobby_key}
use voltra.Table.Eviction.{with_rows, evict}

-- The table, the key and the version of a row that a transaction read.
abbrev pub ReadVersions : Type 0
ReadVersions = List (Bytes × (Bytes × ℕ))

-- `applied`, the latest first.
abbrev pub Undo : Type 0
Undo = List (Bytes × (Bytes × Option StoredRow))

-- A store inside the batch has no stores of lobbies, or none of its rows is of a lobby table.
unfoldable pub current_version : Bytes → Bytes → TableStore → ℕ
current_version table_name key store =
    if is_some (parse_lobby_key table_name) then 0 else row_version table_name key store

-- The errors that come before the rollback could run: the batch returns with its earlier writes kept.
abbrev pub is_refusal : TableError → Bool
is_refusal missing_row_data = true
is_refusal counter_decode = true
is_refusal row_decode = true
is_refusal blob_read = true
is_refusal json_decode = true
is_refusal _ = false

-- What one delta does to its row.
pub data Action (N : Type 0) : Type 0 where
  refuse : TableError → Action N
  fail : TableError → Action N
  write : Value N → Action N
  delete : Action N

abbrev pub restore_row : Bytes → Option StoredRow → Map Bytes StoredRow → Map Bytes StoredRow
restore_row key none rows = remove key rows
restore_row key (some row) rows = insert key row rows

unfoldable pub rollback : Undo → TableStore → TableStore
rollback [] store = store
rollback ((table_name, (key, old)) ∷ applied) store =
    rollback applied (with_rows (restore_row key old) table_name store)

abbrev pub is_locked : Bytes → Bytes → List (Bytes × Bytes) → Bool
is_locked table_name key keys = any (λ k. k.0 == table_name && k.1 == key) keys

-- Locking a row makes its table.
unfoldable pub open_tables : List (Bytes × Bytes) → TableStore → TableStore
open_tables [] store = store
open_tables (k ∷ keys) store = open_tables keys (get_or_create_table k.0 store).1

unfoldable pub validate : ReadVersions → List (Bytes × Bytes) → TableStore → Bool
unfolding current_version
validate [] keys store = true
validate ((table_name, (key, seen)) ∷ reads) keys store =
    let rest = validate reads keys store in
    if is_locked table_name key keys
    then current_version table_name key store == seen && rest
    else rest

module _ {N : Type 0} where
  abbrev pub own_delta : TableStore → RowDelta N → Bool
  own_delta store delta = leb store.shard_count 1 || delta.shard_id == store.shard_id

  -- The keys that the batch locks; the order of the locks is left out.
  unfoldable pub lock_keys : TableStore → List (RowDelta N) → List (Bytes × Bytes)
  lock_keys store [] = []
  lock_keys store (delta ∷ deltas) =
      let rest = lock_keys store deltas in
      if own_delta store delta then (delta.table_name, delta.row_key) ∷ rest else rest

  unfoldable pub track : ℕ → RowDelta N → TableStore → TableStore
  track now committed store = elim store.lru [
    | none ↦ store
    | some access ↦ elim committed.operation [
      | insert_op ↦ record store {
        lru = some (touch committed.table_name committed.row_key now access);
      }
      | update_op ↦ record store {
        lru = some (touch committed.table_name committed.row_key now access);
      }
      | delete_op ↦ record store {
        lru = some (untrack committed.table_name committed.row_key access);
      }
      | counter_add_op ↦ store
      | other_op name ↦ store
    ]
  ]

abbrev pub commit :
    {N : Type 0}
    → RowDelta N
    → Result (List (RowDelta N)) × TableStore
    → Result (List (RowDelta N)) × TableStore
commit committed q = (elim q.0 [ err e ↦ err e | ok rest ↦ ok (committed ∷ rest) ], q.1)

-- The counter that the addition leaves; the sum wraps as an `i32` does.
abbrev pub added : {N : Type 0} → RowDelta N → Option Counter → TableStore → Counter × TableStore
added delta none store =
    let (id, after) = alloc_row_id store in
    (
      record {
        id = id;
        name = delta.row_key;
        value = delta.counter_add_amount % 2 ^ 32;
        last_modified = delta.counter_add_timestamp;
      },
      after,
    )
added delta (some c) store = (
  record {
    id = c.id;
    name = delta.row_key;
    value = (c.value + delta.counter_add_amount) % 2 ^ 32;
    last_modified = delta.counter_add_timestamp;
  },
  store,
)

module _ {N : Type 0} (serde : Serde N) where
  unfoldable pub get_counter_in : Bytes → Bytes → TableStore → Result (Option Counter)
  get_counter_in table_name name store =
      if is_some (parse_lobby_key table_name)
      then ok none
      else elim (get_row serde table_name name store) [
        | err e ↦ err e
        | ok none ↦ ok none
        | ok (some value) ↦ elim (serde.counter_from_value value) [
          | none ↦ err counter_decode
          | some counter ↦ ok (some counter)
        ]
      ]

  unfoldable pub counter_action :
      RowDelta N → Result (Option Counter) → TableStore → Action N × TableStore
  counter_action delta (err e) store = (refuse e, store)
  counter_action delta (ok existing) store =
      let (counter, after) = added delta existing store in
      (write (serde.counter_to_value counter), after)

  abbrev pub row_action : Option (Value N) → Action N
  row_action none = refuse missing_row_data
  row_action (some value) = write value

  unfoldable pub action : Operation → RowDelta N → TableStore → Action N × TableStore
  unfolding get_counter_in counter_action
  action insert_op delta store = (row_action (row_data_value serde delta), store)
  action update_op delta store = (row_action (row_data_value serde delta), store)
  action delete_op delta store = (delete, store)
  action counter_add_op delta store =
      counter_action delta (get_counter_in delta.table_name delta.row_key store) store
  action (other_op name) delta store = (fail unknown_operation, store)

  -- After a write: the later deltas, or the rollback of this row and of those before it.
  unfoldable pub after_write :
      Undo
      → (RowDelta N → TableStore → Result (List (RowDelta N)) × TableStore)
      → Result (RowDelta N) × TableStore
      → Result (List (RowDelta N)) × TableStore
  unfolding rollback
  after_write undo later (err e, store) = (err e, rollback undo store)
  after_write undo later (ok committed, store) = commit committed (later committed store)

  unfoldable pub take_action :
      Undo
      → RowDelta N
      → Option StoredRow
      → (RowDelta N → TableStore → Result (List (RowDelta N)) × TableStore)
      → Action N
      → TableStore
      → Result (List (RowDelta N)) × TableStore
  unfolding after_write rollback
  take_action applied delta old later (refuse e) store = (err e, store)
  take_action applied delta old later (fail e) store = (err e, rollback applied store)
  take_action applied delta old later (write value) store =
      after_write ((delta.table_name, (delta.row_key, old)) ∷ applied) later
        (write_row_unlocked serde delta.table_name delta.row_key value store)
  take_action applied delta old later delete store =
      let (committed, left) = delete_row_unlocked serde delta.table_name delta.row_key store in
      commit committed (later committed left)

  -- The deltas of this shard in turn: `applied` has what to restore when one of them fails.
  unfoldable pub apply_deltas :
      (RowDelta N → Bool)
      → (ℕ → ℕ)
      → ℕ
      → Undo
      → List (RowDelta N)
      → TableStore
      → Result (List (RowDelta N)) × TableStore
  unfolding action take_action track
  apply_deltas own clock i applied [] store = (ok [], store)
  apply_deltas own clock i applied (delta ∷ deltas) store = elim (own delta) [
    | false ↦ apply_deltas own clock (suc i) applied deltas store
    | true ↦
        let old = row_at delta.table_name delta.row_key store in
        let (step, ready) = action delta.operation delta store in
        let undo : Undo = (delta.table_name, (delta.row_key, old)) ∷ applied in
        take_action applied delta old
          (λ committed after.
            apply_deltas own clock (suc i) undo deltas (track (clock i) committed after))
          step ready
  ]

  -- `apply_delta_batch_inner`
  unfoldable pub apply_delta_batch :
      (ℕ → ℕ)
      → List (RowDelta N)
      → ReadVersions
      → TableStore
      → Result (List (RowDelta N)) × TableStore
  unfolding lock_keys open_tables validate apply_deltas evict
  apply_delta_batch clock [] reads store = (ok [], store)
  apply_delta_batch clock (delta ∷ deltas) reads store =
      let keys = lock_keys store (delta ∷ deltas) in
      let opened = open_tables keys store in
      if validate reads keys opened
      then (let (result, after) =
            apply_deltas (own_delta store) clock 0 [] (delta ∷ deltas) opened in
          elim result [
            | err e ↦ (err e, after)
            | ok committed ↦ (ok committed, evict store.eviction_policy committed after)
          ])
      else (err txn_conflict, opened)
