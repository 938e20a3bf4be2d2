-- ===== src/Table/Eviction.antt =====
-- table/mod.rs: the eviction after a commit, by the number of rows or of bytes.
use voltra.Prelude.{
  ℕ, ◌+◌, ◌-◌, ◌/◌, none, some, List, [], ◌∷◌, ltb, any, length, if◌then◌else◌, ◌==◌, Eq-nat,
  Eq-list,
}
use voltra.Prelude.Map.{Map, lookup, remove}
use voltra.Table.Value.{Bytes}
use voltra.Table.FieldIndex.{keys_of}
use voltra.Table.Lru.{
  EvictionPolicy, no_eviction, lru_row_cap, lru_byte_cap, LruTracker, untrack, evict_oldest,
}
use voltra.Table.Store.{
  StoredRow, Table, insert_op, update_op, delete_op, counter_add_op, other_op, RowDelta, TableStore,
}
use voltra.Table.Rows.{put_table, rows_of}

abbrev pub with_rows : (Map Bytes StoredRow → Map Bytes StoredRow) → Bytes → TableStore → TableStore
with_rows change table_name store = elim (lookup table_name store.tables) [
  | none ↦ store
  | some table ↦ put_table table_name (record table { rows = change table.rows }) store
]

-- The rows that `evict_oldest` names leave the table and the tracker.
unfoldable pub evict_keys : Bytes → List Bytes → LruTracker → TableStore → LruTracker × TableStore
evict_keys table_name [] access store = (access, store)
evict_keys table_name (key ∷ keys) access store =
    evict_keys table_name keys (untrack table_name key access)
      (with_rows (remove key) table_name store)

unfoldable pub evict_table : Bytes → ℕ → TableStore → TableStore
unfolding evict_keys evict_oldest
evict_table table_name excess store = elim store.lru [
  | none ↦ store
  | some access ↦
      let (kept, after) =
        evict_keys table_name (evict_oldest table_name excess access) access store in
      record after { lru = some kept }
]

-- The tables of the rows that were written, each once.
unfoldable pub touched_tables : {N : Type 0} → List (RowDelta N) → List Bytes
touched_tables [] = []
touched_tables (d ∷ committed) =
    let rest = touched_tables committed in
    let more = if any (λ t. t == d.table_name) rest then rest else d.table_name ∷ rest in
    elim d.operation [
      | insert_op ↦ more
      | update_op ↦ more
      | delete_op ↦ rest
      | counter_add_op ↦ rest
      | other_op name ↦ rest
    ]

unfoldable pub evict_rows : ℕ → List Bytes → TableStore → TableStore
unfolding evict_table
evict_rows max_rows [] store = store
evict_rows max_rows (name ∷ names) store =
    let count = length (rows_of name store) in
    let rest = evict_rows max_rows names in
    if ltb max_rows count then rest (evict_table name (count - max_rows) store) else rest store

abbrev pub bytes_of : Map Bytes StoredRow → ℕ
bytes_of [] = 0
bytes_of ((key, row) ∷ rows) = length row.data_bytes + bytes_of rows

abbrev pub total_bytes : Map Bytes Table → ℕ
total_bytes [] = 0
total_bytes ((name, table) ∷ tables) = bytes_of table.rows + total_bytes tables

abbrev pub max : ℕ → ℕ → ℕ
max a b = if ltb a b then b else a

-- A tenth of the rows of every table, and at least one.
unfoldable pub evict_tenth : List Bytes → TableStore → TableStore
unfolding evict_table
evict_tenth [] store = store
evict_tenth (name ∷ names) store =
    let count = length (rows_of name store) in
    let rest = evict_tenth names in
    if count == 0 then rest store else rest (evict_table name (max (count / 10) 1) store)

unfoldable pub evict : {N : Type 0} → EvictionPolicy → List (RowDelta N) → TableStore → TableStore
unfolding touched_tables evict_rows evict_tenth
evict policy committed store = elim store.lru [
  | none ↦ store
  | some access ↦ elim policy [
    | no_eviction ↦ store
    | lru_row_cap max_rows ↦ evict_rows max_rows (touched_tables committed) store
    | lru_byte_cap max_bytes ↦
        if ltb max_bytes (total_bytes store.tables)
        then evict_tenth (keys_of store.tables) store
        else store
  ]
]
