-- ===== src/Table/Rows.antt =====
-- table/mod.rs: the operations on the rows and the indexes of one store, without the routing of the
-- lobby tables.
pub mod Indexes
pub mod Changes
use voltra.Prelude.{
  ℕ, zero, suc, ◌+◌, ◌%◌, ◌^◌, Bool, true, false, Option, none, some, List, [], ◌∷◌, is_some,
  length, if◌then◌else◌, ◌==◌, ◌>>=◌, Eq-nat, Eq-list,
}
use voltra.Prelude.Map.{Map, lookup, insert, remove}
use voltra.Table.Value.{
  Bytes, Value, Serde, get, put, value_to_index_key, encode_row, decode_row_bytes,
}
use voltra.Table.Blobs.{BlobStore, load_blob}
use voltra.Table.FieldIndex.{
  add_text, FieldIndex, index_insert, index_remove, index_keys, index_counts, keys_of,
}
use voltra.Table.SortedIndex.{Tree, sorted_insert, top_n as tree_top_n}
use voltra.Table.Store.{
  StoredRow, Table, Operation, insert_op, update_op, delete_op, RowDelta, TableError, row_encode,
  row_decode, blob_read, json_decode, Result, ok, err, TableStore, new_table, inventory,
  alloc_row_id, get_or_create_table, row_matches_shard, prepare_value, index_text, reindex, resort,
  each,
}

abbrev pub put_table : Bytes → Table → TableStore → TableStore
put_table name table store = record store { tables = insert name table store.tables }

abbrev pub rows_of : Bytes → TableStore → Map Bytes StoredRow
rows_of name store = elim (lookup name store.tables) [ none ↦ [] | some table ↦ table.rows ]

-- `None` of a row that is not there.
abbrev pub row_at : Bytes → Bytes → TableStore → Option StoredRow
row_at name key store = lookup key (rows_of name store)

-- The operation, the row id and the version of a write.
abbrev pub row_identity : Option StoredRow → TableStore → (Operation × (ℕ × ℕ)) × TableStore
row_identity existing store = elim existing [
  | some row ↦ ((update_op, (row.row_id, (row.version + 1) % 2 ^ 64)), store)
  | none ↦ let (id, after) = alloc_row_id store in ((insert_op, (id, 1)), after)
]

module _ {N : Type 0} (serde : Serde N) where
  abbrev pub old_value : Option StoredRow → Option (Value N)
  old_value row = do r ← row; decode_row_bytes serde r.data_bytes

  -- A table in which the row `key` becomes `row`, of the value `new`.
  unfoldable pub change_row :
      Bytes → Option (Value N) → Option (Value N) → Map Bytes StoredRow → Table → Table
  change_row key old new rows table = record {
    rows = rows;
    field_indexes = each (reindex serde key old new) table.field_indexes;
    sorted_indexes = each (resort serde key old new) table.sorted_indexes;
  }

  -- The value that `write_row_unlocked` stores, its row and the upkeep of the indexes.
  unfoldable pub store_value :
      Bytes
      → Bytes
      → Table
      → Operation × (ℕ × ℕ)
      → Result (Value N × Option ℕ)
      → TableStore
      → Result (RowDelta N) × TableStore
  unfolding change_row
  store_value table_name key table identity (err e) store = (err e, store)
  store_value table_name key table (operation, (row_id, version)) (ok (final, offset)) store =
      elim (encode_row serde final) [
        | none ↦ (err row_encode, store)
        | some bytes ↦
            let stored : StoredRow = record {
              row_id = row_id;
              shard_id = store.shard_id;
              data_bytes = bytes;
              blob_offset = offset;
              version = version;
            } in
            let old = old_value (lookup key table.rows) in
            let written = change_row key old (some final) (insert key stored table.rows) table in
            (
              ok (record {
                table_name = table_name;
                operation = operation;
                row_key = key;
                row_id = row_id;
                shard_id = store.shard_id;
                payload_arc = none;
                row_data = some final;
                counter_add_amount = 0;
                counter_add_timestamp = 0;
              }),
              put_table table_name written store,
            )
      ]

  unfoldable pub write_row_unlocked :
      Bytes → Bytes → Value N → TableStore → Result (RowDelta N) × TableStore
  unfolding get_or_create_table prepare_value store_value
  write_row_unlocked table_name key value store =
      let (table, opened) = get_or_create_table table_name store in
      let (identity, named) = row_identity (lookup key table.rows) opened in
      let (prepared, kept) = prepare_value serde table_name key value named in
      store_value table_name key table identity prepared kept

  unfoldable pub delete_row_unlocked : Bytes → Bytes → TableStore → RowDelta N × TableStore
  delete_row_unlocked table_name key store =
      let found = row_at table_name key store in
      let delta : RowDelta N = record {
        table_name = table_name;
        operation = delete_op;
        row_key = key;
        row_id = elim found [ none ↦ 0 | some row ↦ row.row_id ];
        shard_id = store.shard_id;
        payload_arc = none;
        row_data = none;
        counter_add_amount = 0;
        counter_add_timestamp = 0;
      } in
      (
        delta,
        elim (lookup table_name store.tables) [
          | none ↦ store
          | some table ↦
              let kept = remove key table.rows in
              put_table table_name
                (change_row key (old_value (lookup key table.rows)) none kept table) store
        ],
      )

  -- The index of a field, filled from the rows.
  unfoldable pub backfill : Bytes → Map Bytes StoredRow → FieldIndex → FieldIndex
  backfill f [] idx = idx
  backfill f ((key, row) ∷ rows) idx =
      backfill f rows
        (add_text key (index_text serde f (decode_row_bytes serde row.data_bytes)) idx)

  unfoldable pub create_index : Bytes → Bytes → TableStore → TableStore
  create_index table_name f store =
      let (table, opened) = get_or_create_table table_name store in
      if is_some (lookup f table.field_indexes)
      then opened
      else put_table table_name
          (record table { field_indexes = insert f (backfill f table.rows []) table.field_indexes })
          opened

  unfoldable pub backfill_sorted : Bytes → Map Bytes StoredRow → Tree → Tree
  backfill_sorted f [] tree = tree
  backfill_sorted f ((key, row) ∷ rows) tree =
      backfill_sorted f rows (elim (decode_row_bytes serde row.data_bytes >>= get f) [
        | none ↦ tree
        | some v ↦ sorted_insert serde v key tree
      ])

  unfoldable pub create_sorted_index : Bytes → Bytes → TableStore → TableStore
  create_sorted_index table_name f store =
      let (table, opened) = get_or_create_table table_name store in
      if is_some (lookup f table.sorted_indexes)
      then opened
      else put_table table_name
          (record table {
            sorted_indexes = insert f (backfill_sorted f table.rows []) table.sorted_indexes;
          })
          opened

  unfoldable pub top_n : Bytes → Bytes → ℕ → Bool → TableStore → List Bytes × TableStore
  top_n table_name f limit desc store =
      if is_some (lookup table_name store.tables)
      then (let indexed = create_sorted_index table_name f store in
          (
            elim (do table ← lookup table_name indexed.tables; lookup f table.sorted_indexes) [
              | none ↦ []
              | some tree ↦ tree_top_n limit desc tree
            ],
            indexed,
          ))
      else ([], store)

  unfoldable pub index_lookup : Bytes → Bytes → Value N → TableStore → Option (List Bytes)
  index_lookup table_name f value store = do
    table ← lookup table_name store.tables
    idx ← lookup f table.field_indexes
    text ← value_to_index_key serde value
    some (index_keys text idx)

  unfoldable pub count_by_field : Bytes → Bytes → TableStore → Map Bytes ℕ × TableStore
  count_by_field table_name f store =
      if is_some (lookup table_name store.tables)
      then (let indexed = create_index table_name f store in
          (
            elim (do table ← lookup table_name indexed.tables; lookup f table.field_indexes) [
              | none ↦ []
              | some idx ↦ index_counts idx
            ],
            indexed,
          ))
      else ([], store)

  unfoldable pub load_blob_into_value : Value N → ℕ → TableStore → Result (Value N)
  load_blob_into_value value offset store = elim (load_blob offset store.blob_store) [
    | none ↦ err blob_read
    | some blob ↦ elim (serde.json_from_slice blob) [
      | none ↦ err json_decode
      | some items ↦ ok (put inventory items value)
    ]
  ]

  -- The value of a row that is there.
  abbrev pub read_row : StoredRow → TableStore → Result (Value N)
  read_row row store = elim (decode_row_bytes serde row.data_bytes) [
    | none ↦ err row_decode
    | some value ↦ elim row.blob_offset [
      | none ↦ ok value
      | some offset ↦ load_blob_into_value value offset store
    ]
  ]

  unfoldable pub get_row_with_version : Bytes → Bytes → TableStore → Result (Option (Value N × ℕ))
  get_row_with_version table_name key store = elim (row_at table_name key store) [
    | none ↦ ok none
    | some row ↦
        if row_matches_shard row.shard_id store
        then elim (read_row row store) [ err e ↦ err e | ok value ↦ ok (some (value, row.version)) ]
        else ok none
  ]

  unfoldable pub get_row : Bytes → Bytes → TableStore → Result (Option (Value N))
  get_row table_name key store = elim (row_at table_name key store) [
    | none ↦ ok none
    | some row ↦
        if row_matches_shard row.shard_id store
        then elim (read_row row store) [ err e ↦ err e | ok value ↦ ok (some value) ]
        else ok none
  ]

-- The version of a row, 0 when there is none.
unfoldable pub row_version : Bytes → Bytes → TableStore → ℕ
row_version table_name key store = elim (row_at table_name key store) [
  | none ↦ 0
  | some row ↦ row.version
]

unfoldable pub drop_index : Bytes → Bytes → TableStore → TableStore
drop_index table_name f store = elim (lookup table_name store.tables) [
  | none ↦ store
  | some table ↦
      put_table table_name (record table { field_indexes = remove f table.field_indexes }) store
]
