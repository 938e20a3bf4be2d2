-- ===== src/Table/Store.antt =====
-- table/mod.rs: `TableStore`, the writes of one row and the indexes that follow them. The row locks are
-- left out: an operation runs alone.
use voltra.Prelude.{
  ℕ, ◌+◌, ◌%◌, ◌^◌, Bool, false, Option, none, some, [], ◌∷◌, leb, if◌then◌else◌, ◌==◌, ◌>>=◌, ◌||◌,
  Eq-nat, Eq-list,
}
use voltra.Prelude.Map.{Map, lookup, insert}
use voltra.Table.Value.{
  Bytes, Value, null, string, number, Serde, get, put, is_non_empty_array, value_to_index_key,
}
use voltra.Table.Blobs.{BlobStore, store_blob}
use voltra.Table.FieldIndex.{add_text, drop_text, FieldIndex}
use voltra.Table.SortedIndex.{Tree, sorted_insert, sorted_remove}
use voltra.Table.Lru.{EvictionPolicy, no_eviction, lru_row_cap, lru_byte_cap, LruTracker}

pub record StoredRow : Type 0 where
  pub row_id : ℕ
  pub shard_id : ℕ
  pub data_bytes : Bytes
  pub blob_offset : Option ℕ
  pub version : ℕ

pub record Table : Type 0 where
  pub rows : Map Bytes StoredRow
  pub field_indexes : Map Bytes FieldIndex
  pub sorted_indexes : Map Bytes Tree

pub data Operation : Type 0 where
  insert_op update_op delete_op counter_add_op : Operation
  other_op : Bytes → Operation

pub record RowDelta (N : Type 0) : Type 0 where
  pub table_name : Bytes
  pub operation : Operation
  pub row_key : Bytes
  pub row_id : ℕ
  pub shard_id : ℕ
  pub payload_arc : Option Bytes
  pub row_data : Option (Value N)
  pub counter_add_amount : ℕ
  pub counter_add_timestamp : ℕ

-- The errors, by the place that makes them.
pub data TableError : Type 0 where
  row_encode row_decode blob_too_large blob_read json_encode json_decode counter_decode : TableError
  missing_row_data txn_conflict unknown_operation lobby_store_unavailable : TableError

pub data Result (A : Type 0) : Type 0 where
  ok : A → Result A
  err : TableError → Result A

pub record TableStore : Type 0 where
  pub tables : Map Bytes Table
  pub blob_store : BlobStore
  pub next_row_id : ℕ
  pub shard_id : ℕ
  pub shard_count : ℕ
  pub eviction_policy : EvictionPolicy
  pub lru : Option LruTracker

abbrev pub new_table : Table
new_table = record { rows = []; field_indexes = []; sorted_indexes = [] }

-- A new store. The file of blobs is there before it.
unfoldable pub with_eviction : EvictionPolicy → BlobStore → TableStore
with_eviction policy blobs = record {
  tables = [];
  blob_store = blobs;
  next_row_id = 1;
  shard_id = 0;
  shard_count = 1;
  eviction_policy = policy;
  lru = elim policy [ no_eviction ↦ none | lru_row_cap n ↦ some [] | lru_byte_cap n ↦ some [] ];
}

unfoldable pub set_shard : ℕ → ℕ → TableStore → TableStore
set_shard shard count store = record store {
  shard_id = shard;
  shard_count = if count == 0 then 1 else count;
}

-- "players"
abbrev pub players : Bytes
players = 112 ∷ 108 ∷ 97 ∷ 121 ∷ 101 ∷ 114 ∷ 115 ∷ []

-- "inventory"
abbrev pub inventory : Bytes
inventory = 105 ∷ 110 ∷ 118 ∷ 101 ∷ 110 ∷ 116 ∷ 111 ∷ 114 ∷ 121 ∷ []

-- "shard_id"
abbrev pub shard_id_field : Bytes
shard_id_field = 115 ∷ 104 ∷ 97 ∷ 114 ∷ 100 ∷ 95 ∷ 105 ∷ 100 ∷ []

-- "row_key"
abbrev pub row_key_field : Bytes
row_key_field = 114 ∷ 111 ∷ 119 ∷ 95 ∷ 107 ∷ 101 ∷ 121 ∷ []

abbrev pub alloc_row_id : TableStore → ℕ × TableStore
alloc_row_id store =
    (store.next_row_id, record store { next_row_id = (store.next_row_id + 1) % 2 ^ 32 })

unfoldable pub get_or_create_table : Bytes → TableStore → Table × TableStore
get_or_create_table name store = elim (lookup name store.tables) [
  | some table ↦ (table, store)
  | none ↦ (new_table, record store { tables = insert name new_table store.tables })
]

abbrev pub row_matches_shard : ℕ → TableStore → Bool
row_matches_shard shard store = leb store.shard_count 1 || (shard == store.shard_id)

-- The loop over the indexes.
unfoldable pub each {ℓ} : {I : Type ℓ} → (Bytes → I → I) → Map Bytes I → Map Bytes I
each step [] = []
each step ((f, idx) ∷ indexes) = (f, step f idx) ∷ each step indexes

module _ {N : Type 0} where
  abbrev pub should_store_blob : Value N → Bool
  should_store_blob value = elim (get inventory value) [
    | none ↦ false
    | some items ↦ is_non_empty_array items
  ]

  module _ (serde : Serde N) where
    abbrev pub row_data_value : RowDelta N → Option (Value N)
    row_data_value delta = elim delta.payload_arc [
      | some arc ↦ serde.json_from_slice arc
      | none ↦ delta.row_data
    ]

    -- The fields that a row gets on its way in.
    abbrev pub stamped : Bytes → Bytes → ℕ → Value N → Value N
    stamped table_name key shard value =
        let own =
          if table_name == players
          then put shard_id_field (number (serde.number_of_u32 shard)) value
          else value in
        put row_key_field (string key) own

    -- The inventory of a row goes to the file of blobs.
    unfoldable pub move_blob : Value N → BlobStore → Result (Value N × Option ℕ) × BlobStore
    move_blob value blobs =
        if should_store_blob value
        then elim (get inventory value >>= serde.json_to_vec) [
          | none ↦ (err json_encode, blobs)
          | some bytes ↦ elim (store_blob bytes blobs) [
            | none ↦ (err blob_too_large, blobs)
            | some (offset, after) ↦ (ok (put inventory null value, some offset), after)
          ]
        ]
        else (ok (value, none), blobs)

    unfoldable pub prepare_value :
        Bytes → Bytes → Value N → TableStore → Result (Value N × Option ℕ) × TableStore
    unfolding move_blob
    prepare_value table_name key value store =
        let (moved, blobs) = move_blob value store.blob_store in
        (
          elim moved [
            | err e ↦ err e
            | ok (v, offset) ↦ ok (stamped table_name key store.shard_id v, offset)
          ],
          record store { blob_store = blobs },
        )

    abbrev pub index_text : Bytes → Option (Value N) → Option Bytes
    index_text f value = do v ← value; x ← get f v; value_to_index_key serde x

    -- The upkeep of the index of field `f` when the row `key` goes from one value to another.
    unfoldable pub reindex :
        Bytes → Option (Value N) → Option (Value N) → Bytes → FieldIndex → FieldIndex
    reindex key old new f idx =
        add_text key (index_text f new) (drop_text key (index_text f old) idx)

    unfoldable pub resort : Bytes → Option (Value N) → Option (Value N) → Bytes → Tree → Tree
    resort key old new f tree =
        let kept : Tree = elim (old >>= get f) [
          | none ↦ tree
          | some v ↦ sorted_remove serde v key tree
        ] in
        elim (new >>= get f) [ none ↦ kept | some v ↦ sorted_insert serde v key kept ]
