-- ===== src/Table/Tests/Runs.antt =====
-- A store with one indexed table, and the batches that it takes.
use voltra.Prelude.{ℕ, ◌+◌, ◌≡◌, ◌↔◌, refl, true, none, some, List, [], ◌∷◌, arith, Eq-nat, Eq-list}
use voltra.Prelude.Map.{lookup, insert}
use voltra.Table.Value.{
  Bytes, string, object, field, empty_object, get_field, put_field, encode_row, decode_row_bytes,
  decode_row-encode_row,
}
use voltra.Table.Blobs.{BlobStore, store_blob, load_blob}
use voltra.Table.Blobs.Loads.{store_all, load_blob-stored}
use voltra.Table.Lru.{no_eviction}
use voltra.Table.Store.{
  Operation, insert_op, counter_add_op, other_op, RowDelta, unknown_operation, Result, ok, err,
  TableStore,
}
use voltra.Table.Rows.{row_at, row_version, write_row_unlocked, create_index, get_row}
use voltra.Table.Lobby.{parse_lobby_key, lobby_table, lobby_id, parse-lobby_table}
use voltra.Table.Batch.{own_delta, apply_delta_batch}
use voltra.Table.Batch.Versions.{count_writes}
use voltra.Table.Batch.Rollback.{apply_delta_batch-restores}
use voltra.Table.Batch.Conflicts.{apply_delta_batch-version}
use voltra.Table.Routing.{Root, set_row, delete_row, root_row}
use voltra.Table.Routing.Flat.{set_row-elsewhere}
use voltra.Table.Tests.Codec.{Json, stack_code}

abbrev blobs : BlobStore
blobs = record { file = []; next_offset = 0; max_blob_size = 100 }

abbrev empty_store : TableStore
empty_store = record {
  tables = [];
  blob_store = blobs;
  next_row_id = 1;
  shard_id = 0;
  shard_count = 1;
  eviction_policy = no_eviction;
  lru = none;
}

abbrev table : Bytes
table = 116 ∷ []

abbrev colour : Bytes
colour = 99 ∷ []

abbrev red : Json
red = string (114 ∷ [])

abbrev red_row : Json
red_row = object (field colour red empty_object)

abbrev change : Operation → Bytes → RowDelta ℕ
change operation key = record {
  table_name = table;
  operation = operation;
  row_key = key;
  row_id = 0;
  shard_id = 0;
  payload_arc = none;
  row_data = some red_row;
  counter_add_amount = 5;
  counter_add_timestamp = 9;
}

abbrev clock : ℕ → ℕ
clock n = n

abbrev red_bytes : Bytes
red_bytes = 0 ∷ 9 ∷ 3 ∷ 109 ∷ 3 ∷ 124 ∷ 8 ∷ []

decode_row-encode_row_example : decode_row_bytes stack_code red_bytes ≡ some red_row
unfolding encode_row stack_code
decode_row-encode_row_example = decode_row-encode_row stack_code red_row red_bytes refl

abbrev stored : BlobStore
stored = record blobs { file = 2 ∷ 0 ∷ 0 ∷ 0 ∷ 0 ∷ 0 ∷ 0 ∷ 0 ∷ 7 ∷ 8 ∷ []; next_offset = 10 }

abbrev twice : BlobStore
twice = record blobs {
  file = 2 ∷ 0 ∷ 0 ∷ 0 ∷ 0 ∷ 0 ∷ 0 ∷ 0 ∷ 7 ∷ 8 ∷ 1 ∷ 0 ∷ 0 ∷ 0 ∷ 0 ∷ 0 ∷ 0 ∷ 0 ∷ 5 ∷ [];
  next_offset = 19;
}

load_blob-stored_example : load_blob 0 twice ≡ some (7 ∷ 8 ∷ [])
unfolding store_blob store_all
load_blob-stored_example =
    load_blob-stored (7 ∷ 8 ∷ []) ((5 ∷ []) ∷ []) blobs twice (0, stored) refl (omega arith) refl
      refl

parse-lobby_table_example :
    (parse_lobby_key (108 ∷ 52 ∷ 95 ∷ 120 ∷ []) ≡ some (52 ∷ [], 120 ∷ [])) ↔ (
      (lobby_id (52 ∷ []) ≡ true) × ((108 ∷ 52 ∷ 95 ∷ 120 ∷ []) ≡ lobby_table (52 ∷ []) (120 ∷ [])))
parse-lobby_table_example = parse-lobby_table (108 ∷ 52 ∷ 95 ∷ 120 ∷ []) (52 ∷ []) (120 ∷ [])

-- The second delta has an operation that is not known.
abbrev failing : List (RowDelta ℕ)
failing = change insert_op (107 ∷ []) ∷ change (other_op (120 ∷ [])) (107 ∷ []) ∷ []

apply_delta_batch-restores_example :
    row_at table (107 ∷ []) (apply_delta_batch stack_code clock failing [] empty_store).1 ≡ none
unfolding apply_delta_batch write_row_unlocked stack_code lookup insert parse_lobby_key encode_row
    decode_row_bytes get_field put_field
apply_delta_batch-restores_example =
    apply_delta_batch-restores stack_code clock failing [] empty_store unknown_operation table
      (107 ∷ []) refl refl

abbrev writing : List (RowDelta ℕ)
writing = change insert_op (107 ∷ []) ∷ change counter_add_op (106 ∷ []) ∷ []

abbrev committed : TableStore
committed = (apply_delta_batch stack_code clock writing [] empty_store).1

unfoldable outcome : Result (List (RowDelta ℕ)) → List (RowDelta ℕ)
outcome (ok c) = c
outcome (err e) = []

abbrev answer : List (RowDelta ℕ)
answer = outcome (apply_delta_batch stack_code clock writing [] empty_store).0

apply_delta_batch-version_example :
    row_version table (107 ∷ []) committed
    ≡ row_version table (107 ∷ []) empty_store
      + count_writes (own_delta empty_store) table (107 ∷ []) writing
unfolding apply_delta_batch write_row_unlocked stack_code lookup insert parse_lobby_key encode_row
    decode_row_bytes get_field put_field row_version outcome get_row
apply_delta_batch-version_example =
    apply_delta_batch-version stack_code clock writing [] empty_store answer table (107 ∷ []) refl
      (refl, (refl, tt)) (omega arith) refl

abbrev coloured : TableStore
coloured = create_index stack_code table colour empty_store

abbrev painted : TableStore
painted = (write_row_unlocked stack_code table (107 ∷ []) red_row coloured).1

abbrev root : Root
root = record { store = empty_store; lobby_stores = []; file = []; max_blob_size = 100 }

-- Table "l1_t" of lobby 1 and table "l2_t" of lobby 2.
set_row-elsewhere_example :
    (root_row
        (108 ∷ 50 ∷ 95 ∷ 116 ∷ [])
        (107 ∷ [])
        (set_row stack_code (108 ∷ 49 ∷ 95 ∷ 116 ∷ []) (107 ∷ []) red_row root).1
      ≡ root_row (108 ∷ 50 ∷ 95 ∷ 116 ∷ []) (107 ∷ []) root)
    × (root_row
          (108 ∷ 50 ∷ 95 ∷ 116 ∷ [])
          (107 ∷ [])
          (delete_row stack_code (108 ∷ 49 ∷ 95 ∷ 116 ∷ []) (107 ∷ []) root).1
        ≡ root_row (108 ∷ 50 ∷ 95 ∷ 116 ∷ []) (107 ∷ []) root)
set_row-elsewhere_example =
    set_row-elsewhere stack_code (108 ∷ 49 ∷ 95 ∷ 116 ∷ []) (107 ∷ []) (108 ∷ 50 ∷ 95 ∷ 116 ∷ [])
      (107 ∷ []) red_row root refl
