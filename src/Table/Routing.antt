-- ===== src/Table/Routing.antt =====
-- table/mod.rs: the store of the server with the stores of its lobbies, and the operations that go to
-- one or the other by the name of the table. A store of a lobby has no stores of lobbies itself.
pub mod Flat
use voltra.Prelude.{
  ℕ, ◌+◌, Bool, true, false, Option, none, some, List, [], ◌∷◌, ◌++◌, is_some, length,
  if◌then◌else◌, ◌==◌, Eq-nat, Eq-list,
}
use voltra.Prelude.Map.{Map, lookup, insert, remove}
use voltra.Table.Value.{Bytes, Value, Serde}
use voltra.Table.Blobs.{BlobStore}
use voltra.Table.FieldIndex.{keys_of}
use voltra.Table.Lru.{no_eviction}
use voltra.Table.Store.{
  RowDelta, StoredRow, TableError, lobby_store_unavailable, Result, ok, err, TableStore,
  with_eviction,
}
use voltra.Table.Rows.{
  row_at, write_row_unlocked, delete_row_unlocked, get_row as store_get_row,
  row_version as store_row_version,
}
use voltra.Table.Lobby.{parse_lobby_key, lobby_table}
use voltra.Table.Batch.{ReadVersions, apply_delta_batch, current_version}
use voltra.Table.Reads.{total_row_count as store_row_count, clear_all as clear_store}

-- All stores have the same file of blobs open, `file`, each with an offset of its own.
pub record Root : Type 0 where
  pub store : TableStore
  pub lobby_stores : Map Bytes TableStore
  pub file : Bytes
  pub max_blob_size : ℕ

-- A store as it finds the file now.
abbrev pub with_file : Bytes → TableStore → TableStore
with_file bytes store = record store { blob_store = record (store.blob_store) { file = bytes } }

-- `BlobStore::open`: the offset is the end of the file.
abbrev pub open_blobs : Root → BlobStore
open_blobs root = record {
  file = root.file;
  next_offset = length root.file;
  max_blob_size = root.max_blob_size;
}

abbrev pub for_lobby : BlobStore → TableStore
unfolding with_eviction
for_lobby blobs = with_eviction no_eviction blobs

-- The store of the server.
abbrev pub get_store : Root → TableStore
get_store root = with_file root.file root.store

abbrev pub put_store : TableStore → Root → Root
put_store store root = record root { store = store; file = store.blob_store.file }

-- The store of a lobby, made when it is not there.
unfoldable pub get_lobby_store : Bytes → Root → TableStore
get_lobby_store lid root = elim (lookup lid root.lobby_stores) [
  | some store ↦ with_file root.file store
  | none ↦ for_lobby (open_blobs root)
]

abbrev pub put_lobby_store : Bytes → TableStore → Root → Root
put_lobby_store lid store root = record root {
  lobby_stores = insert lid store root.lobby_stores;
  file = store.blob_store.file;
}

unfoldable pub active_lobby_ids : Root → List Bytes
active_lobby_ids root = keys_of root.lobby_stores

-- An inner lobby name has no store.
unfoldable pub in_lobby :
    {A : Type 0}
    → (Bytes → TableStore → Result A × TableStore)
    → Bytes
    → TableStore
    → Result A × TableStore
in_lobby op logical lobby = elim (parse_lobby_key logical) [
  | some inner ↦ (err lobby_store_unavailable, lobby)
  | none ↦ op logical lobby
]

-- An operation on the store that a table name goes to.
unfoldable pub on_table :
    {A : Type 0} → (Bytes → TableStore → Result A × TableStore) → Bytes → Root → Result A × Root
unfolding in_lobby get_lobby_store
on_table op name root = elim (parse_lobby_key name) [
  | none ↦ let (result, after) = op name (get_store root) in (result, put_store after root)
  | some (lid, logical) ↦
      let (result, after) = in_lobby op logical (get_lobby_store lid root) in
      (result, put_lobby_store lid after root)
]

-- A row of the store of a lobby.
unfoldable pub lobby_row : Bytes → Bytes → TableStore → Option StoredRow
lobby_row logical key store = elim (parse_lobby_key logical) [
  | some inner ↦ none
  | none ↦ row_at logical key store
]

-- The row that a name and a key stand for, wherever it is.
unfoldable pub root_row : Bytes → Bytes → Root → Option StoredRow
unfolding lobby_row get_lobby_store
root_row name key root = elim (parse_lobby_key name) [
  | none ↦ row_at name key root.store
  | some (lid, logical) ↦ lobby_row logical key (get_lobby_store lid root)
]

unfoldable pub row_version : Bytes → Bytes → Root → ℕ × Root
unfolding get_lobby_store
row_version name key root = elim (parse_lobby_key name) [
  | none ↦ (store_row_version name key root.store, root)
  | some (lid, logical) ↦
      let lobby = get_lobby_store lid root in
      (current_version logical key lobby, put_lobby_store lid lobby root)
]

abbrev pub count_lobbies : Map Bytes TableStore → ℕ
count_lobbies [] = 0
count_lobbies ((lid, store) ∷ lobbies) = store_row_count store + count_lobbies lobbies

unfoldable pub total_row_count : Root → ℕ
total_row_count root = store_row_count root.store + count_lobbies root.lobby_stores

unfoldable pub clear_all : Root → Root
clear_all root = record root { store = clear_store root.store; lobby_stores = [] }

abbrev pub names_in : Bytes → List Bytes → List Bytes
names_in lid [] = []
names_in lid (name ∷ names) = lobby_table lid name ∷ names_in lid names

abbrev pub lobby_tables : Map Bytes TableStore → List Bytes
lobby_tables [] = []
lobby_tables ((lid, store) ∷ lobbies) = names_in lid (keys_of store.tables) ++ lobby_tables lobbies

unfoldable pub list_tables : Root → List Bytes
list_tables root = keys_of root.store.tables ++ lobby_tables root.lobby_stores

abbrev pub entry : {A : Type 0} → Option (List A) → List A
entry none = []
entry (some xs) = xs

-- The deltas and the versions of each lobby, and those of the global tables.
abbrev pub Parts : Type 0 → Type 0
Parts N = List (RowDelta N) × Map Bytes (List (RowDelta N))

unfoldable pub route_deltas : {N : Type 0} → List (RowDelta N) → Parts N → Parts N
route_deltas [] parts = parts
route_deltas (d ∷ deltas) parts = route_deltas deltas (elim (parse_lobby_key d.table_name) [
  | none ↦ (parts.0 ++ (d ∷ []), parts.1)
  | some (lid, logical) ↦ (
    parts.0,
    insert lid (entry (lookup lid parts.1) ++ (record d { table_name = logical } ∷ [])) parts.1,
  )
])

unfoldable pub route_reads :
    ReadVersions → ReadVersions × Map Bytes ReadVersions → ReadVersions × Map Bytes ReadVersions
route_reads [] parts = parts
route_reads ((table, (key, seen)) ∷ reads) parts = route_reads reads (elim (parse_lobby_key table) [
  | none ↦ (parts.0 ++ ((table, (key, seen)) ∷ []), parts.1)
  | some (lid, logical) ↦
      (parts.0, insert lid (entry (lookup lid parts.1) ++ ((logical, (key, seen)) ∷ [])) parts.1)
])

module _ {N : Type 0} (serde : Serde N) where
  unfoldable pub set_row : Bytes → Bytes → Value N → Root → Result (RowDelta N) × Root
  unfolding on_table
  set_row name key value root =
      on_table (λ table store. write_row_unlocked serde table key value store) name root

  abbrev pub delete_in : Bytes → Bytes → TableStore → Result (RowDelta N) × TableStore
  delete_in key table store =
      let (delta, after) = delete_row_unlocked serde table key store in (ok delta, after)

  unfoldable pub delete_row : Bytes → Bytes → Root → Result (RowDelta N) × Root
  unfolding on_table
  delete_row name key root = on_table (delete_in key) name root

  abbrev pub get_in : Bytes → Bytes → TableStore → Result (Option (Value N))
  get_in name key store =
      if is_some (parse_lobby_key name) then ok none else store_get_row serde name key store

  unfoldable pub get_row : Bytes → Bytes → Root → Result (Option (Value N)) × Root
  unfolding get_lobby_store
  get_row name key root = elim (parse_lobby_key name) [
    | none ↦ (store_get_row serde name key (get_store root), root)
    | some (lid, logical) ↦
        let lobby = get_lobby_store lid root in
        (get_in logical key lobby, put_lobby_store lid lobby root)
  ]

  -- The batches of the lobbies in turn: the first error ends the loop, and what was done before stays.
  unfoldable pub apply_lobbies :
      (ℕ → ℕ)
      → Map Bytes (List (RowDelta N))
      → Map Bytes ReadVersions
      → List (RowDelta N)
      → Root
      → Result (List (RowDelta N)) × Root
  unfolding get_lobby_store
  apply_lobbies clock [] reads results root = (ok results, root)
  apply_lobbies clock ((lid, deltas) ∷ rest) reads results root =
      let (result, after) =
        apply_delta_batch serde clock deltas (entry (lookup lid reads))
          (get_lobby_store lid root) in
      let put = put_lobby_store lid after root in
      elim result [
        | err e ↦ (err e, put)
        | ok committed ↦ apply_lobbies clock rest (remove lid reads) (results ++ committed) put
      ]

  unfoldable pub apply_delta_batch_versioned :
      (ℕ → ℕ) → List (RowDelta N) → ReadVersions → Root → Result (List (RowDelta N)) × Root
  unfolding route_deltas route_reads apply_lobbies
  apply_delta_batch_versioned clock [] reads root = (ok [], root)
  apply_delta_batch_versioned clock (d ∷ deltas) reads root =
      let (global, lobbies) = route_deltas (d ∷ deltas) ([], []) in
      let (global_reads, lobby_reads) = route_reads reads ([], []) in
      let (result, after) = apply_delta_batch serde clock global global_reads (get_store root) in
      let put = put_store after root in
      elim result [
        | err e ↦ (err e, put)
        | ok committed ↦ apply_lobbies clock lobbies lobby_reads committed put
      ]
