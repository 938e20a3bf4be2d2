-- ===== src/Table/Reads.antt =====
-- table/mod.rs: the reads of a whole table of one store.

use voltra.Prelude.{
  ℕ, ◌+◌, Bool, true, false, Option, none, some, List, [], ◌∷◌, any, length, if◌then◌else◌, ◌==◌,
  ◌>>=◌, Eq-nat, Eq-list,
}
use voltra.Prelude.Map.{Map, lookup}
use voltra.Leaderboard.{bytes_lt}
use voltra.Table.Value.{Bytes, Value, Counter, Serde, get, value_to_index_key, decode_row_bytes}
use voltra.Table.FieldIndex.{keys_of}
use voltra.Table.Store.{
  StoredRow, Table, counter_decode, Result, ok, err, TableStore, row_matches_shard,
}
use voltra.Table.Rows.{rows_of, read_row, index_lookup}

-- The rows of the shard.
unfoldable pub shard_rows : TableStore → Map Bytes StoredRow → Map Bytes StoredRow
shard_rows store [] = []
shard_rows store ((key, row) ∷ rows) =
    let rest = shard_rows store rows in
    if row_matches_shard row.shard_id store then (key, row) ∷ rest else rest

unfoldable pub insert_by_key : {A : Type 0} → Bytes × A → List (Bytes × A) → List (Bytes × A)
insert_by_key c [] = c ∷ []
insert_by_key c (d ∷ rest) = if bytes_lt d.0 c.0 then d ∷ insert_by_key c rest else c ∷ d ∷ rest

-- `sort_unstable_by` the keys.
unfoldable pub sort_by_key : {A : Type 0} → List (Bytes × A) → List (Bytes × A)
unfolding insert_by_key
sort_by_key [] = []
sort_by_key (c ∷ rest) = insert_by_key c (sort_by_key rest)

-- "null"
abbrev pub null_text : Bytes
null_text = 110 ∷ 117 ∷ 108 ∷ 108 ∷ []

unfoldable pub list_indexes : Bytes → TableStore → List Bytes
list_indexes name store = elim (lookup name store.tables) [
  | none ↦ []
  | some table ↦ keys_of table.field_indexes
]

abbrev pub count_all : Map Bytes Table → ℕ
count_all [] = 0
count_all ((name, table) ∷ tables) = length table.rows + count_all tables

unfoldable pub total_row_count : TableStore → ℕ
total_row_count store = count_all store.tables

unfoldable pub clear_all : TableStore → TableStore
clear_all store = record store { tables = [] }

unfoldable pub count_where : {A : Type 0} → (A → Bool) → List A → ℕ
count_where p [] = 0
count_where p (x ∷ xs) = (if p x then 1 else 0) + count_where p xs

abbrev pub with_value : {A : Type 0} → Bytes → Option A → List (Bytes × A) → List (Bytes × A)
with_value key none rest = rest
with_value key (some v) rest = (key, v) ∷ rest

module _ {N : Type 0} (serde : Serde N) where
  -- The first row that cannot be read ends the listing.
  unfoldable pub read_rows : TableStore → Map Bytes StoredRow → Result (List (Bytes × Value N))
  read_rows store [] = ok []
  read_rows store ((key, row) ∷ rows) =
      let rest = read_rows store rows in
      elim (read_row serde row store) [
        | err e ↦ err e
        | ok value ↦ elim rest [ err e ↦ err e | ok values ↦ ok ((key, value) ∷ values) ]
      ]

  unfoldable pub list_rows_with_keys : Bytes → TableStore → Result (List (Bytes × Value N))
  unfolding read_rows shard_rows
  list_rows_with_keys name store = read_rows store (shard_rows store (rows_of name store))

  abbrev pub values_of : List (Bytes × Value N) → List (Value N)
  values_of [] = []
  values_of ((key, value) ∷ rest) = value ∷ values_of rest

  unfoldable pub list_rows : Bytes → TableStore → Result (List (Value N))
  unfolding list_rows_with_keys
  list_rows name store = elim (list_rows_with_keys name store) [
    | err e ↦ err e
    | ok rows ↦ ok (values_of rows)
  ]

  -- The rows that have a field, with its value.
  unfoldable pub column : Bytes → Map Bytes StoredRow → List (Bytes × Value N)
  column f [] = []
  column f ((key, row) ∷ rows) =
      with_value key (decode_row_bytes serde row.data_bytes >>= get f) (column f rows)

  unfoldable pub scan_column : Bytes → Bytes → TableStore → List (Bytes × Value N)
  unfolding column shard_rows sort_by_key
  scan_column name f store = sort_by_key (column f (shard_rows store (rows_of name store)))

  abbrev pub or_null : Option Bytes → Bytes
  or_null none = null_text
  or_null (some text) = text

  -- The values whose text has not been seen.
  unfoldable pub distinct_values : List Bytes → List (Bytes × Value N) → List (Value N)
  distinct_values seen [] = []
  distinct_values seen ((key, v) ∷ rest) =
      let text = or_null (value_to_index_key serde v) in
      elim (any (λ t. t == text) seen) [
        | true ↦ distinct_values seen rest
        | false ↦ v ∷ distinct_values (text ∷ seen) rest
      ]

  unfoldable pub distinct_field_values : Bytes → Bytes → TableStore → List (Value N)
  unfolding distinct_values column shard_rows
  distinct_field_values name f store =
      distinct_values [] (column f (shard_rows store (rows_of name store)))

  abbrev pub has_text : Bytes → Bytes × Value N → Bool
  has_text text entry = elim (value_to_index_key serde entry.1) [
    | none ↦ false
    | some found ↦ found == text
  ]

  unfoldable pub count_matching : Bytes → Bytes → Value N → TableStore → ℕ
  unfolding scan_column count_where
  count_matching name f value store = elim (index_lookup serde name f value store) [
    | some keys ↦ length keys
    | none ↦
        count_where (has_text (or_null (value_to_index_key serde value))) (scan_column name f store)
  ]

  abbrev pub decode_counters : List (Value N) → Result (List Counter)
  decode_counters [] = ok []
  decode_counters (v ∷ vs) =
      let rest = decode_counters vs in
      elim (serde.counter_from_value v) [
        | none ↦ err counter_decode
        | some c ↦ elim rest [ err e ↦ err e | ok cs ↦ ok (c ∷ cs) ]
      ]
