-- ===== src/Subscriptions/Candidates.antt =====
-- src/subscriptions.rs: the first rows of a subscription, from the indexes of the tables where they help.
-- The table is not one of a lobby.
pub mod Complete
use voltra.Prelude.{
  ℕ, Bool, true, false, ◌&&◌, Option, none, some, List, [], ◌∷◌, ◌++◌, any, take, retain,
  if◌then◌else◌, ◌==◌, Eq-nat, Eq-list,
}
use voltra.Table.Value.{Bytes, Value, Serde, get}
use voltra.Table.SortedIndex.{set_insert}
use voltra.Table.Store.{RowDelta, Operation, other_op, Result, ok, err, TableStore}
use voltra.Table.Rows.{index_lookup, create_index, get_row}
use voltra.Table.Reads.{list_rows_with_keys}
use voltra.Subscriptions.Predicate.{
  ComparisonOp, eq_op, Predicate, comparison, in_set, both, either, SortDirection, asc, desc,
  OrderBy, SubscriptionFilter, Numbers, Ordering, less, equal, greater, matches, compare_values,
  collect_eq_fields,
}

abbrev pub contains : Bytes → List Bytes → Bool
contains key keys = any (λ k. k == key) keys

-- `sort_unstable` and `dedup`.
unfoldable pub sorted_set : List Bytes → List Bytes
unfolding set_insert
sorted_set [] = []
sorted_set (key ∷ keys) = set_insert key (sorted_set keys)

-- "initial_snapshot"
abbrev pub initial_snapshot : Operation
initial_snapshot = other_op (
    105 ∷ 110 ∷ 105 ∷ 116 ∷ 105 ∷ 97 ∷ 108 ∷ 95 ∷ 115 ∷ 110 ∷ 97 ∷ 112 ∷ 115 ∷ 104 ∷ 111 ∷ 116 ∷ [])

abbrev pub synthetic : {N : Type 0} → Bytes → Bytes → Value N → RowDelta N
synthetic table key value = record {
  table_name = table;
  operation = initial_snapshot;
  row_key = key;
  row_id = 0;
  shard_id = 0;
  payload_arc = none;
  row_data = some value;
  counter_add_amount = 0;
  counter_add_timestamp = 0;
}

module _ {N : Type 0} (serde : Serde N) where
  -- The keys under all values of a field, if every one is looked up.
  unfoldable pub lookup_all : Bytes → Bytes → List (Value N) → TableStore → Option (List Bytes)
  lookup_all table f [] store = some []
  lookup_all table f (value ∷ values) store =
      let rest = lookup_all table f values store in
      elim (index_lookup serde table f value store) [
        | none ↦ none
        | some keys ↦ elim rest [ none ↦ none | some more ↦ some (keys ++ more) ]
      ]

  abbrev pub intersect : Option (List Bytes) → Option (List Bytes) → Option (List Bytes)
  intersect (some l) (some r) = some (retain (λ k. contains k r) l)
  intersect (some l) none = some l
  intersect none r = r

  abbrev pub unite : Option (List Bytes) → Option (List Bytes) → Option (List Bytes)
  unite (some l) (some r) = some (sorted_set (l ++ r))
  unite _ _ = none

  unfoldable pub index_candidates : Predicate N → Bytes → TableStore → Option (List Bytes)
  unfolding lookup_all sorted_set
  index_candidates (comparison f eq_op value) table store = index_lookup serde table f value store
  index_candidates (comparison f op value) table store = none
  index_candidates (in_set f values) table store = elim (lookup_all table f values store) [
    | none ↦ none
    | some keys ↦ some (sorted_set keys)
  ]
  index_candidates (both l r) table store =
      intersect (index_candidates l table store) (index_candidates r table store)
  index_candidates (either l r) table store =
      unite (index_candidates l table store) (index_candidates r table store)

  -- `get_row` of each key; one that is missing or cannot be read is left out.
  unfoldable pub fetch : Bytes → List Bytes → TableStore → List (Bytes × Value N)
  fetch table [] store = []
  fetch table (key ∷ keys) store =
      let rest = fetch table keys store in
      elim (get_row serde table key store) [
        | err e ↦ rest
        | ok none ↦ rest
        | ok (some value) ↦ (key, value) ∷ rest
      ]

  abbrev pub all_rows : Bytes → TableStore → List (Bytes × Value N)
  all_rows table store = elim (list_rows_with_keys serde table store) [
    | err e ↦ []
    | ok rows ↦ rows
  ]

  unfoldable pub candidate_rows : Option (Predicate N) → Bytes → TableStore → List (Bytes × Value N)
  unfolding index_candidates fetch
  candidate_rows none table store = all_rows table store
  candidate_rows (some p) table store = elim (index_candidates p table store) [
    | none ↦ all_rows table store
    | some keys ↦ fetch table keys store
  ]

  abbrev pub create_indexes : Bytes → List (Bytes × Value N) → TableStore → TableStore
  create_indexes table [] store = store
  create_indexes table ((f, value) ∷ fields) store =
      create_indexes table fields (create_index serde table f store)

  module _ (numbers : Numbers N) where
    abbrev pub before : OrderBy → Bytes × Value N → Bytes × Value N → Bool
    before ob a b =
        let order =
          compare_values serde numbers (get ob.order_field a.1) (get ob.order_field b.1) in
        elim order [ less ↦ true | equal ↦ true | greater ↦ false ]

    -- Whether `a` may stay before `b`.
    abbrev pub in_order : OrderBy → Bytes × Value N → Bytes × Value N → Bool
    in_order ob a b = elim ob.direction [ asc ↦ before ob a b | desc ↦ before ob b a ]

    -- A stable sort: `b` stands before `a` only when it is strictly less.
    unfoldable pub insert_row :
        OrderBy → Bytes × Value N → List (Bytes × Value N) → List (Bytes × Value N)
    insert_row ob a [] = a ∷ []
    insert_row ob a (b ∷ rows) =
        let rest = b ∷ insert_row ob a rows in if in_order ob a b then a ∷ b ∷ rows else rest

    unfoldable pub sort_rows : Option OrderBy → List (Bytes × Value N) → List (Bytes × Value N)
    unfolding insert_row
    sort_rows none rows = rows
    sort_rows (some ob) [] = []
    sort_rows (some ob) (a ∷ rows) = insert_row ob a (sort_rows (some ob) rows)

    -- The rows of the first answer, and the store with the indexes that were made for it.
    unfoldable pub snapshot :
        SubscriptionFilter N → TableStore → List (Bytes × Value N) × TableStore
    unfolding candidate_rows sort_rows
    snapshot filter store =
        let indexed : TableStore = elim filter.predicate [
          | none ↦ store
          | some p ↦ create_indexes filter.table_name (collect_eq_fields p) store
        ] in
        let rows = candidate_rows filter.predicate filter.table_name indexed in
        let matching =
          retain (λ row. matches serde numbers filter (synthetic filter.table_name row.0 row.1))
            rows in
        let sorted = sort_rows filter.order_by matching in
        (elim filter.limit [ none ↦ sorted | some count ↦ take count sorted ], indexed)
