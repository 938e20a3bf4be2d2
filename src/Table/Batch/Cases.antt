-- ===== src/Table/Batch/Cases.antt =====
-- The outcomes of a step of a batch.
use voltra.Prelude.{ℕ, ◌≡◌, refl, ◌⊎◌, inl, inr, true, Option, none, some, arith, Option-cases}
use voltra.Table.Value.{Bytes, Value, Counter, Serde, decode_row_bytes}
use voltra.Table.Store.{
  Operation, insert_op, update_op, delete_op, counter_add_op, other_op, RowDelta, TableError,
  Result, ok, err, TableStore, row_data_value, StoredRow,
}
use voltra.Table.Rows.{get_row, read_row, row_at, load_blob_into_value}
use voltra.Table.Blobs.{load_blob}
use voltra.Table.Batch.{
  Action, refuse, fail, write, delete, action, row_action, counter_action, added, get_counter_in,
  is_refusal, track,
}

pub Result-cases :
    {A : Type 0} (r : Result A) → ((e : TableError) × (r ≡ err e)) ⊎ ((a : A) × (r ≡ ok a))
Result-cases (err e) = inl (e, refl)
Result-cases (ok a) = inr (a, refl)

module _ {N : Type 0} where
  pub Action-cases :
      (a : Action N)
      → ((e : TableError) × (a ≡ refuse e))
        ⊎ (((e : TableError) × (a ≡ fail e)) ⊎ (((v : Value N) × (a ≡ write v)) ⊎ (a ≡ delete)))
  Action-cases (refuse e) = inl (e, refl)
  Action-cases (fail e) = inr (inl (e, refl))
  Action-cases (write v) = inr (inr (inl (v, refl)))
  Action-cases delete = inr (inr (inr refl))

  pub track-tables : (now : ℕ) (d : RowDelta N) (s : TableStore) → (track now d s).tables ≡ s.tables
  unfolding track
  track-tables now d s = ground (arith, Option-cases s.lru)

  track-lru :
      (now : ℕ) (d : RowDelta N) (s : TableStore) → s.lru ≡ none → (track now d s).lru ≡ none
  unfolding track
  track-lru now d s h = ground (arith, h)

added-tables :
    {N : Type 0} (delta : RowDelta N) (existing : Option Counter) (s : TableStore)
    → (added delta existing s).1.tables ≡ s.tables
added-tables delta none s = refl
added-tables delta (some c) s = refl

added-lru :
    {N : Type 0} (delta : RowDelta N) (existing : Option Counter) (s : TableStore)
    → (added delta existing s).1.lru ≡ s.lru
added-lru delta none s = refl
added-lru delta (some c) s = refl

module _ {N : Type 0} (serde : Serde N) where
  counter_action-tables :
      (delta : RowDelta N) (existing : Result (Option Counter)) (s : TableStore)
      → (counter_action serde delta existing s).1.tables ≡ s.tables
  unfolding counter_action
  counter_action-tables delta (err e) s = refl
  counter_action-tables delta (ok existing) s = added-tables delta existing s

  pub action-tables :
      (op : Operation) (delta : RowDelta N) (s : TableStore)
      → (action serde op delta s).1.tables ≡ s.tables
  unfolding action
  action-tables insert_op delta s = refl
  action-tables update_op delta s = refl
  action-tables delete_op delta s = refl
  action-tables counter_add_op delta s =
      counter_action-tables delta (get_counter_in serde delta.table_name delta.row_key s) s
  action-tables (other_op name) delta s = refl

  load-refusal :
      (value : Value N) (offset : ℕ) (s : TableStore) (e : TableError)
      → load_blob_into_value serde value offset s ≡ err e
      → is_refusal e ≡ true
  unfolding load_blob_into_value
  load-refusal value offset s e h = elim (Option-cases (load_blob offset s.blob_store)) [
    | inl f ↦ ground (arith, f, h)
    | inr (blob, f) ↦ ground (arith, f, h, Option-cases (serde.json_from_slice blob))
  ]

  read_row-refusal :
      (row : StoredRow) (s : TableStore) (e : TableError)
      → read_row serde row s ≡ err e
      → is_refusal e ≡ true
  read_row-refusal row s e h = elim (Option-cases (decode_row_bytes serde row.data_bytes)) [
    | inl f ↦ ground (arith, f, h)
    | inr (value, f) ↦ elim (Option-cases row.blob_offset) [
      | inl g ↦ absurd (ground (arith, f, g, h))
      | inr (offset, g) ↦ load-refusal value offset s e (ground (arith, f, g, h))
    ]
  ]

  get_row-refusal :
      (t k : Bytes) (s : TableStore) (e : TableError)
      → get_row serde t k s ≡ err e
      → is_refusal e ≡ true
  unfolding get_row
  get_row-refusal t k s e h = elim (Option-cases (row_at t k s)) [
    | inl f ↦ absurd (ground (arith, f, h))
    | inr (row, f) ↦ elim (Result-cases (read_row serde row s)) [
      | inl (d, g) ↦ read_row-refusal row s e (ground (arith, f, g, h))
      | inr (v, g) ↦ absurd (ground (arith, f, g, h))
    ]
  ]

  get_counter-refusal :
      (t k : Bytes) (s : TableStore) (e : TableError)
      → get_counter_in serde t k s ≡ err e
      → is_refusal e ≡ true
  unfolding get_counter_in
  get_counter-refusal t k s e h = elim (Result-cases (get_row serde t k s)) [
    | inl (d, g) ↦ get_row-refusal t k s e (ground (arith, g, h))
    | inr (none, g) ↦ absurd (ground (arith, g, h))
    | inr (some value, g) ↦ ground (arith, g, h, Option-cases (serde.counter_from_value value))
  ]

  counter_action-refusal :
      (delta : RowDelta N) (existing : Result (Option Counter)) (s : TableStore) (e : TableError)
      → (counter_action serde delta existing s).0 ≡ refuse e
      → existing ≡ err e
  unfolding counter_action
  counter_action-refusal delta (err d) s e h = ground (arith, h)
  counter_action-refusal delta (ok existing) s e h = absurd (ground (arith, h))

  row_action-refusal :
      (value : Option (Value N)) (e : TableError)
      → row_action serde value ≡ refuse e
      → is_refusal e ≡ true
  row_action-refusal none e h = ground (arith, h)
  row_action-refusal (some value) e h = absurd (ground (arith, h))

  -- A delta that is refused is refused for one of the errors that skip the rollback.
  pub action-refusal :
      (op : Operation) (delta : RowDelta N) (s : TableStore) (e : TableError)
      → (action serde op delta s).0 ≡ refuse e
      → is_refusal e ≡ true
  unfolding action
  action-refusal insert_op delta s e h = row_action-refusal (row_data_value serde delta) e h
  action-refusal update_op delta s e h = row_action-refusal (row_data_value serde delta) e h
  action-refusal delete_op delta s e h = absurd (ground (arith, h))
  action-refusal counter_add_op delta s e h =
      let counter = get_counter_in serde delta.table_name delta.row_key s in
      get_counter-refusal delta.table_name delta.row_key s e
        (counter_action-refusal delta counter s e h)
  action-refusal (other_op name) delta s e h = absurd (ground (arith, h))
