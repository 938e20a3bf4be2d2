-- ===== src/Table/History.antt =====
-- What the indexes answer after any history of the store.
use voltra.Prelude.{
  ℕ, suc, ◌≡◌, refl, ◌∙◌, Bool, false, Option, none, some, List, [], ◌∷◌, arith, any, ◌==◌, Eq-nat,
  Eq-list, Option-cases, Bool-cases, inl, inr,
}
use voltra.Prelude.Map.{lookup}
use voltra.Table.Value.{Bytes, Value, Serde, value_to_index_key}
use voltra.Table.Blobs.{BlobStore}
use voltra.Table.FieldIndex.{index_keys, bucket, member, any-keys}
use voltra.Table.Lru.{EvictionPolicy, no_eviction}
use voltra.Table.Store.{
  StoredRow, RowDelta, Result, ok, err, TableStore, get_or_create_table, with_eviction, set_shard,
  index_text,
}
use voltra.Table.Rows.{
  row_at, old_value, write_row_unlocked, delete_row_unlocked, create_index, create_sorted_index,
  index_lookup, drop_index,
}
use voltra.Table.Rows.Indexes.{
  has, Indexed, opened-Indexed, write_row-Indexed, delete_row-Indexed, create_index-Indexed,
  create_sorted_index-Indexed, drop_index-Indexed,
}
use voltra.Table.Batch.{
  Undo, Action, refuse, fail, write, delete, track, action, own_delta, after_write, take_action,
  apply_deltas, commit, ReadVersions, lock_keys, open_tables, apply_delta_batch,
}
use voltra.Table.Batch.Cases.{track-tables, action-tables}
use voltra.Table.Batch.Conflicts.{succeeded}

open_tables-Indexed :
    {N : Type 0} (serde : Serde N) (keys : List (Bytes × Bytes)) (s : TableStore)
    → Indexed serde s
    → Indexed serde (open_tables keys s)
unfolding open_tables
open_tables-Indexed serde [] s i = i
open_tables-Indexed serde (key ∷ keys) s i =
    open_tables-Indexed serde keys (get_or_create_table key.0 s).1
      (opened-Indexed serde key.0 s i).1

module _ {N : Type 0} (serde : Serde N) where
  -- What succeeds leaves indexes that agree with the rows.
  abbrev Kept : Result (List (RowDelta N)) × TableStore → Type 0
  Kept q = (c : List (RowDelta N)) → q.0 ≡ ok c → Indexed serde q.1

  commit-Kept :
      (d : RowDelta N) (q : Result (List (RowDelta N)) × TableStore) → Kept q → Kept (commit d q)
  commit-Kept d (err e, s) v = λ c h. absurd (ground (arith, h))
  commit-Kept d (ok rest, s) v = λ c h. v rest refl

  after_write-Kept :
      (undo : Undo) (later : RowDelta N → TableStore → Result (List (RowDelta N)) × TableStore)
      (q : Result (RowDelta N) × TableStore)
      → ((c : RowDelta N) → Kept (later c q.1))
      → Kept (after_write serde undo later q)
  unfolding after_write
  after_write-Kept undo later (err e, s) v = λ c h. absurd (ground (arith, h))
  after_write-Kept undo later (ok d, s) v = commit-Kept d (later d s) (v d)

  take_action-Kept :
      (applied : Undo) (d : RowDelta N) (old : Option StoredRow)
      (later : RowDelta N → TableStore → Result (List (RowDelta N)) × TableStore) (step : Action N)
      (s : TableStore)
      → Indexed serde s
      → ((c : RowDelta N) (after : TableStore) → Indexed serde after → Kept (later c after))
      → Kept (take_action serde applied d old later step s)
  unfolding take_action
  take_action-Kept applied d old later (refuse e) s i v = λ c h. absurd (ground (arith, h))
  take_action-Kept applied d old later (fail e) s i v = λ c h. absurd (ground (arith, h))
  take_action-Kept applied d old later (write value) s i v =
      let q = write_row_unlocked serde d.table_name d.row_key value s in
      after_write-Kept ((d.table_name, (d.row_key, old)) ∷ applied) later q
        (λ c. v c q.1 (write_row-Indexed serde d.table_name d.row_key value s i))
  take_action-Kept applied d old later delete s i v =
      let q = delete_row_unlocked serde d.table_name d.row_key s in
      commit-Kept q.0 (later q.0 q.1)
        (v q.0 q.1 (delete_row-Indexed serde d.table_name d.row_key s i))

  tables-Indexed :
      (s after : TableStore) → after.tables ≡ s.tables → Indexed serde s → Indexed serde after
  tables-Indexed s after h i = rw h i

  apply_deltas-Kept :
      (own : RowDelta N → Bool) (clock : ℕ → ℕ) (n : ℕ) (applied : Undo)
      (deltas : List (RowDelta N)) (s : TableStore)
      → Indexed serde s
      → Kept (apply_deltas serde own clock n applied deltas s)
  unfolding apply_deltas
  apply_deltas-Kept own clock n applied [] s i = λ c h. i
  apply_deltas-Kept own clock n applied (delta ∷ deltas) s i = elim (Bool-cases (own delta)) [
    | inr o ↦ rw (o, apply_deltas) (apply_deltas-Kept own clock (suc n) applied deltas s i)
    | inl o ↦
        rw (o, apply_deltas)
          (let q = action serde delta.operation delta s in
            let old = row_at delta.table_name delta.row_key s in
            let undo : Undo = (delta.table_name, (delta.row_key, old)) ∷ applied in
            take_action-Kept applied delta old
              (λ committed after.
                apply_deltas serde own clock (suc n) undo deltas (track (clock n) committed after))
              q.0 q.1 (tables-Indexed s q.1 (action-tables serde delta.operation delta s) i)
              (λ committed after j.
                let tracked = track (clock n) committed after in
                apply_deltas-Kept own clock (suc n) undo deltas tracked
                  (tables-Indexed after tracked (track-tables (clock n) committed after) j)))
  ]

  -- A batch that succeeds where nothing is evicted.
  batch-Indexed :
      (clock : ℕ → ℕ) (deltas : List (RowDelta N)) (reads : ReadVersions) (s : TableStore)
      (c : List (RowDelta N))
      → s.eviction_policy ≡ no_eviction
      → (apply_delta_batch serde clock deltas reads s).0 ≡ ok c
      → Indexed serde s
      → Indexed serde (apply_delta_batch serde clock deltas reads s).1
  unfolding apply_delta_batch
  batch-Indexed clock [] reads s c p h i = i
  batch-Indexed clock (delta ∷ deltas) reads s c p h i =
      let all = delta ∷ deltas in
      let opened = open_tables (lock_keys s all) s in
      let (v, (r, after)) = succeeded serde clock all reads s c (λ e. ground (arith, e)) p h in
      rw after (
        apply_deltas-Kept (own_delta s) clock 0 [] all opened
          (open_tables-Indexed serde (lock_keys s all) s i) c r)

  -- The stores that the operations reach; a batch counts when it succeeds and nothing is evicted.
  pub data Reached : TableStore → Type 0 where
    start : (policy : EvictionPolicy) (blobs : BlobStore) → Reached (with_eviction policy blobs)
    sharded : (shard count : ℕ) (s : TableStore) → Reached s → Reached (set_shard shard count s)
    wrote :
        (name key : Bytes) (value : Value N) (s : TableStore)
        → Reached s
        → Reached (write_row_unlocked serde name key value s).1
    deleted :
        (name key : Bytes) (s : TableStore)
        → Reached s
        → Reached (delete_row_unlocked serde name key s).1
    indexed : (name f : Bytes) (s : TableStore) → Reached s → Reached (create_index serde name f s)
    sorted :
        (name f : Bytes) (s : TableStore) → Reached s → Reached (create_sorted_index serde name f s)
    dropped : (name f : Bytes) (s : TableStore) → Reached s → Reached (drop_index name f s)
    batched :
        (clock : ℕ → ℕ) (deltas : List (RowDelta N)) (reads : ReadVersions) (s : TableStore)
        (c : List (RowDelta N))
        → s.eviction_policy ≡ no_eviction
        → (apply_delta_batch serde clock deltas reads s).0 ≡ ok c
        → Reached s
        → Reached (apply_delta_batch serde clock deltas reads s).1

  pub Reached-Indexed : (s : TableStore) → Reached s → Indexed serde s
  unfolding with_eviction set_shard lookup
  Reached-Indexed _ (start policy blobs) = λ name table h. absurd (ground (arith, h))
  Reached-Indexed _ (sharded shard count s r) = Reached-Indexed s r
  Reached-Indexed _ (wrote name key value s r) =
      write_row-Indexed serde name key value s (Reached-Indexed s r)
  Reached-Indexed _ (deleted name key s r) =
      delete_row-Indexed serde name key s (Reached-Indexed s r)
  Reached-Indexed _ (indexed name f s r) = create_index-Indexed serde name f s (Reached-Indexed s r)
  Reached-Indexed _ (sorted name f s r) =
      create_sorted_index-Indexed serde name f s (Reached-Indexed s r)
  Reached-Indexed _ (dropped name f s r) = drop_index-Indexed serde name f s (Reached-Indexed s r)
  Reached-Indexed _ (batched clock deltas reads s c p h r) =
      batch-Indexed clock deltas reads s c p h (Reached-Indexed s r)

  -- Whether a row has the text of a value in a field: what a scan asks.
  abbrev pub row_matches : Bytes → Value N → Option StoredRow → Bool
  row_matches f value row = elim (value_to_index_key serde value) [
    | none ↦ false
    | some text ↦ elim (index_text serde f (old_value serde row)) [
      | none ↦ false
      | some found ↦ found == text
    ]
  ]

  pub has-row_matches :
      (f : Bytes) (value : Value N) (text : Bytes) (row : Option StoredRow)
      → value_to_index_key serde value ≡ some text
      → has serde f text (old_value serde row) ≡ row_matches f value row
  unfolding has
  has-row_matches f value text row g =
      ground (arith, g, Option-cases (index_text serde f (old_value serde row)))

  pub index_lookup-scan :
      (s : TableStore) (name f : Bytes) (value : Value N) (keys : List Bytes) (key : Bytes)
      → Reached s
      → index_lookup serde name f value s ≡ some keys
      → any (λ j. j == key) keys ≡ row_matches f value (row_at name key s)
  unfolding index_lookup index_keys member
  index_lookup-scan s name f value keys key r h = elim (Option-cases (lookup name s.tables)) [
    | inl e ↦ absurd (ground (arith, e, h))
    | inr (table, e) ↦ elim (Option-cases (lookup f table.field_indexes)) [
      | inl d ↦ absurd (ground (arith, e, d, h))
      | inr (idx, d) ↦ elim (Option-cases (value_to_index_key serde value)) [
        | inl g ↦ absurd (ground (arith, e, d, g, h))
        | inr (text, g) ↦
            let agreed = (Reached-Indexed s r name table e).agrees f idx d text key in
            let given : keys ≡ index_keys text idx = ground (arith, e, d, g, h) in
            let row : row_at name key s ≡ lookup key table.rows = ground (arith, e) in
            rw (given, row)
              (any-keys key (bucket (lookup text idx))
                ∙ agreed
                ∙ has-row_matches f value text (lookup key table.rows) g)
      ]
    ]
  ]
