-- ===== src/Table/Batch/Rollback.antt =====
-- A batch that fails after its first write puts every row back.
use voltra.Prelude.{
  ℕ, suc, ◌≡◌, refl, sym, ◌∙◌, Bool, true, false, not, ◌||◌, Option, none, some, List, [], ◌∷◌,
  arith, is_some, All, if◌then◌else◌, ◌==◌, Eq-nat, Eq-list, list_eq_iff, Option-cases, Bool-cases,
  inl, inr,
}
use voltra.Prelude.Map.{Map, lookup, lookup-insert, lookup-remove}
use voltra.Table.Value.{Bytes, Serde}
use voltra.Table.Store.{
  StoredRow, RowDelta, TableError, Result, ok, err, TableStore, get_or_create_table,
}
use voltra.Table.Rows.{row_at, write_row_unlocked, delete_row_unlocked}
use voltra.Table.Rows.Changes.{
  is_row, Touches, Keeps, put_table-row, put_table-present, opened-Keeps, same-Keeps, Keeps-trans,
  write_row-Touches, delete_row-Touches,
}
use voltra.Table.Eviction.{with_rows}
use voltra.Table.Batch.{
  Undo, Action, refuse, fail, write, delete, restore_row, rollback, own_delta, track, action,
  is_refusal, after_write, take_action, apply_deltas, commit, ReadVersions, lock_keys, open_tables,
  validate, apply_delta_batch,
}
use voltra.Table.Batch.Cases.{Result-cases, track-tables, action-tables, action-refusal}

-- What a rollback leaves of a row.
undo_at : Bytes → Bytes → Undo → Option StoredRow → Option StoredRow
undo_at t k [] row = row
undo_at t k ((name, (key, old)) ∷ applied) row =
    undo_at t k applied (if is_row name key t k then old else row)

-- A row that is put back has its table.
abbrev HasTable : TableStore → Bytes × (Bytes × Option StoredRow) → Type 0
HasTable s u = (is_some (lookup u.0 s.tables) || not (is_some u.1.1)) ≡ true

lookup-restore :
    (key k : Bytes) (old : Option StoredRow) (rows : Map Bytes StoredRow)
    → lookup k (restore_row key old rows) ≡ (if key == k then old else lookup k rows)
lookup-restore key k none rows = lookup-remove key k rows
lookup-restore key k (some row) rows = lookup-insert key k row rows

with_rows-row :
    (name key t k : Bytes) (old : Option StoredRow) (s : TableStore)
    → HasTable s (name, (key, old))
    → row_at t k (with_rows (restore_row key old) name s)
      ≡ (if is_row name key t k then old else row_at t k s)
unfolding lookup
with_rows-row name key t k old s h = elim (Option-cases (lookup name s.tables)) [
  | inl e ↦ elim (Bool-cases (is_row name key t k)) [
    | inl f ↦ ground (arith, e, f, h, list_eq_iff name t)
    | inr f ↦ ground (arith, e, f)
  ]
  | inr (table, e) ↦ ground (
    arith,
    e,
    list_eq_iff name t,
    put_table-row name (record table { rows = restore_row key old table.rows }) t k s,
    lookup-restore key k old table.rows,
  )
]

with_rows-present :
    (name key : Bytes) (old : Option StoredRow) (t : Bytes) (s : TableStore)
    → is_some (lookup t s.tables) ≡ true
    → is_some (lookup t (with_rows (restore_row key old) name s).tables) ≡ true
with_rows-present name key old t s h = elim (Option-cases (lookup name s.tables)) [
  | inl e ↦ rw (e, with_rows) h
  | inr (table, e) ↦
      rw (e, with_rows)
        (put_table-present name (record table { rows = restore_row key old table.rows }) t s h)
]

-- A rollback of `applied` gives the rows of `base` back.
record Undoes (applied : Undo) (s base : TableStore) : Type 0 where
  restores : (t k : Bytes) → undo_at t k applied (row_at t k s) ≡ row_at t k base
  tables : All (HasTable s) applied

HasTable-mono :
    (applied : Undo) (s after : TableStore)
    → ((t : Bytes) → is_some (lookup t s.tables) ≡ true → is_some (lookup t after.tables) ≡ true)
    → All (HasTable s) applied
    → All (HasTable after) applied
HasTable-mono [] s after p h = tt
HasTable-mono ((name, (key, old)) ∷ applied) s after p h =
    (ground (arith, p name, h.0), HasTable-mono applied s after p h.1)

rollback-row :
    (applied : Undo) (s : TableStore) (t k : Bytes)
    → All (HasTable s) applied
    → row_at t k (rollback applied s) ≡ undo_at t k applied (row_at t k s)
unfolding rollback undo_at
rollback-row [] s t k h = refl
rollback-row ((name, (key, old)) ∷ applied) s t k h =
    let after = with_rows (restore_row key old) name s in
    rollback-row applied after t k
      (HasTable-mono applied s after (λ u p. with_rows-present name key old u s p) h.1)
    ∙ rw (with_rows-row name key t k old s h.0) refl

Undoes-kept :
    (applied : Undo) (s after base : TableStore)
    → Undoes applied s base
    → Keeps s after
    → Undoes applied after base
Undoes-kept applied s after base u k = record {
  restores = λ t j. rw (k.same t j) (u.restores t j);
  tables = HasTable-mono applied s after k.present u.tables;
}

has_row :
    (name key : Bytes) (s after : TableStore)
    → (is_some (lookup name s.tables) ≡ true → is_some (lookup name after.tables) ≡ true)
    → HasTable after (name, (key, row_at name key s))
unfolding lookup
has_row name key s after p = elim (Option-cases (lookup name s.tables)) [
  | inl e ↦ ground (arith, e)
  | inr (table, e) ↦ ground (arith, e, p (ground (arith, e)))
]

Undoes-touched :
    (applied : Undo) (name key : Bytes) (old : Option StoredRow) (s after base : TableStore)
    → old ≡ row_at name key s
    → Undoes applied s base
    → Touches name key s after
    → Undoes ((name, (key, old)) ∷ applied) after base
unfolding undo_at
Undoes-touched applied name key old s after base o u c = record {
  restores = λ t k. elim (Bool-cases (is_row name key t k)) [
    | inl e ↦
        let n : name ≡ t = ground (arith, e, list_eq_iff name t) in
        let j : key ≡ k = ground (arith, e, list_eq_iff key k) in rw (e, o, n, j) (u.restores t k)
    | inr e ↦ rw (e, c.elsewhere t k e) (u.restores t k)
  ];
  tables = (
    rw o (has_row name key s after (c.present name)),
    HasTable-mono applied s after c.present u.tables,
  );
}

module _ {N : Type 0} (serde : Serde N) where
  -- A failure that is not refused has the rows of `base`.
  abbrev Restored : TableStore → TableError → Result (List (RowDelta N)) × TableStore → Type 0
  Restored base e q = q.0 ≡ err e → (t k : Bytes) → row_at t k q.1 ≡ row_at t k base

  commit-Restored :
      (c : RowDelta N) (base : TableStore) (e : TableError)
      (q : Result (List (RowDelta N)) × TableStore)
      → Restored base e q
      → Restored base e (commit c q)
  commit-Restored c base e (err d, s) r = r
  commit-Restored c base e (ok rest, s) r = λ h. absurd (ground (arith, h))

  after_write-Restored :
      (undo : Undo) (later : RowDelta N → TableStore → Result (List (RowDelta N)) × TableStore)
      (base : TableStore) (e : TableError) (q : Result (RowDelta N) × TableStore)
      → Undoes undo q.1 base
      → ((c : RowDelta N) → Restored base e (later c q.1))
      → Restored base e (after_write serde undo later q)
  unfolding after_write
  after_write-Restored undo later base e (err d, s) u r =
      λ h t k. rollback-row undo s t k u.tables ∙ u.restores t k
  after_write-Restored undo later base e (ok c, s) u r = commit-Restored c base e (later c s) (r c)

  take_action-Restored :
      (applied : Undo) (delta : RowDelta N) (old : Option StoredRow)
      (later : RowDelta N → TableStore → Result (List (RowDelta N)) × TableStore)
      (base : TableStore) (e : TableError) (step : Action N) (s : TableStore)
      → old ≡ row_at delta.table_name delta.row_key s
      → Undoes applied s base
      → ((d : TableError) → step ≡ refuse d → is_refusal d ≡ true)
      → is_refusal e ≡ false
      → ((c : RowDelta N) (after : TableStore)
          → Undoes ((delta.table_name, (delta.row_key, old)) ∷ applied) after base
          → Restored base e (later c after))
      → Restored base e (take_action serde applied delta old later step s)
  unfolding take_action
  take_action-Restored applied delta old later base e (refuse d) s o u f n r =
      λ h t k. absurd (ground (arith, h, f d refl, n))
  take_action-Restored applied delta old later base e (fail d) s o u f n r =
      λ h t k. rollback-row applied s t k u.tables ∙ u.restores t k
  take_action-Restored applied delta old later base e (write value) s o u f n r =
      let q = write_row_unlocked serde delta.table_name delta.row_key value s in
      let undone =
        Undoes-touched applied delta.table_name delta.row_key old s q.1 base o u
          (write_row-Touches serde delta.table_name delta.row_key value s) in
      after_write-Restored ((delta.table_name, (delta.row_key, old)) ∷ applied) later base e q
        undone (λ c. r c q.1 undone)
  take_action-Restored applied delta old later base e delete s o u f n r =
      let q = delete_row_unlocked serde delta.table_name delta.row_key s in
      commit-Restored q.0 base e (later q.0 q.1) (
        r q.0 q.1 (
          Undoes-touched applied delta.table_name delta.row_key old s q.1 base o u
            (delete_row-Touches serde delta.table_name delta.row_key s)))

  apply_deltas-Restored :
      (own : RowDelta N → Bool) (clock : ℕ → ℕ) (i : ℕ) (applied : Undo)
      (deltas : List (RowDelta N)) (s base : TableStore) (e : TableError)
      → Undoes applied s base
      → is_refusal e ≡ false
      → Restored base e (apply_deltas serde own clock i applied deltas s)
  unfolding apply_deltas
  apply_deltas-Restored own clock i applied [] s base e u n = λ h. absurd (ground (arith, h))
  apply_deltas-Restored own clock i applied (delta ∷ deltas) s base e u n =
      elim (Bool-cases (own delta)) [
        | inr o ↦
            rw (o, apply_deltas)
              (apply_deltas-Restored own clock (suc i) applied deltas s base e u n)
        | inl o ↦
            rw (o, apply_deltas)
              (let q = action serde delta.operation delta s in
                let kept = same-Keeps s q.1 (action-tables serde delta.operation delta s) in
                let old = row_at delta.table_name delta.row_key s in
                take_action-Restored applied delta old
                  (λ c after.
                    apply_deltas serde own clock (suc i)
                      ((delta.table_name, (delta.row_key, old)) ∷ applied) deltas
                      (track (clock i) c after))
                  base e q.0 q.1 (sym (kept.same delta.table_name delta.row_key))
                  (Undoes-kept applied s q.1 base u kept)
                  (λ d. action-refusal serde delta.operation delta s d) n
                  (λ c after v.
                    apply_deltas-Restored own clock (suc i)
                      ((delta.table_name, (delta.row_key, old)) ∷ applied) deltas
                      (track (clock i) c after) base e
                      (Undoes-kept ((delta.table_name, (delta.row_key, old)) ∷ applied) after
                        (track (clock i) c after) base v
                        (same-Keeps after (track (clock i) c after)
                          (track-tables (clock i) c after)))
                      n))
      ]

pub open_tables-Keeps :
    (keys : List (Bytes × Bytes)) (s : TableStore) → Keeps s (open_tables keys s)
unfolding open_tables
open_tables-Keeps [] s = record { same = λ t k. refl; present = λ t p. p }
open_tables-Keeps (key ∷ keys) s =
    let opened = (get_or_create_table key.0 s).1 in
    Keeps-trans s opened (open_tables keys opened) (opened-Keeps key.0 s)
      (open_tables-Keeps keys opened)

-- A batch that fails leaves every row of every table as it was, whether the versions that it read were
-- stale or one of its writes failed after others were made, unless the error is one of those that
-- `is_refusal` names.
pub apply_delta_batch-restores :
    {N : Type 0} (serde : Serde N) (clock : ℕ → ℕ) (deltas : List (RowDelta N))
    (reads : ReadVersions) (s : TableStore) (e : TableError) (t k : Bytes)
    → (apply_delta_batch serde clock deltas reads s).0 ≡ err e
    → is_refusal e ≡ false
    → row_at t k (apply_delta_batch serde clock deltas reads s).1 ≡ row_at t k s
unfolding apply_delta_batch undo_at
apply_delta_batch-restores serde clock [] reads s e t k h n = refl
apply_delta_batch-restores serde clock (delta ∷ deltas) reads s e t k h n =
    let keys = lock_keys s (delta ∷ deltas) in
    let opened = open_tables keys s in
    let kept = open_tables-Keeps keys s in
    let q = apply_deltas serde (own_delta s) clock 0 [] (delta ∷ deltas) opened in
    elim (Bool-cases (validate reads keys opened)) [
      | inr v ↦ rw (v, apply_delta_batch) (kept.same t k)
      | inl v ↦ elim (Result-cases q.0) [
        | inr (committed, r) ↦ absurd (ground (arith, v, r, h))
        | inl (d, r) ↦
            rw (v, r, apply_delta_batch)
              (apply_deltas-Restored serde (own_delta s) clock 0 [] (delta ∷ deltas) opened s e
                (record { restores = λ t k. kept.same t k; tables = tt }) n
                (ground (arith, v, r, h)) t k)
      ]
    ]
