-- ===== src/Table/Rows/Changes.antt =====
-- A write or a delete of one row leaves the other rows and keeps the tables.
use voltra.Prelude.{
  ℕ, ◌+◌, ◌%◌, ◌^◌, ◌≡◌, refl, sym, ◌∙◌, Bool, true, false, ◌&&◌, Option, none, some, arith,
  is_some, if◌then◌else◌, ◌==◌, Eq-nat, Eq-list, list_eq_iff, Option-cases, Bool-cases, inl, inr,
  eq_refl,
}
use voltra.Prelude.Map.{Map, lookup, insert, remove, lookup-insert, lookup-remove}
use voltra.Table.Value.{Bytes, Value, Serde, encode_row}
use voltra.Table.Store.{
  StoredRow, Table, Operation, RowDelta, TableStore, Result, ok, err, new_table,
  get_or_create_table, prepare_value,
}
use voltra.Table.Rows.{
  put_table, row_at, row_identity, change_row, store_value, write_row_unlocked, delete_row_unlocked,
  row_version,
}

abbrev pub is_row : Bytes → Bytes → Bytes → Bytes → Bool
is_row name key t k = name == t && key == k

-- Nothing but the row `key` of the table `name` has changed, and no table is gone.
pub record Touches (name key : Bytes) (s after : TableStore) : Type 0 where
  pub elsewhere : (t k : Bytes) → is_row name key t k ≡ false → row_at t k after ≡ row_at t k s
  pub present :
      (t : Bytes) → is_some (lookup t s.tables) ≡ true → is_some (lookup t after.tables) ≡ true

-- No row has changed, and no table is gone.
pub record Keeps (s after : TableStore) : Type 0 where
  pub same : (t k : Bytes) → row_at t k after ≡ row_at t k s
  pub present :
      (t : Bytes) → is_some (lookup t s.tables) ≡ true → is_some (lookup t after.tables) ≡ true

pub put_table-row :
    (name : Bytes) (table : Table) (t k : Bytes) (s : TableStore)
    → row_at t k (put_table name table s)
      ≡ (if name == t then lookup k table.rows else row_at t k s)
put_table-row name table t k s =
    ground (arith, lookup-insert name t table s.tables, list_eq_iff name t)

pub put_table-present :
    (name : Bytes) (table : Table) (t : Bytes) (s : TableStore)
    → is_some (lookup t s.tables) ≡ true
    → is_some (lookup t (put_table name table s).tables) ≡ true
put_table-present name table t s h =
    ground (arith, lookup-insert name t table s.tables, list_eq_iff name t, h)

lookup_nothing : (k : Bytes) → lookup k new_table.rows ≡ none
unfolding lookup
lookup_nothing k = refl

pub opened-Keeps : (name : Bytes) (s : TableStore) → Keeps s (get_or_create_table name s).1
unfolding get_or_create_table
opened-Keeps name s = elim (Option-cases (lookup name s.tables)) [
  | inr (table, e) ↦ rw (e, get_or_create_table) (record { same = λ t k. refl; present = λ t h. h })
  | inl e ↦
      rw (e, get_or_create_table)
        (record {
          same = λ t k. elim (Bool-cases (name == t)) [
            | inl f ↦ ground (
              arith,
              e,
              f,
              (list_eq_iff name t).0 f,
              put_table-row name new_table t k s,
              lookup_nothing k,
            )
            | inr f ↦ ground (arith, f, put_table-row name new_table t k s)
          ];
          present = λ t h. put_table-present name new_table t s h;
        })
]

-- The table that is opened has the rows that stand under its name.
pub opened-rows :
    (name k : Bytes) (s : TableStore)
    → lookup k (get_or_create_table name s).0.rows ≡ row_at name k s
unfolding get_or_create_table
opened-rows name k s = ground (arith, Option-cases (lookup name s.tables))

put_changed-Touches :
    (name key : Bytes) (table : Table) (s : TableStore)
    → ((k : Bytes) → (key == k) ≡ false → lookup k table.rows ≡ row_at name k s)
    → Touches name key s (put_table name table s)
put_changed-Touches name key table s h = record {
  elsewhere = λ t k o. elim (Bool-cases (key == k)) [
    | inl same ↦ ground (arith, o, same, put_table-row name table t k s)
    | inr other ↦ ground (arith, o, h k other, put_table-row name table t k s, list_eq_iff name t)
  ];
  present = λ t p. put_table-present name table t s p;
}

insert_elsewhere :
    (key k : Bytes) (row : StoredRow) (rows : Map Bytes StoredRow)
    → (key == k) ≡ false
    → lookup k (insert key row rows) ≡ lookup k rows
insert_elsewhere key k row rows o = ground (arith, o, lookup-insert key k row rows)

remove_elsewhere :
    (key k : Bytes) (rows : Map Bytes StoredRow)
    → (key == k) ≡ false
    → lookup k (remove key rows) ≡ lookup k rows
remove_elsewhere key k rows o = ground (arith, o, lookup-remove key k rows)

pub same-Keeps : (s after : TableStore) → after.tables ≡ s.tables → Keeps s after
same-Keeps s after h = record { same = λ t k. rw h refl; present = λ t p. rw h p }

pub Keeps-trans : (s m after : TableStore) → Keeps s m → Keeps m after → Keeps s after
Keeps-trans s m after a b = record {
  same = λ t k. b.same t k ∙ a.same t k;
  present = λ t p. b.present t (a.present t p);
}

pub Keeps-Touches :
    (name key : Bytes) (s m after : TableStore)
    → Keeps s m
    → Touches name key m after
    → Touches name key s after
Keeps-Touches name key s m after a b = record {
  elsewhere = λ t k o. b.elsewhere t k o ∙ a.same t k;
  present = λ t p. b.present t (a.present t p);
}

pub identity-tables :
    (existing : Option StoredRow) (s : TableStore) → (row_identity existing s).1.tables ≡ s.tables
identity-tables none s = refl
identity-tables (some row) s = refl

insert_here :
    (key : Bytes) (row : StoredRow) (rows : Map Bytes StoredRow)
    → lookup key (insert key row rows) ≡ some row
insert_here key row rows = ground (arith, lookup-insert key key row rows, eq_refl key)

put_table-version :
    (name key : Bytes) (table : Table) (row : StoredRow) (s : TableStore)
    → lookup key table.rows ≡ some row
    → row_version name key (put_table name table s) ≡ row.version
unfolding row_version
put_table-version name key table row s h =
    ground (arith, h, put_table-row name table name key s, eq_refl name)

module _ {N : Type 0} (serde : Serde N) where
  pub store_value-Touches :
      (name key : Bytes) (table : Table) (identity : Operation × (ℕ × ℕ))
      (prepared : Result (Value N × Option ℕ)) (s : TableStore)
      → ((k : Bytes) → lookup k table.rows ≡ row_at name k s)
      → Touches name key s (store_value serde name key table identity prepared s).1
  unfolding store_value change_row
  store_value-Touches name key table identity (err e) s h = record {
    elsewhere = λ t k o. refl;
    present = λ t p. p;
  }
  store_value-Touches name key table (operation, (row_id, version)) (ok (final, offset)) s h =
      elim (Option-cases (encode_row serde final)) [
        | inl e ↦ rw (e, store_value) (record { elsewhere = λ t k o. refl; present = λ t p. p })
        | inr (bytes, e) ↦
            rw (e, store_value)
              (put_changed-Touches name key _ s
                (λ k o. insert_elsewhere key k _ table.rows o ∙ h k))
      ]

  -- The table and the store that `write_row_unlocked` stores into.
  abbrev pub ready : Bytes → Bytes → Value N → TableStore → TableStore
  ready name key value s =
      let q = get_or_create_table name s in
      (prepare_value serde name key value (row_identity (lookup key q.0.rows) q.1).1).1

  prepared-tables :
      (name key : Bytes) (value : Value N) (s : TableStore)
      → (prepare_value serde name key value s).1.tables ≡ s.tables
  unfolding prepare_value
  prepared-tables name key value s = refl

  pub ready-Keeps :
      (name key : Bytes) (value : Value N) (s : TableStore) → Keeps s (ready name key value s)
  ready-Keeps name key value s =
      let q = get_or_create_table name s in
      let named = (row_identity (lookup key q.0.rows) q.1).1 in
      Keeps-trans s q.1 (ready name key value s) (opened-Keeps name s) (
        same-Keeps q.1 (ready name key value s)
          (prepared-tables name key value named ∙ identity-tables (lookup key q.0.rows) q.1))

  pub write_row-Touches :
      (name key : Bytes) (value : Value N) (s : TableStore)
      → Touches name key s (write_row_unlocked serde name key value s).1
  unfolding write_row_unlocked
  write_row-Touches name key value s =
      let keeps = ready-Keeps name key value s in
      let q = get_or_create_table name s in
      let named = row_identity (lookup key q.0.rows) q.1 in
      Keeps-Touches name key s (ready name key value s)
        (write_row_unlocked serde name key value s).1 keeps
        (store_value-Touches name key q.0 named.0 (prepare_value serde name key value named.1).0
          (ready name key value s) (λ k. opened-rows name k s ∙ sym (keeps.same name k)))

  pub delete_row-Touches :
      (name key : Bytes) (s : TableStore)
      → Touches name key s (delete_row_unlocked serde name key s).1
  unfolding delete_row_unlocked change_row
  delete_row-Touches name key s = elim (Option-cases (lookup name s.tables)) [
    | inl e ↦ rw (e, delete_row_unlocked) (record { elsewhere = λ t k o. refl; present = λ t p. p })
    | inr (t, e) ↦
        rw (e, delete_row_unlocked)
          (put_changed-Touches name key _ s
            (λ k o. remove_elsewhere key k t.rows o ∙ ground (arith, e)))
  ]

  store_value-version :
      (name key : Bytes) (table : Table) (operation : Operation) (row_id version : ℕ)
      (prepared : Result (Value N × Option ℕ)) (s : TableStore) (d : RowDelta N)
      → (store_value serde name key table (operation, (row_id, version)) prepared s).0 ≡ ok d
      → row_version name key
          (store_value serde name key table (operation, (row_id, version)) prepared s).1
        ≡ version
  unfolding store_value row_version change_row
  store_value-version name key table operation row_id version (err e) s d h =
      absurd (ground (arith, h))
  store_value-version name key table operation row_id version (ok (final, offset)) s d h =
      elim (Option-cases (encode_row serde final)) [
        | inl e ↦ absurd (ground (arith, e, h))
        | inr (bytes, e) ↦
            rw (e, store_value) (put_table-version name key _ _ s (insert_here key _ table.rows))
      ]

  version_of : Option StoredRow → ℕ
  version_of row = elim row [ none ↦ 0 | some r ↦ r.version ]

  identity-version :
      (existing : Option StoredRow) (s : TableStore)
      → (row_identity existing s).0.1.1 ≡ (version_of existing + 1) % 2 ^ 64
  unfolding version_of
  identity-version none s = omega arith
  identity-version (some row) s = refl

  -- A write that succeeds counts the version of its row up by one, from 0 for a row that was not there.
  pub write_row-version :
      (name key : Bytes) (value : Value N) (s : TableStore) (d : RowDelta N)
      → (write_row_unlocked serde name key value s).0 ≡ ok d
      → row_version name key (write_row_unlocked serde name key value s).1
        ≡ (row_version name key s + 1) % 2 ^ 64
  unfolding write_row_unlocked row_version version_of
  write_row-version name key value s d h =
      let q = get_or_create_table name s in
      let named = row_identity (lookup key q.0.rows) q.1 in
      store_value-version name key q.0 named.0.0 named.0.1.0 named.0.1.1
        (prepare_value serde name key value named.1).0 (ready name key value s) d h
      ∙ identity-version (lookup key q.0.rows) q.1
      ∙ rw (opened-rows name key s) refl
