-- ===== src/Table/Rows/Indexes.antt =====
-- What an index has under each text is what the rows have, whatever was done.
use voltra.Prelude.{
  ℕ, ◌≡◌, refl, sym, Bool, false, ◌||◌, Option, none, some, [], ◌∷◌, arith, is_some, if◌then◌else◌,
  ◌==◌, Eq-nat, Eq-list, list_eq_iff, Option-cases, Bool-cases, inl, inr,
}
use voltra.Prelude.Map.{
  Map, lookup, insert, remove, lookup-insert, lookup-remove, Distinct, insert-Distinct,
  remove-Distinct,
}
use voltra.Table.Value.{Bytes, Value, Serde, encode_row, decode_row_bytes, decode_row-encode_row}
use voltra.Table.FieldIndex.{
  FieldIndex, index_insert, index_remove, member, member-insert, member-remove, Tidy, add_text,
  drop_text, add-Tidy, drop-Tidy,
}
use voltra.Table.Store.{
  StoredRow, Table, TableStore, Result, ok, err, new_table, get_or_create_table, index_text,
  Operation, reindex, each, prepare_value,
}
use voltra.Table.Rows.{
  put_table, old_value, row_identity, change_row, store_value, write_row_unlocked,
  delete_row_unlocked, backfill, create_index, create_sorted_index, drop_index,
}

pub lookup-each :
    {I : Type 0} (step : Bytes → I → I) (f : Bytes) (m : Map Bytes I)
    → lookup f (each step m)
      ≡ elim (lookup f m) as (λ _. Option I) [ none ↦ none | some idx ↦ some (step f idx) ]
unfolding each lookup
lookup-each step f [] = refl
lookup-each step f ((g, idx) ∷ m) = ground (arith, list_eq_iff g f, lookup-each step f m)

pub each-some :
    {I : Type 0} (step : Bytes → I → I) (f : Bytes) (m : Map Bytes I) (idx : I)
    → lookup f (each step m) ≡ some idx
    → (i : I) × ((lookup f m ≡ some i) × (idx ≡ step f i))
each-some step f m idx h = elim (Option-cases (lookup f m)) [
  | inl e ↦ absurd (ground (arith, h, e, lookup-each step f m))
  | inr (i, e) ↦ (i, (e, ground (arith, h, e, lookup-each step f m)))
]

module _ {N : Type 0} (serde : Serde N) where
  -- Whether a value has a text in a field.
  unfoldable pub has : Bytes → Bytes → Option (Value N) → Bool
  has f s value = elim (index_text serde f value) [ none ↦ false | some text ↦ text == s ]

  pub member-reindex :
      (f s key j : Bytes) (old new : Option (Value N)) (idx : FieldIndex)
      → member s key idx ≡ has f s old
      → member s j (reindex serde key old new f idx)
        ≡ (if key == j then has f s new else member s j idx)
  unfolding reindex has
  member-reindex f s key j old new idx h = elim (Option-cases (index_text serde f old)) [
    | inl e ↦ elim (Option-cases (index_text serde f new)) [
      | inl d ↦ ground (arith, e, d, h, list_eq_iff key j)
      | inr (t, d) ↦
          ground (arith, e, d, h, list_eq_iff key j, list_eq_iff t s, member-insert t key s j idx)
    ]
    | inr (o, e) ↦ elim (Option-cases (index_text serde f new)) [
      | inl d ↦
          ground (arith, e, d, h, list_eq_iff key j, list_eq_iff o s, member-remove o key s j idx)
      | inr (t, d) ↦ ground (
        arith,
        e,
        d,
        h,
        list_eq_iff key j,
        list_eq_iff t s,
        list_eq_iff o s,
        member-insert t key s j (index_remove o key idx),
        member-remove o key s j idx,
      )
    ]
  ]

  -- The index of a field agrees with the rows.
  abbrev pub Agrees : Bytes → Map Bytes StoredRow → FieldIndex → Type 0
  Agrees f rows idx = (s j : Bytes) → member s j idx ≡ has f s (old_value serde (lookup j rows))

  -- A table: no key has two rows, and the indexes agree with the rows.
  pub record Sound (table : Table) : Type 0 where
    pub distinct : Distinct table.rows
    pub agrees :
        (f : Bytes) (idx : FieldIndex)
        → lookup f table.field_indexes ≡ some idx
        → Agrees f table.rows idx
    pub tidy : (f : Bytes) (idx : FieldIndex) → lookup f table.field_indexes ≡ some idx → Tidy idx

  abbrev pub Indexed : TableStore → Type 0
  Indexed store =
      (name : Bytes) (table : Table) → lookup name store.tables ≡ some table → Sound table

  abbrev Changed : Bytes → Option (Value N) → Map Bytes StoredRow → Map Bytes StoredRow → Type 0
  Changed key new rows later =
      (j : Bytes)
      → old_value serde (lookup j later)
        ≡ (if key == j then new else old_value serde (lookup j rows))

  reindex-Agrees :
      (f key : Bytes) (new : Option (Value N)) (rows later : Map Bytes StoredRow) (idx : FieldIndex)
      → Agrees f rows idx
      → Changed key new rows later
      → Agrees f later (reindex serde key (old_value serde (lookup key rows)) new f idx)
  reindex-Agrees f key new rows later idx a l s j =
      rw (member-reindex f s key j (old_value serde (lookup key rows)) new idx (a s key))
        (rw (l j) (ground (arith, a s j)))

  reindex-Tidy :
      (f key : Bytes) (old new : Option (Value N)) (idx : FieldIndex)
      → Tidy idx
      → Tidy (reindex serde key old new f idx)
  unfolding reindex
  reindex-Tidy f key old new idx h =
      add-Tidy key (index_text serde f new) (drop_text key (index_text serde f old) idx)
        (drop-Tidy key (index_text serde f old) idx h)

  backfill-Tidy :
      (f : Bytes) (rows : Map Bytes StoredRow) (idx : FieldIndex)
      → Tidy idx
      → Tidy (backfill serde f rows idx)
  unfolding backfill
  backfill-Tidy f [] idx h = h
  backfill-Tidy f ((key, row) ∷ rows) idx h =
      let text = index_text serde f (decode_row_bytes serde row.data_bytes) in
      backfill-Tidy f rows (add_text key text idx) (add-Tidy key text idx h)

  change_row-Sound :
      (key : Bytes) (new : Option (Value N)) (later : Map Bytes StoredRow) (table : Table)
      → Sound table
      → Distinct later
      → Changed key new table.rows later
      → Sound (change_row serde key (old_value serde (lookup key table.rows)) new later table)
  unfolding change_row
  change_row-Sound key new later table h d l = record {
    distinct = d;
    agrees = λ f idx e.
        let (i, (there, same)) =
          each-some (reindex serde key (old_value serde (lookup key table.rows)) new) f
            table.field_indexes idx e in
        rw same (reindex-Agrees f key new table.rows later i (h.agrees f i there) l);
    tidy = λ f idx e.
        let old = old_value serde (lookup key table.rows) in
        let (i, (there, same)) =
          each-some (reindex serde key old new) f table.field_indexes idx e in
        rw same (reindex-Tidy f key old new i (h.tidy f i there));
  }

  member-backfill :
      (f s j : Bytes) (rows : Map Bytes StoredRow) (idx : FieldIndex)
      → Distinct rows
      → member s j (backfill serde f rows idx)
        ≡ (has f s (old_value serde (lookup j rows)) || member s j idx)
  unfolding backfill has lookup
  member-backfill f s j [] idx d = refl
  member-backfill f s j ((key, row) ∷ rows) idx d =
      elim (Option-cases (index_text serde f (decode_row_bytes serde row.data_bytes))) [
        | inl e ↦ elim (Bool-cases (key == j)) [
          | inl same ↦
              ground
                (arith, e, same, d, (list_eq_iff key j).0 same, member-backfill f s j rows idx d.1)
          | inr other ↦ ground (arith, e, other, member-backfill f s j rows idx d.1)
        ]
        | inr (text, e) ↦ elim (Bool-cases (key == j)) [
          | inl same ↦ ground (
            arith,
            e,
            same,
            d,
            (list_eq_iff key j).0 same,
            member-backfill f s j rows (index_insert text key idx) d.1,
            member-insert text key s j idx,
          )
          | inr other ↦ ground (
            arith,
            e,
            other,
            member-backfill f s j rows (index_insert text key idx) d.1,
            member-insert text key s j idx,
          )
        ]
      ]

  put_table-Indexed :
      (name : Bytes) (table : Table) (store : TableStore)
      → Indexed store
      → Sound table
      → Indexed (put_table name table store)
  put_table-Indexed name table store h s n t e = elim (Bool-cases (name == n)) [
    | inl same ↦
        let found : t ≡ table = ground (arith, e, same, lookup-insert name n table store.tables) in
        rw found s
    | inr other ↦ h n t (ground (arith, e, other, lookup-insert name n table store.tables))
  ]

  new_table-Sound : Sound new_table
  unfolding lookup
  new_table-Sound = record {
    distinct = tt;
    agrees = λ f idx e. absurd (ground (arith, e));
    tidy = λ f idx e. absurd (ground (arith, e));
  }

  pub opened-Indexed :
      (name : Bytes) (store : TableStore)
      → Indexed store
      → let q = get_or_create_table name store in Sound q.0 × Indexed q.1
  unfolding get_or_create_table
  opened-Indexed name store h = elim (Option-cases (lookup name store.tables)) [
    | inl e ↦
        rw (e, get_or_create_table)
          (new_table-Sound, put_table-Indexed name new_table store h new_table-Sound)
    | inr (t, e) ↦ rw (e, get_or_create_table) (h name t e, h)
  ]

  inserted-Changed :
      (key : Bytes) (stored : StoredRow) (final : Value N) (rows : Map Bytes StoredRow)
      → decode_row_bytes serde stored.data_bytes ≡ some final
      → Changed key (some final) rows (insert key stored rows)
  inserted-Changed key stored final rows h j =
      ground (arith, h, lookup-insert key j stored rows, list_eq_iff key j)

  removed-Changed :
      (key : Bytes) (rows : Map Bytes StoredRow) → Changed key none rows (remove key rows)
  removed-Changed key rows j = ground (arith, lookup-remove key j rows, list_eq_iff key j)

  named-Indexed :
      (existing : Option StoredRow) (store : TableStore)
      → Indexed store
      → Indexed (row_identity existing store).1
  named-Indexed none store h = h
  named-Indexed (some row) store h = h

  prepared-Indexed :
      (name key : Bytes) (value : Value N) (store : TableStore)
      → Indexed store
      → Indexed (prepare_value serde name key value store).1
  unfolding prepare_value
  prepared-Indexed name key value store h = h

  store_value-Indexed :
      (name key : Bytes) (table : Table) (identity : Operation × (ℕ × ℕ))
      (prepared : Result (Value N × Option ℕ)) (store : TableStore)
      → Sound table
      → Indexed store
      → Indexed (store_value serde name key table identity prepared store).1
  unfolding store_value
  store_value-Indexed name key table identity (err e) store s h = h
  store_value-Indexed name key table (operation, (row_id, version)) (ok (final, offset)) store s h =
      elim (Option-cases (encode_row serde final)) [
        | inl e ↦ rw (e, store_value) h
        | inr (bytes, e) ↦
            rw (e, store_value)
              (put_table-Indexed name _ store h (
                change_row-Sound key (some final) (insert key _ table.rows) table s
                  (insert-Distinct key _ table.rows s.distinct)
                  (inserted-Changed key _ final table.rows
                    (decode_row-encode_row serde final bytes e))))
      ]

  pub write_row-Indexed :
      (name key : Bytes) (value : Value N) (store : TableStore)
      → Indexed store
      → Indexed (write_row_unlocked serde name key value store).1
  unfolding write_row_unlocked
  write_row-Indexed name key value store h =
      let q = get_or_create_table name store in
      let (s, i) = opened-Indexed name store h in
      let named = row_identity (lookup key q.0.rows) q.1 in
      store_value-Indexed name key q.0 _ _ _ s
        (prepared-Indexed name key value named.1 (named-Indexed (lookup key q.0.rows) q.1 i))

  pub delete_row-Indexed :
      (name key : Bytes) (store : TableStore)
      → Indexed store
      → Indexed (delete_row_unlocked serde name key store).1
  unfolding delete_row_unlocked
  delete_row-Indexed name key store h = elim (Option-cases (lookup name store.tables)) [
    | inl e ↦ rw (e, delete_row_unlocked) h
    | inr (t, e) ↦
        rw (e, delete_row_unlocked)
          (put_table-Indexed name _ store h (
            change_row-Sound key none (remove key t.rows) t (h name t e)
              (remove-Distinct key t.rows (h name t e).distinct) (removed-Changed key t.rows)))
  ]

  indexed-Sound :
      (f : Bytes) (table : Table)
      → Sound table
      → Sound (record table {
        field_indexes = insert f (backfill serde f table.rows []) table.field_indexes;
      })
  unfolding member lookup
  indexed-Sound f table s = record {
    distinct = s.distinct;
    agrees = λ g idx e.
        let fresh = backfill serde f table.rows [] in
        elim (Bool-cases (f == g)) [
          | inl same ↦
              let built : idx ≡ fresh =
                ground (arith, e, same, lookup-insert f g fresh table.field_indexes) in
              let field : f ≡ g = (list_eq_iff f g).0 same in
              rw (built, sym field)
                (λ t j. ground (arith, member-backfill f t j table.rows [] s.distinct))
          | inr other ↦
              s.agrees g idx (ground (arith, e, other, lookup-insert f g fresh table.field_indexes))
        ];
    tidy = λ g idx e.
        let fresh = backfill serde f table.rows [] in
        elim (Bool-cases (f == g)) [
          | inl same ↦
              let built : idx ≡ fresh =
                ground (arith, e, same, lookup-insert f g fresh table.field_indexes) in
              rw built (backfill-Tidy f table.rows [] (λ t. tt))
          | inr other ↦
              s.tidy g idx (ground (arith, e, other, lookup-insert f g fresh table.field_indexes))
        ];
  }

  pub create_index-Indexed :
      (name f : Bytes) (store : TableStore)
      → Indexed store
      → Indexed (create_index serde name f store)
  unfolding create_index
  create_index-Indexed name f store h =
      let (table, opened) = get_or_create_table name store in
      let (s, i) = opened-Indexed name store h in
      elim (Bool-cases (is_some (lookup f table.field_indexes))) [
        | inl e ↦ rw (e, create_index) i
        | inr e ↦ rw (e, create_index) (put_table-Indexed name _ opened i (indexed-Sound f table s))
      ]

  pub create_sorted_index-Indexed :
      (name f : Bytes) (store : TableStore)
      → Indexed store
      → Indexed (create_sorted_index serde name f store)
  unfolding create_sorted_index
  create_sorted_index-Indexed name f store h =
      let (table, opened) = get_or_create_table name store in
      let (s, i) = opened-Indexed name store h in
      elim (Bool-cases (is_some (lookup f table.sorted_indexes))) [
        | inl e ↦ rw (e, create_sorted_index) i
        | inr e ↦
            rw (e, create_sorted_index)
              (put_table-Indexed name _ opened i
                (record { distinct = s.distinct; agrees = s.agrees; tidy = s.tidy }))
      ]

  pub drop_index-Indexed :
      (name f : Bytes) (store : TableStore) → Indexed store → Indexed (drop_index name f store)
  unfolding drop_index
  drop_index-Indexed name f store h = elim (Option-cases (lookup name store.tables)) [
    | inl e ↦ rw (e, drop_index) h
    | inr (t, e) ↦
        rw (e, drop_index)
          (put_table-Indexed name _ store h (record {
            distinct = (h name t e).distinct;
            agrees = λ g idx d.
                (h name t e).agrees g idx (ground (arith, d, lookup-remove f g t.field_indexes));
            tidy = λ g idx d.
                (h name t e).tidy g idx (ground (arith, d, lookup-remove f g t.field_indexes));
          }))
  ]
